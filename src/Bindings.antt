-- ===== src/Bindings.antt =====
-- Input references of plan steps: app/orchestration/artifact_bindings.py. `ValueError` is the one
-- exception of this module; the resolver of the owning domain is a parameter.
pub mod Laws
mod Tests
use dotori.Prelude.{
  String, Bool, true, false, not, ◌&&◌, ◌||◌, Option, some, none, if◌then◌else◌, Result, ok, err,
  ◌>>=◌, ◌>>◌, require, raise_if,
}
use dotori.Prelude.Classes.{◌==◌, string_eq}
use dotori.Prelude.Text.{is_trimmed, nonempty}

pub record ArtifactBinding : Type 0 where
  pub kind : String
  pub reference : String
  pub schema : String
  pub revision : String

pub record ResolvedArtifact : Type 0 where
  pub artifact_id : String
  pub schema : String
  pub revision : String
  pub source_id : String
  pub source_revision : String
  pub source_checksum : String
  pub processing_fingerprint : String
  pub status : String
  pub stale : Bool
  pub producer_job_id : String

pub record SourceReference : Type 0 where
  pub source_id : String
  pub revision : String
  pub schema : String
  pub checksum : String

abbrev pub same_source : SourceReference → SourceReference → Bool
same_source a b =
    a.source_id == b.source_id
    && a.revision == b.revision
    && a.schema == b.schema
    && a.checksum == b.checksum

pub data Error : Type 0 where
  value_error : Error

-- `not value.strip() or value != value.strip()`, negated.
unfoldable pub is_identity : String → Bool
is_identity value = nonempty value && is_trimmed value

unfoldable pub validate_artifact_binding : ArtifactBinding → Result Error (Unit {0})
validate_artifact_binding b = do
  require (b.kind == "artifact" || b.kind == "step") value_error
  require (is_identity b.reference) value_error
  require (is_identity b.schema) value_error
  require (is_trimmed b.revision) value_error
  raise_if (b.kind == "artifact" && not (nonempty b.revision)) value_error
  raise_if (b.kind == "step" && nonempty b.revision) value_error

-- `producer_job_id` as a text, or `None`.
abbrev pub names_job : Option String → Bool
names_job none = false
names_job (some j) = nonempty j

unfoldable pub pinned : ArtifactBinding → Option String → ResolvedArtifact → Bool
pinned b producer a =
    if b.kind == "artifact"
    then a.artifact_id == b.reference && a.revision == b.revision
    else elim producer [ none ↦ false | some j ↦ a.producer_job_id == j ]

unfoldable pub resolve_artifact_binding :
    ArtifactBinding
    → SourceReference
    → (ArtifactBinding → Result Error ResolvedArtifact)
    → Option String
    → Result Error ResolvedArtifact
resolve_artifact_binding b source resolve_authorized_artifact producer = do
  validate_artifact_binding b
  raise_if (b.kind == "step" && not (names_job producer)) value_error
  a ← resolve_authorized_artifact b
  require
      (a.schema == b.schema
        && a.status == "ready"
        && not a.stale
        && a.source_id == source.source_id
        && a.source_revision == source.revision
        && a.source_checksum == source.checksum)
      value_error
  require
      (is_identity a.artifact_id && is_identity a.revision && is_identity a.processing_fingerprint)
      value_error
  require (pinned b producer a) value_error
  ok a
