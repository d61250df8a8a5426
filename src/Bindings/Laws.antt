-- ===== src/Bindings/Laws.antt =====
-- What a resolved input is known to be.
use text.Mathlib.TextEquality.{eq_iff}
use dotori.Prelude.{String, ◌≡◌, ◌⊎◌, true, false, ◌||◌, Option, some, none, arith, Result, ok}
use dotori.Prelude.Classes.{◌==◌, string_eq}
use dotori.Bindings.{
  ArtifactBinding, ResolvedArtifact, SourceReference, Error, validate_artifact_binding,
  resolve_artifact_binding, pinned,
}

-- Ready metadata of the authorized source, under the schema that the binding names.
pub record IsReadyInput (b : ArtifactBinding) (source : SourceReference) (a : ResolvedArtifact)
    : Type 0 where
  pub schema : a.schema ≡ b.schema
  pub ready : a.status ≡ "ready"
  pub fresh : a.stale ≡ false
  pub source_id : a.source_id ≡ source.source_id
  pub source_revision : a.source_revision ≡ source.revision
  pub source_checksum : a.source_checksum ≡ source.checksum

-- A pinned artifact is the one named, at the revision named; a step's artifact comes of its job.
abbrev pub IsPinned : ArtifactBinding → Option String → ResolvedArtifact → Type 0
IsPinned b producer a =
    (b.kind ≡ "artifact") × (a.artifact_id ≡ b.reference) × (a.revision ≡ b.revision)
    ⊎ (b.kind ≡ "step") × (producer ≡ some a.producer_job_id)

pinned-IsPinned :
    (b : ArtifactBinding) (producer : Option String) (a : ResolvedArtifact)
    → (b.kind == "artifact" || b.kind == "step") ≡ true
    → pinned b producer a ≡ true
    → IsPinned b producer a
unfolding pinned
pinned-IsPinned b none a kind h = ground (
  arith,
  eq_iff b.kind "artifact",
  eq_iff a.artifact_id b.reference,
  eq_iff a.revision b.revision,
)
pinned-IsPinned b (some j) a kind h = ground (
  arith,
  eq_iff b.kind "artifact",
  eq_iff b.kind "step",
  eq_iff a.artifact_id b.reference,
  eq_iff a.revision b.revision,
  eq_iff a.producer_job_id j,
)

module _ (b : ArtifactBinding) (source : SourceReference)
    (resolve : ArtifactBinding → Result Error ResolvedArtifact) (producer : Option String) where
  resolved_checks :
      {a : ResolvedArtifact}
      → resolve_artifact_binding b source resolve producer ≡ ok a
      → IsReadyInput b source a
  unfolding resolve_artifact_binding
  resolved_checks {a} h = ground (
    arith,
    eq_iff a.schema b.schema,
    eq_iff a.status "ready",
    eq_iff a.source_id source.source_id,
    eq_iff a.source_revision source.revision,
    eq_iff a.source_checksum source.checksum,
  )

  resolved_tests :
      {a : ResolvedArtifact}
      → resolve_artifact_binding b source resolve producer ≡ ok a
      → ((b.kind == "artifact" || b.kind == "step") ≡ true) × (pinned b producer a ≡ true)
  unfolding resolve_artifact_binding validate_artifact_binding
  resolved_tests h = ground arith

  -- What is returned is ready metadata of the given source under the binding's schema, and it is
  -- pinned: an artifact binding gets the artifact and the revision that it names, and a step
  -- binding an artifact that the given job produced.
  pub resolve_artifact_binding-IsPinned :
      {a : ResolvedArtifact}
      → resolve_artifact_binding b source resolve producer ≡ ok a
      → IsReadyInput b source a × IsPinned b producer a
  resolve_artifact_binding-IsPinned {a} h =
      let (kind, pin) = resolved_tests h in
      (resolved_checks h, pinned-IsPinned b producer a kind pin)
