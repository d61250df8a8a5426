-- ===== src/Bindings/Tests.antt =====
-- Bindings on small values.
use dotori.Prelude.{◌≡◌, refl, false, some, ok, err}
use dotori.Prelude.Classes.{string_eq}
use dotori.Prelude.Text.{is_trimmed}
use dotori.Bindings.{
  ArtifactBinding, ResolvedArtifact, SourceReference, value_error, validate_artifact_binding,
  resolve_artifact_binding, pinned, is_identity,
}
use dotori.Bindings.Laws.{IsReadyInput, IsPinned, resolve_artifact_binding-IsPinned}

program : Unit {0}
unfolding is_trimmed validate_artifact_binding resolve_artifact_binding pinned is_identity
program = tt

abbrev source : SourceReference
source = record {
  source_id = "doc-1";
  revision = "r1";
  schema = "dotori.document.source.v1";
  checksum = "c";
}

abbrev from_parse : ArtifactBinding
from_parse = record {
  kind = "step";
  reference = "parse";
  schema = "dotori.document.extract.v1";
  revision = "";
}

abbrev extract : ResolvedArtifact
extract = record {
  artifact_id = "a1";
  schema = "dotori.document.extract.v1";
  revision = "7";
  source_id = "doc-1";
  source_revision = "r1";
  source_checksum = "c";
  processing_fingerprint = "f";
  status = "ready";
  stale = false;
  producer_job_id = "job-1";
}

resolved : resolve_artifact_binding from_parse source (λ b. ok extract) (some "job-1") ≡ ok extract
unfolding program
resolved = refl

resolved_of_another_job :
    resolve_artifact_binding from_parse source (λ b. ok extract) (some "job-2") ≡ err value_error
unfolding program
resolved_of_another_job = refl

padded : validate_artifact_binding (record from_parse { reference = " parse" }) ≡ err value_error
unfolding program
padded = refl

resolve_artifact_binding-IsPinned_example :
    IsReadyInput from_parse source extract × IsPinned from_parse (some "job-1") extract
resolve_artifact_binding-IsPinned_example =
    resolve_artifact_binding-IsPinned from_parse source (λ b. ok extract) (some "job-1") resolved
