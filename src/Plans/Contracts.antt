-- ===== src/Plans/Contracts.antt =====
-- Work contracts: the registry of app/capabilities/work_registry.py, the composition declarations of
-- app/capabilities/functions.py, and the payload and followup checks of app/orchestration/contracts.py.
-- The domain validator that a composition names by its import path is a parameter.
use dotori.Prelude.{
  String, ◌&&◌, Option, some, none, List, [], ◌∷◌, find?, length, leb, Result, ok, err, ◌>>=◌, ◌>>◌,
  require,
}
use dotori.Prelude.Classes.{◌==◌, string_eq, subset}
use dotori.Prelude.Text.{nonempty, codes}
use dotori.Plans.{Payload, Error, work_contract_error, value_error}

pub record WorkDefinition : Type 0 where
  pub kind : String
  pub capability_id : String
  pub execution_role : String
  pub queue : String
  pub task_name : String
  pub argument_fields : List String

abbrev pub document_extract : String
document_extract = "documents.extract"

abbrev pub document_semantic_search : String
document_semantic_search = "documents.semantic_search"

abbrev embedding_work : String → String → List String → WorkDefinition
embedding_work kind task_name argument_fields = record {
  kind = kind;
  capability_id = document_semantic_search;
  execution_role = "embedding";
  queue = "embed";
  task_name = task_name;
  argument_fields = argument_fields;
}

unfoldable pub work_registry : List WorkDefinition
work_registry =
    record {
      kind = "parse_document";
      capability_id = document_extract;
      execution_role = "parser";
      queue = "parse";
      task_name = "documents.tasks.parse_document_with_docling";
      argument_fields = "node_id" ∷ [];
    }
    ∷ embedding_work "embed_document" "documents.tasks.embed_document_scoped"
        ("schema" ∷ "command" ∷ "manifest" ∷ [])
    ∷ embedding_work "plan_document_embedding" "documents.tasks.enqueue_embedding_tasks"
        ("node_id" ∷ [])
    ∷ embedding_work "embed_document_batch" "documents.tasks.embedding_document_batch_with_bge"
        ("chunk_ids" ∷ [])
    ∷ embedding_work "evaluate_retrieval" "documents.tasks.run_quality_evaluation_task"
        ("run_uid" ∷ [])
    ∷ []

unfoldable pub get_work_definition : String → Result Error WorkDefinition
get_work_definition kind = elim (find? (λ (d : WorkDefinition). d.kind == kind) work_registry) [
  | none ↦ err value_error
  | some d ↦ ok d
]

-- `COMPOSITION_DEFINITIONS` has one entry, and its work is `embed_document`.
pub record CompositionDefinition : Type 0 where
  pub function_id : String
  pub work_kind : String
  pub intent_validator_path : String
  pub delivery_validator_path : String

unfoldable pub compositions : List CompositionDefinition
compositions =
    record {
      function_id = "document.embed";
      work_kind = "embed_document";
      intent_validator_path = "documents.processing.embedding_contract.parse_embedding_intent";
      delivery_validator_path = "documents.processing.embedding_contract.parse_embedding_delivery";
    }
    ∷ []

-- A followup of an executor, and a proposal of a step. An envelope without `parent_job_id` has
-- `none`; one with an explicit null has `some none`.
pub record Proposal : Type 0 where
  pub job_id : String
  pub work_kind : String
  pub payload : Payload
  pub parent_job_id : Option (Option String)

-- `except ValueError as exc: raise WorkContractError(str(exc)) from exc`, over a lookup that raises
-- nothing else.
abbrev as_contract : {A : Type 0} → Result Error A → Result Error A
as_contract (ok a) = ok a
as_contract (err e) = err work_contract_error

module _ (validator : String → Payload → Result Error (Unit {0})) where
  unfoldable pub validate_work_payload : String → Payload → Result Error WorkDefinition
  validate_work_payload kind payload = do
    definition ← as_contract (get_work_definition kind)
    require
        (subset payload.fields definition.argument_fields
          && subset definition.argument_fields payload.fields)
        work_contract_error
    elim (find? (λ (c : CompositionDefinition). c.work_kind == kind) compositions) [
      | none ↦ ok definition
      | some c ↦ (do validator c.delivery_validator_path payload; ok definition)
    ]

  unfoldable pub validate_followups : List Proposal → Result Error (Unit {0})
  validate_followups [] = ok tt
  validate_followups (followup ∷ followups) = do
    definition ← validate_work_payload followup.work_kind followup.payload
    require (nonempty followup.job_id && leb (length (codes followup.job_id)) 64)
        work_contract_error
    validate_followups followups

  -- `validate_preparation_payload` for the phase of delivery
  unfoldable pub validate_preparation_delivery : String → Payload → Result Error (Unit {0})
  validate_preparation_delivery kind payload =
      elim (find? (λ (c : CompositionDefinition). c.work_kind == kind) compositions) [
        | some c ↦ validator c.delivery_validator_path payload
        | none ↦ (do _ ← validate_work_payload kind payload; ok tt)
      ]

  -- The same for the phase of intent, which returns the definition of the work. The work of every
  -- composition is registered.
  unfoldable pub validate_preparation_intent : String → Payload → Result Error WorkDefinition
  validate_preparation_intent kind payload =
      elim (find? (λ (c : CompositionDefinition). c.work_kind == kind) compositions) [
        | some c ↦ (do validator c.intent_validator_path payload; get_work_definition kind)
        | none ↦ validate_work_payload kind payload
      ]
