-- ===== src/Plans/Loading.antt =====
-- `load_submission` of app/orchestration/submissions.py.
use dotori.Prelude.{
  String, not, ◌&&◌, List, [], ◌∷◌, length, leb, ltb, Result, ok, err, ◌>>=◌, ◌>>◌, require,
  raise_if,
}
use dotori.Prelude.Classes.{◌==◌, nat_eq, string_eq, list_eq, elem, subset}
use dotori.Prelude.Text.{nonempty, codes}
use dotori.Plans.{Error, plan_validation_error, PlanStep, ExecutionPlan, command_for_step}
use dotori.Plans.Stored.{PlanRecord, plan_from_record}

-- The columns of `PlanSubmission` that identify it, and its definition.
pub record Submission : Type 0 where
  pub plan_id : String
  pub request_id : String
  pub job_id : String
  pub source_uid : String
  pub definition : PlanRecord

-- The loop of `load_submission`.
unfoldable pub check_order : List String → List PlanStep → Result Error (Unit {0})
check_order preceding [] = ok tt
check_order preceding (step ∷ steps) = do
  require
      (nonempty step.step_id
        && leb (length (codes step.step_id)) 64
        && not (elem step.step_id preceding)
        && subset step.depends_on preceding)
      plan_validation_error
  check_order (step.step_id ∷ preceding) steps

module _ (uuid5 : String → String) where
  unfoldable pub check_identity :
      Submission → ExecutionPlan → List PlanStep → Result Error (Unit {0})
  check_identity row plan [] = err plan_validation_error
  check_identity row plan (first ∷ steps) = do
    raise_if (ltb plan.request.max_steps (length (first ∷ steps))) plan_validation_error
    command ← command_for_step uuid5 plan first.step_id
    require
        (plan.plan_id == row.plan_id
          && plan.request.request_id == row.request_id
          && command.job_id == row.job_id
          && plan.request.source.source_id == row.source_uid)
        plan_validation_error

  unfoldable pub load_submission : Submission → Result Error ExecutionPlan
  load_submission row = do
    plan ← plan_from_record uuid5 row.definition
    check_identity row plan plan.steps
    check_order [] plan.steps
    ok plan
