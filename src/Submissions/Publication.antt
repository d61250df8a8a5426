-- ===== src/Submissions/Publication.antt =====
-- Publication of a step: `publish_step`, `_publish_ready` and `publish_submission` of
-- app/orchestration/submissions.py over `publish_registered_work` of app/orchestration/dispatch.py.
-- The journal of one plan is its row and its deliveries, beside the tasks that the broker was given.
-- A task whose send raises is not sent; where the writes after a send raise, the tables are rolled
-- back and the task stays with the broker. No other write fails, and a transaction of the caller is
-- committed.
use dotori.Prelude.{
  ℕ, String, Bool, true, false, not, ◌&&◌, ◌||◌, Option, some, none, List, [], ◌∷◌, find?, map,
  filter, if◌then◌else◌, Result, ok, err, ◌>>=◌, ◌>>◌, require, raise_if,
}
use dotori.Prelude.Classes.{◌==◌, string_eq, elem, subset}
use dotori.Prelude.Dicts.{Dict, get, put}
use dotori.Plans.Loading.{load_submission}
use dotori.Plans.{
  Error, work_contract_error, plan_validation_error, does_not_exist, ExecutionPlan, PlanStep,
  StepCommand, StepReport, command_for_step, is_bound,
}
use dotori.Plans.Reports.{is_succeeded, ready_ids, completion_candidate, completed}
use dotori.Plans.Contracts.{validate_work_payload}
use dotori.Submissions.{
  Environment, PlanAdapter, Row, Delivery, Message, next_step, get_plan_adapter,
  validate_submission, live_reports, parent_job,
}
use dotori.Submissions.Commands.{validate_compiled_input, prepare_step_command}

pub record Journal : Type 0 where
  pub row : Row
  pub deliveries : Dict Delivery
  pub sent : List Message

abbrev pub is_set : Option ℕ → Bool
is_set none = false
is_set (some t) = true

-- `current is not None and (current.status == "succeeded" or not replay)`
abbrev pub is_settled : Bool → Option StepReport → Bool
is_settled replay none = false
is_settled replay (some r) = is_succeeded r.status || not replay

abbrev pub is_first_step : ExecutionPlan → String → Bool
is_first_step plan step_id = elim plan.steps [ [] ↦ false | s ∷ ss ↦ s.step_id == step_id ]

abbrev pub delivery_of : String → Journal → Result Error Delivery
delivery_of step_id j = elim (get step_id j.deliveries) [
  | none ↦ err does_not_exist
  | some d ↦ ok d
]

module _ (env : Environment) where
  unfoldable pub publish_registered_work : StepCommand → String → Result Error Message
  publish_registered_work command parent = do
    definition ← validate_work_payload env.validator command.work_kind command.payload
    env.admitted_work command.work_kind
    let message : Message = record {
      command = command;
      parent_job_id = parent;
      task_name = definition.task_name;
      queue = definition.queue;
    }
    env.send_task message
    ok message

  unfoldable pub executable_command :
      Row → ExecutionPlan → PlanStep → PlanAdapter → Result Error StepCommand
  executable_command row plan step adapter = elim step.input_binding [
    | none ↦ command_for_step env.uuid5 plan step.step_id
    | some binding ↦ validate_compiled_input env row plan step binding adapter
  ]

  -- The journal after the send, with its tables written.
  unfoldable pub mark_published :
      ℕ → ExecutionPlan → String → Delivery → Message → Journal → Journal
  mark_published now plan step_id delivery message j = record j {
    row = record j.row {
      published_at = if is_first_step plan step_id then some now else j.row.published_at;
      publish_error = "";
    };
    deliveries =
        put step_id (record delivery { published_at = some now; publish_error = "" }) j.deliveries;
    sent = message ∷ j.sent;
  }

  -- The writes after the send. Where they raise, the transaction takes the tables back.
  unfoldable pub save_marks :
      ℕ → ExecutionPlan → String → Delivery → Message → Journal → Result Error (Unit {0}) × Journal
  save_marks now plan step_id delivery message j = elim (env.save_published now step_id) [
    | ok _ ↦ (ok tt, mark_published now plan step_id delivery message j)
    | err e ↦ (err e, record j { sent = message ∷ j.sent })
  ]

  -- What is done with a step whose reports are read, inside the source guard.
  unfoldable pub publish_due :
      ℕ
      → Bool
      → Journal
      → ExecutionPlan
      → PlanStep
      → Delivery
      → PlanAdapter
      → List StepReport
      → Result Error (Result Error (Unit {0}) × Journal)
  publish_due now replay j plan step delivery adapter reports =
      if is_settled replay (find? (λ (r : StepReport). r.step_id == step.step_id) reports)
      then ok (ok tt, j)
      else (do
        require (subset step.depends_on (ready_ids reports)) work_contract_error
        command ← executable_command j.row plan step adapter
        parent ← parent_job env plan step
        message ← publish_registered_work command parent
        ok (save_marks now plan step.step_id delivery message j))

  unfoldable pub publish_guarded :
      ℕ
      → Bool
      → Journal
      → ExecutionPlan
      → PlanStep
      → Delivery
      → Result Error (Result Error (Unit {0}) × Journal)
  publish_guarded now replay j plan step delivery =
      if is_set delivery.published_at && not replay then ok (ok tt, j) else (do
        adapter ← get_plan_adapter env step.work_kind
        adapter.source_guard plan j.row
        validate_submission env j.row plan
        reports ← live_reports env j.row plan
        publish_due now replay j plan step delivery adapter reports)

  -- The transaction of `publish_step`: an error of a check, or how the writes after it ended.
  unfoldable pub publish_locked :
      ℕ → Bool → String → Journal → Result Error (Result Error (Unit {0}) × Journal)
  publish_locked now replay step_id j = do
    plan ← load_submission env.uuid5 j.row.submission
    step ← next_step plan step_id
    delivery ← delivery_of step_id j
    command ← command_for_step env.uuid5 plan step_id
    require (delivery.job_id == command.job_id) plan_validation_error
    publish_guarded now replay j plan step delivery

  -- The checks before it, and the compilation of a bound step, which commits by itself.
  unfoldable pub publish_prepared : Bool → String → Journal → Result Error Journal
  publish_prepared in_transaction step_id j = do
    raise_if j.row.is_preparation work_contract_error
    plan ← load_submission env.uuid5 j.row.submission
    step ← next_step plan step_id
    raise_if (is_bound step && in_transaction) work_contract_error
    row ← (if is_bound step then prepare_step_command env step_id j.row else ok j.row)
    ok (record j { row = row })

  -- The handler of `publish_step`: the error's text goes to the row and to the step's delivery.
  unfoldable pub mark_failed : String → Error → Journal → Journal
  mark_failed step_id e j = record j {
    row = record j.row { publish_error = env.text_of e };
    deliveries = elim (get step_id j.deliveries) [
      | none ↦ j.deliveries
      | some d ↦ put step_id (record d { publish_error = env.text_of e }) j.deliveries
    ];
  }

  unfoldable pub publish_after : ℕ → Bool → String → Journal → Result Error (Unit {0}) × Journal
  publish_after now replay step_id j = elim (publish_locked now replay step_id j) [
    | ok (ok u, j') ↦ (ok tt, j')
    | ok (err e, j') ↦ (err e, mark_failed step_id e j')
    | err e ↦ (err e, mark_failed step_id e j)
  ]

  unfoldable pub publish_step :
      ℕ → Bool → Bool → String → Journal → Result Error (Unit {0}) × Journal
  publish_step now in_transaction replay step_id j =
      elim (publish_prepared in_transaction step_id j) [
        | ok j' ↦ publish_after now replay step_id j'
        | err e ↦ (err e, mark_failed step_id e j)
      ]

  unfoldable pub ready_steps : ExecutionPlan → List StepReport → Result Error (List PlanStep)
  ready_steps plan reports = do
    outcome ← completion_candidate env.uuid5 plan reports
    elim outcome [
      | completed ↦ ok []
      | _ ↦ ok (
          filter
            (λ (s : PlanStep).
              not (elem s.step_id (map (λ (r : StepReport). r.step_id) reports))
              && subset s.depends_on (ready_ids reports))
            plan.steps)
    ]

  -- The steps that a replay offers again: those that have not succeeded.
  unfoldable pub replayable_steps : ExecutionPlan → List StepReport → List PlanStep
  replayable_steps plan reports =
      filter
        (λ (s : PlanStep).
          not (
            elem s.step_id (
              map (λ (r : StepReport). r.step_id)
                (filter (λ (r : StepReport). is_succeeded r.status) reports)))
          && subset s.depends_on (ready_ids reports))
        plan.steps

  unfoldable pub eligible_steps : Bool → Row → Result Error (List PlanStep)
  eligible_steps replay row = do
    plan ← load_submission env.uuid5 row.submission
    validate_submission env row plan
    reports ← live_reports env row plan
    eligible ← ready_steps plan reports
    ok (if replay then replayable_steps plan reports else eligible)

  -- The loop of `_publish_ready`, which the first exception ends.
  unfoldable pub publish_each :
      ℕ → Bool → Bool → List PlanStep → Journal → Result Error (Unit {0}) × Journal
  publish_each now in_transaction replay [] j = (ok tt, j)
  publish_each now in_transaction replay (step ∷ steps) j =
      let (outcome, j') = publish_step now in_transaction replay step.step_id j in
      elim outcome [ ok _ ↦ publish_each now in_transaction replay steps j' | err e ↦ (err e, j') ]

  -- The handler of `publish_submission`.
  unfoldable pub mark_row : Result Error (Unit {0}) × Journal → Result Error (Unit {0}) × Journal
  mark_row (ok u, j) = (ok u, j)
  mark_row (err e, j) = (err e, record j { row = record j.row { publish_error = env.text_of e } })

  unfoldable pub publish_submission : ℕ → Bool → Bool → Journal → Result Error (Unit {0}) × Journal
  publish_submission now in_transaction replay j = elim (eligible_steps replay j.row) [
    | ok steps ↦ mark_row (publish_each now in_transaction replay steps j)
    | err e ↦ mark_row (err e, j)
  ]
