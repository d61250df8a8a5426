-- ===== src/Submissions/Steps.antt =====
-- What one publication of a step does: `publish_step` of app/orchestration/submissions.py.
use dotori.Prelude.{
  ℕ, String, ◌≡◌, refl, sym, find?, Bool, true, false, not, ◌&&◌, some, List, ◌∷◌, arith,
  Bool-cases, Option-cases, inl, inr, ◌⊎◌, if◌then◌else◌, Result, ok, err, bind-eq-ok, ok-injective,
  require, require-eq-ok, raise_if,
}
use dotori.Prelude.Classes.{◌==◌, string_eq, subset}
use dotori.Prelude.Dicts.{get}
use dotori.Bindings.{ArtifactBinding}
use dotori.Plans.Loading.{load_submission}
use dotori.Plans.{
  Error, ExecutionPlan, PlanStep, StepReport, StepCommand, command_for_step, is_bound,
}
use dotori.Plans.Reports.{ready_ids}
use dotori.Submissions.{
  Environment, PlanAdapter, Row, Delivery, Message, parent_job, live_reports, validate_submission,
  next_step, get_plan_adapter,
}
use dotori.Submissions.Commands.{compile_step, prepare_bound, prepare_step_command}
use dotori.Submissions.Publication.{
  Journal, executable_command, delivery_of, is_set, is_settled, publish_registered_work,
  mark_published, save_marks, publish_due, publish_guarded, publish_locked, publish_prepared,
  mark_failed, publish_after, publish_step,
}

module _ (env : Environment) where
  compile_step-reports :
      (row : Row) (plan : ExecutionPlan) (step : PlanStep) (binding : ArtifactBinding)
      (adapter : PlanAdapter) (row' : Row)
      → compile_step env row plan step binding adapter ≡ ok row'
      → row'.reports ≡ row.reports
  unfolding compile_step
  compile_step-reports row plan step binding adapter row' h = ground (arith, h)

  prepare_bound-reports :
      (row : Row) (plan : ExecutionPlan) (step : PlanStep) (binding : ArtifactBinding) (row' : Row)
      → prepare_bound env row plan step binding ≡ ok row'
      → row'.reports ≡ row.reports
  unfolding prepare_bound
  prepare_bound-reports row plan step binding row' h =
      let (adapter, loaded, h1) = bind-eq-ok (get_plan_adapter env step.work_kind) _ h in
      ground (arith, h1, compile_step-reports row plan step binding adapter row')

  prepare_step_command-reports :
      (step_id : String) (row row' : Row)
      → prepare_step_command env step_id row ≡ ok row'
      → row'.reports ≡ row.reports
  unfolding prepare_step_command
  prepare_step_command-reports step_id row row' h =
      let (plan, loaded, h1) = bind-eq-ok (load_submission env.uuid5 row.submission) _ h in
      let (step, found, h2) = bind-eq-ok (next_step plan step_id) _ h1 in
      elim (Option-cases step.input_binding) [
        | inl free ↦ ground (arith, free, h2)
        | inr (binding, bound) ↦
            prepare_bound-reports row plan step binding row' (ground (arith, bound, h2))
      ]

  -- A publication's first part changes the row alone, and not its reports.
  pub record Prepared (j j' : Journal) : Type 0 where
    pub reports : j'.row.reports ≡ j.row.reports
    pub deliveries : j'.deliveries ≡ j.deliveries
    pub sent : j'.sent ≡ j.sent

  publish_prepared-Prepared :
      (in_transaction : Bool) (step_id : String) (j j' : Journal)
      → publish_prepared env in_transaction step_id j ≡ ok j'
      → Prepared j j'
  unfolding publish_prepared
  publish_prepared-Prepared in_transaction step_id j j' h =
      let (_, live, h1) =
        bind-eq-ok (raise_if j.row.is_preparation Error.work_contract_error) _ h in
      let (plan, loaded, h2) = bind-eq-ok (load_submission env.uuid5 j.row.submission) _ h1 in
      let (step, found, h3) = bind-eq-ok (next_step plan step_id) _ h2 in
      let (_, outside, h4) =
        bind-eq-ok (raise_if (is_bound step && in_transaction) Error.work_contract_error) _ h3 in
      let (row, prepared, h5) =
        bind-eq-ok (if is_bound step then prepare_step_command env step_id j.row else ok j.row) _
          h4 in
      let same : row.reports ≡ j.row.reports = elim (Bool-cases (is_bound step)) [
        | inl bound ↦ prepare_step_command-reports step_id j.row row (rw bound at prepared)
        | inr free ↦ ground (arith, free, prepared)
      ] in
      rw (← ok-injective h5) (record { reports = same; deliveries = refl; sent = refl })

  -- A publication that hands a task to the broker: the step of the loaded plan has a delivery that
  -- is not published, or a replay is asked for, no live report settles it, and each of its
  -- dependencies has a live report of a success with an artifact.
  pub record Sends (replay : Bool) (step_id : String) (j : Journal) : Type 0 where
    pub plan : ExecutionPlan
    pub step : PlanStep
    pub adapter : PlanAdapter
    pub delivery : Delivery
    pub reports : List StepReport
    pub message : Message
    pub loaded : load_submission env.uuid5 j.row.submission ≡ ok plan
    pub found : next_step plan step_id ≡ ok step
    pub delivered : get step_id j.deliveries ≡ some delivery
    pub unpublished : (is_set delivery.published_at && not replay) ≡ false
    pub read : live_reports env j.row plan ≡ ok reports
    pub unsettled :
        is_settled replay (find? (λ (r : StepReport). r.step_id == step.step_id) reports) ≡ false
    pub ready : subset step.depends_on (ready_ids reports) ≡ true
    pub executable : executable_command env j.row plan step adapter ≡ ok message.command
    pub lineage : parent_job env plan step ≡ ok message.parent_job_id

  -- How the writes end after such a send.
  data Saved (now : ℕ) (replay : Bool) (step_id : String) (j : Journal)
      (r : Result Error (Unit {0}) × Journal) : Type 0 where
    from_sends :
        (sends : Sends replay step_id j)
        → r ≡ save_marks env now sends.plan sends.step.step_id sends.delivery sends.message j
        → Saved now replay step_id j r

  registered-message :
      (command : StepCommand) (parent : String) (m : Message)
      → publish_registered_work env command parent ≡ ok m
      → (m.command ≡ command) × (m.parent_job_id ≡ parent)
  unfolding publish_registered_work
  registered-message command parent m h = (ground (arith, h), ground (arith, h))

  module _ (now : ℕ) (replay : Bool) (step_id : String) (j : Journal) where
    due-Saved :
        (plan : ExecutionPlan) (step : PlanStep) (delivery : Delivery) (adapter : PlanAdapter)
        (reports : List StepReport) (r : Result Error (Unit {0}) × Journal)
        → load_submission env.uuid5 j.row.submission ≡ ok plan
        → next_step plan step_id ≡ ok step
        → get step_id j.deliveries ≡ some delivery
        → (is_set delivery.published_at && not replay) ≡ false
        → live_reports env j.row plan ≡ ok reports
        → publish_due env now replay j plan step delivery adapter reports ≡ ok r
        → (r ≡ (ok tt, j)) ⊎ Saved now replay step_id j r
    unfolding publish_due
    due-Saved plan step delivery adapter reports r loaded found delivered unpublished read h =
        elim (Bool-cases
          (is_settled replay (find? (λ (r : StepReport). r.step_id == step.step_id) reports))) [
            | inl settled ↦ inl (ground (arith, settled, h))
            | inr unsettled ↦
                let h0 = rw unsettled at h in
                let (_, ready, h1) =
                  bind-eq-ok
                    (require (subset step.depends_on (ready_ids reports)) Error.work_contract_error)
                    _ h0 in
                let (command, executable, h2) =
                  bind-eq-ok (executable_command env j.row plan step adapter) _ h1 in
                let (parent, lineage, h3) = bind-eq-ok (parent_job env plan step) _ h2 in
                let (message, registered, h4) =
                  bind-eq-ok (publish_registered_work env command parent) _ h3 in
                let (is_command, is_parent) =
                  registered-message command parent message registered in
                inr (
                  from_sends
                    (record {
                      plan = plan;
                      step = step;
                      adapter = adapter;
                      delivery = delivery;
                      reports = reports;
                      message = message;
                      loaded = loaded;
                      found = found;
                      delivered = delivered;
                      unpublished = unpublished;
                      read = read;
                      unsettled = unsettled;
                      ready = require-eq-ok _ _ ready;
                      executable = rw is_command executable;
                      lineage = rw is_parent lineage;
                    })
                    (sym (ok-injective h4)))
          ]

    publish_locked-Saved :
        (r : Result Error (Unit {0}) × Journal)
        → publish_locked env now replay step_id j ≡ ok r
        → (r ≡ (ok tt, j)) ⊎ Saved now replay step_id j r
    unfolding publish_locked publish_guarded publish_due
    publish_locked-Saved r h =
        let (plan, loaded, h1) = bind-eq-ok (load_submission env.uuid5 j.row.submission) _ h in
        let (step, found, h2) = bind-eq-ok (next_step plan step_id) _ h1 in
        let (delivery, delivered, h3) = bind-eq-ok (delivery_of step_id j) _ h2 in
        let (command, commanded, h4) = bind-eq-ok (command_for_step env.uuid5 plan step_id) _ h3 in
        let (_, same_job, h5) =
          bind-eq-ok (require (delivery.job_id == command.job_id) Error.plan_validation_error) _
            h4 in
        elim (Bool-cases (is_set delivery.published_at && not replay)) [
          | inl published ↦ inl (ground (arith, published, h5))
          | inr unpublished ↦
              let h6 = rw unpublished at h5 in
              let (adapter, adapted, h7) = bind-eq-ok (get_plan_adapter env step.work_kind) _ h6 in
              let (_, guarded, h8) = bind-eq-ok (adapter.source_guard plan j.row) _ h7 in
              let (_, valid, h9) = bind-eq-ok (validate_submission env j.row plan) _ h8 in
              let (reports, read, h10) = bind-eq-ok (live_reports env j.row plan) _ h9 in
              due-Saved plan step delivery adapter reports r loaded found
                (ground (arith, delivered)) unpublished read h10
        ]

  -- What one call of `publish_step` leaves: a failure, the journal that its first part left,
  -- that journal with one task sent and marked, or a failure of the writes after the send.
  pub data Published (now : ℕ) (replay : Bool) (step_id : String) (j : Journal)
      : Result Error (Unit {0}) × Journal → Type 0 where
    failed_before :
        (e : Error) → Published now replay step_id j (err e, mark_failed env step_id e j)
    failed_after :
        (e : Error) (j1 : Journal)
        → Prepared j j1
        → Published now replay step_id j (err e, mark_failed env step_id e j1)
    nothing_due : (j1 : Journal) → Prepared j j1 → Published now replay step_id j (ok tt, j1)
    one_sent :
        (j1 : Journal)
        → Prepared j j1
        → (sends : Sends replay step_id j1) → env.save_published now sends.step.step_id ≡ ok tt
        → Published now replay step_id j (
          ok tt,
          mark_published env now sends.plan sends.step.step_id sends.delivery sends.message j1,
        )
    sent_unsaved :
        (e : Error) (j1 : Journal)
        → Prepared j j1
        → (sends : Sends replay step_id j1) → env.save_published now sends.step.step_id ≡ err e
        → Published now replay step_id j
            (err e, mark_failed env step_id e (record j1 { sent = sends.message ∷ j1.sent }))

  module _ (now : ℕ) (in_transaction replay : Bool) (step_id : String) (j : Journal) where
    saved-Published :
        (j1 : Journal) (r : Result Error (Unit {0}) × Journal)
        → Prepared j j1
        → (sends : Sends replay step_id j1)
        → r ≡ save_marks env now sends.plan sends.step.step_id sends.delivery sends.message j1
        → publish_locked env now replay step_id j1 ≡ ok r
        → (saved : Result Error (Unit {0})) → env.save_published now sends.step.step_id ≡ saved
        → Published now replay step_id j (publish_after env now replay step_id j1)
    unfolding publish_after save_marks
    saved-Published j1 r prepared sends made h (ok u) e =
        rw (publish_after, h, made, save_marks, e) (one_sent j1 prepared sends e)
    saved-Published j1 r prepared sends made h (err f) e =
        rw (publish_after, h, made, save_marks, e) (sent_unsaved f j1 prepared sends e)

    publish_after-Published :
        (j1 : Journal) (r : Result Error (Result Error (Unit {0}) × Journal))
        → Prepared j j1
        → publish_locked env now replay step_id j1 ≡ r
        → Published now replay step_id j (publish_after env now replay step_id j1)
    unfolding publish_after
    publish_after-Published j1 (err e) prepared h =
        rw (publish_after, h) (failed_after e j1 prepared)
    publish_after-Published j1 (ok r) prepared h =
        elim (publish_locked-Saved now replay step_id j1 r h) [
          | inl same ↦ rw (publish_after, h, same) (nothing_due j1 prepared)
          | inr (from_sends sends made) ↦
              saved-Published j1 r prepared sends made h (env.save_published now sends.step.step_id)
                refl
        ]

    prepared-Published :
        (r : Result Error Journal)
        → publish_prepared env in_transaction step_id j ≡ r
        → Published now replay step_id j (publish_step env now in_transaction replay step_id j)
    unfolding publish_step
    prepared-Published (err e) h = rw (publish_step, h) (failed_before e)
    prepared-Published (ok j1) h =
        rw (publish_step, h)
          (publish_after-Published j1 (publish_locked env now replay step_id j1)
            (publish_prepared-Prepared in_transaction step_id j j1 h) refl)

    pub publish_step-Published :
        Published now replay step_id j (publish_step env now in_transaction replay step_id j)
    publish_step-Published = prepared-Published (publish_prepared env in_transaction step_id j) refl
