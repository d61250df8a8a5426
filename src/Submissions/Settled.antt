-- ===== src/Submissions/Settled.antt =====
-- A successful step of app/orchestration/submissions.py stays successful.
use dotori.Prelude.{
  ℕ, String, ◌≡◌, refl, ◌∙◌, Bool, true, false, not, ◌&&◌, List, [], ◌∷◌, arith, Bool-cases, inl,
  inr, Result, ok, err, bind-eq-ok, ok-state, require, raise_if, raise_if-eq-ok,
}
use dotori.Prelude.Classes.{◌==◌, string_eq, ==→≡}
use dotori.Prelude.Dicts.{get, put, get-put}
use dotori.Plans.Loading.{load_submission}
use dotori.Plans.{Error, ExecutionPlan, PlanStep, StepReport, Payload}
use dotori.Plans.Reports.{is_succeeded}
use dotori.Plans.Contracts.{validate_followups}
use dotori.Submissions.{Environment, Row, has_identity, get_plan_adapter}
use dotori.Submissions.Publication.{
  Journal, mark_published, mark_failed, publish_step, publish_each, mark_row, publish_submission,
  eligible_steps,
}
use dotori.Submissions.Responses.{
  Envelope, Response, is_success, with_report, judge_row, store_response, accept_response,
  record_response, approved_delivery, Call, publish_one, publish_all, respond, apply_call,
  run_calls,
}
use dotori.Submissions.Steps.{
  Published, failed_before, failed_after, nothing_due, one_sent, sent_unsaved,
  publish_step-Published,
}

module _ (env : Environment) where
  Published-reports :
      (now : ℕ) (replay : Bool) (step_id : String) (j : Journal)
      (out : Result Error (Unit {0}) × Journal)
      → Published env now replay step_id j out
      → out.1.row.reports ≡ j.row.reports
  unfolding mark_failed mark_published
  Published-reports now replay step_id j _ (failed_before e) = refl
  Published-reports now replay step_id j _ (failed_after e j1 prepared) = prepared.reports
  Published-reports now replay step_id j _ (nothing_due j1 prepared) = prepared.reports
  Published-reports now replay step_id j _ (one_sent j1 prepared sends saved) = prepared.reports
  Published-reports now replay step_id j _ (sent_unsaved e j1 prepared sends unsaved) =
      prepared.reports

  publish_step-reports :
      (now : ℕ) (in_transaction replay : Bool) (step_id : String) (j : Journal)
      → (publish_step env now in_transaction replay step_id j).1.row.reports ≡ j.row.reports
  publish_step-reports now in_transaction replay step_id j =
      Published-reports now replay step_id j _
        (publish_step-Published env now in_transaction replay step_id j)

  module _ (now : ℕ) (in_transaction replay : Bool) where
    publish_each-reports :
        (steps : List PlanStep) (j : Journal)
        → (publish_each env now in_transaction replay steps j).1.row.reports ≡ j.row.reports
    unfolding publish_each
    publish_each-reports [] j = refl
    publish_each-reports (step ∷ steps) j =
        after (publish_step env now in_transaction replay step.step_id j)
          (publish_step-reports now in_transaction replay step.step_id j)
          (publish_each-reports steps (publish_step env now in_transaction replay step.step_id j).1)
      where
        after :
            (out : Result Error (Unit {0}) × Journal)
            → out.1.row.reports ≡ j.row.reports
            → (publish_each env now in_transaction replay steps out.1).1.row.reports
              ≡ out.1.row.reports
            → (let (outcome, j') = out in
                (elim outcome as (λ x. Result Error (Unit {0}) × Journal) [
                  | ok u ↦ publish_each env now in_transaction replay steps j'
                  | err e ↦ (err e, j')
                ])).1.row.reports
              ≡ j.row.reports
        after (ok u, j') first rest = rest ∙ first
        after (err e, j') first rest = first

    mark_row-reports :
        (out : Result Error (Unit {0}) × Journal)
        → (mark_row env out).1.row.reports ≡ out.1.row.reports
    unfolding mark_row
    mark_row-reports (ok u, j) = refl
    mark_row-reports (err e, j) = refl

    publish_submission-reports :
        (j : Journal)
        → (publish_submission env now in_transaction replay j).1.row.reports ≡ j.row.reports
    unfolding publish_submission
    publish_submission-reports j = go (eligible_steps env replay j.row)
      where
        go :
            (r : Result Error (List PlanStep))
            → (elim r as (λ x. Result Error (Unit {0}) × Journal) [
              | ok steps ↦ mark_row env (publish_each env now in_transaction replay steps j)
              | err e ↦ mark_row env (err e, j)
            ]).1.row.reports
              ≡ j.row.reports
        go (ok steps) = mark_row-reports _ ∙ publish_each-reports steps j
        go (err e) = mark_row-reports (err e, j)

  module _ (step_id : String) where
    judge_row-reports :
        (plan : ExecutionPlan) (row row' : Row)
        → judge_row env plan row ≡ ok row'
        → row'.reports ≡ row.reports
    unfolding judge_row
    judge_row-reports plan row row' h = ground (arith, h)

    -- A report that may be stored keeps a success of every step.
    put-settled :
        (report : StepReport) (row : Row)
        → (is_success (get report.step_id row.reports) && not (is_succeeded report.status)) ≡ false
        → is_success (get step_id row.reports) ≡ true
        → is_success (get step_id (put report.step_id report row.reports)) ≡ true
    put-settled report row guarded h = elim (Bool-cases (report.step_id == step_id)) [
      | inl same ↦
          let at_step : report.step_id ≡ step_id = ==→≡ report.step_id step_id same in
          let stored : is_success (get report.step_id row.reports) ≡ true = rw at_step h in
          rw (get-put report.step_id step_id report row.reports, same)
            (ground (arith, guarded, stored))
      | inr other ↦ rw (get-put report.step_id step_id report row.reports, other) h
    ]

    store_response-settled :
        (kind : String) (envelope : Envelope) (payload : Payload) (response : Response)
        (j j' : Journal) (report : StepReport)
        → store_response env kind envelope payload response j ≡ ok (report, j')
        → is_success (get step_id j.row.reports) ≡ true
        → is_success (get step_id j'.row.reports) ≡ true
    unfolding store_response
    store_response-settled kind envelope payload response j j' report h success =
        let (plan, loaded, h1) = bind-eq-ok (load_submission env.uuid5 j.row.submission) _ h in
        let (_, approved, h2) = bind-eq-ok (approved_delivery env kind envelope payload j) _ h1 in
        let (adapter, adapted, h3) = bind-eq-ok (get_plan_adapter env kind) _ h2 in
        let (made, reported, h4) = bind-eq-ok (adapter.report plan j.row response.receipt) _ h3 in
        let (_, identified, h5) =
          bind-eq-ok
            (require (has_identity plan envelope.step_id envelope.job_id made)
              Error.work_contract_error)
            _ h4 in
        let (_, guarded, h6) =
          bind-eq-ok
            (raise_if
              (is_success (get made.step_id j.row.reports) && not (is_succeeded made.status))
              Error.work_contract_error)
            _ h5 in
        let (row, judged, h7) =
          bind-eq-ok (judge_row env plan (with_report made response.followups j.row)) _ h6 in
        rw (← ok-state h7, judge_row-reports plan _ row judged)
          (put-settled made j.row (raise_if-eq-ok _ _ guarded) success)

    accept_response-settled :
        (kind : String) (envelope : Envelope) (payload : Payload) (response : Response)
        (j j' : Journal) (report : StepReport)
        → accept_response env kind envelope payload response j ≡ ok (report, j')
        → is_success (get step_id j.row.reports) ≡ true
        → is_success (get step_id j'.row.reports) ≡ true
    unfolding accept_response
    accept_response-settled kind envelope payload response j j' report h =
        let (_, approved, h1) = bind-eq-ok (approved_delivery env kind envelope payload j) _ h in
        let (_, valid, h2) =
          bind-eq-ok (validate_followups env.validator response.followups) _ h1 in
        store_response-settled kind envelope payload response j j' report h2

    publish_submission-settled :
        (now : ℕ) (in_transaction replay : Bool) (j : Journal)
        → is_success (get step_id j.row.reports) ≡ true
        → is_success
            (get step_id (publish_submission env now in_transaction replay j).1.row.reports)
          ≡ true
    publish_submission-settled now in_transaction replay j h =
        rw (publish_submission-reports now in_transaction replay j) h

    module _ (now : ℕ) (kind : String) (envelope : Envelope) (payload : Payload)
        (response : Response) (j : Journal) where
      record_response-settled :
          (r : Result Error (StepReport × Journal))
          → accept_response env kind envelope payload response j ≡ r
          → is_success (get step_id j.row.reports) ≡ true
          → is_success
              (get step_id (record_response env now kind envelope payload response j).1.row.reports)
            ≡ true
      unfolding record_response
      record_response-settled (err e) h success = rw (record_response, h) success
      record_response-settled (ok (report, j')) h success =
          let stored : is_success (get step_id j'.row.reports) ≡ true =
            accept_response-settled kind envelope payload response j j' report h success in
          elim (Bool-cases (is_succeeded report.status)) [
            | inl done ↦
                rw (record_response, h, done) (publish_submission-settled now false false j' stored)
            | inr not_done ↦ rw (record_response, h, not_done) stored
          ]

    apply_call-settled :
        (c : Call env) (j : Journal)
        → is_success (get step_id j.row.reports) ≡ true
        → is_success (get step_id (apply_call env c j).row.reports) ≡ true
    unfolding apply_call
    apply_call-settled (publish_one now in_transaction replay name) j h =
        rw (publish_step-reports now in_transaction replay name j) h
    apply_call-settled (publish_all now in_transaction replay) j h =
        publish_submission-settled now in_transaction replay j h
    apply_call-settled (respond now kind envelope payload response) j h =
        record_response-settled now kind envelope payload response j
          (accept_response env kind envelope payload response j) refl h

    -- A step whose stored report is a success keeps a stored report of a success, whatever
    -- publications, replays and responses follow, in whatever order and with whatever errors.
    pub run_calls-settled :
        (calls : List (Call env)) (j : Journal)
        → is_success (get step_id j.row.reports) ≡ true
        → is_success (get step_id (run_calls env calls j).row.reports) ≡ true
    unfolding run_calls
    run_calls-settled [] j h = h
    run_calls-settled (c ∷ calls) j h =
        run_calls-settled calls (apply_call env c j) (apply_call-settled c j h)
