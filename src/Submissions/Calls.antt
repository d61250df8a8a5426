-- ===== src/Submissions/Calls.antt =====
-- The tasks that a sequence of calls of app/orchestration/submissions.py hands to the broker.
use dotori.Prelude.{
  ℕ, String, ◌≡◌, refl, ◌≤◌, sym, ◌∙◌, ◌+◌, count, if◌then◌else◌, Bool, true, false, not, List, [],
  ◌∷◌, arith, Bool-cases, inl, inr, all, Result, ok, err, bind-eq-ok,
}
use dotori.Prelude.Classes.{◌==◌, string_eq, ==→≡}
use dotori.Plans.Loading.{load_submission}
use dotori.Plans.{Error, PlanStep, StepReport, Payload}
use dotori.Plans.Reports.{is_succeeded}
use dotori.Plans.Contracts.{validate_followups}
use dotori.Submissions.{Environment, get_plan_adapter}
use dotori.Submissions.Publication.{
  Journal, mark_failed, publish_step, publish_each, mark_row, publish_submission, eligible_steps,
}
use dotori.Submissions.Responses.{
  Envelope, Response, accept_response, store_response, approved_delivery, record_response, Call,
  publish_one, publish_all, respond, apply_call, run_calls,
}
use dotori.Submissions.Steps.{
  Published, failed_before, failed_after, nothing_due, one_sent, sent_unsaved,
  publish_step-Published,
}
use dotori.Submissions.Once.{
  IsOnce, is_published, times_sent, mark_failed-IsOnce, Sends-IsOnce, unsaved-IsOnce,
  unsaved_other-IsOnce, executable_command-step_id,
}

module _ (env : Environment) where
  abbrev pub is_first : Call env → Bool
  is_first (publish_one now in_transaction replay step_id) = not replay
  is_first (publish_all now in_transaction replay) = not replay
  is_first (respond now kind envelope payload response) = true

  -- The writes after a send of the step raise at the call's time.
  abbrev pub clock_of : Call env → ℕ
  clock_of (publish_one now in_transaction replay step_id) = now
  clock_of (publish_all now in_transaction replay) = now
  clock_of (respond now kind envelope payload response) = now

  abbrev pub is_failure : Result Error (Unit {0}) → Bool
  is_failure (ok u) = false
  is_failure (err e) = true

  abbrev pub write_fails : String → ℕ → Bool
  write_fails name now = is_failure (env.save_published now name)

  -- How many of the calls run while the writes after a send of the step raise.
  abbrev pub failed_writes : String → List (Call env) → ℕ
  failed_writes name = count (λ (c : Call env). write_fails name (clock_of c))

module _ (env : Environment) (name : String) where
  abbrev faults : ℕ → ℕ
  faults now = if write_fails env name now then 1 else 0

  same-IsOnce :
      (n : ℕ) (j j' : Journal)
      → j'.deliveries ≡ j.deliveries
      → j'.sent ≡ j.sent
      → IsOnce n name j
      → IsOnce n name j'
  same-IsOnce n j j' same_deliveries same_sent h = rw (same_deliveries, same_sent) h

  more-IsOnce : (k n : ℕ) (j : Journal) → IsOnce n name j → IsOnce (k + n) name j
  more-IsOnce k n j h = omega (arith, h)

  -- A success sends the step once more only as it marks it; an error may have sent it besides,
  -- where the writes raise.
  abbrev Kept : ℕ → ℕ → Result Error (Unit {0}) × Journal → Type 0
  Kept n now (ok u, j) = IsOnce n name j
  Kept n now (err e, j) = IsOnce (faults now + n) name j

  Published-Kept :
      (n now : ℕ) (step_id : String) (j : Journal) (out : Result Error (Unit {0}) × Journal)
      → Published env now false step_id j out
      → IsOnce n name j
      → Kept n now out
  Published-Kept n now step_id j _ (failed_before e) h =
      more-IsOnce (faults now) n (mark_failed env step_id e j)
        (mark_failed-IsOnce env n name step_id e j j refl refl h)
  Published-Kept n now step_id j _ (failed_after e j1 prepared) h =
      more-IsOnce (faults now) n (mark_failed env step_id e j1)
        (mark_failed-IsOnce env n name step_id e j j1 prepared.sent prepared.deliveries h)
  Published-Kept n now step_id j _ (nothing_due j1 prepared) h =
      same-IsOnce n j j1 prepared.deliveries prepared.sent h
  Published-Kept n now step_id j _ (one_sent j1 prepared sends saved) h =
      Sends-IsOnce env n name now step_id j1 sends
        (same-IsOnce n j j1 prepared.deliveries prepared.sent h)
  Published-Kept n now step_id j _ (sent_unsaved e j1 prepared sends unsaved) h =
      let before : IsOnce n name j1 = same-IsOnce n j j1 prepared.deliveries prepared.sent h in
      elim (Bool-cases (sends.message.command.step_id == name)) [
        | inr other ↦
            more-IsOnce (faults now) n
              (mark_failed env step_id e (record j1 { sent = sends.message ∷ j1.sent }))
              (unsaved_other-IsOnce env n name step_id e j1 sends.message other before)
        | inl same ↦
            let names_step : sends.message.command.step_id ≡ sends.step.step_id =
              executable_command-step_id env j1.row sends.plan sends.step sends.message.command
                sends.adapter sends.executable in
            let is_name : sends.step.step_id ≡ name =
              sym names_step ∙ ==→≡ sends.message.command.step_id name same in
            let raised : env.save_published now name ≡ err e = rw is_name at unsaved in
            rw raised (omega (arith, unsaved-IsOnce env n name step_id e j1 sends.message before))
      ]

  module _ (n now : ℕ) (in_transaction : Bool) where
    publish_step-Kept :
        (step_id : String) (j : Journal)
        → IsOnce n name j
        → Kept n now (publish_step env now in_transaction false step_id j)
    publish_step-Kept step_id j =
        Published-Kept n now step_id j _
          (publish_step-Published env now in_transaction false step_id j)

    publish_each-Kept :
        (steps : List PlanStep) (j : Journal)
        → IsOnce n name j
        → Kept n now (publish_each env now in_transaction false steps j)
    unfolding publish_each
    publish_each-Kept [] j h = h
    publish_each-Kept (step ∷ steps) j h =
        after (publish_step env now in_transaction false step.step_id j)
          (publish_step-Kept step.step_id j h)
          (publish_each-Kept steps (publish_step env now in_transaction false step.step_id j).1)
      where
        after :
            (out : Result Error (Unit {0}) × Journal)
            → Kept n now out
            → (IsOnce n name out.1
                → Kept n now (publish_each env now in_transaction false steps out.1))
            → Kept n now (
                let (outcome, j') = out in
                (elim outcome as (λ x. Result Error (Unit {0}) × Journal) [
                  | ok u ↦ publish_each env now in_transaction false steps j'
                  | err e ↦ (err e, j')
                ]))
        after (ok u, j') first rest = rest first
        after (err e, j') first rest = first

    mark_row-Kept :
        (out : Result Error (Unit {0}) × Journal) → Kept n now out → Kept n now (mark_row env out)
    unfolding mark_row
    mark_row-Kept (ok u, j) h = h
    mark_row-Kept (err e, j) h = h

    publish_submission-Kept :
        (j : Journal)
        → IsOnce n name j
        → Kept n now (publish_submission env now in_transaction false j)
    unfolding publish_submission
    publish_submission-Kept j h = go (eligible_steps env false j.row)
      where
        go :
            (r : Result Error (List PlanStep))
            → Kept n now (elim r as (λ x. Result Error (Unit {0}) × Journal) [
              | ok steps ↦ mark_row env (publish_each env now in_transaction false steps j)
              | err e ↦ mark_row env (err e, j)
            ])
        go (ok steps) = mark_row-Kept _ (publish_each-Kept steps j h)
        go (err e) = mark_row-Kept (err e, j) (more-IsOnce (faults now) n j h)

    Kept-IsOnce :
        (out : Result Error (Unit {0}) × Journal)
        → Kept n now out
        → IsOnce (faults now + n) name out.1
    Kept-IsOnce (ok u, j) h = more-IsOnce (faults now) n j h
    Kept-IsOnce (err e, j) h = h

  module _ (kind : String) (envelope : Envelope) (payload : Payload) (response : Response)
      (j : Journal) where
    store_response-kept :
        (j' : Journal) (report : StepReport)
        → store_response env kind envelope payload response j ≡ ok (report, j')
        → (j'.deliveries ≡ j.deliveries) × (j'.sent ≡ j.sent)
    unfolding store_response
    store_response-kept j' report h =
        let (plan, loaded, h1) = bind-eq-ok (load_submission env.uuid5 j.row.submission) _ h in
        let (_, approved, h2) = bind-eq-ok (approved_delivery env kind envelope payload j) _ h1 in
        let (adapter, adapted, h3) = bind-eq-ok (get_plan_adapter env kind) _ h2 in
        (ground (arith, h3), ground (arith, h3))

    accept_response-kept :
        (j' : Journal) (report : StepReport)
        → accept_response env kind envelope payload response j ≡ ok (report, j')
        → (j'.deliveries ≡ j.deliveries) × (j'.sent ≡ j.sent)
    unfolding accept_response
    accept_response-kept j' report h =
        let (_, approved, h1) = bind-eq-ok (approved_delivery env kind envelope payload j) _ h in
        let (_, valid, h2) =
          bind-eq-ok (validate_followups env.validator response.followups) _ h1 in
        store_response-kept j' report h2

    record_response-IsOnce :
        (n now : ℕ) (r : Result Error (StepReport × Journal))
        → accept_response env kind envelope payload response j ≡ r
        → IsOnce n name j
        → IsOnce (faults now + n) name (record_response env now kind envelope payload response j).1
    unfolding record_response
    record_response-IsOnce n now (err e) h once =
        rw (record_response, h) (more-IsOnce (faults now) n j once)
    record_response-IsOnce n now (ok (report, j')) h once =
        let (same_deliveries, same_sent) = accept_response-kept j' report h in
        let stored : IsOnce n name j' = same-IsOnce n j j' same_deliveries same_sent once in
        elim (Bool-cases (is_succeeded report.status)) [
          | inl done ↦
              rw (record_response, h, done)
                (Kept-IsOnce n now false (publish_submission env now false false j')
                  (publish_submission-Kept n now false j' stored))
          | inr not_done ↦ rw (record_response, h, not_done) (more-IsOnce (faults now) n j' stored)
        ]

  apply_call-IsOnce :
      (n : ℕ) (c : Call env) (j : Journal)
      → is_first env c ≡ true
      → IsOnce n name j
      → IsOnce (faults (clock_of env c) + n) name (apply_call env c j)
  unfolding apply_call
  apply_call-IsOnce n (publish_one now in_transaction false step_id) j first h =
      Kept-IsOnce n now in_transaction (publish_step env now in_transaction false step_id j)
        (publish_step-Kept n now in_transaction step_id j h)
  apply_call-IsOnce n (publish_one now in_transaction true step_id) j first h = cc
  apply_call-IsOnce n (publish_all now in_transaction false) j first h =
      Kept-IsOnce n now in_transaction (publish_submission env now in_transaction false j)
        (publish_submission-Kept n now in_transaction j h)
  apply_call-IsOnce n (publish_all now in_transaction true) j first h = cc
  apply_call-IsOnce n (respond now kind envelope payload response) j first h =
      record_response-IsOnce kind envelope payload response j n now
        (accept_response env kind envelope payload response j) refl h

  run_calls-IsOnce :
      (n : ℕ) (calls : List (Call env)) (j : Journal)
      → all (is_first env) calls ≡ true
      → IsOnce n name j
      → IsOnce (failed_writes env name calls + n) name (run_calls env calls j)
  unfolding run_calls
  run_calls-IsOnce n [] j first h = more-IsOnce 0 n j h
  run_calls-IsOnce n (c ∷ calls) j first h =
      let rest : IsOnce (failed_writes env name calls + (faults (clock_of env c) + n)) name
          (run_calls env calls (apply_call env c j)) =
        run_calls-IsOnce (faults (clock_of env c) + n) calls (apply_call env c j)
          (ground (arith, first)) (apply_call-IsOnce n c j (ground (arith, first)) h) in
      elim (Bool-cases (write_fails env name (clock_of env c))) [
        | inl failing ↦ rw failing (omega (arith, rw failing at rest))
        | inr fine ↦ rw fine (omega (arith, rw fine at rest))
      ]

  -- Calls that ask for no replay, from a journal with no task sent, hand the broker at most one task
  -- of a step, and one more for each call at whose time the writes after a send of that step raise,
  -- whatever the calls, their order and their other errors are.
  pub run_calls-once :
      (calls : List (Call env)) (j : Journal)
      → all (is_first env) calls ≡ true
      → j.sent ≡ []
      → times_sent name (run_calls env calls j).sent ≤ 1 + failed_writes env name calls
  run_calls-once calls j first empty =
      let start : IsOnce 0 name j = rw empty (ground arith) in
      let finish : IsOnce (failed_writes env name calls + 0) name (run_calls env calls j) =
        run_calls-IsOnce 0 calls j first start in
      elim (Bool-cases (is_published name (run_calls env calls j))) [
        | inl marked ↦ omega (arith, rw marked at finish)
        | inr unmarked ↦ omega (arith, rw unmarked at finish)
      ]
