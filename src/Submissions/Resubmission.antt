-- ===== src/Submissions/Resubmission.antt =====
-- A plan that is submitted again: `submit_plan` of app/orchestration/submissions.py.
use dotori.Prelude.{
  String, ◌≡◌, refl, ap, ok-injective, if◌then◌else◌, Result, err, require, Bool, true, false, not,
  ◌&&◌, some, List, [], ◌∷◌, arith, Bool-cases, Option-cases, inl, inr, find?, find?-holds, ok,
  ◌>>=◌, bind-eq-ok,
}
use dotori.Prelude.Classes.{◌==◌, nat_eq, string_eq, ==_refl}
use dotori.Prelude.Dicts.{Dict}
use dotori.Plans.Loading.{load_submission}
use dotori.Plans.{Error, ExecutionPlan, PlanStep}
use dotori.Submissions.{Environment, PlanAdapter, Row, Delivery, validate_submission}
use dotori.Submissions.Publication.{Journal, is_set}
use dotori.Submissions.Deliveries.{ensure_deliveries-HasDelivery, ensure_deliveries_complete}
use dotori.Submissions.Intake.{
  Intake, is_intake, save_journal, new_journal, get_or_create, check_intake, same_plan,
  allows_deadline, ensure_delivery, ensure_deliveries, submit_locked,
}

find?-save_journal :
    (i : Intake) (j : Journal) (js : List Journal)
    → is_intake i j ≡ true
    → find? (is_intake i) (save_journal i j js) ≡ some j
unfolding save_journal
find?-save_journal i j [] h = ground (arith, h)
find?-save_journal i j (k ∷ js) h = elim (Bool-cases (is_intake i k)) [
  | inl here ↦ rw (here, h) refl
  | inr there ↦ rw (there, there) (find?-save_journal i j js h)
]

save_journal_twice :
    (i : Intake) (j : Journal) (js : List Journal)
    → is_intake i j ≡ true
    → save_journal i j (save_journal i j js) ≡ save_journal i j js
unfolding save_journal
save_journal_twice i j [] h = rw h refl
save_journal_twice i j (k ∷ js) h = elim (Bool-cases (is_intake i k)) [
  | inl here ↦ rw (here, h) refl
  | inr there ↦ rw (there, there) (ap (λ rest. k ∷ rest) (save_journal_twice i j js h))
]

module _ (env : Environment) where
  new_journal-intake :
      (i : Intake) (fresh : Journal) → new_journal env i ≡ ok fresh → is_intake i fresh ≡ true
  unfolding new_journal
  new_journal-intake i fresh h =
      let same_workspace : fresh.row.workspace ≡ i.workspace = ground (arith, h) in
      let same_request : fresh.row.submission.request_id ≡ i.plan.request.request_id =
        ground (arith, h) in
      rw (same_workspace, same_request, ==_refl i.workspace, ==_refl i.plan.request.request_id) refl

  get_or_create-intake :
      (i : Intake) (fresh j : Journal) (js : List Journal) (created : Bool)
      → is_intake i fresh ≡ true
      → get_or_create env i fresh js ≡ ok (j, created)
      → is_intake i j ≡ true
  unfolding get_or_create
  get_or_create-intake i fresh j js created is_fresh h =
      elim (Option-cases (find? (is_intake i) js)) [
        | inl missing ↦ let same : fresh ≡ j = ground (arith, missing, h) in rw (← same) is_fresh
        | inr (k, found) ↦
            let same : k ≡ j = ground (arith, found, h) in
            rw (← same) (find?-holds (is_intake i) js k found)
      ]

  -- The environment of a later submission, whose adapters are those of that time: what they read of
  -- the workspaces and the sources may have changed.
  abbrev pub at_later : (String → Result Error PlanAdapter) → Environment
  at_later adapters = record env { load_adapter = adapters }

  module _ (adapters : String → Result Error PlanAdapter) where
    new_journal-at_later :
        (i : Intake) (r : Result Error Journal)
        → new_journal env i ≡ r
        → new_journal (at_later adapters) i ≡ r
    unfolding new_journal
    new_journal-at_later i r h = h

    ensure_delivery-at_later :
        (js : List Journal) (plan : ExecutionPlan) (step : PlanStep) (deliveries : Dict Delivery)
        → ensure_delivery (at_later adapters) js plan step deliveries
          ≡ ensure_delivery env js plan step deliveries
    unfolding ensure_delivery
    ensure_delivery-at_later js plan step deliveries = refl

    ensure_deliveries-at_later :
        (js : List Journal) (plan : ExecutionPlan) (steps : List PlanStep)
        (deliveries last : Dict Delivery)
        → ensure_deliveries env js plan steps deliveries ≡ ok last
        → ensure_deliveries (at_later adapters) js plan steps deliveries ≡ ok last
    unfolding ensure_deliveries
    ensure_deliveries-at_later js plan [] deliveries last h = h
    ensure_deliveries-at_later js plan (step ∷ steps) deliveries last h =
        let (next, one, rest) = bind-eq-ok (ensure_delivery env js plan step deliveries) _ h in
        rw (ensure_delivery-at_later js plan step deliveries, one)
          (ensure_deliveries-at_later js plan steps next last rest)

    -- A row that passed its checks passes them again but for what the adapters say.
    check_intake-at_later :
        (i : Intake) (row : Row) (existing : ExecutionPlan)
        → check_intake env i row ≡ ok existing
        → (load_submission env.uuid5 row.submission ≡ ok existing)
          × (check_intake (at_later adapters) i row
              ≡ (validate_submission (at_later adapters) row existing >>= λ valid. ok existing))
    unfolding check_intake
    check_intake-at_later i row existing h =
        let (_, mode, h1) =
          bind-eq-ok
            (require (if row.is_preparation then i.preparation else not i.preparation)
              Error.plan_validation_error)
            _ h in
        let (_, owner, h2) =
          bind-eq-ok
            (require
              (row.created_by == i.actor
                && row.submission.source_uid == i.plan.request.source.source_id)
              Error.plan_validation_error)
            _ h1 in
        let (loaded_plan, loaded, h3) =
          bind-eq-ok (load_submission env.uuid5 row.submission) _ h2 in
        let (_, same, h4) =
          bind-eq-ok (require (same_plan loaded_plan i.plan) Error.plan_validation_error) _ h3 in
        let (_, timely, h5) =
          bind-eq-ok
            (require (allows_deadline i.deadline_at loaded_plan.request.deadline_at)
              Error.plan_validation_error)
            _ h4 in
        let (_, valid, h6) = bind-eq-ok (validate_submission env row loaded_plan) _ h5 in
        let is_existing : loaded_plan ≡ existing = ok-injective h6 in
        rw (← is_existing) (loaded, rw (mode, owner, loaded, same, timely) refl)

    -- The second submission, from what the first one found.
    module _ (i : Intake) (js : List Journal) (fresh opened : Journal) (existing : ExecutionPlan)
        (deliveries : Dict Delivery) where
      abbrev kept : Journal
      kept = record opened { deliveries = deliveries }

      abbrev answer : Journal × Bool × List Journal
      answer =
          (kept, not i.preparation && not (is_set opened.row.published_at), save_journal i kept js)

      submit_locked-kept :
          new_journal env i ≡ ok fresh
          → is_intake i opened ≡ true
          → check_intake env i opened.row ≡ ok existing
          → ensure_deliveries env js existing existing.steps opened.deliveries ≡ ok deliveries
          → (r : Result Error (Unit {0}))
          → validate_submission (at_later adapters) opened.row existing ≡ r
          → submit_locked (at_later adapters) i (save_journal i kept js)
            ≡ (r >>= λ valid. ok answer)
      unfolding submit_locked get_or_create
      submit_locked-kept made is_opened checked ensured r validated =
          let got : get_or_create (at_later adapters) i fresh (save_journal i kept js)
              ≡ ok (kept, false) =
            rw (get_or_create, find?-save_journal i kept js is_opened) refl in
          let complete : ensure_deliveries (at_later adapters) (save_journal i kept js) existing
                existing.steps deliveries
              ≡ ok deliveries =
            ensure_deliveries-at_later (save_journal i kept js) existing existing.steps deliveries
              deliveries
              (ensure_deliveries_complete env existing (save_journal i kept js) existing.steps
                deliveries
                (ensure_deliveries-HasDelivery env existing js existing.steps opened.deliveries
                  deliveries ensured)) in
          let (loaded, again) = check_intake-at_later i opened.row existing checked in
          let rechecked : check_intake (at_later adapters) i opened.row
              ≡ (r >>= λ valid. ok existing) =
            rw validated at again in
          outcome r got complete rechecked
        where
          outcome :
              (r : Result Error (Unit {0}))
              → get_or_create (at_later adapters) i fresh (save_journal i kept js)
                ≡ ok (kept, false)
              → ensure_deliveries
                  (at_later adapters)
                  (save_journal i kept js)
                  existing
                  existing.steps
                  deliveries
                ≡ ok deliveries
              → check_intake (at_later adapters) i opened.row ≡ (r >>= λ valid. ok existing)
              → submit_locked (at_later adapters) i (save_journal i kept js)
                ≡ (r >>= λ valid. ok answer)
          outcome (ok u) got complete rechecked =
              rw
                (
                  submit_locked,
                  new_journal-at_later i (ok fresh) made,
                  got,
                  rechecked,
                  complete,
                  save_journal_twice i kept js is_opened,
                )
                refl
          outcome (err e) got complete rechecked =
              rw (submit_locked, new_journal-at_later i (ok fresh) made, got, rechecked) refl

      answered_again :
          new_journal env i ≡ ok fresh
          → is_intake i opened ≡ true
          → check_intake env i opened.row ≡ ok existing
          → ensure_deliveries env js existing existing.steps opened.deliveries ≡ ok deliveries
          → (j : Journal) (js' : List Journal) → kept ≡ j
          → save_journal i kept js ≡ js'
          → (p : ExecutionPlan) × (load_submission env.uuid5 j.row.submission ≡ ok p)
            × (submit_locked (at_later adapters) i js' ≡ (
                validate_submission (at_later adapters) j.row p >>= λ valid.
                ok (j, not i.preparation && not (is_set j.row.published_at), js')))
      answered_again made is_opened checked ensured j js' same_journal same_journals =
          rw (← same_journals, ← same_journal)
            (
              existing,
              (check_intake-at_later i opened.row existing checked).0,
              submit_locked-kept made is_opened checked ensured
                  (validate_submission (at_later adapters) opened.row existing) refl,
            )

    -- A plan whose submission succeeded is submitted again, by the same user with the same deadline,
    -- when the adapters may answer otherwise. That submission raises what the validation of the
    -- stored plan raises by then; where it raises nothing, it succeeds with the same journal and
    -- changes no journal, and a publication is scheduled while the first step is unpublished, unless
    -- the plan is a preparation.
    pub submit_locked_again :
        (i : Intake) (js js' : List Journal) (j : Journal) (scheduled : Bool)
        → submit_locked env i js ≡ ok (j, scheduled, js')
        → (existing : ExecutionPlan) × (load_submission env.uuid5 j.row.submission ≡ ok existing)
          × (submit_locked (at_later adapters) i js' ≡ (
              validate_submission (at_later adapters) j.row existing >>= λ valid.
              ok (j, not i.preparation && not (is_set j.row.published_at), js')))
    unfolding submit_locked
    submit_locked_again i js js' j scheduled h =
        let (fresh, made, h1) = bind-eq-ok (new_journal env i) _ h in
        let (opened, got, h2) = bind-eq-ok (get_or_create env i fresh js) _ h1 in
        let is_opened : is_intake i opened.0 ≡ true =
          get_or_create-intake i fresh opened.0 js opened.1 (new_journal-intake i fresh made) got in
        let (existing, checked, h3) = bind-eq-ok (check_intake env i opened.0.row) _ h2 in
        let (deliveries, ensured, h4) =
          bind-eq-ok (ensure_deliveries env js existing existing.steps opened.0.deliveries) _ h3 in
        let answered = ok-injective h4 in
        let same_journal : record opened.0 { deliveries = deliveries } ≡ j =
          ap (λ (a : Journal × Bool × List Journal). a.0) answered in
        let same_journals : save_journal i (record opened.0 { deliveries = deliveries }) js ≡ js' =
          ap (λ (a : Journal × Bool × List Journal). a.2) answered in
        answered_again i js fresh opened.0 existing deliveries made is_opened checked ensured j js'
          same_journal same_journals
