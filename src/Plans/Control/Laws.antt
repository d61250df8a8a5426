-- ===== src/Plans/Control/Laws.antt =====
-- What a decision about a proposed followup rests on.
use mathlib.Core.Path.{ap₂}
use dotori.Prelude.{
  String, ◌≡◌, refl, true, false, Option, some, none, List, [], ◌∷◌, map, arith, Option-cases, inl,
  inr, ok, Result, bind-eq-ok, ok-injective, All,
}
use dotori.Prelude.Classes.{string_eq, elem, subset}
use dotori.Prelude.Dicts.{Dict, get}
use dotori.Plans.{ExecutionPlan, PlanStep, StepCommand, StepReport, Payload, Error, find_step}
use dotori.Plans.Reports.{ready_ids}
use dotori.Plans.Contracts.{Proposal, validate_followups}
use dotori.Plans.Control.{
  Decision, accepted, Reason, Verdict, Round, judge, judge_same, decide_approved, decide_one,
  decide_each, decide_proposals, approved_from, unbound_commands,
}

-- The grounds of an acceptance: an approved command of a step that the proposing step feeds, that
-- has no report yet, and whose dependencies are all ready.
pub record IsReady (round : Round) (step : PlanStep) : Type 0 where
  pub source : String
  pub from_source : round.from_step ≡ some source
  pub feeds : elem source step.depends_on ≡ true
  pub unreported : elem step.step_id round.reported ≡ false
  pub dependencies : subset step.depends_on round.ready ≡ true

abbrev pub AcceptedIsReady : ExecutionPlan → Round → Dict StepCommand → Verdict → Type 0
AcceptedIsReady plan round approved v =
    v.decision ≡ accepted
    → (command : StepCommand) × (step : PlanStep) × (get v.job_id approved ≡ some command)
      × (find_step command.step_id plan.steps ≡ some step)
      × IsReady round step

judge-IsReady :
    (round : Round) (step : PlanStep) → (judge round step).0 ≡ accepted → IsReady round step
unfolding judge
judge-IsReady round step h = elim (Option-cases round.from_step) [
  | inl from ↦ absurd (ground (arith, from))
  | inr (f, from) ↦ record {
    source = f;
    from_source = from;
    feeds = ground (arith, from);
    unreported = ground (arith, from);
    dependencies = ground (arith, from);
  }
]

module _ (uuid5 : String → String) (plan : ExecutionPlan) (round : Round)
    (approved : Dict StepCommand) where
  decide_approved-IsReady :
      (proposal : Proposal) (command : StepCommand) (found : Option PlanStep) {d : Decision}
      {r : Reason}
      → find_step command.step_id plan.steps ≡ found
      → decide_approved uuid5 plan round proposal command ≡ ok (d, r)
      → d ≡ accepted
      → (step : PlanStep) × (found ≡ some step) × IsReady round step
  unfolding decide_approved judge_same
  decide_approved-IsReady proposal command none e h a = absurd (ground (arith, e))
  decide_approved-IsReady proposal command (some step) {d} {r} e h a =
      let judged : (judge round step).0 ≡ accepted = ground (arith, e) in
      (step, refl, judge-IsReady round step judged)

  decide_one-AcceptedIsReady :
      (proposal : Proposal) (found : Option StepCommand) {v : Verdict}
      → get proposal.job_id approved ≡ found
      → decide_one uuid5 plan round approved proposal ≡ ok v
      → (v.job_id ≡ proposal.job_id) × AcceptedIsReady plan round approved v
  unfolding decide_one
  decide_one-AcceptedIsReady proposal none e h =
      (ground (arith, e), λ a. absurd (ground (arith, e)))
  decide_one-AcceptedIsReady proposal (some command) {v} e h =
      let id : v.job_id ≡ proposal.job_id = ground (arith, e) in
      let decided : decide_approved uuid5 plan round proposal command ≡ ok (v.decision, v.reason) =
        ground (arith, e) in
      (
        id,
        λ a.
            let (step, found, ready) =
              decide_approved-IsReady proposal command (find_step command.step_id plan.steps) refl
                decided a in
            (command, step, rw id e, found, ready),
      )

  decide_each-AcceptedIsReady :
      (proposals : List Proposal) {vs : List Verdict}
      → decide_each uuid5 plan round approved proposals ≡ ok vs
      → (map (λ v. v.job_id) vs ≡ map (λ p. p.job_id) proposals)
        × All (AcceptedIsReady plan round approved) vs
  unfolding decide_each
  decide_each-AcceptedIsReady [] {vs} h = rw (← ok-injective h) (refl, tt)
  decide_each-AcceptedIsReady (p ∷ proposals) {vs} h =
      let (v, one, rest) = bind-eq-ok (decide_one uuid5 plan round approved p) _ h in
      let (vs', others, made) =
        bind-eq-ok (decide_each uuid5 plan round approved proposals) _ rest in
      let (id, ready) = decide_one-AcceptedIsReady p (get p.job_id approved) refl one in
      let (ids, all_ready) = decide_each-AcceptedIsReady proposals others in
      rw (← ok-injective made) (ap₂ ◌∷◌ id ids, (ready, all_ready))

abbrev pub approved_commands :
    (String → String) → ExecutionPlan → Option (List StepCommand) → Dict StepCommand
approved_commands uuid5 plan commands =
    approved_from (elim commands [ none ↦ unbound_commands uuid5 plan | some cs ↦ cs ]) []

abbrev pub round_of : Option String → List StepReport → Round
round_of from_step reports = record {
  from_step = from_step;
  ready = ready_ids reports;
  reported = map (λ (r : StepReport). r.step_id) reports;
}

-- A call that does not raise answers each proposal in turn under its own job identity. What it
-- accepts is the job of an approved command of a step of the plan that depends on the proposing
-- step, has no report yet, and whose dependencies have all succeeded with an artifact.
pub decide_proposals-AcceptedIsReady :
    (uuid5 : String → String) (validator : String → Payload → Result Error (Unit {0}))
    (plan : ExecutionPlan) (proposals : List Proposal) (from_step : Option String)
    (reports : List StepReport) (commands : Option (List StepCommand)) {vs : List Verdict}
    → decide_proposals uuid5 validator plan proposals from_step reports commands ≡ ok vs
    → (map (λ v. v.job_id) vs ≡ map (λ p. p.job_id) proposals)
      × All
          (AcceptedIsReady plan
            (round_of from_step reports)
            (approved_commands uuid5 plan commands))
          vs
unfolding decide_proposals
decide_proposals-AcceptedIsReady uuid5 validator plan proposals from_step reports commands h =
    let (_, checked, rest) = bind-eq-ok (validate_followups validator proposals) _ h in
    decide_each-AcceptedIsReady uuid5 plan (round_of from_step reports)
      (approved_commands uuid5 plan commands) proposals rest
