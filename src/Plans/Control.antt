-- ===== src/Plans/Control.antt =====
-- Decisions about proposed followups: `decide_proposals` of app/orchestration/control.py.
pub mod Laws
use dotori.Prelude.{
  String, Bool, true, false, not, ◌&&◌, ◌||◌, Option, some, none, List, [], ◌∷◌, map, filter,
  if◌then◌else◌, Result, ok, err, ◌>>=◌, ◌>>◌,
}
use dotori.Prelude.Classes.{◌==◌, string_eq, elem, subset}
use dotori.Prelude.Dicts.{Dict, get, put}
use dotori.Plans.{
  ExecutionPlan, PlanStep, StepCommand, StepReport, Payload, Error, payload_equals, find_step,
  is_bound, command_of, command_for_step, attribute_error,
}
use dotori.Plans.Reports.{ready_ids}
use dotori.Plans.Contracts.{Proposal, validate_followups}

pub data Decision : Type 0 where
  rejected duplicate blocked accepted : Decision

pub data Reason : Type 0 where
  outside_approved_plan already_approved_command invalid_step_lineage dependencies_not_ready
        approved_step_ready :
      Reason

pub record Verdict : Type 0 where
  pub job_id : String
  pub decision : Decision
  pub reason : Reason

-- `{command.job_id: command for command in commands}`
unfoldable pub approved_from : List StepCommand → Dict StepCommand → Dict StepCommand
approved_from [] approved = approved
approved_from (c ∷ commands) approved = approved_from commands (put c.job_id c approved)

-- The arguments of one round of the loop that its branches read.
pub record Round : Type 0 where
  pub from_step : Option String
  pub ready : List String
  pub reported : List String

abbrev pub is_from : Option String → String → Bool
is_from none step_id = false
is_from (some f) step_id = f == step_id

-- `from_step not in step.depends_on`, where `None` is in no tuple of identities.
abbrev pub depends_on_source : Option String → PlanStep → Bool
depends_on_source none step = false
depends_on_source (some f) step = elem f step.depends_on

-- `from_step is None or step.step_id == from_step or step.step_id in reported`
abbrev pub is_repeated : Round → PlanStep → Bool
is_repeated round step = elim round.from_step [
  | none ↦ true
  | some f ↦ step.step_id == f || elem step.step_id round.reported
]

unfoldable pub judge : Round → PlanStep → Decision × Reason
judge round step =
    if is_repeated round step
    then (duplicate, already_approved_command)
    else if not (depends_on_source round.from_step step)
    then (rejected, invalid_step_lineage)
    else if not (subset step.depends_on round.ready)
    then (blocked, dependencies_not_ready)
    else (accepted, approved_step_ready)

-- `proposal.get("parent_job_id", parent) == parent`
abbrev pub lineage_fits : Option (Option String) → String → Bool
lineage_fits none parent = true
lineage_fits (some none) parent = false
lineage_fits (some (some given)) parent = given == parent

unfoldable pub same_command : Proposal → StepCommand → String → Bool
same_command proposal command parent =
    proposal.work_kind == command.work_kind
    && payload_equals proposal.payload command.payload
    && lineage_fits proposal.parent_job_id parent

-- A proposal whose command is approved, with the step of that command where the plan has one.
unfoldable pub judge_same : Round → Option PlanStep → Result Error (Decision × Reason)
judge_same round (some step) = ok (judge round step)
judge_same round none = elim round.from_step [
  | none ↦ ok (duplicate, already_approved_command)
  | some f ↦ err attribute_error
]

abbrev pub depends_on_of : Option PlanStep → List String
depends_on_of none = []
depends_on_of (some step) = step.depends_on

module _ (uuid5 : String → String) where
  -- `command_for_step(plan, step.depends_on[0]).job_id if step and step.depends_on else plan.plan_id`
  unfoldable pub parent_of : ExecutionPlan → List String → Result Error String
  parent_of plan [] = ok plan.plan_id
  parent_of plan (first ∷ rest) = do command ← command_for_step uuid5 plan first; ok command.job_id

  unfoldable pub decide_approved :
      ExecutionPlan → Round → Proposal → StepCommand → Result Error (Decision × Reason)
  decide_approved plan round proposal command = do
    let step = find_step command.step_id plan.steps
    parent ← parent_of plan (depends_on_of step)
    if same_command proposal command parent
        then judge_same round step
        else ok (rejected, outside_approved_plan)

  unfoldable pub decide_one :
      ExecutionPlan → Round → Dict StepCommand → Proposal → Result Error Verdict
  decide_one plan round approved proposal = do
    (decision, reason) ← (elim (get proposal.job_id approved) [
      | none ↦ ok (rejected, outside_approved_plan)
      | some command ↦ decide_approved plan round proposal command
    ])
    ok (record { job_id = proposal.job_id; decision = decision; reason = reason })

  unfoldable pub decide_each :
      ExecutionPlan → Round → Dict StepCommand → List Proposal → Result Error (List Verdict)
  decide_each plan round approved [] = ok []
  decide_each plan round approved (proposal ∷ proposals) = do
    verdict ← decide_one plan round approved proposal
    verdicts ← decide_each plan round approved proposals
    ok (verdict ∷ verdicts)

  -- The commands of the steps that need no compiled input.
  abbrev pub unbound_commands : ExecutionPlan → List StepCommand
  unbound_commands plan = map (command_of uuid5 plan) (filter (λ s. not (is_bound s)) plan.steps)

  unfoldable pub decide_proposals :
      (String → Payload → Result Error (Unit {0}))
      → ExecutionPlan
      → List Proposal
      → Option String
      → List StepReport
      → Option (List StepCommand)
      → Result Error (List Verdict)
  decide_proposals validator plan proposals from_step reports commands = do
    validate_followups validator proposals
    let approved = approved_from (elim commands [ none ↦ unbound_commands plan | some cs ↦ cs ]) []
    decide_each plan
        (record {
          from_step = from_step;
          ready = ready_ids reports;
          reported = map (λ (r : StepReport). r.step_id) reports;
        })
        approved proposals
