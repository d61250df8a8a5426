-- ===== src/Submissions/Ready.antt =====
-- When `publish_step` of app/orchestration/submissions.py hands a task to the broker, and what it
-- leaves when it fails.
use dotori.Prelude.{String, ◌≡◌, true, List, ok, All, Member}
use dotori.Prelude.Classes.{string_eq}
use dotori.Plans.Loading.{load_submission}
use dotori.Plans.{ExecutionPlan, PlanStep, StepReport}
use dotori.Plans.Reports.{is_usable}
use dotori.Submissions.{Environment, Row, Message, live_reports, next_step}
use dotori.Submissions.Publication.{Journal}

-- Some report is a success of the step with an artifact.
pub Fed : List StepReport → String → Type 0
Fed reports name = (r : StepReport) × Member r reports × (r.step_id ≡ name) × (is_usable r ≡ true)

module _ (env : Environment) where
  -- The task of a step of the stored plan, each dependency of which has a live report of a success
  -- with an artifact.
  pub record IsDue (step_id : String) (j : Journal) (m : Message) : Type 0 where
    pub row : Row
    pub plan : ExecutionPlan
    pub step : PlanStep
    pub reports : List StepReport
    pub stored : row.reports ≡ j.row.reports
    pub loaded : load_submission env.uuid5 row.submission ≡ ok plan
    pub found : next_step plan step_id ≡ ok step
    pub read : live_reports env row plan ≡ ok reports
    pub fed : All (Fed reports) step.depends_on
    pub named : m.command.step_id ≡ step_id
