-- ===== src/Submissions/Once.antt =====
-- How often a step's task reaches the broker: the `published_at` of its delivery in
-- app/orchestration/submissions.py against the tasks that were sent.
use dotori.Prelude.{
  ℕ, String, ◌≡◌, refl, ap, ◌∙◌, ◌≤◌, Bool, false, Option, some, none, List, arith, Bool-cases,
  Option-cases, inl, inr, if◌then◌else◌, ok, bind-eq-ok, ok-injective, find?-holds, count, ◌+◌, suc,
  ◌∷◌,
}
use dotori.Prelude.Classes.{◌==◌, string_eq, ==→≡}
use dotori.Prelude.Dicts.{Dict, get, put, get-put}
use dotori.Bindings.{ArtifactBinding}
use dotori.Plans.{
  Error, ExecutionPlan, PlanStep, StepCommand, command_for_step, find_step, is_bound,
}
use dotori.Submissions.{Environment, PlanAdapter, Row, Compiled, Delivery, Message, next_step}
use dotori.Submissions.Commands.{port, pinned_command, stored_command, validate_compiled_input}
use dotori.Submissions.Publication.{
  Journal, is_set, executable_command, mark_published, mark_failed,
}
use dotori.Submissions.Steps.{Sends}

pub next_step-step_id :
    (plan : ExecutionPlan) (name : String) (step : PlanStep)
    → next_step plan name ≡ ok step
    → step.step_id ≡ name
unfolding next_step find_step
next_step-step_id plan name step h = elim (Option-cases (find_step name plan.steps)) [
  | inl missing ↦ ground (arith, missing, h)
  | inr (found, e) ↦
      let same : found ≡ step = ok-injective (rw (next_step, e) at h) in
      rw (← same) (==→≡ found.step_id name (find?-holds _ plan.steps found e))
]

command_for_step-step_id :
    (uuid5 : String → String) (plan : ExecutionPlan) (name : String) (command : StepCommand)
    → command_for_step uuid5 plan name ≡ ok command
    → command.step_id ≡ name
unfolding command_for_step find_step
command_for_step-step_id uuid5 plan name command h =
    elim (Option-cases (find_step name plan.steps)) [
      | inl missing ↦ ground (arith, missing, h)
      | inr (found, e) ↦
          let same = ok-injective (rw (command_for_step, e) at h) in
          rw (← same) (==→≡ found.step_id name (find?-holds _ plan.steps found e))
    ]

module _ (env : Environment) (row : Row) (plan : ExecutionPlan) (step : PlanStep)
    (command : StepCommand) where
  pinned_command-step_id :
      (base : StepCommand) (stored : Compiled)
      → pinned_command env row base stored ≡ ok command
      → command.step_id ≡ base.step_id
  unfolding pinned_command
  pinned_command-step_id base stored h = ground (arith, h)

  stored_command-step_id :
      stored_command env row plan step ≡ ok command → command.step_id ≡ step.step_id
  unfolding stored_command
  stored_command-step_id h =
      let (base, made, h1) = bind-eq-ok (command_for_step env.uuid5 plan step.step_id) _ h in
      let of_step = command_for_step-step_id env.uuid5 plan step.step_id base made in
      elim (Bool-cases (is_bound step)) [
        | inl bound ↦
            let h2 = rw bound at h1 in
            let (stored, found, h3) = bind-eq-ok (port (get step.step_id row.compiled)) _ h2 in
            pinned_command-step_id base stored h3 ∙ of_step
        | inr free ↦ rw (← ok-injective (rw free at h1)) of_step
      ]

  validate_compiled_input-step_id :
      (binding : ArtifactBinding) (adapter : PlanAdapter)
      → validate_compiled_input env row plan step binding adapter ≡ ok command
      → command.step_id ≡ step.step_id
  unfolding validate_compiled_input
  validate_compiled_input-step_id binding adapter h =
      let (stored, made, h1) = bind-eq-ok (stored_command env row plan step) _ h in
      let same : stored ≡ command = ground (arith, h1) in stored_command-step_id (rw same at made)

  pub executable_command-step_id :
      (adapter : PlanAdapter)
      → executable_command env row plan step adapter ≡ ok command
      → command.step_id ≡ step.step_id
  unfolding executable_command
  executable_command-step_id adapter h = elim (Option-cases step.input_binding) [
    | inl free ↦
        command_for_step-step_id env.uuid5 plan step.step_id command
          (rw (executable_command, free) at h)
    | inr (binding, bound) ↦
        validate_compiled_input-step_id binding adapter (rw (executable_command, bound) at h)
  ]

abbrev pub is_marked : Option Delivery → Bool
is_marked none = false
is_marked (some d) = is_set d.published_at

abbrev pub is_published : String → Journal → Bool
is_published name j = is_marked (get name j.deliveries)

-- How many tasks of the step the broker was given.
abbrev pub times_sent : String → List Message → ℕ
times_sent name = count (λ (m : Message). m.command.step_id == name)

-- A step that is not marked as published has at most `n` tasks, and one that is marked at most one
-- more.
abbrev pub IsOnce : ℕ → String → Journal → Type 0
IsOnce n name j = times_sent name j.sent ≤ n + (if is_published name j then 1 else 0)

module _ (env : Environment) (name : String) where
  -- A delivery that is written again with the same mark.
  marked-put :
      (step_id : String) (d d' : Delivery) (deliveries : Dict Delivery)
      → get step_id deliveries ≡ some d
      → d'.published_at ≡ d.published_at
      → is_marked (get name (put step_id d' deliveries)) ≡ is_marked (get name deliveries)
  marked-put step_id d d' deliveries found same_mark = elim (Bool-cases (step_id == name)) [
    | inl same ↦
        let at_step : step_id ≡ name = ==→≡ step_id name same in
        let stored : get name deliveries ≡ some d = rw (← at_step) found in
        rw (get-put step_id name d' deliveries, same, stored) (ap is_set same_mark)
    | inr other ↦ rw (get-put step_id name d' deliveries, other) refl
  ]

  pub mark_failed-published :
      (step_id : String) (e : Error) (j : Journal)
      → is_published name (mark_failed env step_id e j) ≡ is_published name j
  unfolding mark_failed
  mark_failed-published step_id e j = elim (Option-cases (get step_id j.deliveries)) [
    | inl missing ↦ rw (mark_failed, missing) refl
    | inr (d, found) ↦
        rw (mark_failed, found)
          (marked-put step_id d (record d { publish_error = env.text_of e }) j.deliveries found
            refl)
  ]

module _ (env : Environment) (n : ℕ) (name : String) where
  mark_failed-sent :
      (step_id : String) (e : Error) (j : Journal) → (mark_failed env step_id e j).sent ≡ j.sent
  unfolding mark_failed
  mark_failed-sent step_id e j = refl

  pub mark_failed-IsOnce :
      (step_id : String) (e : Error) (j j1 : Journal)
      → j1.sent ≡ j.sent
      → j1.deliveries ≡ j.deliveries
      → IsOnce n name j
      → IsOnce n name (mark_failed env step_id e j1)
  mark_failed-IsOnce step_id e j j1 same_sent same_deliveries h =
      rw
        (
          mark_failed-published env name step_id e j1,
          mark_failed-sent step_id e j1,
          same_sent,
          same_deliveries,
        )
        h

  pub Sends-IsOnce :
      (now : ℕ) (step_id : String) (j : Journal)
      → (sends : Sends env false step_id j) → IsOnce n name j
      → IsOnce n name
          (mark_published env now sends.plan sends.step.step_id sends.delivery sends.message j)
  unfolding mark_published
  Sends-IsOnce now step_id j sends h =
      let is_step : sends.step.step_id ≡ step_id =
        next_step-step_id sends.plan step_id sends.step sends.found in
      let names_step : sends.message.command.step_id ≡ sends.step.step_id =
        executable_command-step_id env j.row sends.plan sends.step sends.message.command
          sends.adapter sends.executable in
      let is_message : sends.message.command.step_id ≡ step_id = names_step ∙ is_step in
      let unset : is_set sends.delivery.published_at ≡ false = ground (arith, sends.unpublished) in
      (elim (Bool-cases (step_id == name)) [
        | inl same ↦
            let at_name : step_id ≡ name = ==→≡ step_id name same in
            let none_before : is_published name j ≡ false = rw (← at_name, sends.delivered) unset in
            let sent_before : times_sent name j.sent ≤ n + 0 = rw none_before at h in
            rw
              (
                is_step,
                get-put step_id name
                    (record sends.delivery { published_at = some now; publish_error = "" })
                    j.deliveries,
                is_message,
                same,
              )
              (omega (arith, sent_before))
        | inr other ↦
            rw
              (
                is_step,
                get-put step_id name
                    (record sends.delivery { published_at = some now; publish_error = "" })
                    j.deliveries,
                is_message,
                other,
              )
              h
      ])

  -- A failure of the writes after a send leaves one task more, if it was the step's.
  pub unsaved-IsOnce :
      (step_id : String) (e : Error) (j : Journal) (m : Message)
      → IsOnce n name j
      → IsOnce (suc n) name (mark_failed env step_id e (record j { sent = m ∷ j.sent }))
  unsaved-IsOnce step_id e j m h =
      rw
        (
          mark_failed-published env name step_id e (record j { sent = m ∷ j.sent }),
          mark_failed-sent step_id e (record j { sent = m ∷ j.sent }),
        )
        (elim (Bool-cases (m.command.step_id == name)) [
          | inl same ↦ rw same (omega (arith, h))
          | inr other ↦ rw other (omega (arith, h))
        ])

  pub unsaved_other-IsOnce :
      (step_id : String) (e : Error) (j : Journal) (m : Message)
      → (m.command.step_id == name) ≡ false
      → IsOnce n name j
      → IsOnce n name (mark_failed env step_id e (record j { sent = m ∷ j.sent }))
  unsaved_other-IsOnce step_id e j m other h =
      rw
        (
          mark_failed-published env name step_id e (record j { sent = m ∷ j.sent }),
          mark_failed-sent step_id e (record j { sent = m ∷ j.sent }),
          other,
        )
        h
