-- ===== src/Sync/Schedule.antt =====
-- When the sync daemon runs a pass.
use dotori.Prelude.{
  ℕ, ◌+◌, ◌≤◌, ◌<◌, ◌≡◌, refl, Bool, true, false, ◌||◌, some, List, [], ◌∷◌, leb, arith, inl, inr,
  ◌⊎◌, ◌++◌, ◌∙◌, Bool-cases, Option-cases,
}
use dotori.Sync.{
  ready, Pass, run_once, WatchLoop, notify, stop, due_to_fallback, tick, Event, activity, stopping,
  Poll, apply_events, run_polls,
}

-- The times of a burst: no poll finds the quiet time over since the latest activity, or the
-- fallback interval over since the latest pass.
abbrev pub Activities : ℕ → List Event → Type 0
Activities at [] = Unit
Activities at (activity t ∷ es) = (at ≤ t) × Activities t es
Activities at (stopping ∷ es) = ⊥

abbrev pub latest : ℕ → List Event → ℕ
latest at [] = at
latest at (activity t ∷ es) = latest t es
latest at (stopping ∷ es) = latest at es

-- The activity at `at` and the pass at `ran` are the latest before the polls.
abbrev pub Burst : ℕ → ℕ → ℕ → ℕ → List Poll → Type 0
Burst quiet fallback ran at [] = Unit
Burst quiet fallback ran at (p ∷ ps) =
    Activities at p.events
    × (p.now < latest at p.events + quiet)
    × (p.now < ran + fallback)
    × Burst quiet fallback ran (latest at p.events) ps

abbrev pub latest_of : ℕ → List Poll → ℕ
latest_of at [] = at
latest_of at (p ∷ ps) = latest_of (latest at p.events) ps

abbrev waiting_since : ℕ → WatchLoop → WatchLoop
waiting_since at l = notify at l

apply_events-burst :
    (at : ℕ) (es : List Event) (l : WatchLoop)
    → Activities at es
    → apply_events es (notify at l) ≡ notify (latest at es) l
unfolding apply_events
apply_events-burst at [] l h = refl
apply_events-burst at (activity t ∷ es) l h = apply_events-burst t es l h.1
apply_events-burst at (stopping ∷ es) l h = absurd h

tick-early :
    (quiet at ran now : ℕ) (pass : Pass) (l : WatchLoop)
    → l.last_run ≡ some ran
    → now < at + l.debounce.quiet_seconds
    → now < ran + l.fallback_interval_seconds
    → tick now pass (notify at l) ≡ (false, notify at l)
unfolding tick ready due_to_fallback
tick-early quiet at ran now pass l ran_at a b =
    let no : leb (at + l.debounce.quiet_seconds) now ≡ false = ground (arith, a) in
    let no' : leb (ran + l.fallback_interval_seconds) now ≡ false = ground (arith, b) in
    rw (no, ran_at, no') refl

idle_poll :
    (p : Poll) (ps : List Poll) (l awake : WatchLoop) (r : Bool × WatchLoop)
    → l.is_stopped ≡ false
    → apply_events p.events l ≡ awake
    → awake.is_stopped ≡ false
    → tick p.now p.pass awake ≡ r
    → r.1 ≡ awake
    → run_polls (p ∷ ps) l ≡ run_polls ps awake
unfolding run_polls
idle_poll p ps l awake r going woken still ticked same =
    ground (arith, going, woken, still, ticked, same)

run_polls-Burst :
    (ran at : ℕ) (ps : List Poll) (l : WatchLoop)
    → l.last_run ≡ some ran
    → l.is_stopped ≡ false
    → Burst l.debounce.quiet_seconds l.fallback_interval_seconds ran at ps
    → run_polls ps (notify at l) ≡ notify (latest_of at ps) l
unfolding run_polls
run_polls-Burst ran at [] l ran_at going h = refl
run_polls-Burst ran at (p ∷ ps) l ran_at going h =
    let (acts, soon, fresh, rest) = h in
    let awake = latest at p.events in
    let woken = apply_events-burst at p.events l acts in
    let early = tick-early l.debounce.quiet_seconds awake ran p.now p.pass l ran_at soon fresh in
    idle_poll p ps (notify at l) (notify awake l) (false, notify awake l) going woken going early
      refl
    ∙ run_polls-Burst ran awake ps l ran_at going rest

-- A burst of activity causes no pass while it lasts, and the first poll after the quiet time runs
-- exactly one, which leaves nothing pending.
pub run_polls-one_pass :
    (ran at now : ℕ) (ps : List Poll) (pass : Pass) (l : WatchLoop)
    → l.last_run ≡ some ran
    → l.is_stopped ≡ false
    → Burst l.debounce.quiet_seconds l.fallback_interval_seconds ran at ps
    → latest_of at ps + l.debounce.quiet_seconds ≤ now
    → ((run_polls ps (notify at l)).runner.run_count ≡ l.runner.run_count)
      × ((tick now pass (run_polls ps (notify at l))).0 ≡ true)
      × ((tick now pass (run_polls ps (notify at l))).1.runner ≡ run_once pass l.runner)
      × ((later : ℕ) → ready later (tick now pass (run_polls ps (notify at l))).1.debounce ≡ false)
unfolding tick ready
run_polls-one_pass ran at now ps pass l ran_at going burst quiet =
    let same = run_polls-Burst ran at ps l ran_at going burst in
    let due : leb (latest_of at ps + l.debounce.quiet_seconds) now ≡ true = ground (arith, quiet) in
    rw (same, due) (refl, refl, refl, λ later. refl)

-- A tick runs its pass, and keeps the time of it, or it changes nothing, and then the latest pass
-- is younger than the fallback interval.
pub tick-fresh :
    (now : ℕ) (pass : Pass) (l : WatchLoop)
    → (((tick now pass l).0 ≡ true)
        × ((tick now pass l).1.runner ≡ run_once pass l.runner)
        × ((tick now pass l).1.last_run ≡ some now))
      ⊎ ((tick now pass l ≡ (false, l))
          × ((ran : ℕ) × (l.last_run ≡ some ran) × (now < ran + l.fallback_interval_seconds)))
unfolding tick due_to_fallback
tick-fresh now pass l = elim (Bool-cases (ready now l.debounce || due_to_fallback now l)) [
  | inl due ↦ inl (ground (arith, due), ground (arith, due), ground (arith, due))
  | inr early ↦ elim (Option-cases l.last_run) [
    | inl never ↦ absurd (ground (arith, early, never))
    | inr (ran, e) ↦ inr (ground (arith, early), (ran, e, ground (arith, early, e)))
  ]
]

-- A daemon that is stopped in its sleep runs no further pass, whatever polls follow.
pub run_polls-stopped :
    (before after : List Event) (now : ℕ) (pass : Pass) (ps : List Poll) (l : WatchLoop)
    → (run_polls
        (record { events = before ++ (stopping ∷ after); now = now; pass = pass } ∷ ps)
        l).runner
      ≡ l.runner
unfolding run_polls apply_events
run_polls-stopped before after now pass ps l =
    let (halted, kept) = stops before l in
    elim (Bool-cases l.is_stopped) [
      | inl already ↦ ground (arith, already)
      | inr going ↦ ground (arith, going, halted, kept)
    ]
  where
    keeps :
        (es : List Event) (l : WatchLoop)
        → l.is_stopped ≡ true
        → ((apply_events es l).is_stopped ≡ true) × ((apply_events es l).runner ≡ l.runner)
    keeps [] l h = (h, refl)
    keeps (activity t ∷ es) l h = keeps es (notify t l) h
    keeps (stopping ∷ es) l h = keeps es (stop l) refl

    stops :
        (es : List Event) (l : WatchLoop)
        → ((apply_events (es ++ (stopping ∷ after)) l).is_stopped ≡ true)
          × ((apply_events (es ++ (stopping ∷ after)) l).runner ≡ l.runner)
    stops [] l = keeps after (stop l) refl
    stops (activity t ∷ es) l = stops es (notify t l)
    stops (stopping ∷ es) l = stops es (stop l)
