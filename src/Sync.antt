-- ===== src/Sync.antt =====
-- The unattended sync client: clients/dotori-sync/src/dotori_sync/debounce.py and daemon.py.
-- A reading of the clock is a number of ticks. What `run_sync` of dotori_cli does in a pass is an
-- argument. A run of the daemon is the sequence of its polls, each with the events that other
-- threads report while it sleeps.
pub mod Schedule
mod Tests
use Prim.Native.String.{◌++◌ as text_append}
use dotori.Prelude.{
  ℕ, ◌+◌, String, Bool, true, false, not, ◌&&◌, ◌||◌, Option, none, some, List, [], ◌∷◌, leb,
  if◌then◌else◌,
}
use dotori.Prelude.Text.{nonempty}

pub record DebouncedTrigger : Type 0 where
  pub quiet_seconds : ℕ
  pub last_activity : Option ℕ
  pub is_pending : Bool

abbrev pub new_trigger : ℕ → DebouncedTrigger
new_trigger quiet_seconds = record {
  quiet_seconds = quiet_seconds;
  last_activity = none;
  is_pending = false;
}

abbrev pub mark : ℕ → DebouncedTrigger → DebouncedTrigger
mark now d = record d { last_activity = some now; is_pending = true }

-- `now - self._last_activity >= self.quiet_seconds`, without the subtraction
pub ready : ℕ → DebouncedTrigger → Bool
ready now d = elim d.last_activity [
  | none ↦ false
  | some at ↦ if not d.is_pending then false else leb (at + d.quiet_seconds) now
]

abbrev pub consume : DebouncedTrigger → DebouncedTrigger
consume d = record d { is_pending = false }

-- What a pass of `run_sync` gives: a payload whose `ok` holds, one with the errors of its results,
-- or an exception with its message.
pub data Pass : Type 0 where
  applied : Pass
  refused : List String → Pass
  raised : String → Pass

pub record SyncRunner : Type 0 where
  pub last_error : Option String
  pub run_count : ℕ

-- `"; ".join(errors)`
pub join_errors : List String → String
join_errors [] = ""
join_errors (e ∷ []) = e
join_errors (e ∷ f ∷ errors) = text_append e (text_append "; " (join_errors (f ∷ errors)))

pub error_of : Pass → Option String
error_of applied = none
error_of (refused errors) = some (
    if nonempty (join_errors errors)
    then join_errors errors
    else "One or more sync actions failed.")
error_of (raised message) = some message

pub run_once : Pass → SyncRunner → SyncRunner
run_once pass r = record { last_error = error_of pass; run_count = r.run_count + 1 }

pub record WatchLoop : Type 0 where
  pub runner : SyncRunner
  pub debounce : DebouncedTrigger
  pub fallback_interval_seconds : ℕ
  pub last_run : Option ℕ
  pub is_stopped : Bool

abbrev pub new_loop : SyncRunner → ℕ → ℕ → WatchLoop
new_loop runner debounce_seconds fallback = record {
  runner = runner;
  debounce = new_trigger debounce_seconds;
  fallback_interval_seconds = fallback;
  last_run = none;
  is_stopped = false;
}

abbrev pub notify : ℕ → WatchLoop → WatchLoop
notify now l = record l { debounce = mark now l.debounce }

abbrev pub stop : WatchLoop → WatchLoop
stop l = record l { is_stopped = true }

pub due_to_fallback : ℕ → WatchLoop → Bool
due_to_fallback now l = elim l.last_run [
  | none ↦ true
  | some at ↦ leb (at + l.fallback_interval_seconds) now
]

pub tick : ℕ → Pass → WatchLoop → Bool × WatchLoop
tick now pass l =
    if ready now l.debounce || due_to_fallback now l
    then (
      true,
      record l {
        debounce = consume l.debounce;
        last_run = some now;
        runner = run_once pass l.runner;
      },
    )
    else (false, l)

-- What another thread does while the daemon sleeps.
pub data Event : Type 0 where
  activity : ℕ → Event
  stopping : Event

pub record Poll : Type 0 where
  pub events : List Event
  pub now : ℕ
  pub pass : Pass

pub apply_events : List Event → WatchLoop → WatchLoop
apply_events [] l = l
apply_events (activity t ∷ es) l = apply_events es (notify t l)
apply_events (stopping ∷ es) l = apply_events es (stop l)

-- The loop `while not self._stop`.
pub run_polls : List Poll → WatchLoop → WatchLoop
run_polls [] l = l
run_polls (p ∷ ps) l =
    let awake = apply_events p.events l in
    let rest = run_polls ps (tick p.now p.pass awake).1 in
    if l.is_stopped then l else if awake.is_stopped then awake else rest

pub run_forever : Pass → ℕ → List Poll → WatchLoop → WatchLoop
run_forever first now polls l =
    run_polls polls (record l { runner = run_once first l.runner; last_run = some now })
