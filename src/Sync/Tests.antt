-- ===== src/Sync/Tests.antt =====
-- The sync daemon with a quiet time of 5 and a fallback interval of 300.
use dotori.Prelude.{
  ◌≡◌, refl, ℕ, ◌+◌, ◌<◌, ◌⊎◌, true, false, none, some, List, [], ◌∷◌, ◌++◌, arith,
}
use dotori.Prelude.Classes.{string_eq}
use dotori.Sync.{
  ready, applied, refused, join_errors, error_of, run_once, WatchLoop, new_loop, notify,
  due_to_fallback, tick, activity, stopping, Poll, apply_events, run_polls, run_forever,
}
use dotori.Sync.Schedule.{run_polls-one_pass, tick-fresh, run_polls-stopped}

program : Unit {0}
unfolding ready join_errors error_of run_once due_to_fallback tick apply_events run_polls
    run_forever
program = tt

abbrev idle : WatchLoop
idle = record (new_loop (record { last_error = none; run_count = 1 }) 5 300) { last_run = some 0 }

-- Activity at 10, 12 and 14, each polled a tick later.
abbrev burst : List Poll
burst =
    record { events = activity 12 ∷ []; now = 13; pass = applied }
    ∷ record { events = activity 14 ∷ []; now = 15; pass = applied }
    ∷ []

two_errors : error_of (refused ("a" ∷ "b" ∷ [])) ≡ some "a; b"
unfolding program
two_errors = refl

first_pass : (run_forever applied 0 [] idle).runner.run_count ≡ 2
unfolding program
first_pass = refl

run_polls-one_pass_example :
    ((run_polls burst (notify 10 idle)).runner.run_count ≡ 1)
    × ((tick 19 applied (run_polls burst (notify 10 idle))).0 ≡ true)
    × ((tick 19 applied (run_polls burst (notify 10 idle))).1.runner ≡ run_once applied idle.runner)
    × ((later : ℕ)
        → ready later (tick 19 applied (run_polls burst (notify 10 idle))).1.debounce ≡ false)
run_polls-one_pass_example =
    run_polls-one_pass 0 10 19 burst applied idle refl refl
      (
        (omega arith, tt),
        omega arith,
        omega arith,
        ((omega arith, tt), omega arith, omega arith, tt),
      )
      (omega arith)

tick-fresh_example :
    (((tick 19 applied idle).0 ≡ true)
      × ((tick 19 applied idle).1.runner ≡ run_once applied idle.runner)
      × ((tick 19 applied idle).1.last_run ≡ some 19))
    ⊎ ((tick 19 applied idle ≡ (false, idle))
        × ((ran : ℕ) × (idle.last_run ≡ some ran) × (19 < ran + 300)))
tick-fresh_example = tick-fresh 19 applied idle

run_polls-stopped_example :
    (run_polls
      (record { events = [] ++ (stopping ∷ []); now = 400; pass = applied } ∷ [])
      idle).runner
    ≡ idle.runner
run_polls-stopped_example = run_polls-stopped [] [] 400 applied [] idle
