-- ===== src/Admission/Tests.antt =====
-- The admission queue with one slot, two places and one of them kept for queries.
use dotori.Prelude.{◌<◌, ◌≡◌, refl, true, false, List, [], ◌∷◌, ok, err, arith, All}
use dotori.Prelude.Classes.{nat_eq, string_eq}
use dotori.Admission.{
  queue_full, Waiter, Admission, new_admission, priority_of, before, push_waiter, can_enqueue,
  Outcome, leased, queued, acquire, poll, try_acquire, release, snapshot, Turn, enter, give_back,
  apply_turn, run_turns,
}
use dotori.Admission.Bounds.{
  WellFormed, run_turns-WellFormed, release-total, acquire-query_admitted,
}
use dotori.Admission.Order.{poll-serves_first}

program : Unit {0}
unfolding new_admission priority_of push_waiter can_enqueue acquire poll try_acquire release
    snapshot apply_turn run_turns
program = tt

abbrev empty : Admission
empty = record {
  concurrency = 1;
  queue_capacity = 2;
  query_reserve = 1;
  next_sequence = 0;
  active = 0;
  waiters = [];
  leases = [];
}

made : new_admission 1 2 1 ≡ ok empty
unfolding program
made = refl

empty-WellFormed : WellFormed empty
empty-WellFormed = record {
  has_slot = omega arith;
  reserve_fits = omega arith;
  active_fits = omega arith;
  active_counts = refl;
  waiters_fit = omega arith;
  documents_fit = omega arith;
  waiters_known = tt;
}

-- A document takes the slot, a document and then a query wait, and the slot is given back.
abbrev turns : List Turn
turns = enter "document" ∷ enter "document" ∷ enter "query" ∷ give_back 0 ∷ []

query_served : (poll 1 false (run_turns turns empty)).0 ≡ ok (leased 1)
unfolding program
query_served = refl

document_waits : (poll 0 false (run_turns turns empty)).0 ≡ ok (queued 0)
unfolding program
document_waits = refl

second_document_refused :
    acquire "document" (run_turns (enter "document" ∷ enter "document" ∷ []) empty) ≡ err queue_full
unfolding program
second_document_refused = refl

run_turns-WellFormed_example : WellFormed (run_turns turns empty)
run_turns-WellFormed_example = run_turns-WellFormed turns empty empty-WellFormed

release-total_example : (s' : Admission) × (release 0 (run_turns turns empty) ≡ ok s')
release-total_example = release-total 1 2 1 turns 0 made

acquire-query_admitted_example :
    (o : Outcome) × (s' : Admission) × (acquire "query" empty ≡ ok (o, s'))
acquire-query_admitted_example = acquire-query_admitted empty empty-WellFormed (omega arith)

poll-serves_first_example :
    ((run_turns turns empty).active < (run_turns turns empty).concurrency)
    × ((w : Waiter) × (w.sequence ≡ 1)
        × ((run_turns turns empty).waiters ≡ w ∷ (poll 1 false (run_turns turns empty)).1.waiters)
        × All (λ x. before w x ≡ true) (poll 1 false (run_turns turns empty)).1.waiters)
poll-serves_first_example = poll-serves_first turns empty 1 1 false tt query_served
