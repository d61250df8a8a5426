-- ===== src/Admission/Order.antt =====
-- The order in which app/documents/embedding/admission.py serves its waiters.
use dotori.Prelude.{
  ℕ, ◌<◌, String, ◌≡◌, refl, Bool, true, false, ◌&&◌, List, [], ◌∷◌, filter, ltb, arith, Bool-cases,
  Option-cases, inl, inr, ok, err, Result, bind-eq-ok, ok-state, require, All, All-of_Member,
  Member-All, find?,
}
use dotori.Prelude.Classes.{◌==◌, nat_eq, string_eq}
use dotori.Admission.{
  Error, queue_full, Waiter, Lease, Admission, priority_of, before, push_waiter, can_enqueue,
  Outcome, leased, is_empty, acquire, is_first, pop_waiter, poll, try_acquire, release, Turn, enter,
  round, probe, give_back, apply_turn, run_turns,
}

-- Each waiter stands before the ones behind it.
abbrev pub Sorted : List Waiter → Type 0
Sorted [] = Unit
Sorted (w ∷ ws) = All (λ x. before w x ≡ true) ws × Sorted ws

before_trans : (a b c : Waiter) → before a b ≡ true → before b c ≡ true → before a c ≡ true
before_trans a b c h k = ground (arith, h, k)

before_total : (a b : Waiter) → before a b ≡ false → before b a ≡ true
before_total a b h = ground (arith, h)

pub All-push_waiter :
    (P : Waiter → Type 0) (w : Waiter) (ws : List Waiter)
    → P w
    → All P ws
    → All P (push_waiter w ws)
unfolding push_waiter
All-push_waiter P w [] pw h = (pw, tt)
All-push_waiter P w (x ∷ xs) pw h = elim (Bool-cases (before w x)) [
  | inl first ↦ rw first (pw, h)
  | inr later ↦ rw later (h.0, All-push_waiter P w xs pw h.1)
]

push_waiter-Sorted : (w : Waiter) (ws : List Waiter) → Sorted ws → Sorted (push_waiter w ws)
unfolding push_waiter
push_waiter-Sorted w [] h = (tt, tt)
push_waiter-Sorted w (x ∷ xs) h = elim (Bool-cases (before w x)) [
  | inl first ↦
      let all = All-of_Member _ xs (λ y at. before_trans w x y first (Member-All _ xs y h.0 at)) in
      rw first ((first, all), h)
  | inr later ↦ rw later (
    All-push_waiter (λ y. before x y ≡ true) w xs (before_total w x later) h.0,
    push_waiter-Sorted w xs h.1,
  )
]

pub All-filter :
    (P : Waiter → Type 0) (p : Waiter → Bool) (ws : List Waiter) → All P ws → All P (filter p ws)
All-filter P p [] h = tt
All-filter P p (x ∷ xs) h = elim (Bool-cases (p x)) [
  | inl kept ↦ rw kept (h.0, All-filter P p xs h.1)
  | inr gone ↦ rw gone (All-filter P p xs h.1)
]

filter-Sorted : (p : Waiter → Bool) (ws : List Waiter) → Sorted ws → Sorted (filter p ws)
filter-Sorted p [] h = tt
filter-Sorted p (x ∷ xs) h = elim (Bool-cases (p x)) [
  | inl kept ↦ rw kept (All-filter _ p xs h.0, filter-Sorted p xs h.1)
  | inr gone ↦ rw gone (filter-Sorted p xs h.1)
]

acquire-Sorted :
    (t : String) (s : Admission) (o : Outcome) (s' : Admission)
    → Sorted s.waiters
    → acquire t s ≡ ok (o, s')
    → Sorted s'.waiters
unfolding acquire
acquire-Sorted t s o s' g h =
    let (p, known, h1) = bind-eq-ok (priority_of t) _ h in
    elim (Bool-cases (ltb s.active s.concurrency && is_empty s.waiters)) [
      | inl free ↦ rw (← ok-state (rw free at h1)) g
      | inr full ↦
          let (_, room, h2) = bind-eq-ok (require (can_enqueue t s) queue_full) _ (rw full at h1) in
          rw (← ok-state h2) (push_waiter-Sorted _ s.waiters g)
    ]

pop_waiter-Sorted : (ws : List Waiter) → Sorted ws → Sorted (pop_waiter ws)
pop_waiter-Sorted [] h = h
pop_waiter-Sorted (w ∷ ws) h = h.1

poll-Sorted :
    (sequence : ℕ) (expired : Bool) (s : Admission)
    → Sorted s.waiters
    → Sorted (poll sequence expired s).1.waiters
unfolding poll
poll-Sorted sequence expired s g =
    elim (Bool-cases (ltb s.active s.concurrency && is_first sequence s.waiters)) [
      | inl turn ↦ rw turn (pop_waiter-Sorted s.waiters g)
      | inr later ↦ elim (Bool-cases expired) [
        | inl late ↦ rw (later, late) (filter-Sorted _ s.waiters g)
        | inr early ↦ rw (later, early) g
      ]
    ]

try_acquire-waiters : (s : Admission) → (try_acquire s).1.waiters ≡ s.waiters
unfolding try_acquire
try_acquire-waiters s = ground arith

release-waiters : (id : ℕ) (s s' : Admission) → release id s ≡ ok s' → s'.waiters ≡ s.waiters
unfolding release
release-waiters id s s' h = elim (Option-cases (find? (λ (l : Lease). l.id == id) s.leases)) [
  | inl e ↦ ground (arith, e, h)
  | inr (l, e) ↦ ground (arith, e, h)
]

apply_turn-Sorted : (t : Turn) (s : Admission) → Sorted s.waiters → Sorted (apply_turn t s).waiters
unfolding apply_turn
apply_turn-Sorted (enter t) s g = entered (acquire t s) refl
  where
    entered :
        (r : Result Error (Outcome × Admission))
        → acquire t s ≡ r
        → Sorted (elim r as (λ r. Admission) [ ok (o, s') ↦ s' | err e ↦ s ]).waiters
    entered (ok (o, s')) h = acquire-Sorted t s o s' g h
    entered (err e) h = g
apply_turn-Sorted (round sequence expired) s g = poll-Sorted sequence expired s g
apply_turn-Sorted probe s g = rw (try_acquire-waiters s) g
apply_turn-Sorted (give_back id) s g = given (release id s) refl
  where
    given :
        (r : Result Error Admission)
        → release id s ≡ r
        → Sorted (elim r as (λ r. Admission) [ ok s' ↦ s' | err e ↦ s ]).waiters
    given (ok s') h = rw (release-waiters id s s' h) g
    given (err e) h = g

run_turns-Sorted :
    (ts : List Turn) (s : Admission) → Sorted s.waiters → Sorted (run_turns ts s).waiters
unfolding run_turns
run_turns-Sorted [] s g = g
run_turns-Sorted (t ∷ ts) s g = run_turns-Sorted ts (apply_turn t s) (apply_turn-Sorted t s g)

granted_first :
    (sequence id : ℕ) (expired : Bool) (s : Admission)
    → Sorted s.waiters
    → (poll sequence expired s).0 ≡ ok (leased id)
    → (s.active < s.concurrency)
      × ((w : Waiter) × (w.sequence ≡ sequence)
          × (s.waiters ≡ w ∷ (poll sequence expired s).1.waiters)
          × All (λ x. before w x ≡ true) (poll sequence expired s).1.waiters)
unfolding poll
granted_first sequence id expired s g h =
    elim (Bool-cases (ltb s.active s.concurrency && is_first sequence s.waiters)) [
      | inl turn ↦ rw turn (ground (arith, turn), first s.waiters (ground (arith, turn)) g)
      | inr later ↦ absurd (ground (arith, later, h))
    ]
  where
    first :
        (ws : List Waiter)
        → is_first sequence ws ≡ true
        → Sorted ws
        → (w : Waiter) × (w.sequence ≡ sequence)
          × (ws ≡ w ∷ pop_waiter ws)
          × All (λ x. before w x ≡ true) (pop_waiter ws)
    first [] h sorted = cc
    first (w ∷ ws) h sorted = (w, ground (arith, h), refl, sorted.0)

-- Whatever turns the threads have taken from an ordered queue, a waiter that is granted a lease by
-- its round finds a free slot and is the first of the queue: each request that still waits has a
-- lower priority, or the same and came later.
pub poll-serves_first :
    (ts : List Turn) (s : Admission) (sequence id : ℕ) (expired : Bool)
    → Sorted s.waiters
    → (poll sequence expired (run_turns ts s)).0 ≡ ok (leased id)
    → ((run_turns ts s).active < (run_turns ts s).concurrency)
      × ((w : Waiter) × (w.sequence ≡ sequence)
          × ((run_turns ts s).waiters ≡ w ∷ (poll sequence expired (run_turns ts s)).1.waiters)
          × All (λ x. before w x ≡ true) (poll sequence expired (run_turns ts s)).1.waiters)
poll-serves_first ts s sequence id expired g h =
    granted_first sequence id expired (run_turns ts s) (run_turns-Sorted ts s g) h
