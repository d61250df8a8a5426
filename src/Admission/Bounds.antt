-- ===== src/Admission/Bounds.antt =====
-- The bounds of the admission queue of app/documents/embedding/admission.py.
use mathlib.Core.Path.{subst}
use dotori.Prelude.{
  ℕ, suc, ◌+◌, ◌-◌, ◌≤◌, ◌<◌, String, ◌≡◌, refl, Bool, true, false, not, ◌&&◌, ◌||◌, some, List, [],
  ◌∷◌, find?, filter, length, count, bind-eq-ok, ok-state, ok-injective, require, raise_if,
  require-eq-ok, raise_if-eq-ok, ltb, leb, if◌then◌else◌, arith, Bool-cases, Option-cases, inl, inr,
  ok, err, Result, All, length-filter-le,
}
use dotori.Prelude.Classes.{◌==◌, nat_eq, string_eq, ==→≡}
use dotori.Admission.Order.{All-push_waiter, All-filter}
use dotori.Admission.{
  Error, queue_full, Waiter, Lease, Admission, priority_of, before, push_waiter, is_query,
  is_document, can_enqueue, grant, Outcome, leased, queued, is_empty, acquire, is_first, pop_waiter,
  remove_waiter, poll, try_acquire, mark_released, release, Turn, enter, round, probe, give_back,
  apply_turn, run_turns, new_admission,
}

abbrev is_out : Lease → Bool
is_out l = not l.released

abbrev IsKnown : Waiter → Type 0
IsKnown w = (is_query w || is_document w) ≡ true

pub record WellFormed (s : Admission) : Type 0 where
  pub has_slot : 1 ≤ s.concurrency
  pub reserve_fits : s.query_reserve ≤ s.queue_capacity
  pub active_fits : s.active ≤ s.concurrency
  pub active_counts : s.active ≡ count is_out s.leases
  pub waiters_fit : length s.waiters ≤ s.queue_capacity
  pub documents_fit : count is_document s.waiters ≤ s.queue_capacity - s.query_reserve
  pub waiters_known : All IsKnown s.waiters

length-push_waiter : (w : Waiter) (ws : List Waiter) → length (push_waiter w ws) ≡ suc (length ws)
unfolding push_waiter
length-push_waiter w [] = refl
length-push_waiter w (x ∷ xs) = ground (arith, length-push_waiter w xs)

count-push_waiter :
    (p : Waiter → Bool) (w : Waiter) (ws : List Waiter)
    → count p (push_waiter w ws) ≡ count p ws + (if p w then 1 else 0)
unfolding push_waiter
count-push_waiter p w [] = ground arith
count-push_waiter p w (x ∷ xs) = elim (Bool-cases (before w x)) [
  | inl first ↦ rw first (ground arith)
  | inr later ↦ rw later (ground (arith, count-push_waiter p w xs))
]

count-filter : (q p : Waiter → Bool) (ws : List Waiter) → count q (filter p ws) ≤ count q ws
count-filter q p [] = omega arith
count-filter q p (x ∷ xs) = elim (Bool-cases (p x)) [
  | inl kept ↦ rw kept (ground (arith, count-filter q p xs))
  | inr gone ↦ rw gone (ground (arith, count-filter q p xs))
]

count-mark_released :
    (id : ℕ) (ls : List Lease) (l : Lease)
    → find? (λ (l : Lease). l.id == id) ls ≡ some l
    → l.released ≡ false
    → count is_out ls ≡ suc (count is_out (mark_released id ls))
count-mark_released id [] l h out = cc
count-mark_released id (x ∷ xs) l h out = elim (Bool-cases (x.id == id)) [
  | inl here ↦
      let same : x ≡ l = ground (arith, here, h) in
      let open_x : x.released ≡ false = rw same out in rw (here, open_x) refl
  | inr there ↦
      let rest = count-mark_released id xs l (rw there at h) out in rw there (ground (arith, rest))
]

query_not_document : (t : String) → (t == "query") ≡ true → (t == "document") ≡ false
query_not_document t h = rw (==→≡ t "query" h) refl

-- The waiters are the queries and the documents.
length-kinds :
    (ws : List Waiter) → All IsKnown ws → length ws ≡ count is_query ws + count is_document ws
length-kinds [] h = refl
length-kinds (w ∷ ws) h =
    let rest = length-kinds ws h.1 in
    elim (Bool-cases (is_query w)) [
      | inl query ↦ rw (query, query_not_document w.request_type query) (omega (arith, rest))
      | inr other ↦
          let document : is_document w ≡ true = ground (arith, other, h.0) in
          rw (other, document) (omega (arith, rest))
    ]

priority_of-IsKnown :
    (t : String) (p : ℕ) → priority_of t ≡ ok p → ((t == "query") || (t == "document")) ≡ true
unfolding priority_of
priority_of-IsKnown t p h = ground arith

module _ (s : Admission) (g : WellFormed s) where
  grant-WellFormed : (s.active < s.concurrency) → WellFormed (grant s).1
  grant-WellFormed free = record {
    has_slot = g.has_slot;
    reserve_fits = g.reserve_fits;
    active_fits = omega (arith, free);
    active_counts = omega (arith, g.active_counts);
    waiters_fit = g.waiters_fit;
    documents_fit = g.documents_fit;
    waiters_known = g.waiters_known;
  }

  enqueue-WellFormed :
      (t : String) (p : ℕ)
      → priority_of t ≡ ok p
      → can_enqueue t s ≡ true
      → WellFormed (record s {
        next_sequence = s.next_sequence + 1;
        waiters =
            push_waiter
              (record { priority = p; sequence = s.next_sequence; request_type = t })
              s.waiters;
      })
  unfolding can_enqueue
  enqueue-WellFormed t p known room =
      let w : Waiter = record { priority = p; sequence = s.next_sequence; request_type = t } in
      let len = length-push_waiter w s.waiters in
      let docs = count-push_waiter is_document w s.waiters in
      record {
        has_slot = g.has_slot;
        reserve_fits = g.reserve_fits;
        active_fits = g.active_fits;
        active_counts = g.active_counts;
        waiters_fit = ground (arith, len, room);
        documents_fit = ground (arith, docs, room, g.documents_fit);
        waiters_known =
            All-push_waiter IsKnown w s.waiters (priority_of-IsKnown t p known) g.waiters_known;
      }

  remove-WellFormed : (sequence : ℕ) → WellFormed (remove_waiter sequence s)
  remove-WellFormed sequence =
      let keep = (λ (w : Waiter). not (w.sequence == sequence)) in
      let fewer = length-filter-le keep s.waiters in
      let fewer_docs = count-filter is_document keep s.waiters in
      record {
        has_slot = g.has_slot;
        reserve_fits = g.reserve_fits;
        active_fits = g.active_fits;
        active_counts = g.active_counts;
        waiters_fit = omega (arith, fewer, g.waiters_fit);
        documents_fit = omega (arith, fewer_docs, g.documents_fit);
        waiters_known = All-filter IsKnown keep s.waiters g.waiters_known;
      }

  pop-WellFormed : WellFormed (record s { waiters = pop_waiter s.waiters })
  pop-WellFormed = record {
    has_slot = g.has_slot;
    reserve_fits = g.reserve_fits;
    active_fits = g.active_fits;
    active_counts = g.active_counts;
    waiters_fit = popped_fit s.waiters s.queue_capacity g.waiters_fit;
    documents_fit = popped_documents s.waiters (s.queue_capacity - s.query_reserve) g.documents_fit;
    waiters_known = popped_known s.waiters g.waiters_known;
  }
    where
      popped_fit : (ws : List Waiter) (n : ℕ) → length ws ≤ n → length (pop_waiter ws) ≤ n
      popped_fit [] n h = h
      popped_fit (w ∷ ws) n h = omega (arith, h)

      popped_documents :
          (ws : List Waiter) (n : ℕ)
          → count is_document ws ≤ n
          → count is_document (pop_waiter ws) ≤ n
      popped_documents [] n h = h
      popped_documents (w ∷ ws) n h = ground (arith, h)

      popped_known : (ws : List Waiter) → All IsKnown ws → All IsKnown (pop_waiter ws)
      popped_known [] h = h
      popped_known (w ∷ ws) h = h.1

  released-WellFormed :
      (id : ℕ) (l : Lease)
      → find? (λ (l : Lease). l.id == id) s.leases ≡ some l
      → l.released ≡ false
      → (1 ≤ s.active)
        × WellFormed (record s { leases = mark_released id s.leases; active = s.active - 1 })
  released-WellFormed id l found out =
      let counted = count-mark_released id s.leases l found out in
      let busy : 1 ≤ s.active = omega (arith, counted, g.active_counts) in
      (
        busy,
        record {
          has_slot = g.has_slot;
          reserve_fits = g.reserve_fits;
          active_fits = omega (arith, g.active_fits);
          active_counts = omega (arith, counted, g.active_counts);
          waiters_fit = g.waiters_fit;
          documents_fit = g.documents_fit;
          waiters_known = g.waiters_known;
        },
      )

acquire-WellFormed :
    (t : String) (s : Admission) (o : Outcome) (s' : Admission)
    → WellFormed s
    → acquire t s ≡ ok (o, s')
    → WellFormed s'
unfolding acquire
acquire-WellFormed t s o s' g h =
    let (p, known, h1) = bind-eq-ok (priority_of t) _ h in
    elim (Bool-cases (ltb s.active s.concurrency && is_empty s.waiters)) [
      | inl free ↦ rw (← ok-state (rw free at h1)) (grant-WellFormed s g (ground (arith, free)))
      | inr full ↦
          let (_, room, h2) = bind-eq-ok (require (can_enqueue t s) queue_full) _ (rw full at h1) in
          rw (← ok-state h2) (enqueue-WellFormed s g t p known (require-eq-ok _ _ room))
    ]

poll-WellFormed :
    (sequence : ℕ) (expired : Bool) (s : Admission)
    → WellFormed s
    → WellFormed (poll sequence expired s).1
unfolding poll
poll-WellFormed sequence expired s g =
    elim (Bool-cases (ltb s.active s.concurrency && is_first sequence s.waiters)) [
      | inl turn ↦ rw turn (
          grant-WellFormed (record s { waiters = pop_waiter s.waiters }) (pop-WellFormed s g)
            (ground (arith, turn)))
      | inr later ↦ elim (Bool-cases expired) [
        | inl late ↦ rw (later, late) (remove-WellFormed s g sequence)
        | inr early ↦ rw (later, early) g
      ]
    ]

try_acquire-WellFormed : (s : Admission) → WellFormed s → WellFormed (try_acquire s).1
unfolding try_acquire
try_acquire-WellFormed s g =
    elim (Bool-cases (leb s.concurrency s.active || not (is_empty s.waiters))) [
      | inl busy ↦ rw busy g
      | inr free ↦ rw free (grant-WellFormed s g (ground (arith, free)))
    ]

-- A release of a well-formed queue returns, and leaves a well-formed queue.
release-returns :
    (id : ℕ) (s : Admission)
    → WellFormed s
    → (s' : Admission) × (release id s ≡ ok s') × WellFormed s'
unfolding release
release-returns id s g = elim (Option-cases (find? (λ (l : Lease). l.id == id) s.leases)) [
  | inl e ↦ (s, ground (arith, e), g)
  | inr (l, e) ↦ elim (Bool-cases l.released) [
    | inl done ↦ (s, ground (arith, e, done), g)
    | inr out ↦
        let (busy, after) = released-WellFormed s g id l e out in
        (
          record s { leases = mark_released id s.leases; active = s.active - 1 },
          ground (arith, e, out, busy),
          after,
        )
  ]
]

apply_turn-WellFormed : (t : Turn) (s : Admission) → WellFormed s → WellFormed (apply_turn t s)
unfolding apply_turn
apply_turn-WellFormed (enter t) s g = entered (acquire t s) refl
  where
    entered :
        (r : Result Error (Outcome × Admission))
        → acquire t s ≡ r
        → WellFormed (elim r [ ok (o, s') ↦ s' | err e ↦ s ])
    entered (ok (o, s')) h = acquire-WellFormed t s o s' g h
    entered (err e) h = g
apply_turn-WellFormed (round sequence expired) s g = poll-WellFormed sequence expired s g
apply_turn-WellFormed probe s g = try_acquire-WellFormed s g
apply_turn-WellFormed (give_back id) s g =
    let (s', returned, after) = release-returns id s g in rw (apply_turn, returned) after

-- Whatever turns the threads take, a well-formed queue stays one: no more leases are out than
-- there are slots, no more requests wait than the queue holds, documents leave the places that are
-- kept for queries, and the active count is the count of the leases that are not released.
pub run_turns-WellFormed :
    (ts : List Turn) (s : Admission) → WellFormed s → WellFormed (run_turns ts s)
unfolding run_turns
run_turns-WellFormed [] s g = g
run_turns-WellFormed (t ∷ ts) s g =
    run_turns-WellFormed ts (apply_turn t s) (apply_turn-WellFormed t s g)

-- A queue that is made is well-formed, so releasing after any turns never raises.
pub release-total :
    (concurrency capacity reserve : ℕ) (ts : List Turn) (id : ℕ) {s : Admission}
    → new_admission concurrency capacity reserve ≡ ok s
    → (s' : Admission) × (release id (run_turns ts s) ≡ ok s')
unfolding new_admission
release-total concurrency capacity reserve ts id h =
    let (_, slot, h1) = bind-eq-ok (raise_if (ltb concurrency 1) Error.value_error) _ h in
    let (_, fits, h2) = bind-eq-ok (require (leb reserve capacity) Error.value_error) _ h1 in
    let start : WellFormed _ = subst WellFormed (ok-injective h2) (record {
      has_slot = ground (arith, raise_if-eq-ok _ _ slot);
      reserve_fits = ground (arith, require-eq-ok _ _ fits);
      active_fits = omega arith;
      active_counts = refl;
      waiters_fit = omega arith;
      documents_fit = omega arith;
      waiters_known = tt;
    }) in
    let (s', returned, after) = release-returns id _ (run_turns-WellFormed ts _ start) in
    (s', returned)

-- While fewer queries wait than places are kept for them, a query is not turned away.
pub acquire-query_admitted :
    (s : Admission)
    → WellFormed s
    → count is_query s.waiters < s.query_reserve
    → (o : Outcome) × (s' : Admission) × (acquire "query" s ≡ ok (o, s'))
unfolding acquire can_enqueue priority_of
acquire-query_admitted s g few =
    let kinds = length-kinds s.waiters g.waiters_known in
    let room : length s.waiters < s.queue_capacity =
      omega (arith, kinds, few, g.documents_fit, g.reserve_fits) in
    elim (Bool-cases (ltb s.active s.concurrency && is_empty s.waiters)) [
      | inl free ↦ (leased (grant s).0, (grant s).1, ground (arith, free))
      | inr full ↦ (
        queued s.next_sequence,
        record s {
          next_sequence = s.next_sequence + 1;
          waiters =
              push_waiter
                (record { priority = 0; sequence = s.next_sequence; request_type = "query" })
                s.waiters;
        },
        ground (arith, full, room),
      )
    ]
