-- ===== src/Admission.antt =====
-- The admission queue in front of the embedding model: app/documents/embedding/admission.py.
-- Each method body runs under the condition's lock, so a run is a sequence of calls: `acquire` up to
-- its first wait, one round of its loop for each wake-up or time-out, `try_acquire` and `release`.
-- The heap stands as the list of its waiters in order, whose first is the heap's first. A lease
-- that was handed out stands in `leases` with its `_released` flag.
pub mod Order
pub mod Bounds
mod Tests
use dotori.Prelude.{
  ℕ, ◌+◌, ◌-◌, String, Bool, true, false, not, ◌&&◌, ◌||◌, Option, none, some, List, [], ◌∷◌, any,
  find?, filter, length, count, ltb, leb, if◌then◌else◌, Result, ok, err, ◌>>=◌, ◌>>◌, require,
  raise_if,
}
use dotori.Prelude.Classes.{◌==◌, nat_eq, string_eq}

pub data Error : Type 0 where
  value_error queue_full queue_timeout runtime_error : Error

pub record Waiter : Type 0 where
  pub priority : ℕ
  pub sequence : ℕ
  pub request_type : String

pub record Lease : Type 0 where
  pub id : ℕ
  pub released : Bool

pub record Admission : Type 0 where
  pub concurrency : ℕ
  pub queue_capacity : ℕ
  pub query_reserve : ℕ
  pub next_sequence : ℕ
  pub active : ℕ
  pub waiters : List Waiter
  pub leases : List Lease

-- `EmbeddingPriorityAdmission(...)`
pub new_admission : ℕ → ℕ → ℕ → Result Error Admission
new_admission concurrency queue_capacity query_reserve = do
  raise_if (ltb concurrency 1) value_error
  require (leb query_reserve queue_capacity) value_error
  ok (record {
    concurrency = concurrency;
    queue_capacity = queue_capacity;
    query_reserve = query_reserve;
    next_sequence = 0;
    active = 0;
    waiters = [];
    leases = [];
  })

pub priority_of : String → Result Error ℕ
priority_of request_type =
    if request_type == "query"
    then ok 0
    else if request_type == "document"
    then ok 10
    else err value_error

-- The order of the dataclass: by priority, then by sequence.
abbrev pub before : Waiter → Waiter → Bool
before a b = ltb a.priority b.priority || a.priority == b.priority && leb a.sequence b.sequence

-- `heapq.heappush`
pub push_waiter : Waiter → List Waiter → List Waiter
push_waiter w [] = w ∷ []
push_waiter w (x ∷ xs) = let rest = push_waiter w xs in if before w x then w ∷ x ∷ xs else x ∷ rest

abbrev pub is_query : Waiter → Bool
is_query w = w.request_type == "query"

abbrev pub is_document : Waiter → Bool
is_document w = w.request_type == "document"

pub can_enqueue : String → Admission → Bool
can_enqueue request_type s =
    if leb s.queue_capacity (length s.waiters)
    then false
    else if request_type == "document"
        && leb (s.queue_capacity - s.query_reserve) (count is_document s.waiters)
    then false
    else true

-- `self._active += 1; return AdmissionLease(self)`
abbrev pub grant : Admission → ℕ × Admission
grant s = (
  length s.leases,
  record s {
    active = s.active + 1;
    leases = record { id = length s.leases; released = false } ∷ s.leases;
  },
)

-- What a caller of `acquire` meets: a lease, or its place in the queue.
pub data Outcome : Type 0 where
  leased : ℕ → Outcome
  queued : ℕ → Outcome

abbrev pub is_empty : List Waiter → Bool
is_empty [] = true
is_empty (w ∷ ws) = false

-- `acquire`, up to its first wait.
pub acquire : String → Admission → Result Error (Outcome × Admission)
acquire request_type s = do
  priority ← priority_of request_type
  if ltb s.active s.concurrency && is_empty s.waiters
      then ok (leased (grant s).0, (grant s).1)
      else do
        require (can_enqueue request_type s) queue_full
        ok (
          queued s.next_sequence,
          record s {
            next_sequence = s.next_sequence + 1;
            waiters =
                push_waiter
                  (record {
                    priority = priority;
                    sequence = s.next_sequence;
                    request_type = request_type;
                  })
                  s.waiters;
          },
        )

-- `self._waiters[0] is waiter`
abbrev pub is_first : ℕ → List Waiter → Bool
is_first sequence [] = false
is_first sequence (w ∷ ws) = w.sequence == sequence

abbrev pub pop_waiter : List Waiter → List Waiter
pop_waiter [] = []
pop_waiter (w ∷ ws) = ws

-- `_remove_waiter`
abbrev pub remove_waiter : ℕ → Admission → Admission
remove_waiter sequence s = record s {
  waiters = filter (λ (w : Waiter). not (w.sequence == sequence)) s.waiters;
}

-- One round of the loop of the waiter of a sequence, with the test `remaining <= 0`. An exception
-- leaves the queue without its waiter.
pub poll : ℕ → Bool → Admission → Result Error Outcome × Admission
poll sequence expired s =
    if ltb s.active s.concurrency && is_first sequence s.waiters
    then (ok (leased (grant s).0), (grant (record s { waiters = pop_waiter s.waiters })).1)
    else if expired
    then (err queue_timeout, remove_waiter sequence s)
    else (ok (queued sequence), s)

pub try_acquire : Admission → Option ℕ × Admission
try_acquire s =
    if leb s.concurrency s.active || not (is_empty s.waiters)
    then (none, s)
    else (some (grant s).0, (grant s).1)

abbrev pub mark_released : ℕ → List Lease → List Lease
mark_released id [] = []
mark_released id (l ∷ ls) =
    if l.id == id then record l { released = true } ∷ ls else l ∷ mark_released id ls

-- `lease.release()`, of a lease that was handed out.
pub release : ℕ → Admission → Result Error Admission
release id s = elim (find? (λ (l : Lease). l.id == id) s.leases) [
  | none ↦ ok s
  | some l ↦
      if l.released
      then ok s
      else if ltb s.active 1
      then err runtime_error
      else ok (record s { leases = mark_released id s.leases; active = s.active - 1 })
]

-- `snapshot`
pub record Snapshot : Type 0 where
  pub active : ℕ
  pub waiting : ℕ
  pub query_waiting : ℕ
  pub document_waiting : ℕ

pub snapshot : Admission → Snapshot
snapshot s = record {
  active = s.active;
  waiting = length s.waiters;
  query_waiting = count is_query s.waiters;
  document_waiting = count is_document s.waiters;
}

-- A turn of one thread under the lock.
pub data Turn : Type 0 where
  enter : String → Turn
  round : ℕ → Bool → Turn
  probe : Turn
  give_back : ℕ → Turn

pub apply_turn : Turn → Admission → Admission
apply_turn (enter request_type) s = elim (acquire request_type s) [ ok (o, s') ↦ s' | err e ↦ s ]
apply_turn (round sequence expired) s = (poll sequence expired s).1
apply_turn probe s = (try_acquire s).1
apply_turn (give_back id) s = elim (release id s) [ ok s' ↦ s' | err e ↦ s ]

pub run_turns : List Turn → Admission → Admission
run_turns [] s = s
run_turns (t ∷ ts) s = run_turns ts (apply_turn t s)
