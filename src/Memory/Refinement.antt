-- ===== src/Memory/Refinement.antt =====
-- The file of claims as a map from workloads to claims: what writing and reading it back gives.
use mathlib.Core.Path.{subst}
use dotori.Prelude.{
  String, ◌≡◌, refl, Bool, true, Option, some, none, List, [], ◌∷◌, all, arith, Bool-cases,
  Option-cases, inl, inr, if◌then◌else◌, Result, ok, ◌>>=◌,
}
use dotori.Prelude.Classes.{◌==◌, string_eq, ==→≡}
use dotori.Prelude.Dicts.{Dict, get, put, remove, get-put, get-remove}
use dotori.Prelude.Text.{nonempty}
use dotori.Memory.RoundTrip.{
  is_storable, IsFiled, IsFiled-put, IsFiled-remove, read_reservations-write,
}
use dotori.Memory.Values.{Error, Python, File, missing}
use dotori.Memory.{
  MemoryClaim, read_reservations, write_reservations, stamped, write_claim, clear_claim,
}

-- A call that changes the file, with its time and scope.
pub data ClaimCall : Type 0 where
  claim : String → String → MemoryClaim → ClaimCall
  clear : String → String → String → ClaimCall

abbrev pub is_admissible : ClaimCall → Bool
is_admissible (claim now scope c) = is_storable c
is_admissible (clear now scope workload) = true

-- The claims that are held: what each workload claimed last and has not released.
abbrev pub nothing_held : String → Option MemoryClaim
nothing_held w = none

abbrev pub held_after : ClaimCall → (String → Option MemoryClaim) → String → Option MemoryClaim
held_after (claim now scope c) held w = if c.workload == w then some (stamped now c) else held w
held_after (clear now scope workload) held w = if workload == w then none else held w

abbrev pub held_by : List ClaimCall → (String → Option MemoryClaim) → String → Option MemoryClaim
held_by [] held = held
held_by (call ∷ calls) held = held_by calls (held_after call held)

module _ (python : Python) where
  abbrev pub apply_call : ClaimCall → File → Result Error File
  apply_call (claim now scope c) = write_claim python now scope c
  apply_call (clear now scope workload) = clear_claim python now scope workload

  unfoldable pub run_calls : List ClaimCall → File → Result Error File
  run_calls [] file = ok file
  run_calls (call ∷ calls) file = apply_call call file >>= run_calls calls

  -- The file holds the claims.
  Holds : File → (String → Option MemoryClaim) → Type 0
  Holds file held =
      (d : Dict MemoryClaim) × (read_reservations python file ≡ ok d)
      × IsFiled python d
      × ((w : String) → get w d ≡ held w)

  stamped-storable :
      (now : String) (c : MemoryClaim) → is_storable c ≡ true → is_storable (stamped now c) ≡ true
  stamped-storable now c h = elim (Bool-cases (nonempty c.claimed_at)) [
    | inl dated ↦ rw dated h
    | inr undated ↦ rw undated h
  ]

  stamped-workload : (now : String) (c : MemoryClaim) → (stamped now c).workload ≡ c.workload
  stamped-workload now c = elim (Bool-cases (nonempty c.claimed_at)) [
    | inl dated ↦ rw dated refl
    | inr undated ↦ rw undated refl
  ]

  write_claim-Holds :
      (now scope : String) (c : MemoryClaim) (file : File) (held : String → Option MemoryClaim)
      → is_storable c ≡ true
      → Holds file held
      → (file' : File) × (write_claim python now scope c file ≡ ok file')
        × Holds file' (held_after (claim now scope c) held)
  unfolding write_claim Holds
  write_claim-Holds now scope c file held storable (d, read, filed, same) =
      let kept : Dict MemoryClaim = put c.workload (stamped now c) d in
      let filed' : IsFiled python kept =
        subst (λ w. IsFiled python (put w (stamped now c) d)) (stamped-workload now c)
          (IsFiled-put python (stamped now c) d (stamped-storable now c storable) filed) in
      (
        write_reservations now scope kept,
        rw read refl,
        (
          kept,
          read_reservations-write python now scope kept filed',
          filed',
          λ w. rw (← same w) (get-put c.workload w (stamped now c) d),
        ),
      )

  clear_claim-Holds :
      (now scope workload : String) (file : File) (held : String → Option MemoryClaim)
      → Holds file held
      → (file' : File) × (clear_claim python now scope workload file ≡ ok file')
        × Holds file' (held_after (clear now scope workload) held)
  unfolding clear_claim Holds
  clear_claim-Holds now scope workload file held (d, read, filed, same) =
      elim (Option-cases (get workload d)) [
        | inl absent ↦ (
          file,
          rw (read, absent) refl,
          (
            d,
            read,
            filed,
            λ w. elim (Bool-cases (workload == w)) [
              | inl here ↦ rw (here, ← ==→≡ workload w here) absent
              | inr other ↦ rw other (same w)
            ],
          ),
        )
        | inr (c, present) ↦
            let kept : Dict MemoryClaim = remove workload d in
            (
              write_reservations now scope kept,
              rw (read, present) refl,
              (
                kept,
                read_reservations-write python now scope kept
                    (IsFiled-remove python workload d filed),
                IsFiled-remove python workload d filed,
                λ w. rw (← same w) (get-remove workload w d),
              ),
            )
      ]

  apply_call-Holds :
      (call : ClaimCall) (file : File) (held : String → Option MemoryClaim)
      → is_admissible call ≡ true
      → Holds file held
      → (file' : File) × (apply_call call file ≡ ok file') × Holds file' (held_after call held)
  apply_call-Holds (claim now scope c) file held admissible holds =
      write_claim-Holds now scope c file held admissible holds
  apply_call-Holds (clear now scope workload) file held admissible holds =
      clear_claim-Holds now scope workload file held holds

  run_calls-Holds :
      (calls : List ClaimCall) (file : File) (held : String → Option MemoryClaim)
      → all is_admissible calls ≡ true
      → Holds file held
      → (file' : File) × (run_calls calls file ≡ ok file') × Holds file' (held_by calls held)
  unfolding run_calls
  run_calls-Holds [] file held h holds = (file, refl, holds)
  run_calls-Holds (call ∷ calls) file held h holds =
      let (next, one, next_holds) = apply_call-Holds call file held (ground (arith, h)) holds in
      let (last, rest, last_holds) =
        run_calls-Holds calls next (held_after call held) (ground (arith, h)) next_holds in
      (last, rw one rest, last_holds)

  -- From a machine without a file of claims, calls that claim and release never raise, and reading
  -- the file that they leave gives each workload the claim that it made last and has not released,
  -- where each claim is active and names its device and its source.
  pub run_calls-refines :
      (calls : List ClaimCall)
      → all is_admissible calls ≡ true
      → (file : File) × (d : Dict MemoryClaim) × (run_calls calls missing ≡ ok file)
        × (read_reservations python file ≡ ok d)
        × ((w : String) → get w d ≡ held_by calls nothing_held w)
  unfolding Holds read_reservations IsFiled get
  run_calls-refines calls h =
      let (file, ran, (d, read, filed, same)) =
        run_calls-Holds calls missing nothing_held h ([], refl, tt, λ w. refl) in
      (file, d, ran, read, same)
