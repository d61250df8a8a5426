-- ===== src/Memory/Totals.antt =====
-- The memory that is claimed: `get_total_reservation` of app/llm_installation/memory_reservations.py.
use dotori.Prelude.{
  ℕ, zero, suc, ◌+◌, String, ◌≡◌, refl, ap, true, Option, some, none, List, [], ◌∷◌, arith,
  Bool-cases, inl, inr,
}
use dotori.Prelude.Classes.{◌==◌, string_eq, ==→≡}
use dotori.Prelude.Dicts.{Dict, get, remove, IsKeyed}
use dotori.Prelude.Text.{nonempty}
use dotori.Memory.{without, MemoryClaim, at, vram_for_gpu, add_values, add_claims, total_of}

-- What one workload holds in the main memory and on a GPU.
abbrev pub ram_of : Option MemoryClaim → ℕ
ram_of none = 0
ram_of (some c) = c.ram_mb

abbrev pub vram_of : ℕ → Option MemoryClaim → ℕ
vram_of i none = 0
vram_of i (some c) = at c.vram_per_gpu_mb i

at-add_values :
    (vram values : List ℕ) (i : ℕ) → at (add_values vram values) i ≡ at vram i + at values i
unfolding at add_values
at-add_values vram [] i = omega arith
at-add_values [] (v ∷ vs) i = omega arith
at-add_values (w ∷ ws) (v ∷ vs) zero = refl
at-add_values (w ∷ ws) (v ∷ vs) (suc i) = at-add_values ws vs i

add_claims-ram :
    (claims : Dict MemoryClaim) (ram : ℕ) (vram : List ℕ)
    → (add_claims claims ram vram).0 ≡ ram + (add_claims claims 0 []).0
unfolding add_claims
add_claims-ram [] ram vram = omega arith
add_claims-ram ((w, c) ∷ claims) ram vram =
    let all_of = add_claims-ram claims (ram + c.ram_mb) (add_values vram c.vram_per_gpu_mb) in
    let fresh = add_claims-ram claims (0 + c.ram_mb) (add_values [] c.vram_per_gpu_mb) in
    omega (arith, all_of, fresh)

module _ (i : ℕ) where
  add_claims-vram :
      (claims : Dict MemoryClaim) (ram : ℕ) (vram : List ℕ)
      → at (add_claims claims ram vram).1 i ≡ at vram i + at (add_claims claims 0 []).1 i
  unfolding add_claims at
  add_claims-vram [] ram vram = omega arith
  add_claims-vram ((w, c) ∷ claims) ram vram =
      let all_of = add_claims-vram claims (ram + c.ram_mb) (add_values vram c.vram_per_gpu_mb) in
      let fresh = add_claims-vram claims (0 + c.ram_mb) (add_values [] c.vram_per_gpu_mb) in
      omega (
        arith,
        all_of,
        fresh,
        at-add_values vram c.vram_per_gpu_mb i,
        at-add_values [] c.vram_per_gpu_mb i,
      )

remove_absent : (w : String) (d : Dict MemoryClaim) → get w d ≡ none → remove w d ≡ d
unfolding get remove
remove_absent w [] h = refl
remove_absent w ((v, c) ∷ d) h = elim (Bool-cases (v == w)) [
  | inl same ↦ absurd (ground (arith, same, h))
  | inr other ↦ rw other (ap (λ rest. (v, c) ∷ rest) (remove_absent w d (rw other at h)))
]

ram_cons :
    (w : String) (c : MemoryClaim) (d : Dict MemoryClaim)
    → (add_claims ((w, c) ∷ d) 0 []).0 ≡ c.ram_mb + (add_claims d 0 []).0
unfolding add_claims
ram_cons w c d = omega (arith, add_claims-ram d (0 + c.ram_mb) (add_values [] c.vram_per_gpu_mb))

vram_cons :
    (i : ℕ) (w : String) (c : MemoryClaim) (d : Dict MemoryClaim)
    → at (add_claims ((w, c) ∷ d) 0 []).1 i ≡ at c.vram_per_gpu_mb i + at (add_claims d 0 []).1 i
unfolding add_claims at
vram_cons i w c d = omega (
  arith,
  add_claims-vram i d (0 + c.ram_mb) (add_values [] c.vram_per_gpu_mb),
  at-add_values [] c.vram_per_gpu_mb i,
)

-- A pool that adds up over the claims: what a workload holds, beside the rest.
pool_without :
    (pool : Dict MemoryClaim → ℕ) (held : Option MemoryClaim → ℕ)
    → held none ≡ 0
    → ((w : String) (c : MemoryClaim) (d : Dict MemoryClaim)
        → pool ((w, c) ∷ d) ≡ held (some c) + pool d)
    → (w : String) (d : Dict MemoryClaim) → IsKeyed d
    → pool d ≡ held (get w d) + pool (remove w d)
unfolding get remove
pool_without pool held empty cons w [] keyed = omega (arith, empty)
pool_without pool held empty cons w ((v, c) ∷ d) (absent, keyed) = elim (Bool-cases (v == w)) [
  | inl same ↦
      let gone : get w d ≡ none = rw (← ==→≡ v w same) absent in
      rw (same, remove_absent w d gone) (cons v c d)
  | inr other ↦
      let rest = pool_without pool held empty cons w d keyed in
      rw other (omega (arith, rest, cons v c d, cons v c (remove w d)))
]

-- The total without a named workload, which a plan of that workload uses, is the total less what
-- the workload itself holds, in the main memory and on every GPU, where no workload claims twice.
pub total_of-without :
    (w : String) (claims : Dict MemoryClaim)
    → IsKeyed claims
    → nonempty w ≡ true
    → ((total_of claims).ram_mb
        ≡ ram_of (get w claims) + (total_of (without (some w) claims)).ram_mb)
      × ((i : ℕ)
          → vram_for_gpu (total_of claims) i
            ≡ vram_of i (get w claims) + vram_for_gpu (total_of (without (some w) claims)) i)
unfolding total_of
total_of-without w claims keyed named = rw named (
  pool_without (λ d. (add_claims d 0 []).0) ram_of refl ram_cons w claims keyed,
  λ i. pool_without (λ d. at (add_claims d 0 []).1 i) (vram_of i) refl (vram_cons i) w claims keyed,
)
