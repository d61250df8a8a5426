-- ===== src/Memory/RoundTrip.antt =====
-- What is read back from the file of claims that was written.
use dotori.Prelude.{
  ℕ, String, ◌≡◌, refl, sym, ap, Bool, true, ◌&&◌, some, List, [], ◌∷◌, map, arith, Bool-cases, inl,
  inr, ok,
}
use dotori.Prelude.Classes.{◌==◌, string_eq, ==→≡}
use dotori.Prelude.Dicts.{Dict, get, put, remove}
use dotori.Prelude.Text.{nonempty}
use dotori.Memory.Values.{
  Python, Json, text, items, object, to_items, items_of, to_entries, entries_of, get_key, text_or,
  non_negative_int, int_entries, int_mapping, iterate, is_true, elements,
}
use dotori.Memory.{
  MemoryClaim, natural, natural_entry, as_dict, read_fields, from_dict, read_claims,
  read_reservations, claim_entry, write_reservations,
}

entries_of-to_entries : (d : Dict Json) → entries_of (to_entries d) ≡ d
unfolding entries_of to_entries
entries_of-to_entries [] = refl
entries_of-to_entries ((k, x) ∷ d) = ap (λ rest. (k, x) ∷ rest) (entries_of-to_entries d)

items_of-to_items : (xs : List Json) → items_of (to_items xs) ≡ xs
unfolding items_of to_items
items_of-to_items [] = refl
items_of-to_items (x ∷ xs) = ap (λ rest. x ∷ rest) (items_of-to_items xs)

-- A claim whose fields read back as they are: its state is active, and its device and source are
-- named.
abbrev pub is_storable : MemoryClaim → Bool
is_storable c = c.state == "active" && nonempty c.device && nonempty c.source

module _ (python : Python) where
  text_or-text : (s : String) → text_or python (text s) "" ≡ s
  unfolding text_or is_true
  text_or-text String.[] = refl
  text_or-text (String.◌∷◌ c s) = refl

  text_or-nonempty : (s default : String) → nonempty s ≡ true → text_or python (text s) default ≡ s
  unfolding text_or is_true
  text_or-nonempty s default h = rw h refl

  iterate-items : (xs : List Json) → iterate python (items (to_items xs)) ≡ ok xs
  unfolding iterate is_true elements to_items items_of
  iterate-items [] = refl
  iterate-items (x ∷ xs) = ap (λ rest. ok (x ∷ rest)) (items_of-to_items xs)

  map-natural : (ns : List ℕ) → map (non_negative_int python) (map natural ns) ≡ ns
  unfolding non_negative_int
  map-natural [] = refl
  map-natural (n ∷ ns) = ap (λ rest. n ∷ rest) (map-natural ns)

  int_mapping-natural :
      (d : Dict ℕ) → int_mapping python (object (to_entries (map natural_entry d))) ≡ d
  unfolding int_mapping int_entries to_entries non_negative_int
  int_mapping-natural [] = refl
  int_mapping-natural ((k, n) ∷ d) = ap (λ rest. (k, n) ∷ rest) (int_mapping-natural d)

  natural-read : (n : ℕ) → non_negative_int python (natural n) ≡ n
  unfolding non_negative_int
  natural-read n = refl

  -- A storable claim reads back as it was written.
  from_dict-as_dict :
      (c : MemoryClaim)
      → is_storable c ≡ true
      → from_dict python c.workload (as_dict c) ≡ ok (some c)
  unfolding from_dict as_dict read_fields get_key to_entries entries_of get
  from_dict-as_dict c h =
      let active : c.state ≡ "active" = ground (arith, h, ==→≡ c.state "active") in
      let named : nonempty c.device ≡ true = ground (arith, h) in
      let sourced : nonempty c.source ≡ true = ground (arith, h) in
      rw
        (
          iterate-items (map natural c.vram_per_gpu_mb),
          map-natural c.vram_per_gpu_mb,
          int_mapping-natural c.components,
          int_mapping-natural c.bounds,
          text_or-text c.generation_id,
          text_or-text c.claimed_at,
          text_or-nonempty c.device "cpu" named,
          text_or-nonempty c.source "declared" sourced,
          natural-read c.ram_mb,
          text_or-nonempty c.state "active" (rw active refl),
        )
        refl

  -- Every claim stands under its workload and is storable.
  unfoldable pub IsFiled : Dict MemoryClaim → Type 0
  IsFiled [] = Unit
  IsFiled ((w, c) ∷ d) = (c.workload ≡ w) × (is_storable c ≡ true) × IsFiled d

  read_claims-claim_entry :
      (d : Dict MemoryClaim) → IsFiled d → read_claims python (map claim_entry d) ≡ ok d
  unfolding read_claims IsFiled
  read_claims-claim_entry [] h = refl
  read_claims-claim_entry ((w, c) ∷ d) (at_w, storable, rest) =
      let active : (c.state == "active") ≡ true = ground (arith, storable) in
      let read : from_dict python w (as_dict c) ≡ ok (some c) =
        rw (← at_w) (from_dict-as_dict c storable) in
      rw (read, read_claims-claim_entry d rest, active) refl

  pub read_reservations-write :
      (now scope : String) (d : Dict MemoryClaim)
      → IsFiled d
      → read_reservations python (write_reservations now scope d) ≡ ok d
  unfolding read_reservations write_reservations get_key to_entries entries_of get
  read_reservations-write now scope d h =
      rw (entries_of-to_entries (map claim_entry d)) (read_claims-claim_entry d h)

  pub IsFiled-put :
      (c : MemoryClaim) (d : Dict MemoryClaim)
      → is_storable c ≡ true
      → IsFiled d
      → IsFiled (put c.workload c d)
  unfolding IsFiled put
  IsFiled-put c [] h filed = (refl, h, tt)
  IsFiled-put c ((w, k) ∷ d) h (at_w, storable, rest) = elim (Bool-cases (w == c.workload)) [
    | inl same ↦ rw same (sym (==→≡ w c.workload same), h, rest)
    | inr other ↦ rw other (at_w, storable, IsFiled-put c d h rest)
  ]

  pub IsFiled-remove : (w : String) (d : Dict MemoryClaim) → IsFiled d → IsFiled (remove w d)
  unfolding IsFiled remove
  IsFiled-remove w [] filed = tt
  IsFiled-remove w ((v, k) ∷ d) (at_v, storable, rest) = elim (Bool-cases (v == w)) [
    | inl same ↦ rw same (IsFiled-remove w d rest)
    | inr other ↦ rw other (at_v, storable, IsFiled-remove w d rest)
  ]
