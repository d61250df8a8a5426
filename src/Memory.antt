-- ===== src/Memory.antt =====
-- Memory claims of the model workloads of one machine: app/llm_installation/memory_reservations.py.
-- A JSON file is its parsed value, and the keys of an object stand in any order, since no reader
-- depends on it. Python's `str` and `int` of a value of another type, and the characters of a text,
-- are parameters. A write of the file does not fail, a time is a text, and the clock is read once in
-- a call.
pub mod Values
pub mod RoundTrip
pub mod Refinement
pub mod Totals
mod Tests
use Prim.Native.Nat.{Ordering}
use Prim.Native.String.{compare}
use dotori.Prelude.{
  ℕ, zero, suc, ◌+◌, String, Bool, true, false, not, ◌&&◌, Option, some, none, List, [], ◌∷◌, map,
  any, ltb, if◌then◌else◌, Result, ok, err, ◌>>=◌,
}
use dotori.Prelude.Classes.{◌==◌, string_eq}
use dotori.Prelude.Dicts.{Dict, get, put, remove}
use dotori.Prelude.Text.{nonempty}
use dotori.Memory.Values.{
  Error, Python, File, missing, unreadable, content, Json, null, number, pos, text, items, object,
  to_items, to_entries, entries_of, get_key, text_or, non_negative_int, int_mapping, iterate,
}

pub record MemoryClaim : Type 0 where
  pub workload : String
  pub generation_id : String
  pub device : String
  pub ram_mb : ℕ
  pub vram_per_gpu_mb : List ℕ
  pub components : Dict ℕ
  pub bounds : Dict ℕ
  pub source : String
  pub state : String
  pub claimed_at : String

abbrev pub natural : ℕ → Json
natural n = number (pos n)

abbrev pub natural_entry : String × ℕ → String × Json
natural_entry (k, n) = (k, natural n)

unfoldable pub as_dict : MemoryClaim → Json
as_dict c = object (
    to_entries (
      ("state", text c.state)
      ∷ ("generation_id", text c.generation_id)
      ∷ ("device", text c.device)
      ∷ ("ram_mb", natural c.ram_mb)
      ∷ ("vram_per_gpu_mb", items (to_items (map natural c.vram_per_gpu_mb)))
      ∷ ("components", object (to_entries (map natural_entry c.components)))
      ∷ ("bounds", object (to_entries (map natural_entry c.bounds)))
      ∷ ("source", text c.source)
      ∷ ("claimed_at", text c.claimed_at)
      ∷ []))

module _ (python : Python) where
  unfoldable pub read_fields : String → Json → Result Error MemoryClaim
  read_fields workload payload = do
    vram ← iterate python (get_key "vram_per_gpu_mb" payload)
    ok (record {
      workload = workload;
      generation_id = text_or python (get_key "generation_id" payload) "";
      device = text_or python (get_key "device" payload) "cpu";
      ram_mb = non_negative_int python (get_key "ram_mb" payload);
      vram_per_gpu_mb = map (non_negative_int python) vram;
      components = int_mapping python (get_key "components" payload);
      bounds = int_mapping python (get_key "bounds" payload);
      source = text_or python (get_key "source" payload) "declared";
      state = text_or python (get_key "state" payload) "active";
      claimed_at = text_or python (get_key "claimed_at" payload) "";
    })

  -- `MemoryClaim.from_dict`
  unfoldable pub from_dict : String → Json → Result Error (Option MemoryClaim)
  from_dict workload payload = elim payload [
    | object fields ↦ read_fields workload (object fields) >>= λ claim. ok (some claim)
    | _ ↦ ok none
  ]

  -- The loop of `read_reservations`; the keys of an object are distinct.
  unfoldable pub read_claims : Dict Json → Result Error (Dict MemoryClaim)
  read_claims [] = ok []
  read_claims ((workload, payload) ∷ entries) = do
    found ← from_dict workload payload
    claims ← read_claims entries
    ok (elim found [
      | none ↦ claims
      | some claim ↦ if claim.state == "active" then (workload, claim) ∷ claims else claims
    ])

  unfoldable pub read_reservations : File → Result Error (Dict MemoryClaim)
  read_reservations missing = ok []
  read_reservations unreadable = ok []
  read_reservations (content (object fields)) = elim (get_key "claims" (object fields)) [
    | object entries ↦ read_claims (entries_of entries)
    | _ ↦ ok []
  ]
  read_reservations (content _) = ok []

abbrev claim_entry : String × MemoryClaim → String × Json
claim_entry (workload, claim) = (workload, as_dict claim)

-- `_write_reservations`
unfoldable pub write_reservations : String → String → Dict MemoryClaim → File
write_reservations now scope claims = content (
    object (
      to_entries (
        ("schema_version", natural 1)
        ∷ ("scope", text scope)
        ∷ ("updated_at", text now)
        ∷ ("claims", object (to_entries (map claim_entry claims)))
        ∷ [])))

abbrev pub stamped : String → MemoryClaim → MemoryClaim
stamped now claim = if nonempty claim.claimed_at then claim else record claim { claimed_at = now }

module _ (python : Python) where
  unfoldable pub write_claim : String → String → MemoryClaim → File → Result Error File
  write_claim now scope claim file = do
    claims ← read_reservations python file
    ok (write_reservations now scope (put claim.workload (stamped now claim) claims))

  -- `clear_claim`, which leaves the file alone where nothing is claimed.
  unfoldable pub clear_claim : String → String → String → File → Result Error File
  clear_claim now scope workload file = do
    claims ← read_reservations python file
    ok (elim (get workload claims) [
      | none ↦ file
      | some claim ↦ write_reservations now scope (remove workload claims)
    ])

-- `components[key] = components.get(key, 0) + value`
unfoldable pub add_components : Dict ℕ → Dict ℕ → Dict ℕ
add_components components [] = components
add_components components ((key, value) ∷ rest) =
    add_components
      (put key (elim (get key components) [ none ↦ value | some old ↦ old + value ]) components)
      rest

module _ (python : Python) where
  unfoldable pub add_all : Dict ℕ → List Json → Dict ℕ
  add_all components [] = components
  add_all components (per_gpu ∷ rest) =
      add_all (add_components components (int_mapping python per_gpu)) rest

  -- Older generations carry the totals on the serving profile itself.
  abbrev pub placement_of : Json → Json
  placement_of profile = elim (get_key "memory_placement" profile) [
    | object fields ↦ object fields
    | _ ↦ profile
  ]

  unfoldable pub claim_of : String → Json → Result Error MemoryClaim
  claim_of generation_id placement = do
    listed ← iterate python (get_key "required_vram_per_gpu_mb" placement)
    per_gpu ← iterate python (get_key "vram_components_per_gpu_mb" placement)
    let vram = map (non_negative_int python) listed
    ok (record {
      workload = "llm";
      generation_id = generation_id;
      device = if any (λ mb. ltb zero mb) vram then "cuda" else "cpu";
      ram_mb = non_negative_int python (get_key "required_ram_mb" placement);
      vram_per_gpu_mb = vram;
      components = add_all (int_mapping python (get_key "ram_components_mb" placement)) per_gpu;
      bounds = [];
      source = "planner";
      state = "active";
      claimed_at = "";
    })

  -- `build_llm_claim` on the runtime file of the generation.
  unfoldable pub build_llm_claim : String → File → Result Error (Option MemoryClaim)
  build_llm_claim generation_id (content (object fields)) =
      elim (get_key "target" (object fields)) [
        | object target ↦ elim (get_key "serving_profile" (object target)) [
          | object profile ↦
              claim_of generation_id (placement_of (object profile)) >>= λ claim. ok (some claim)
          | _ ↦ ok none
        ]
        | _ ↦ ok none
      ]
  build_llm_claim generation_id _ = ok none

  -- `claim_llm_runtime`: the runtime's file, and the file of the claims.
  unfoldable pub claim_llm_runtime :
      String → String → String → File → File → Result Error (Option MemoryClaim × File)
  claim_llm_runtime now scope generation_id runtime file = do
    built ← build_llm_claim generation_id runtime
    elim built [
      | none ↦ (let answer : Option MemoryClaim × File = (none, file) in ok answer)
      | some claim ↦ (do
        file' ← write_claim python now scope claim file
        let answer : Option MemoryClaim × File = (some claim, file')
        ok answer)
    ]

pub record ReservationTotal : Type 0 where
  pub ram_mb : ℕ
  pub vram_per_gpu_mb : List ℕ
  pub workloads : List String

unfoldable pub at : List ℕ → ℕ → ℕ
at [] i = 0
at (v ∷ vs) zero = v
at (v ∷ vs) (suc i) = at vs i

-- `vram_for_gpu`
abbrev pub vram_for_gpu : ReservationTotal → ℕ → ℕ
vram_for_gpu total = at total.vram_per_gpu_mb

-- The inner loop: one claim's values added to the list, which grows where it is shorter.
unfoldable pub add_values : List ℕ → List ℕ → List ℕ
add_values vram [] = vram
add_values [] (v ∷ vs) = v ∷ vs
add_values (w ∷ ws) (v ∷ vs) = (w + v) ∷ add_values ws vs

unfoldable pub add_claims : Dict MemoryClaim → ℕ → List ℕ → ℕ × List ℕ
add_claims [] ram vram = (ram, vram)
add_claims ((workload, claim) ∷ claims) ram vram =
    add_claims claims (ram + claim.ram_mb) (add_values vram claim.vram_per_gpu_mb)

abbrev not_after : String → String → Bool
not_after a b = elim (compare a b) [ Ordering.gt ↦ false | _ ↦ true ]

pub insert_name : String → List String → List String
insert_name n [] = n ∷ []
insert_name n (m ∷ ms) =
    let rest = insert_name n ms in if not_after n m then n ∷ m ∷ ms else m ∷ rest

pub sorted_names : List String → List String
sorted_names [] = []
sorted_names (n ∷ ns) = insert_name n (sorted_names ns)

abbrev pub without : Option String → Dict MemoryClaim → Dict MemoryClaim
without none claims = claims
without (some exclude) claims = if nonempty exclude then remove exclude claims else claims

unfoldable pub total_of : Dict MemoryClaim → ReservationTotal
total_of claims = record {
  ram_mb = (add_claims claims 0 []).0;
  vram_per_gpu_mb = (add_claims claims 0 []).1;
  workloads = sorted_names (map (λ (entry : String × MemoryClaim). entry.0) claims);
}

unfoldable pub get_total_reservation : Python → Option String → File → Result Error ReservationTotal
get_total_reservation python exclude file = do
  claims ← read_reservations python file
  ok (total_of (without exclude claims))
