-- ===== src/Memory/Tests.antt =====
-- Claims of an LLM and of an embedding executor on two GPUs.
use dotori.Prelude.{ℕ, String, ◌≡◌, refl, ◌+◌, false, some, none, List, [], ◌∷◌, ok, err}
use dotori.Prelude.Dicts.{Dict, get, put, remove, IsKeyed}
use dotori.Memory.Values.{
  Python, File, missing, content, type_error, number, negsuc, items, object, to_items, items_of,
  to_entries, entries_of, get_key, is_true, text_or, non_negative_int, int_entries, int_mapping,
  keys_of, elements, iterate,
}
use dotori.Memory.{
  MemoryClaim, natural, as_dict, read_fields, from_dict, read_claims, read_reservations,
  write_reservations, write_claim, clear_claim, add_components, add_all, claim_of, build_llm_claim,
  claim_llm_runtime, at, vram_for_gpu, add_values, add_claims, insert_name, sorted_names, without,
  total_of, get_total_reservation,
}
use dotori.Memory.Refinement.{
  ClaimCall, claim, clear, held_by, nothing_held, run_calls, run_calls-refines,
}
use dotori.Memory.Totals.{ram_of, vram_of, total_of-without}

program : Unit {0}
unfolding get put remove to_items items_of to_entries entries_of get_key is_true text_or
    non_negative_int int_entries int_mapping keys_of elements iterate as_dict read_fields from_dict
    read_claims read_reservations write_reservations write_claim clear_claim add_components add_all
    claim_of build_llm_claim claim_llm_runtime at add_values add_claims insert_name sorted_names
    total_of get_total_reservation run_calls
program = tt

abbrev python : Python
python = record { str = λ x. ""; int = λ x. none; is_zero = λ r. false; characters = λ s. [] }

abbrev llm : MemoryClaim
llm = record {
  workload = "llm";
  generation_id = "g1";
  device = "cuda";
  ram_mb = 700;
  vram_per_gpu_mb = 4000 ∷ 3000 ∷ [];
  components = ("model_weights", 6000) ∷ [];
  bounds = [];
  source = "planner";
  state = "active";
  claimed_at = "";
}

abbrev embedding : MemoryClaim
embedding = record llm {
  workload = "embedding";
  device = "cpu";
  ram_mb = 2000;
  vram_per_gpu_mb = [];
  source = "declared";
  claimed_at = "t0";
}

abbrev calls : List ClaimCall
calls =
    claim "t1" "production" llm
    ∷ claim "t2" "production" embedding
    ∷ clear "t3" "production" "llm"
    ∷ claim "t4" "production" llm
    ∷ []

run_calls-refines_example :
    (file : File) × (d : Dict MemoryClaim) × (run_calls python calls missing ≡ ok file)
    × (read_reservations python file ≡ ok d)
    × ((w : String) → get w d ≡ held_by calls nothing_held w)
run_calls-refines_example = run_calls-refines python calls refl

last_claimed : held_by calls nothing_held "llm" ≡ some (record llm { claimed_at = "t4" })
last_claimed = refl

abbrev both : Dict MemoryClaim
both = ("llm", llm) ∷ ("embedding", embedding) ∷ []

both-IsKeyed : IsKeyed both
unfolding get
both-IsKeyed = (refl, (refl, tt))

total_of-without_example :
    ((total_of both).ram_mb
      ≡ ram_of (get "llm" both) + (total_of (without (some "llm") both)).ram_mb)
    × ((i : ℕ)
        → vram_for_gpu (total_of both) i
          ≡ vram_of i (get "llm" both) + vram_for_gpu (total_of (without (some "llm") both)) i)
total_of-without_example = total_of-without "llm" both both-IsKeyed refl

both_total : total_of both ≡ record {
  ram_mb = 2700;
  vram_per_gpu_mb = 4000 ∷ 3000 ∷ [];
  workloads = "embedding" ∷ "llm" ∷ [];
}
unfolding program
both_total = refl

abbrev runtime : File
runtime = content (
    object (
      to_entries (
        (
          "target",
          object (
              to_entries (
                (
                  "serving_profile",
                  object (
                      to_entries (
                        ("required_ram_mb", natural 700)
                        ∷ (
                          "required_vram_per_gpu_mb",
                          items (to_items (natural 5000 ∷ number (negsuc 1) ∷ [])),
                        )
                        ∷ (
                          "ram_components_mb",
                          object (to_entries (("runtime_overhead", natural 700) ∷ [])),
                        )
                        ∷ (
                          "vram_components_per_gpu_mb",
                          items (
                              to_items (
                                object (to_entries (("runtime_overhead", natural 5000) ∷ []))
                                ∷ [])),
                        )
                        ∷ [])),
                )
                ∷ [])),
        )
        ∷ [])))

runtime_claimed :
    build_llm_claim python "g2" runtime
    ≡ ok (
        some (record {
          workload = "llm";
          generation_id = "g2";
          device = "cuda";
          ram_mb = 700;
          vram_per_gpu_mb = 5000 ∷ 0 ∷ [];
          components = ("runtime_overhead", 5700) ∷ [];
          bounds = [];
          source = "planner";
          state = "active";
          claimed_at = "";
        }))
unfolding program
runtime_claimed = refl

-- A number in the place of the list of GPU values raises.
number-raises :
    read_reservations python (
      content (
        object (
          to_entries (
            (
              "claims",
              object (
                  to_entries
                    (("llm", object (to_entries (("vram_per_gpu_mb", natural 5) ∷ []))) ∷ [])),
            )
            ∷ []))))
    ≡ err type_error
unfolding program
number-raises = refl
