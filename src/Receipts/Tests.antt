-- ===== src/Receipts/Tests.antt =====
-- The receipt service on a small table, and its theorems at that table.
use dotori.Prelude.{
  String, ◌≡◌, refl, true, false, some, none, List, [], ◌∷◌, arith, ok, err, inl, All,
}
use dotori.Prelude.Classes.{string_eq, nat_eq}
use dotori.Receipts.{
  Receipt, Store, running, succeeded, failed, Failure, Request, Payload, Snapshot, ownership_lost,
  job_conflict, claim_execution, complete, fail, no_snapshot, locked_job, update, completed,
  restarted, Call, claim, finish, run_calls, conflicting_job, conflicts_with, overlaps,
  blocked_by_index, save, restart, create_claim, complete_locked, fail_locked, start_claim, begin,
  claim_existing, give_up, new_receipt, apply_call, receipt_ownership, validate_ownership,
  same_ownership, capture,
}
use dotori.Receipts.Exclusion.{Excludes, claim_execution-Excludes}
use dotori.Receipts.Errors.{
  IsClaimError, claim_execution-error, stale-ownership_lost, complete_twice,
}
use dotori.Receipts.Runs.{AttemptsBounded, run_calls-final, run_calls-AttemptsBounded}
use dotori.Receipts.Lifecycle.{Step, claim_execution-Step}

program : Unit {0}
unfolding locked_job update conflicting_job conflicts_with overlaps blocked_by_index save restart
    create_claim complete_locked fail_locked complete fail start_claim begin claim_existing give_up
    new_receipt claim_execution apply_call run_calls receipt_ownership validate_ownership
    same_ownership
program = tt

-- The fingerprint of these tests is the canonical text itself.
abbrev text_of : Payload → String
text_of p = p.text

abbrev node_seven : Snapshot
node_seven = record { node_ids = 7 ∷ []; chunk_ids = []; text = "{node_ids:[7]}" }

abbrev broken : Receipt
broken = record {
  job_id = "job-1";
  work_kind = "parse_document";
  target_key = "node:7";
  payload_fingerprint = "p";
  source_snapshot = node_seven;
  runtime_snapshot = no_snapshot;
  status = failed;
  attempt = 1;
  result = "{}";
  error = some ("TIMEOUT", "late");
  retryable = true;
  followups = "[]";
  finished_at = some 10;
}

abbrev done : Receipt
done = record broken {
  job_id = "job-2";
  target_key = "node:8";
  source_snapshot = no_snapshot;
  status = succeeded;
  retryable = false;
  error = none;
}

abbrev table : Store
table = broken ∷ done ∷ []

abbrev again : Request
again = record {
  job_id = "job-1";
  work_kind = "parse_document";
  target_key = "node:7";
  payload = record { chunk_ids = []; text = "p" };
  source = some node_seven;
  runtime = none;
}

abbrev second_attempt : Store
second_attempt = restarted broken ∷ done ∷ []

claim_again :
    claim_execution text_of 20 none again table
    ≡ ok (record { receipt = restarted broken; should_execute = true }, second_attempt)
unfolding program
claim_again = refl

claim_other_node :
    claim_execution text_of 20 none
      (record again { job_id = "job-3"; target_key = "node:9" })
      second_attempt
    ≡ ok (record { receipt = restarted broken; should_execute = false }, second_attempt)
unfolding program
claim_other_node = refl

claim_execution-Step_example : Step table second_attempt
claim_execution-Step_example = claim_execution-Step text_of 20 none again table claim_again

claim_execution-Excludes_example :
    (locked_job "job-1" second_attempt ≡ some (restarted broken))
    × (running ≡ running)
    × All (Excludes again) second_attempt
claim_execution-Excludes_example =
    claim_execution-Excludes text_of 20 none again table claim_again refl

claim_changed :
    claim_execution text_of 20 none (record again { work_kind = "embed_document" }) table
    ≡ err job_conflict
unfolding program
claim_changed = refl

same_target : (r : Receipt) → locked_job "job-1" table ≡ some r → r.target_key ≡ "node:7"
unfolding program
same_target r h = ground arith

claim_execution-error_example : IsClaimError job_conflict
claim_execution-error_example =
    claim_execution-error text_of 20 none (record again { work_kind = "embed_document" }) table
      job_conflict same_target claim_changed

locked_second : locked_job "job-1" second_attempt ≡ some (restarted broken)
unfolding program
locked_second = refl

owner_of_broken : receipt_ownership none broken ≡ ok (capture broken)
unfolding program
owner_of_broken = refl

stale-ownership_lost_example :
    ((result followups : String)
      → complete 30 none broken result followups second_attempt ≡ err ownership_lost)
    × ((f : Failure) → fail 30 none broken f second_attempt ≡ err ownership_lost)
stale-ownership_lost_example =
    stale-ownership_lost 30 none broken (restarted broken) (capture broken) second_attempt
      owner_of_broken locked_second (omega arith)

abbrev parsed : Receipt
parsed = completed 30 "{chunks:3}" "[]" (restarted broken)

complete_twice_example :
    (complete 30 none (restarted broken) "{chunks:3}" "[]" second_attempt
      ≡ ok (parsed, update parsed second_attempt))
    × (complete 55 none parsed "{chunks:3}" "[]" (update parsed second_attempt)
        ≡ ok (parsed, update parsed second_attempt))
complete_twice_example =
    complete_twice 30 55 (restarted broken) "{chunks:3}" "[]" second_attempt locked_second refl

abbrev script : List Call
script =
    claim 20 none again
    ∷ finish 30 none (restarted broken) "{}" "[]"
    ∷ claim 40 none (record again { job_id = "job-2" })
    ∷ []

locked_done : locked_job "job-2" table ≡ some done
unfolding program
locked_done = refl

run_calls-final_example : locked_job "job-2" (run_calls text_of script table) ≡ some done
run_calls-final_example = run_calls-final text_of script table "job-2" done locked_done (inl refl)

run_calls-AttemptsBounded_example : AttemptsBounded (run_calls text_of script table)
run_calls-AttemptsBounded_example = run_calls-AttemptsBounded text_of script table (omega arith)
