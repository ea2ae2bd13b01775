-- ===== src/Tests/QueueTests.antt =====
-- The queue's theorems at the sample database.
use mathlib.Core.Option
use kapi_final.Base.{◌≡◌, refl, false, none, some, List, [], ◌∷◌, IsKeyed, row_of, find, arith}
use kapi_final.Protocol.Text.{lit, succeeded}
use kapi_final.Protocol.Events.{completed}
use kapi_final.Db.Tables.{Db, Run}
use kapi_final.Db.Tx.{done}
use kapi_final.Queue.Claim.Outcome.{ClaimOutcome, claim_lem}
use kapi_final.Protocol.Jobs.{Job}
use kapi_final.Queue.Lifecycle.{complete, fail}
use kapi_final.Queue.Lifecycle.Lease.{job_key, not_holder, complete_lem, fail_lem}
use kapi_final.Invariant.Whole.{Inv, job_id, run_id}
use kapi_final.Invariant.Stream.{seqs, seq_of, countdown}
use kapi_final.Trace.{Call, claims, beats, cancels_run, reaps, run}
use kapi_final.Trace.Safety.{run-Inv, run-terminal_job, run-terminal_run}
use kapi_final.Tests.Samples.{sample, any_job, all_done, root_job, build_job, sample_run}

sample-IsKeyed : IsKeyed job_key sample.jobs
unfolding row_of find
sample-IsKeyed = (refl, (refl, tt))

pub sample-Inv : Inv sample
unfolding row_of find seqs seq_of countdown
sample-Inv = record {
  keyed = sample-IsKeyed;
  rows = (ground arith, (ground arith, tt));
  gapless = λ r. ground arith;
}

run-Inv_example : Inv (run (claims any_job (λ _. false) 100 ∷ beats 7 5 90 200 ∷ []) sample)
run-Inv_example =
    run-Inv (claims any_job (λ _. false) 100 ∷ beats 7 5 90 200 ∷ []) sample sample-Inv

not_holder_example : complete 7 6 all_done 100 sample ≡ done none sample
unfolding row_of find
not_holder_example = (not_holder 7 6 sample 90 100 all_done (lit "no") sample-IsKeyed refl).1

complete_lem_example :
    (k : Job) × (db' : Db) × (complete 7 5 all_done 100 sample ≡ done (some k) db')
unfolding row_of find
complete_lem_example =
    let c =
      complete_lem 7 5 100 sample root_job sample_run all_done sample-IsKeyed refl refl refl in
    (c.0, c.1, c.2)

fail_lem_example : (k : Job) × (db' : Db) × (fail 7 5 (lit "no") 100 sample ≡ done (some k) db')
unfolding row_of find
fail_lem_example =
    let f = fail_lem 7 5 100 sample root_job sample_run (lit "no") sample-IsKeyed refl refl refl in
    (f.0, f.1, f.2)

abbrev finished : Db
finished = record sample {
  jobs =
      build_job
      ∷ record root_job { status = succeeded; lease_expires_at = none; finished_at = some 50 }
      ∷ [];
  runs = record sample_run { status = completed } ∷ [];
}

finished-Inv : Inv finished
unfolding row_of find seqs seq_of countdown
finished-Inv = record {
  keyed = (refl, (refl, tt));
  rows = (ground arith, (ground arith, tt));
  gapless = λ r. ground arith;
}

abbrev later : List Call
later =
    cancels_run 1 (lit "stop") 60
    ∷ reaps (λ _. false) 100 99999
    ∷ claims any_job (λ _. false) 70
    ∷ []

run-terminal_job_example : (j : Job) × (row_of job_id 7 (run later finished).jobs ≡ some j)
unfolding row_of find
run-terminal_job_example = (_, run-terminal_job later finished 7 _ finished-Inv refl refl)

run-terminal_run_example :
    Option.map (λ (r : Run). r.status) (row_of run_id 1 (run later finished).runs) ≡ some completed
unfolding row_of find
run-terminal_run_example = run-terminal_run later finished 1 completed finished-Inv refl refl

claim_lem_example : ClaimOutcome any_job (λ _. false) 100 sample
unfolding row_of find
claim_lem_example =
    claim_lem any_job (λ _. false) 100 sample sample-IsKeyed
      ((sample_run, refl), ((sample_run, refl), tt))
