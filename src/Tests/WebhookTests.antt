-- ===== src/Tests/WebhookTests.antt =====
-- A check of the build's branch ends, and GitHub sends its delivery twice.
use kapi_final.Base.{
  ◌≡◌, refl, true, false, some, none, [], ◌∷◌, row_of, find, any, update_where, ◌+◌, ◌==◌,
  if◌then◌else◌,
}
use kapi_final.Base.Optional.{after_prefix}
use kapi_final.Protocol.Events.{CompletedCheck}
use kapi_final.Db.Tables.{Db, Project}
use kapi_final.Db.Tx.{update_agents}
use kapi_final.ControlPlane.Provisioner.{hold_unknown}
use kapi_final.Db.Handler.{served}
use kapi_final.Queue.Events.{appended, numbered}
use kapi_final.ControlPlane.GithubCheck.{
  Platform, Delivery, CheckPayload, CheckRun, CheckSuite, from_run, completed_check,
  valid_github_signature,
}
use kapi_final.ControlPlane.RunMatch.{match_run, job_of_branch, run_in_repo}
use kapi_final.ControlPlane.Webhook.{Setting, accepted, webhook, ci_event}
use kapi_final.ControlPlane.Webhook.Once.{Announces, recorded_once}
use kapi_final.Trace.{run, step, holds}
use kapi_final.Invariant.Whole.{Inv}
use kapi_final.Tests.QueueTests.{sample-Inv}
use kapi_final.Tests.Samples.{sample, sample_run}

abbrev suite : CheckSuite
suite = record {
  id = some 3;
  status = some "completed";
  conclusion = none;
  head_branch = some "kapi/b";
  head_sha = none;
  latest_check_runs_count = none;
}

abbrev check : CheckRun
check = record {
  id = some 4;
  name = some "tests";
  status = some "completed";
  conclusion = some "failure";
  head_sha = some "abc";
  html_url = none;
  details_url = none;
  started_at = none;
  completed_at = none;
  check_suite = some suite;
}

abbrev payload : CheckPayload
payload = record {
  action = some "completed";
  full_name = some "own/repo";
  login = none;
  installation_id = none;
  check_run = some check;
  check_suite = none;
}

abbrev platform : Platform
platform = record {
  hmac = λ key body. 7 ∷ 9 ∷ [];
  from_hex = λ hex. 7 ∷ 9 ∷ [];
  parse = λ body. some payload;
  trim = λ t. t;
  lower = λ t. t;
  spell = λ n. "n";
  id_text = λ n. if n == 8 then "b" else "";
  as_text = λ v. none;
  parse_repo_url = λ url. some ("own", "repo");
}

abbrev setting : Setting
setting = record { secret = some "s3cret"; is_production = true }

abbrev delivery : Delivery
delivery = record {
  body = "{}";
  signature = some "sha256=0709";
  event = some "check_run";
  delivery = some "guid-1";
}

abbrev done_check : CompletedCheck
done_check = from_run payload "own/repo" check

abbrev project : Project
project = record {
  id = 1;
  owner_id = 3;
  repo_url = "https://github.com/own/repo";
  default_branch = "main";
  budgets = record {
    max_concurrent_vms = none;
    max_total_spawns = none;
    max_spawn_depth = none;
    max_tokens = none;
    max_llm_requests = none;
    max_vm_seconds = none;
    max_usd_cents = none;
  };
}

abbrev base : Db
base = record sample { projects = project ∷ [] }

delivery-Announces : Announces platform setting delivery done_check
unfolding valid_github_signature after_prefix completed_check
delivery-Announces = record {
  has_secret = refl;
  signed = refl;
  not_ping = refl;
  supported = refl;
  payload = payload;
  parsed = refl;
  ended = refl;
}

base-Inv : Inv base
base-Inv = record { keyed = sample-Inv.keyed; rows = sample-Inv.rows; gapless = sample-Inv.gapless }

-- A reservation of a VM is kept between the two deliveries.
abbrev later : Db
later = run (holds 7 9 ∷ []) (appended (ci_event 1 (some 8) done_check "guid-1") sample_run base)

recorded_once_example :
    let e = ci_event 1 (some 8) done_check "guid-1" in
    (webhook platform setting delivery base
      ≡ served (accepted 1 false (some (numbered e (0 + 1)))) (appended e sample_run base))
    × (webhook platform setting delivery later ≡ served (accepted 1 true none) later)
unfolding match_run job_of_branch run_in_repo after_prefix row_of find any run step hold_unknown
    update_agents update_where
recorded_once_example =
    recorded_once platform setting delivery done_check (holds 7 9 ∷ []) base 1 (some 8) (some 8)
      base-Inv delivery-Announces refl refl refl refl
