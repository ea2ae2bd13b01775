-- ===== src/Tests/Samples.antt =====
-- A run of two jobs: its captain, claimed by VM 5, and a build that waits.
use kapi_final.Base.{true, none, some, [], ◌∷◌}
use kapi_final.Base.Int.{pos}
use kapi_final.Protocol.Text.{queued, claimed, lit}
use kapi_final.Protocol.Jobs.{Job, JobPayload, JobResult, JobKind, generalist}
use kapi_final.Protocol.Events.{RunStatus}
use kapi_final.Db.Tables.{Db, Run, unavailable}
use kapi_final.Queue.Claim.{ClaimOptions}

abbrev pub work : JobPayload
work = record { instruction = "do it"; acceptance = []; touches = []; secrets = []; context = [] }

abbrev pub root_job : Job
root_job = record {
  id = 7;
  run_id = 1;
  parent_job_id = none;
  kind = JobKind.captain;
  role = generalist;
  status = claimed;
  payload = work;
  result = none;
  vm_id = some 5;
  lease_expires_at = some 90000;
  attempts = 1;
  max_attempts = 3;
  priority = pos 0;
  depends_on = [];
  error = none;
  created_at = 0;
  started_at = some 0;
  finished_at = none;
}

abbrev pub build_job : Job
build_job = record {
  id = 8;
  run_id = 1;
  parent_job_id = some 7;
  kind = JobKind.build;
  role = generalist;
  status = queued;
  payload = work;
  result = none;
  vm_id = none;
  lease_expires_at = none;
  attempts = 0;
  max_attempts = 3;
  priority = pos 0;
  depends_on = [];
  error = none;
  created_at = 10;
  started_at = none;
  finished_at = none;
}

abbrev pub sample_run : Run
sample_run = record {
  id = 1;
  thread_id = 2;
  project_id = 1;
  goal = "ship it";
  status = RunStatus.running;
  max_concurrent_vms = 12;
  max_total_spawns = 3;
  max_spawn_depth = 4;
  max_tokens = 1000;
  max_llm_requests = 10;
  max_vm_seconds = 86400;
  max_usd_cents = 2000;
  llm_requests = 0;
  llm_tokens = 0;
  total_spawns = 2;
  vm_seconds = 0;
  usd_micros = 0;
  usd_cents = 0;
  cost_status = unavailable;
  schedule_id = none;
  scheduled_for = none;
  event_seq = 0;
  error = none;
  finished_at = none;
}

abbrev pub sample : Db
sample = record {
  projects = [];
  threads = [];
  jobs = build_job ∷ root_job ∷ [];
  agents = [];
  runs = sample_run ∷ [];
  events = [];
  messages = [];
  schedules = [];
  reservations = [];
  ledger = [];
  artifacts = record { receipts = []; verdicts = []; usage = [] };
}

abbrev pub any_job : ClaimOptions
any_job = record { vm_id = 6; kinds = []; run_id = none; job_id = none; lease_seconds = 90 }

abbrev pub all_done : JobResult
all_done = record {
  ok = true;
  summary = lit "done";
  files_changed = [];
  commits = [];
  branch = none;
  pr_url = none;
  review = none;
  error = none;
}
