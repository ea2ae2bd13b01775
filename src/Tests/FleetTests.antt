-- ===== src/Tests/FleetTests.antt =====
-- Slots of VMs, their time, and the resources that nobody tracks.
use kapi_final.Base.{
  ℕ, ◌+◌, ◌≤◌, ◌≡◌, any, length, refl, ap, true, false, none, some, Option, [], ◌∷◌, All, arith,
  row_of, find, select,
}
use kapi_final.Db.Tables.{Db, Agent, Run, provisioning}
use kapi_final.Db.Handler.{left_by}
use kapi_final.Protocol.Jobs.{generalist}
use kapi_final.ControlPlane.Accounting.{Meter, settle_usage}
use kapi_final.ControlPlane.Accounting.Books.{
  IsBooked, settle_usage-IsBooked, seconds_of, micros_in,
}
use kapi_final.ControlPlane.Provisioner.{Limits, live_agents}
use kapi_final.ControlPlane.Provisioner.Slots.{WithinSlots}
use kapi_final.Queue.Claim.{is_blocked}
use kapi_final.Queue.Lifecycle.{sort_by, insert_sorted}
use kapi_final.ControlPlane.Provisioner.{run_owner, owned_vms, holds_vm}
use kapi_final.ControlPlane.Pending.{
  is_candidate, in_run, ranked, fits, insert_candidate, sort_candidates, chosen, pending,
}
use kapi_final.ControlPlane.Pending.Within.{pending_lem}
use kapi_final.ControlPlane.Provision.{Attempt, created, provision}
use kapi_final.ControlPlane.Provision.Capacity.{provision-WithinSlots}
use kapi_final.ControlPlane.Provision.Placement.{PlacedBy, provision-Placed}
use kapi_final.ControlPlane.Reconciler.{ManagedVm, Policy, healthy, doomed}
use kapi_final.ControlPlane.Reconciler.Orphans.{IsOrphan, doomed-IsOrphan}
use kapi_final.Tests.Samples.{sample, build_job, sample_run}

-- The captain's agent has been metered from 1,000 on.
abbrev agent : Agent
agent = record {
  job_id = 7;
  run_id = 1;
  role = generalist;
  status = provisioning;
  vm_id = some 5;
  provider = some 3;
  last_heartbeat = some 1000;
  stopped_at = none;
  reservation_id = some 4;
  accounted_through = some 1000;
}

abbrev staffed : Db
staffed = record sample { agents = agent ∷ [] }

abbrev meter : Meter
meter = record { price = λ _ seconds. some seconds; locked = λ _. false }

staffed-IsBooked : IsBooked staffed
unfolding seconds_of micros_in
staffed-IsBooked = record { totals = ((refl, refl), tt); covered = ((λ t e. tt), tt); apart = tt }

settle_usage-IsBooked_example : IsBooked (left_by (settle_usage (meter ∷ meter ∷ []) 61500 staffed))
settle_usage-IsBooked_example =
    settle_usage-IsBooked (meter ∷ meter ∷ []) 61500 staffed staffed-IsBooked

abbrev limits : Limits
limits = record { max_active = 32; max_active_per_user = 8 }

abbrev slots_of : Option Run → ℕ
slots_of none = 0
slots_of (some r) = r.max_concurrent_vms

staffed-within : WithinSlots staffed
unfolding live_agents select row_of find
staffed-within k r e = ground (arith, ap slots_of e, e)

-- A VM for the build job, while events are cleared.
abbrev attempt : Attempt
attempt = record {
  job = build_job;
  vm_id = 6;
  provider = 3;
  limits = limits;
  now = 2000;
  creation = created 90;
  starts = true;
  is_destroyed = false;
  while_creating = λ d. record d { events = [] };
  while_starting = λ d. record d { messages = [] };
}

provision-WithinSlots_example : WithinSlots (left_by (provision attempt staffed))
unfolding row_of find
provision-WithinSlots_example =
    provision-WithinSlots attempt (λ d w. w) (λ d w. w) staffed (refl, tt) ((λ e. refl), tt)
      staffed-within

provision-Placed_example : PlacedBy attempt staffed (provision attempt staffed)
unfolding row_of find
provision-Placed_example = provision-Placed attempt staffed (refl, tt) (λ d k. k) (λ d. refl)

abbrev housed : Db
housed = record staffed {
  projects =
      record {
        id = 1;
        owner_id = 9;
        repo_url = "https://example.org/a.git";
        default_branch = "main";
        budgets = record {
          max_concurrent_vms = none;
          max_total_spawns = none;
          max_spawn_depth = none;
          max_tokens = none;
          max_llm_requests = none;
          max_vm_seconds = none;
          max_usd_cents = none;
        };
      }
      ∷ [];
}

pending_lem_example :
    All (λ j. is_candidate 1000 none housed j ≡ true) (pending 20 1000 none housed)
    × (length (pending 20 1000 none housed) ≤ 20)
    × (live_agents 1 housed.agents + length (select (in_run 1) (pending 20 1000 none housed)) ≤ 12)
unfolding row_of find live_agents select
pending_lem_example = pending_lem 20 1000 none housed 1 sample_run refl (omega arith)

-- The build job may have a VM.
pending_build : pending 20 1000 none housed ≡ build_job ∷ []
unfolding pending chosen is_candidate ranked fits sort_candidates insert_candidate sort_by
    insert_sorted select row_of find any is_blocked run_owner owned_vms holds_vm live_agents
pending_build = refl

abbrev stray : ManagedVm
stray = record {
  id = 77;
  created_at = 10;
  managed = true;
  health = healthy;
  plane_id = some 1;
  job_id = some 90;
  run_id = some 91;
  reservation_id = none;
}

abbrev policy : Policy
policy = record {
  provider = 3;
  plane = 1;
  grace = 600;
  provision_timeout = 120;
  audit_only = false;
}

doomed-IsOrphan_example :
    All (IsOrphan policy 9000 staffed) (doomed policy 9000 (stray ∷ []) staffed)
doomed-IsOrphan_example = (doomed-IsOrphan policy 9000 (stray ∷ []) staffed).0
