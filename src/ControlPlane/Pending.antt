-- ===== src/ControlPlane/Pending.antt =====
-- apps/control-plane/src/provisioner.ts: #pending, the query for the queued jobs that may be given a VM.
-- Of rows that an ORDER BY leaves equal SQL may take any first; here the table's order stays.
pub mod Within
use kapi_final.Base.{
  ℕ, suc, ◌+◌, ◌==◌, leb, ltb, Bool, true, false, not, ◌&&◌, ◌||◌, Option, none, some, List, [],
  ◌∷◌, length, select, any, take, if◌then◌else◌,
}
use mathlib.Core.List.{map}
use kapi_final.Protocol.Jobs.{Job}
use kapi_final.Db.Tables.{
  Db, Run, Agent, AgentStatus, provision_failed, agent_start_failed, provision_timeout,
}
use kapi_final.Queue.Claim.{is_queued, is_blocked, before, null_or}
use kapi_final.Queue.Lifecycle.{sort_by}
use kapi_final.Invariant.Steps.{is_run_terminal}
use kapi_final.ControlPlane.Provisioner.{
  run_of, run_owner, owned_vms, live_agents, is_null, is_unpriced, is_id,
}

pub record Queued : Type 0 where
  pub job : Job
  pub rn : ℕ
  pub owner_rank : ℕ
  pub user_live : ℕ

-- The run's conditions; a run without its project is not in the join.
abbrev pub may_grow : Option Run → Bool
may_grow none = false
may_grow (some r) =
    not (is_run_terminal r.status)
    && (ltb r.vm_seconds r.max_vm_seconds
        && (is_unpriced r.cost_status || ltb r.usd_cents r.max_usd_cents))

abbrev pub is_served : Job → Agent → Bool
is_served j a =
    a.job_id == j.id
    && (is_null a.stopped_at || (not (is_null a.vm_id) && not (is_null a.provider)))

abbrev pub has_failed_start : AgentStatus → Bool
has_failed_start provision_failed = true
has_failed_start agent_start_failed = true
has_failed_start provision_timeout = true
has_failed_start _ = false

abbrev pub stopped_after : ℕ → Option ℕ → Bool
stopped_after cutoff none = false
stopped_after cutoff (some t) = ltb cutoff t

abbrev pub is_backing_off : ℕ → Job → Agent → Bool
is_backing_off cutoff j a =
    a.job_id == j.id && (has_failed_start a.status && stopped_after cutoff a.stopped_at)

unfoldable pub is_candidate : (cutoff : ℕ) → (run : Option ℕ) → Db → Job → Bool
is_candidate cutoff run db j =
    (is_queued j.status && null_or run j.run_id)
    && ((may_grow (run_of j.run_id db) && not (is_null (run_owner j.run_id db)))
        && ((not (any (is_served j) db.agents) && not (any (is_backing_off cutoff j) db.agents))
            && not (is_blocked db.jobs j)))

abbrev pub in_run : ℕ → Job → Bool
in_run k j = j.run_id == k

abbrev pub of_owner : Db → Option ℕ → Job → Bool
of_owner db owner j = is_id (run_owner j.run_id db) owner

-- ROW_NUMBER() by run and by owner, for jobs in their order; `seen` are those before.
unfoldable pub ranked : Db → List Job → List Job → List Queued
ranked db seen [] = []
ranked db seen (j ∷ js) =
    record {
      job = j;
      rn = suc (length (select (in_run j.run_id) seen));
      owner_rank = suc (length (select (of_owner db (run_owner j.run_id db)) seen));
      user_live = owned_vms (run_owner j.run_id db) db;
    }
    ∷ ranked db (j ∷ seen) js

abbrev pub has_room : Option Run → ℕ → Bool
has_room none n = false
has_room (some r) n = leb n r.max_concurrent_vms

unfoldable pub fits : Db → Queued → Bool
fits db c = has_room (run_of (c.job).run_id db) (live_agents (c.job).run_id db.agents + c.rn)

-- user_live ASC, owner_rank ASC, priority DESC, created_at ASC: `a` comes strictly before `b`.
unfoldable pub goes_first : Queued → Queued → Bool
goes_first a b =
    ltb a.user_live b.user_live
    || (a.user_live == b.user_live
        && (ltb a.owner_rank b.owner_rank || (a.owner_rank == b.owner_rank && before a.job b.job)))

unfoldable pub insert_candidate : Queued → List Queued → List Queued
insert_candidate c [] = c ∷ []
insert_candidate c (d ∷ ds) =
    let rest = insert_candidate c ds in if goes_first d c then d ∷ rest else c ∷ (d ∷ ds)

unfoldable pub sort_candidates : List Queued → List Queued
sort_candidates [] = []
sort_candidates (c ∷ cs) = insert_candidate c (sort_candidates cs)

unfoldable pub chosen : (cutoff : ℕ) → (run : Option ℕ) → Db → List Queued
chosen cutoff run db =
    select (fits db) (
      ranked db []
        (sort_by (λ a b. not (before b a)) (select (is_candidate cutoff run db) db.jobs)))

unfoldable pub pending : (limit cutoff : ℕ) → (run : Option ℕ) → Db → List Job
pending limit cutoff run db =
    map (λ (c : Queued). c.job) (take limit (sort_candidates (chosen cutoff run db)))
