-- ===== src/Trace.antt =====
-- The system as a sequence of transactions. Each call carries what its environment supplies: the
-- time, fresh ids, and the rows that other transactions hold locked.
pub mod Safety
use kapi_final.Base.{ℕ, ◌<◌, ◌≡◌, sym, subst, Option, none, Bool, List, [], ◌∷◌}
use kapi_final.Protocol.Text.{Text}
use kapi_final.Protocol.Jobs.{Job, JobSpec, JobResult}
use kapi_final.Protocol.Events.{EventInput}
use kapi_final.Db.Tables.{Db, Project, AgentStatus}
use kapi_final.Db.Handler.{left_by}
use kapi_final.Db.Tx.{after, Keeps-after, Holds-after}
use kapi_final.Queue.Events.{append_event}
use kapi_final.Queue.Claim.{ClaimOptions, claim}
use kapi_final.Queue.Lifecycle.{enqueue_in, heartbeat, mark_running, complete, fail, cancel_subtree}
use kapi_final.Queue.Reaper.{reap}
use kapi_final.ControlPlane.RunLifecycle.{start_run, finish_run, cancel_run, on_reap}
use kapi_final.ControlPlane.AgentTx.{Claims}
use kapi_final.ControlPlane.AgentApi.Serving.{AgentRequest, serve}
use kapi_final.Invariant.AgentOps.Routes.{serve-Guard}
use kapi_final.Invariant.Guard.{Guard, CanOpen}
use kapi_final.Invariant.QueueOps.{
  enqueue_in-Keeps, claim-Keeps, heartbeat-Keeps, mark_running-Keeps, complete-Keeps, fail-Keeps,
  cancel_subtree-Keeps,
}
use kapi_final.ControlPlane.RunService.{Spelling, StartRunInput, start_in}
use kapi_final.ControlPlane.Scheduler.{Supply, ScheduleInput, SchedulePatch, tick, run_now}
use kapi_final.ControlPlane.Scheduler.Crud.{create, update, remove}
use kapi_final.Invariant.SchedulerOps.{
  start_in-Holds, tick-Serves, run_now-Keeps, create-Serves, update-Serves, remove-Keeps,
}
use kapi_final.ControlPlane.Accounting.{Meter, settle_usage}
use kapi_final.ControlPlane.Provisioner.{
  Limits, reserve_slot, attach, hold_unknown, release_agent, reap_stale, reclaim,
}
use kapi_final.ControlPlane.Reconciler.{Policy, ManagedVm, reconcile}
use kapi_final.Invariant.FleetOps.{
  settle_usage-Serves, reserve_slot-Keeps, attach-Keeps, reap_stale-Keeps, reclaim-Keeps,
}
use kapi_final.ControlPlane.GithubCheck.{Platform, Delivery}
use kapi_final.ControlPlane.Webhook.{Setting, webhook}
use kapi_final.Invariant.WebhookOps.{webhook-Serves}
use kapi_final.ControlPlane.Admission
use kapi_final.ControlPlane.Admission.{
  reserve_model_call, settle_model_call, settle_expired_model_calls, reconcile_model_usage,
}
use kapi_final.ControlPlane.Provision.{keep_late}
use kapi_final.Invariant.AdmissionOps.{
  reserve_model_call-Keeps, settle_model_call-Keeps, settle_expired-Keeps, reconcile_usage-Keeps,
  keep_late-Keeps,
}
use kapi_final.Invariant.Reaping.{reap-Keeps}
use kapi_final.Invariant.RunOps.{start_run-Keeps, finish_run-Keeps, cancel_run-Keeps, on_reap-Keeps}

pub data Call : Type 0 where
  -- The schema of a spec asks for a positive limit of attempts.
  enqueues : (id now : ℕ) (s : JobSpec) → 0 < s.max_attempts → Call
  claims : ClaimOptions → (ℕ → Bool) → ℕ → Call
  beats : (id vm seconds now : ℕ) → Call
  starts : (id vm : ℕ) → Call
  completes : (id vm : ℕ) → JobResult → ℕ → Call
  fails : (id vm : ℕ) → Text → ℕ → Call
  cancels : ℕ → Text → ℕ → Call
  reaps : (ℕ → Bool) → (limit now : ℕ) → Call
  appends : EventInput → Call
  starts_run : (run_id job_id : ℕ) → Call
  finishes_run : ℕ → Job → Call
  cancels_run : ℕ → Text → ℕ → Call
  closes_reaped : ℕ → List Job → Call
  -- A user's message opens a run that belongs to no schedule.
  opens_run :
      Spelling → (run_id job_id now : ℕ) (input : StartRunInput) → input.schedule_id ≡ none → Call
  ticks : List Supply → (now : ℕ) → Call
  runs_schedule : Supply → (id owner now : ℕ) → Call
  creates_schedule : (ℕ → ℕ → ℕ → Option ℕ) → (id thread now : ℕ) → Project → ScheduleInput → Call
  updates_schedule : (ℕ → ℕ → ℕ → Option ℕ) → (id owner now : ℕ) → SchedulePatch → Call
  removes_schedule : (id owner clock : ℕ) → Call
  settles : List Meter → (now : ℕ) → Call
  reserves : Limits → (vm provider now : ℕ) → Job → Call
  attaches : (job vm provider now : ℕ) → Call
  holds : (job reservation : ℕ) → Call
  releases : (job now : ℕ) → AgentStatus → Bool → Call
  times_out : (cutoff now : ℕ) → Option ℕ → (provider : ℕ) → (ℕ → ℕ → Bool) → Call
  reclaims : (provider : ℕ) → (ℕ → ℕ → Bool) → Call
  reconciles : Policy → (now : ℕ) → List ManagedVm → Call
  requests : Claims → (seconds now : ℕ) → AgentRequest → Call
  delivers : Platform → Setting → Delivery → Call
  -- A model call, and the operator's reconciliation of it.
  reserves_call : Admission.Limits → (id run_id user_id tokens now : ℕ) → Call
  settles_call : ℕ → Option ℕ → Call
  expires_calls : (now : ℕ) → Call
  reconciles_call : (id tokens : ℕ) → Call
  keeps_late : (job vm reservation now : ℕ) → Call

unfoldable pub step : Call → Db → Db
step (enqueues id now s h) db = after (enqueue_in id now s db) db
step (claims o locked now) db = after (claim o locked now db) db
step (beats id vm seconds now) db = after (heartbeat id vm seconds now db) db
step (starts id vm) db = after (mark_running id vm db) db
step (completes id vm r now) db = after (complete id vm r now db) db
step (fails id vm e now) db = after (fail id vm e now db) db
step (cancels id why now) db = after (cancel_subtree id why now db) db
step (reaps locked limit now) db = after (reap locked limit now db) db
step (appends e) db = after (append_event e db) db
step (starts_run r j) db = after (start_run r j db) db
step (finishes_run now j) db = after (finish_run now j db) db
step (cancels_run r why now) db = after (cancel_run r why now db) db
step (closes_reaped now js) db = on_reap now js db
step (opens_run sp r j now i _) db = after (start_in sp r j now i db) db
step (ticks us now) db = left_by (tick us now db)
step (runs_schedule u id owner now) db = after (run_now u id owner now db) db
step (creates_schedule next id thread now p i) db = left_by (create next id thread now p i db)
step (updates_schedule next id owner now patch) db = left_by (update next id owner now patch db)
step (removes_schedule id owner clock) db = after (remove id owner clock db) db
step (settles ms now) db = left_by (settle_usage ms now db)
step (reserves limits vm provider now job) db =
    after (reserve_slot limits vm provider now job db) db
step (attaches job vm provider now) db = after (attach job vm provider now db) db
step (holds job reservation) db = after (hold_unknown job reservation db) db
step (releases job now status deleted) db = after (release_agent job now status deleted db) db
step (times_out cutoff now run provider destroy) db =
    after (reap_stale cutoff now run provider destroy db) db
step (reclaims provider destroy) db = after (reclaim provider destroy db) db
step (reconciles c now resources) db = reconcile c now resources db
step (requests c seconds now q) db = serve c seconds now q db
step (delivers p s d) db = left_by (webhook p s d db)
step (reserves_call l id run_id user_id tokens now) db =
    after (reserve_model_call l id run_id user_id tokens now db) db
step (settles_call id measured) db = after (settle_model_call id measured db) db
step (expires_calls now) db = after (settle_expired_model_calls now db) db
step (reconciles_call id tokens) db = after (reconcile_model_usage id tokens db) db
step (keeps_late job vm reservation now) db = after (keep_late job vm reservation now db) db

unfoldable pub run : List Call → Db → Db
run [] db = db
run (c ∷ cs) db = run cs (step c db)

module _ {P : Db → Type 0} (g : Guard P) where
  pub step-Guard : (c : Call) (db : Db) → P db → P (step c db)
  unfolding step
  step-Guard (enqueues id now s h) db p = Keeps-after (enqueue_in-Keeps g id now s h) p
  step-Guard (claims o locked now) db p = Keeps-after (claim-Keeps g o locked now) p
  step-Guard (beats id vm seconds now) db p = Keeps-after (heartbeat-Keeps g id vm seconds now) p
  step-Guard (starts id vm) db p = Keeps-after (mark_running-Keeps g id vm) p
  step-Guard (completes id vm r now) db p = Keeps-after (complete-Keeps g id vm r now) p
  step-Guard (fails id vm e now) db p = Keeps-after (fail-Keeps g id vm e now) p
  step-Guard (cancels id why now) db p = Keeps-after (cancel_subtree-Keeps g id why now) p
  step-Guard (reaps locked limit now) db p = Keeps-after (reap-Keeps g locked limit now) p
  step-Guard (appends e) db p = Keeps-after (g.append e) p
  step-Guard (starts_run r j) db p = Keeps-after (start_run-Keeps g r j) p
  step-Guard (finishes_run now j) db p = Keeps-after (finish_run-Keeps g now j) p
  step-Guard (cancels_run r why now) db p = Keeps-after (cancel_run-Keeps g r why now) p
  step-Guard (closes_reaped now js) db p = on_reap-Keeps g now js db p
  step-Guard (opens_run sp r j now i e) db p =
      Holds-after P (start_in sp r j now i db) db p
        (start_in-Holds g sp r j now i db (subst (λ s. CanOpen s db.runs) (sym e) tt) p)
  step-Guard (ticks us now) db p = (tick-Serves g us now).apply db p
  step-Guard (runs_schedule u id owner now) db p = Keeps-after (run_now-Keeps g u id owner now) p
  step-Guard (creates_schedule next id thread now q i) db p =
      (create-Serves g next id thread now q i).apply db p
  step-Guard (updates_schedule next id owner now patch) db p =
      (update-Serves g next id owner now patch).apply db p
  step-Guard (removes_schedule id owner clock) db p = Keeps-after (remove-Keeps g id owner clock) p
  step-Guard (settles ms now) db p = (settle_usage-Serves g ms now).apply db p
  step-Guard (reserves limits vm provider now job) db p =
      Keeps-after (reserve_slot-Keeps g limits vm provider now job) p
  step-Guard (attaches job vm provider now) db p =
      Keeps-after (attach-Keeps g job vm provider now) p
  step-Guard (holds job reservation) db p = unfold hold_unknown in Keeps-after (g.agents _ _) p
  step-Guard (releases job now status deleted) db p =
      unfold release_agent in Keeps-after (g.agents _ _) p
  step-Guard (times_out cutoff now run provider destroy) db p =
      Keeps-after (reap_stale-Keeps g cutoff now run provider destroy) p
  step-Guard (reclaims provider destroy) db p = Keeps-after (reclaim-Keeps g provider destroy) p
  step-Guard (reconciles c now resources) db p = unfold reconcile in g.staff _ db p
  step-Guard (requests c seconds now q) db p = serve-Guard g c seconds now q db p
  step-Guard (delivers q s d) db p = (webhook-Serves g q s d).apply db p
  step-Guard (reserves_call l id run_id user_id tokens now) db p =
      Keeps-after (reserve_model_call-Keeps g l id run_id user_id tokens now) p
  step-Guard (settles_call id measured) db p = Keeps-after (settle_model_call-Keeps g id measured) p
  step-Guard (expires_calls now) db p = Keeps-after (settle_expired-Keeps g now) p
  step-Guard (reconciles_call id tokens) db p = Keeps-after (reconcile_usage-Keeps g id tokens) p
  step-Guard (keeps_late job vm reservation now) db p =
      Keeps-after (keep_late-Keeps g job vm reservation now) p

  pub run-Guard : (cs : List Call) (db : Db) → P db → P (run cs db)
  unfolding run
  run-Guard [] db p = p
  run-Guard (c ∷ cs) db p = run-Guard cs (step c db) (step-Guard c db p)
