-- ===== src/ControlPlane/RunService.antt =====
-- apps/control-plane/src/run-service.ts, and createRunIn of store.ts: opening a run. A text's code
-- units (`spell`), Postgres' LEFT and the JSON of an array are the environment's.
use kapi_final.Base.{
  ℕ, ◌+◌, ◌-◌, ◌≤◌, ◌==◌, String, leb, Option, none, some, List, [], ◌∷◌, ◌++◌, map, take, length,
  select, if◌then◌else◌, arith, length-take, length-map,
}
use kapi_final.Base.Int.{pos}
use kapi_final.Protocol.Text.{Text, lit}
use kapi_final.Protocol.Context.{Context, Json, str, num}
use kapi_final.Protocol.Jobs.{Job, JobSpec, JobKind, AgentRole}
use kapi_final.Protocol.Events.{RunStatus}
use kapi_final.Db.Tables.{
  Db, Run, Project, Thread, Budgets, Message, MessageRole, user, unavailable,
}
use kapi_final.Db.Tx.{Tx, ◌>>=◌, ◌>>◌, pure, query, insert_run, insert_message}
use kapi_final.Queue.Lifecycle.{enqueue_in}

-- An earlier turn of the thread, as the captain reads it.
pub record Turn : Type 0 where
  pub role : MessageRole
  pub content : List ℕ

pub record StartRunInput : Type 0 where
  pub thread : Thread
  pub project : Project
  pub goal : String
  pub budgets : Option Budgets
  pub message_role : Option MessageRole
  pub schedule_id : Option ℕ
  pub scheduled_for : Option ℕ

pub record Spelling : Type 0 where
  pub spell : Text → List ℕ
  -- LEFT(content, 4000)
  pub left : List ℕ → List ℕ
  pub array : List Turn → Json

abbrev or_else {ℓ} : {A : Type ℓ} → Option A → Option A → Option A
or_else none old = old
or_else (some a) old = some a

abbrev coalesce {ℓ} : {A : Type ℓ} → Option A → A → A
coalesce none d = d
coalesce (some a) d = a

-- { ...project.budgets, ...input.budgets }
unfoldable pub merge_budgets : Budgets → Option Budgets → Budgets
merge_budgets a none = a
merge_budgets a (some b) = record {
  max_concurrent_vms = or_else b.max_concurrent_vms a.max_concurrent_vms;
  max_total_spawns = or_else b.max_total_spawns a.max_total_spawns;
  max_spawn_depth = or_else b.max_spawn_depth a.max_spawn_depth;
  max_tokens = or_else b.max_tokens a.max_tokens;
  max_llm_requests = or_else b.max_llm_requests a.max_llm_requests;
  max_vm_seconds = or_else b.max_vm_seconds a.max_vm_seconds;
  max_usd_cents = or_else b.max_usd_cents a.max_usd_cents;
}

-- The row that createRunIn inserts; `id` is `newId("run")`.
unfoldable pub new_run : ℕ → StartRunInput → Run
new_run id input =
    let b = merge_budgets (input.project).budgets input.budgets in
    record {
      id = id;
      thread_id = (input.thread).id;
      project_id = (input.project).id;
      goal = input.goal;
      status = RunStatus.queued;
      max_concurrent_vms = coalesce b.max_concurrent_vms 12;
      max_total_spawns = coalesce b.max_total_spawns 200;
      max_spawn_depth = coalesce b.max_spawn_depth 4;
      max_tokens = coalesce b.max_tokens 20000000;
      max_llm_requests = coalesce b.max_llm_requests 1000;
      max_vm_seconds = coalesce b.max_vm_seconds 86400;
      max_usd_cents = coalesce b.max_usd_cents 2000;
      llm_requests = 0;
      llm_tokens = 0;
      total_spawns = 0;
      vm_seconds = 0;
      usd_micros = 0;
      usd_cents = 0;
      cost_status = unavailable;
      schedule_id = input.schedule_id;
      scheduled_for = input.scheduled_for;
      event_seq = 0;
      error = none;
      finished_at = none;
    }

-- The loop over the earlier turns, newest first; each is put in front.
unfoldable pub history : ℕ → List Turn → List Turn → List Turn
history remaining kept [] = kept
history remaining kept (t ∷ ts) =
    let content = take remaining t.content in
    let rest = history (remaining - length content) (record t { content = content } ∷ kept) ts in
    if leb remaining 0 then kept else rest

abbrev turn_of : Spelling → Message → Turn
turn_of sp m = record { role = m.role; content = sp.left (sp.spell m.content) }

-- ORDER BY created_at DESC LIMIT 20: the table holds the newest message first.
unfoldable pub prior_turns : Spelling → ℕ → Db → List Turn
prior_turns sp thread db =
    map (turn_of sp) (take 20 (select (λ m. m.thread_id == thread) db.messages))

unfoldable pub thread_history : Spelling → ℕ → Db → List Turn
thread_history sp thread db = history 16000 [] (prior_turns sp thread db)

abbrev history_entry : Spelling → List Turn → Context
history_entry sp [] = []
history_entry sp (t ∷ ts) = ("threadHistory", sp.array (t ∷ ts)) ∷ []

abbrev schedule_entry : Option ℕ → Context
schedule_entry none = []
schedule_entry (some id) = ("scheduleId", num id) ∷ []

-- The root job of the run, with the defaults of the schema.
unfoldable pub captain_spec : Spelling → StartRunInput → List Turn → ℕ → JobSpec
captain_spec sp input turns run_id = record {
  run_id = run_id;
  parent_job_id = none;
  kind = JobKind.captain;
  role = AgentRole.captain;
  payload = record {
    instruction = input.goal;
    acceptance = [];
    touches = [];
    secrets = [];
    context =
        (("repoUrl", str (input.project).repo_url)
          ∷ ("baseBranch", str (input.project).default_branch)
          ∷ ("threadId", num (input.thread).id)
          ∷ ("projectId", num (input.project).id)
          ∷ history_entry sp turns)
        ++ schedule_entry input.schedule_id;
  };
  depends_on = [];
  priority = pos 10;
  max_attempts = 3;
}

abbrev pub goal_message : StartRunInput → ℕ → Message
goal_message input run_id = record {
  thread_id = (input.thread).id;
  role = coalesce input.message_role user;
  content = lit input.goal;
  run_id = some run_id;
}

abbrev pub StartedRun : Type 0
StartedRun = Run × Job

unfoldable pub start_in : Spelling → (run_id job_id now : ℕ) → StartRunInput → Tx StartedRun
start_in sp run_id job_id now input = do
  turns ← query (thread_history sp (input.thread).id)
  run ← insert_run (new_run run_id input)
  insert_message (goal_message input run.id)
  job ← enqueue_in job_id now (captain_spec sp input turns run.id)
  pure (run, job)

abbrev pub size : List Turn → ℕ
size [] = 0
size (t ∷ ts) = length t.content + size ts

history_bounded :
    (remaining : ℕ) (kept ts : List Turn)
    → (size (history remaining kept ts) ≤ size kept + remaining)
      × (length (history remaining kept ts) ≤ length kept + length ts)
unfolding history
history_bounded remaining kept [] = (omega arith, omega arith)
history_bounded remaining kept (t ∷ ts) =
    let content = take remaining t.content in
    let h =
      history_bounded (remaining - length content) (record t { content = content } ∷ kept) ts in
    (ground (arith, h.0, length-take remaining t.content), ground (arith, h.1))

-- However long a thread is and whatever its messages hold, the history that a captain is given is
-- at most 20 turns and 16,000 code units.
pub thread_history_bounded :
    (sp : Spelling) (thread : ℕ) (db : Db)
    → (size (thread_history sp thread db) ≤ 16000) × (length (thread_history sp thread db) ≤ 20)
unfolding thread_history prior_turns
thread_history_bounded sp thread db =
    let rows = take 20 (select (λ (m : Message). m.thread_id == thread) db.messages) in
    let h = history_bounded 16000 [] (map (turn_of sp) rows) in
    (
      h.0,
      omega (
        arith,
        h.1,
        length-map (turn_of sp) rows,
        length-take 20 (select (λ (m : Message). m.thread_id == thread) db.messages),
      ),
    )
