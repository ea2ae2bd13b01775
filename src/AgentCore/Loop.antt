-- ===== src/AgentCore/Loop.antt =====
-- packages/agent-core/src/loop.ts: `runLoop`. What the model answers, what a tool does and whether
-- the lease is alive is the environment's choice at each time it is asked; `tick` counts the askings.
-- The trace holds what reaches the outside, newest first. Logging is left out.
pub mod Journal
pub mod Steps
pub mod Blocked
use text.Mathlib.Text.{◌==◌ as str_eq}
use kapi_final.Base.{
  ℕ, zero, suc, ◌+◌, ◌-◌, String, leb, ltb, Bool, true, false, not, ◌&&◌, ◌||◌, refl, ap, ◌≡◌, ◌⊎◌,
  inl, inr, Option, none, some, List, [], ◌∷◌, ◌++◌, map, drop, if◌then◌else◌,
}
use kapi_final.AgentCore.Messages.{
  ToolCall, ModelResponse, ToolOutput, text_part, tool_call, Part, WireMessage, user_text,
  user_landing, assistant_text, assistant_parts, tool_results, Meta, ToolResult, AgentTool, Pending,
  Checkpoint,
}
use kapi_final.AgentCore.Compact.{compact}

pub data ModelReply : Type 0 where
  -- The call threw.
  failed : String → ModelReply
  replied : ModelResponse → ModelReply

pub data ToolRun : Type 0 where
  threw : String → ToolRun
  returned : ToolResult → ToolRun

pub record Env : Type 0 where
  pub alive : ℕ → Bool
  pub reply : ℕ → List WireMessage → ModelReply
  pub use_tool : ℕ → ToolCall → ToolRun

pub record LoopOptions : Type 0 where
  pub tools : List AgentTool
  pub max_steps : ℕ
  pub keep_full_steps : ℕ

pub data Effect : Type 0 where
  saved : Checkpoint → Effect
  asked : Effect
  ran : ToolCall → Effect

pub record Loop : Type 0 where
  pub state : Checkpoint
  pub stopped : Option String
  pub tick : ℕ
  pub trace : List Effect

abbrev pub is_some {ℓ} : {A : Type ℓ} → Option A → Bool
is_some none = false
is_some (some _) = true

-- A string that is absent or empty counts as false.
abbrev pub is_set : Option String → Bool
is_set none = false
is_set (some String.[]) = false
is_set (some (String.◌∷◌ _ _)) = true

abbrev pub is_empty {ℓ} : {A : Type ℓ} → List A → Bool
is_empty [] = true
is_empty (_ ∷ _) = false

unfoldable pub stop : String → Loop → Loop
stop why l = record l { stopped = some why }

-- await checkpoint()
unfoldable pub save : Loop → Loop
save l = record l { trace = saved l.state ∷ l.trace }

unfoldable pub push : List WireMessage → Loop → Loop
push ms l = record l { state = record l.state { messages = (l.state).messages ++ ms } }

unfoldable pub with_pending : Option Pending → Loop → Loop
with_pending p l = record l { state = record l.state { pending = p } }

-- filesTouched.add
abbrev pub member : String → List String → Bool
member f [] = false
member f (g ∷ gs) = str_eq g f || member f gs

abbrev pub add_file : String → List String → List String
add_file f fs = if member f fs then fs else fs ++ f ∷ []

abbrev pub add_files : List String → List String → List String
add_files [] fs = fs
add_files (g ∷ gs) fs = add_files gs (add_file g fs)

abbrev add_path : Option String → List String → List String
add_path none fs = fs
add_path (some p) fs = add_file p fs

abbrev or_else {ℓ} : {A : Type ℓ} → Option A → Option A → Option A
or_else none old = old
or_else (some a) old = some a

abbrev add_commit : Option String → List String → List String
add_commit none cs = cs
add_commit (some c) cs = cs ++ c ∷ []

unfoldable pub absorb : Option Meta → Checkpoint → Checkpoint
absorb none s = s
absorb (some m) s = record s {
  files_touched = add_files m.files (add_path m.path s.files_touched);
  commits = add_commit m.sha s.commits;
  branch = or_else m.branch s.branch;
  pr_url = or_else m.pr_url s.pr_url;
}

-- A tool that throws gives a result that is not ok.
abbrev pub outcome_of : ToolRun → ToolResult
outcome_of (threw e) = record { output = e; ok = false; info = none }
outcome_of (returned r) = r

abbrev pub result_of : ToolCall → String → ToolOutput
result_of c value = record { tool_call_id = c.tool_call_id; tool_name = c.tool_name; value = value }

unfoldable pub is_command : String → Bool
is_command n = str_eq n "run_command" || str_eq n "run_tests"

-- byName.get: of two tools with one name, the last.
unfoldable pub find_tool : List AgentTool → String → Option AgentTool
find_tool [] n = none
find_tool (t ∷ ts) n = or_else (if str_eq t.name n then some t else none) (find_tool ts n)

abbrev pub or_string : Option String → String → String
or_string none s = s
or_string (some t) s = t

unfoldable pub finish_with : ToolCall → ToolResult → Checkpoint → Checkpoint
finish_with c r s = record s {
  finished = true;
  result_summary = or_string c.summary r.output;
  terminal_meta = r.info;
}

abbrev pub lost : String
lost = "lease lost or job cancelled"

abbrev pub interrupted : String
interrupted =
    "Interrupted command requires reconciliation: its external effects are unknown; no later tools were executed."

abbrev pub answered : ToolCall → String → Pending → Pending
answered c value p = record p {
  next = p.next + 1;
  started = false;
  results = p.results ++ result_of c value ∷ [];
}

abbrev pub skipped : ToolCall → Pending → Pending
skipped c p = record p {
  next = p.next + 1;
  results = p.results ++ result_of c "ERROR: no such tool" ∷ [];
}

module _ (env : Env) (opts : LoopOptions) where
  -- After the tool has given a result: what it found, and the end if it is terminal.
  unfoldable pub after_tool : ToolCall → AgentTool → ToolResult → Pending → Loop → Pending × Loop
  after_tool c tool r p l =
      let told = absorb r.info l.state in
      let done = if tool.terminal && r.ok then finish_with c r told else told in
      let p' = answered c r.output p in
      (p', save (with_pending (some p') (record l { state = done })))

  unfoldable pub run_tool : ToolCall → AgentTool → Pending → Loop → Pending × Loop
  run_tool c tool p l =
      after_tool c tool (outcome_of (env.use_tool l.tick c)) p
        (record l { tick = l.tick + 1; trace = ran c ∷ l.trace })

  unfoldable pub block : Pending → Loop → Pending × Loop
  block p l = (
    p,
    save (record l {
      state = record l.state { blocked_reason = some interrupted };
      stopped = some interrupted;
    }),
  )

  -- A call whose tool is known; `started` tells that an earlier attempt began it.
  unfoldable pub call_tool : ToolCall → AgentTool → Pending → Loop → Pending × Loop
  call_tool c tool p l =
      let p' = record p { started = true } in
      let l' = save (with_pending (some p') l) in
      if p.started && is_command tool.name then block p' l' else run_tool c tool p' l'

  unfoldable pub call_once : ToolCall → Option AgentTool → Pending → Loop → Pending × Loop
  call_once c none p l = let p' = skipped c p in (p', save (with_pending (some p') l))
  call_once c (some tool) p l = call_tool c tool p l

  -- for (const call of response.toolCalls.slice(pending.next)), with its breaks
  unfoldable pub run_calls : List ToolCall → Pending → Loop → Pending × Loop
  run_calls [] p l = (p, l)
  run_calls (c ∷ cs) p l =
      let l1 = record l { tick = l.tick + 1 } in
      let (p2, l2) = call_once c (find_tool opts.tools c.tool_name) p l1 in
      let rest = run_calls cs p2 l2 in
      if not (env.alive l.tick)
      then (p, stop lost l1)
      else if is_set l2.stopped || (l2.state).finished
      then (p2, l2)
      else rest

  -- The end of one turn of the `while`, or its next.
  pub data Turn : Type 0 where
    halt : Loop → Turn
    again : Loop → Turn

  unfoldable pub after_calls : ModelResponse → Pending × Loop → Turn
  after_calls r (p, l) =
      let l' = save (with_pending none (push (tool_results p.results ∷ []) l)) in
      if is_set l.stopped
      then halt l
      else if r.budget_exhausted && not (l'.state).finished
      then halt (stop "run budget exhausted" l')
      else again l'

  abbrev pub text_of : String → List Part
  text_of String.[] = []
  text_of (String.◌∷◌ c s) = text_part (String.◌∷◌ c s) ∷ []

  abbrev pub fresh : ModelResponse → Pending
  fresh r = record { response = r; next = 0; started = false; results = [] }

  -- The calls of a response: of a new one from the first, after the intent is saved.
  unfoldable pub act : ModelResponse → Option Pending → Loop → Turn
  act r (some p) l = after_calls r (run_calls (drop p.next r.tool_calls) p l)
  act r none l =
      let said = push (assistant_parts (text_of r.text ++ map tool_call r.tool_calls) ∷ []) l in
      after_calls r (run_calls r.tool_calls (fresh r) (save (with_pending (some (fresh r)) said)))

  abbrev pub text_or : String → String → String
  text_or String.[] other = other
  text_or (String.◌∷◌ c s) other = String.◌∷◌ c s

  -- No tool call: a nudge.
  unfoldable pub nudge : ModelResponse → Loop → Turn
  nudge r l =
      let l' = save (
        push
          (assistant_text (text_or r.text "(no output)")
            ∷ user_text "Call a tool to make progress, or call finish if the task is complete."
            ∷ [])
          l) in
      if r.budget_exhausted then halt (stop "run budget exhausted" l') else again l'

  unfoldable pub with_response : ModelResponse → Option Pending → Loop → Turn
  with_response r p l = if is_empty r.tool_calls then nudge r l else act r p l

  unfoldable pub on_reply : ModelReply → Loop → Turn
  on_reply (failed e) l = halt (stop e l)
  on_reply (replied r) l = with_response r none l

  -- A new step: the transcript is compacted, and near the limit the model is told to land.
  unfoldable pub begin_step : Loop → Loop
  begin_step l = record l {
    state = record l.state {
      step = (l.state).step + 1;
      messages = (compact opts.keep_full_steps (l.state).messages).0;
    };
  }

  unfoldable pub prompt_of : Checkpoint → List WireMessage
  prompt_of s =
      let remaining = opts.max_steps - s.step in
      if leb remaining 1 then s.messages ++ user_landing (remaining + 1) ∷ [] else s.messages

  unfoldable pub ask : Loop → Turn
  ask l =
      on_reply (env.reply l.tick (prompt_of l.state))
        (record l { tick = l.tick + 1; trace = asked ∷ l.trace })

  unfoldable pub on_pending : Option Pending → Loop → Turn
  on_pending (some p) l = with_response p.response (some p) l
  on_pending none l = ask (begin_step l)

  unfoldable pub turn : Loop → Turn
  turn l =
      let s = l.state in
      let l1 = record l { tick = l.tick + 1 } in
      if not ((ltb s.step opts.max_steps || is_some s.pending) && not s.finished)
      then halt l
      else if is_set l.stopped
      then halt l
      else if not (env.alive l.tick)
      then halt (stop lost l1)
      else on_pending s.pending l1

  abbrev pub then_on : Turn → (Loop → Option Loop) → Option Loop
  then_on (halt l) next = some l
  then_on (again l) next = next l

  unfoldable pub loop : ℕ → Loop → Option Loop
  loop zero l = none
  loop (suc fuel) l = then_on (turn l) (loop fuel)

pub Turn-cases :
    (env : Env) (opts : LoopOptions) (t : Turn env opts)
    → ((l : Loop) × (t ≡ halt l)) ⊎ ((l : Loop) × (t ≡ again l))
Turn-cases env opts (halt l) = inl (l, refl)
Turn-cases env opts (again l) = inr (l, refl)

pub loop-halt :
    (env : Env) (opts : LoopOptions) (n : ℕ) (l x : Loop)
    → turn env opts l ≡ halt x
    → loop env opts (suc n) l ≡ some x
unfolding loop
loop-halt env opts n l x t = ap (λ y. then_on env opts y (loop env opts n)) t

pub loop-again :
    (env : Env) (opts : LoopOptions) (n : ℕ) (l x : Loop)
    → turn env opts l ≡ again x
    → loop env opts (suc n) l ≡ loop env opts n x
unfolding loop
loop-again env opts n l x t = ap (λ y. then_on env opts y (loop env opts n)) t

-- The state that `resumeFrom` gives, or that of a new job.
abbrev pub begun : String → Checkpoint
begun brief = record {
  step = 0;
  messages = user_text brief ∷ [];
  files_touched = [];
  commits = [];
  branch = none;
  pr_url = none;
  terminal_meta = none;
  result_summary = "";
  finished = false;
  pending = none;
  blocked_reason = none;
}

unfoldable pub resumed : String → Option Checkpoint → Checkpoint
resumed brief none = begun brief
resumed brief (some s) = record s {
  messages = if is_empty s.messages then user_text brief ∷ [] else s.messages;
}

unfoldable pub start : String → Option Checkpoint → Loop
start brief from =
    let s = resumed brief from in
    record { state = s; stopped = s.blocked_reason; tick = 0; trace = [] }

-- The summary of the result: what the agent said, or why it ended.
pub data Ending : Type 0 where
  said : String → Ending
  stopped_after : ℕ → String → Ending
  at_limit : ℕ → Ending

pub record LoopOutcome : Type 0 where
  pub ok : Bool
  pub incomplete : Bool
  pub summary : Ending
  pub steps : ℕ
  pub files_touched : List String
  pub commits : List String
  pub branch : Option String
  pub pr_url : Option String
  pub terminal_meta : Option Meta

abbrev pub ending_of : ℕ → Loop → Ending
ending_of max l = elim l.stopped [
  | none ↦ at_limit max
  | some String.[] ↦ at_limit max
  | some (String.◌∷◌ c s) ↦ stopped_after (l.state).step (String.◌∷◌ c s)
]

-- summary ||= ...
abbrev pub summary_of : ℕ → String → Loop → Ending
summary_of max String.[] l = if (l.state).finished then said "" else ending_of max l
summary_of max (String.◌∷◌ c s) l = said (String.◌∷◌ c s)

unfoldable pub outcome_from : ℕ → Loop → LoopOutcome
outcome_from max l = record {
  ok = (l.state).finished;
  incomplete = not (l.state).finished;
  summary = summary_of max (l.state).result_summary l;
  steps = (l.state).step;
  files_touched = (l.state).files_touched;
  commits = (l.state).commits;
  branch = (l.state).branch;
  pr_url = (l.state).pr_url;
  terminal_meta = (l.state).terminal_meta;
}
