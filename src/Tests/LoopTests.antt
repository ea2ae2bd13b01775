-- ===== src/Tests/LoopTests.antt =====
-- The agent's loop at a model that runs a command and then finishes.
use kapi_final.Base.{◌-◌, ◌+◌, ◌≡◌, ◌≤◌, refl, true, false, Option, none, some, [], ◌∷◌, arith}
use kapi_final.AgentCore.Messages.{ToolCall, ModelResponse, Checkpoint}
use kapi_final.AgentCore.Loop.{
  Env, LoopOptions, Loop, replied, returned, loop, start, begun, turn, on_pending, ask, begin_step,
  prompt_of, on_reply, with_response, act, after_calls, run_calls, find_tool, call_once, call_tool,
  run_tool, after_tool, save, push, with_pending, stop, absorb, finish_with, is_command, resumed,
  block,
}
use kapi_final.AgentCore.Loop.Journal.{Kept, loop-IsJournal}
use kapi_final.AgentCore.Loop.Steps.{asks, loop_ends}
use kapi_final.AgentCore.Loop.Blocked.{IsBlocked, resume-IsBlocked}

abbrev runs_tests : ToolCall
runs_tests = record {
  tool_call_id = 1;
  tool_name = "run_tests";
  path = none;
  command = some (110 ∷ []);
  summary = none;
  rest = 0;
}

abbrev finishes : ToolCall
finishes = record {
  tool_call_id = 2;
  tool_name = "finish";
  path = none;
  command = none;
  summary = some "done";
  rest = 0;
}

abbrev answer : ModelResponse
answer = record { text = ""; tool_calls = runs_tests ∷ finishes ∷ []; budget_exhausted = false }

abbrev world : Env
world = record {
  alive = λ _. true;
  reply = λ _ _. replied answer;
  use_tool = λ _ _. returned (record { output = "ok"; ok = true; info = none });
}

abbrev options : LoopOptions
options = record {
  tools =
      (record { name = "run_tests"; terminal = false })
      ∷ (record { name = "finish"; terminal = true })
      ∷ [];
  max_steps = 3;
  keep_full_steps = 6;
}

abbrev ended : Option Loop → Loop
ended none = record { state = begun ""; stopped = none; tick = 0; trace = [] }
ended (some l) = l

loop-IsJournal_example : Kept (ended (loop world options 4 (start "fix it" none))).trace
unfolding loop start resumed turn on_pending ask begin_step prompt_of on_reply with_response act
    after_calls run_calls find_tool call_once call_tool run_tool after_tool save push with_pending
    stop absorb finish_with is_command block
loop-IsJournal_example =
    loop-IsJournal world options 4 (start "fix it" none)
      (ended (loop world options 4 (start "fix it" none))) tt (tt, tt) refl

loop_ends_example :
    (l : Loop) × (loop world options 4 (start "fix it" none) ≡ some l)
    × (asks l.trace + (3 - (l.state).step) ≤ 0 + (3 - 0))
unfolding start resumed
loop_ends_example = loop_ends world options 4 (start "fix it" none) tt (omega arith)

-- The agent was killed while the tests ran.
abbrev killed : Checkpoint
killed = record (begun "fix it") {
  step = 1;
  pending = some (record { response = answer; next = 0; started = true; results = [] });
}

resume-IsBlocked_example :
    (l : Loop) × (loop world options 1 (start "fix it" (some killed)) ≡ some l) × IsBlocked l
unfolding find_tool is_command
resume-IsBlocked_example =
    resume-IsBlocked world options runs_tests (finishes ∷ [])
      (record { name = "run_tests"; terminal = false })
      (record { response = answer; next = 0; started = true; results = [] }) refl refl refl refl
      "fix it" killed refl refl refl 0
