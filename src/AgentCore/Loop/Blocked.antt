-- ===== src/AgentCore/Loop/Blocked.antt =====
-- Resuming a batch whose current call an earlier attempt began.
use kapi_final.Base.{
  ℕ, zero, suc, ◌+◌, ◌≡◌, refl, ◌∙◌, Bool, true, false, not, ◌||◌, ◌⊎◌, String, Bool-cases, ltb,
  inl, inr, none, some, List, [], ◌∷◌, drop,
}
use kapi_final.AgentCore.Messages.{ToolCall, AgentTool, Pending, Checkpoint}
use kapi_final.AgentCore.Loop.{
  Env, LoopOptions, Effect, saved, asked, ran, Loop, is_empty, is_set, save, stop, with_pending,
  call_once, call_tool, block, run_calls, find_tool, is_command, after_calls, halt, loop-halt,
  with_response, act, on_pending, turn, loop, lost, interrupted, start, resumed,
}

-- How many tools ran.
abbrev pub runs : List Effect → ℕ
runs [] = 0
runs (ran _ ∷ t) = runs t + 1
runs (saved _ ∷ t) = runs t
runs (asked ∷ t) = runs t

-- What the resumed loop has done when it ends: no tool ran, the job is not finished, and the stop
-- reason is one of two.
pub record IsBlocked (l : Loop) : Type 0 where
  pub ran : runs l.trace ≡ 0
  pub open_end : (l.state).finished ≡ false
  pub why : (l.stopped ≡ some lost) ⊎ (l.stopped ≡ some interrupted)

or_true : (b : Bool) → (b || true) ≡ true
or_true false = refl
or_true true = refl

module _ (env : Env) (opts : LoopOptions) (c : ToolCall) (cs : List ToolCall) (tool : AgentTool)
    (p : Pending) (here : drop p.next (p.response).tool_calls ≡ c ∷ cs)
    (known : find_tool opts.tools c.tool_name ≡ some tool) (command : is_command tool.name ≡ true)
    (began : p.started ≡ true) where
  run_calls-IsBlocked :
      (l : Loop)
      → runs l.trace ≡ 0
      → (l.state).finished ≡ false
      → IsBlocked (run_calls env opts (c ∷ cs) p l).1
        × (is_set (run_calls env opts (c ∷ cs) p l).1.stopped ≡ true)
  unfolding run_calls stop call_once call_tool block save with_pending
  run_calls-IsBlocked l z f = elim (Bool-cases (not (env.alive l.tick))) [
    | inl t ↦ rw t ((record { ran = z; open_end = f; why = inl refl }, refl))
    | inr t ↦
        rw (t, known, began, command) ((record { ran = z; open_end = f; why = inr refl }, refl))
  ]

  has_calls : (n : ℕ) (ds : List ToolCall) → drop n ds ≡ c ∷ cs → is_empty ds ≡ false
  has_calls zero [] e = absurd (cc)
  has_calls (suc n) [] e = absurd (cc)
  has_calls n (d ∷ ds) e = refl

  after_calls-halt :
      (o : Pending × Loop)
      → is_set o.1.stopped ≡ true
      → after_calls env opts p.response o ≡ halt o.1
  unfolding after_calls
  after_calls-halt o h = rw h refl

  turn-pending :
      (l : Loop)
      → (l.state).pending ≡ some p
      → l.stopped ≡ none
      → (l.state).finished ≡ false
      → env.alive l.tick ≡ true
      → turn env opts l ≡ on_pending env opts (some p) (record l { tick = l.tick + 1 })
  unfolding turn
  turn-pending l e n f a = simp (e, f, or_true (ltb (l.state).step opts.max_steps), n, a)

  turn-dead :
      (l : Loop)
      → (l.state).pending ≡ some p
      → l.stopped ≡ none
      → (l.state).finished ≡ false
      → env.alive l.tick ≡ false
      → turn env opts l ≡ halt (stop lost (record l { tick = l.tick + 1 }))
  unfolding turn
  turn-dead l e n f a = simp (e, f, or_true (ltb (l.state).step opts.max_steps), n, a)

  on_pending-IsBlocked :
      (l : Loop)
      → is_set (run_calls env opts (c ∷ cs) p l).1.stopped ≡ true
      → on_pending env opts (some p) l ≡ halt (run_calls env opts (c ∷ cs) p l).1
  unfolding on_pending with_response act
  on_pending-IsBlocked l h =
      rw (has_calls p.next (p.response).tool_calls here, here) (after_calls-halt _ h)

  turn-IsBlocked :
      (l : Loop)
      → (l.state).pending ≡ some p
      → l.stopped ≡ none
      → runs l.trace ≡ 0
      → (l.state).finished ≡ false
      → (x : Loop) × (turn env opts l ≡ halt x) × IsBlocked x
  unfolding stop
  turn-IsBlocked l e n z f =
      let b = run_calls-IsBlocked (record l { tick = l.tick + 1 }) z f in
      elim (Bool-cases (env.alive l.tick)) [
        | inl t ↦ (_, turn-pending l e n f t ∙ on_pending-IsBlocked _ b.1, b.0)
        | inr t ↦ (
          stop lost (record l { tick = l.tick + 1 }),
          turn-dead l e n f t,
          record { ran = z; open_end = f; why = inl refl },
        )
      ]

  -- A job that resumes in the middle of a command that an earlier attempt began, where the call's
  -- tool is known, ends at once: no tool runs, the job is not finished, and it has stopped
  -- because the command's effects are unknown, or because the lease is lost.
  pub resume-IsBlocked :
      (brief : String) (s : Checkpoint)
      → s.pending ≡ some p
      → s.blocked_reason ≡ none
      → s.finished ≡ false
      → (fuel : ℕ)
      → (l : Loop) × (loop env opts (suc fuel) (start brief (some s)) ≡ some l) × IsBlocked l
  unfolding start resumed
  resume-IsBlocked brief s e n f fuel =
      let (x, t, b) = turn-IsBlocked (start brief (some s)) e n refl f in
      (x, loop-halt env opts fuel _ x t, b)
