-- ===== src/AgentCore/Loop/Steps.antt =====
-- How often the loop turns and asks the model: every turn that goes on has spent a step or has put
-- the batch it resumed from behind it.
use kapi_final.Base.{
  ℕ, zero, suc, ◌+◌, ◌-◌, ◌≡◌, ◌<◌, ◌≤◌, refl, subst, sym, ◌∙◌, Bool, false, not, ◌&&◌, ◌||◌,
  Bool-cases, inl, inr, Option, none, some, List, [], ◌∷◌, drop, ltb, arith,
}
use kapi_final.AgentCore.Messages.{Meta, Checkpoint, ToolCall, ModelResponse, AgentTool, Pending}
use kapi_final.AgentCore.Loop.{
  Env, LoopOptions, Effect, saved, asked, ran, Loop, is_empty, is_set, is_some, save, stop, push,
  with_pending, call_once, call_tool, run_tool, after_tool, block, run_calls, find_tool, is_command,
  after_calls, Turn, halt, again, act, nudge, with_response, on_reply, ask, begin_step, on_pending,
  turn, loop, ModelReply, failed, replied, fresh, Turn-cases, loop-halt, loop-again, absorb,
  finish_with, outcome_of,
}
use kapi_final.AgentCore.Loop.Journal.{HasCalls}

-- How often the model was asked.
abbrev pub asks : List Effect → ℕ
asks [] = 0
asks (asked ∷ t) = asks t + 1
asks (saved _ ∷ t) = asks t
asks (ran _ ∷ t) = asks t

abbrev one : Option Pending → ℕ
one none = 0
one (some _) = 1

-- A step of the loop that is inside one turn: no other step begun, nothing asked.
record IsWithin (l l' : Loop) : Type 0 where
  step : (l'.state).step ≡ (l.state).step
  asked : asks l'.trace ≡ asks l.trace

absorb-step : (m : Option Meta) (s : Checkpoint) → (absorb m s).step ≡ s.step
unfolding absorb
absorb-step none s = refl
absorb-step (some m) s = refl

module _ (env : Env) (opts : LoopOptions) where
  call_tool-IsWithin :
      (c : ToolCall) (tool : AgentTool) (p : Pending) (l : Loop)
      → IsWithin l (call_tool env opts c tool p l).1
  unfolding call_tool save with_pending block run_tool after_tool finish_with
  call_tool-IsWithin c tool p l = elim (Bool-cases (p.started && is_command tool.name)) [
    | inl t ↦ rw t (record { step = refl; asked = refl })
    | inr t ↦ rw t (elim (Bool-cases (tool.terminal && (outcome_of (env.use_tool l.tick c)).ok)) [
      | inl u ↦ rw u (record { step = absorb-step _ _; asked = refl })
      | inr u ↦ rw u (record { step = absorb-step _ _; asked = refl })
    ])
  ]

  call_once-IsWithin :
      (c : ToolCall) (o : Option AgentTool) (p : Pending) (l : Loop)
      → IsWithin l (call_once env opts c o p l).1
  unfolding call_once save with_pending
  call_once-IsWithin c none p l = record { step = refl; asked = refl }
  call_once-IsWithin c (some tool) p l = call_tool-IsWithin c tool p l

  run_calls-IsWithin :
      (cs : List ToolCall) (p : Pending) (l : Loop) → IsWithin l (run_calls env opts cs p l).1
  unfolding run_calls stop
  run_calls-IsWithin [] p l = record { step = refl; asked = refl }
  run_calls-IsWithin (c ∷ cs) p l =
      let l1 = record l { tick = l.tick + 1 } in
      let o = call_once env opts c (find_tool opts.tools c.tool_name) p l1 in
      let i = call_once-IsWithin c (find_tool opts.tools c.tool_name) p l1 in
      let r = run_calls-IsWithin cs o.0 o.1 in
      elim (Bool-cases (not (env.alive l.tick))) [
        | inl t ↦ rw t (record { step = refl; asked = refl })
        | inr t ↦ rw t (elim (Bool-cases (is_set o.1.stopped || (o.1.state).finished)) [
          | inl u ↦ rw u (record { step = i.step; asked = i.asked })
          | inr u ↦ rw u (record { step = r.step ∙ i.step; asked = r.asked ∙ i.asked })
        ])
      ]

  -- The turn ends within l, and leaves no batch if the loop goes on.
  abbrev Leaves : Loop → Turn env opts → Type 0
  Leaves l (halt l') = IsWithin l l'
  Leaves l (again l') = IsWithin l l' × ((l'.state).pending ≡ none)

  after_calls-Leaves :
      (r : ModelResponse) (o : Pending × Loop) (l : Loop)
      → IsWithin l o.1
      → Leaves l (after_calls env opts r o)
  unfolding after_calls save with_pending push stop
  after_calls-Leaves r (p, l1) l i = elim (Bool-cases (is_set l1.stopped)) [
    | inl t ↦ rw t i
    | inr t ↦ rw t (elim (Bool-cases (r.budget_exhausted && not (l1.state).finished)) [
      | inl u ↦ rw u (record { step = i.step; asked = i.asked })
      | inr u ↦ rw u ((record { step = i.step; asked = i.asked }, refl))
    ])
  ]

  on_reply-Leaves :
      (m : ModelReply) (l : Loop) → (l.state).pending ≡ none → Leaves l (on_reply env opts m l)
  unfolding on_reply with_response stop nudge act push with_pending save
  on_reply-Leaves (failed e) l h = record { step = refl; asked = refl }
  on_reply-Leaves (replied r) l h = elim (Bool-cases (is_empty r.tool_calls)) [
    | inl t ↦ rw t (elim (Bool-cases r.budget_exhausted) [
      | inl u ↦ rw u (record { step = refl; asked = refl })
      | inr u ↦ rw u ((record { step = refl; asked = refl }, h))
    ])
    | inr t ↦ rw t (
        let w = run_calls-IsWithin r.tool_calls (fresh env opts r) _ in
        after_calls-Leaves r _ l (record { step = w.step; asked = w.asked }))
  ]

  abbrev todo : Loop → ℕ
  todo l = opts.max_steps - (l.state).step + one (l.state).pending

  abbrev budget : Loop → ℕ
  budget l = asks l.trace + (opts.max_steps - (l.state).step)

  -- A turn that goes on has less to do; no turn asks more than the steps it spends.
  abbrev Spends : Loop → Turn env opts → Type 0
  Spends l (halt l') = budget l' ≤ budget l
  Spends l (again l') = (budget l' ≤ budget l) × (todo l' < todo l) × ((l'.state).pending ≡ none)

  Leaves-Spends :
      (l0 l : Loop) (t : Turn env opts)
      → Leaves l0 t
      → budget l0 ≤ budget l
      → opts.max_steps - (l0.state).step < todo l
      → Spends l t
  Leaves-Spends l0 l (halt l') i b d = omega (arith, i.step, i.asked)
  Leaves-Spends l0 l (again l') (i, e) b d =
      (omega (arith, i.step, i.asked), rw e (omega (arith, i.step)), e)

  on_pending-Spends :
      (p : Option Pending) (l : Loop)
      → (l.state).pending ≡ p
      → HasCalls p
      → (p ≡ none → (l.state).step < opts.max_steps)
      → Spends l (on_pending env opts p l)
  unfolding on_pending ask begin_step with_response act
  on_pending-Spends none l e h lt =
      Leaves-Spends (record (begin_step env opts l) { tick = l.tick + 1; trace = asked ∷ l.trace })
        l _ (on_reply-Leaves _ _ e) (omega (arith, lt refl)) (rw e (omega (arith, lt refl)))
  on_pending-Spends (some p) l e h lt = rw h (
      let cs = drop p.next (p.response).tool_calls in
      Leaves-Spends l l _ (after_calls-Leaves p.response _ l (run_calls-IsWithin cs p l))
        (omega arith) (rw e (omega arith)))

  none_lt :
      (p : Option Pending) (b : Bool) (s : ℕ)
      → not ((ltb s opts.max_steps || is_some p) && not b) ≡ false
      → p ≡ none
      → s < opts.max_steps
  none_lt none b s h e = ground arith
  none_lt (some p) b s h e = absurd (cc)

  turn-Spends : (l : Loop) → HasCalls (l.state).pending → Spends l (turn env opts l)
  unfolding turn stop
  turn-Spends l h =
      elim (Bool-cases (
        not (
          (ltb (l.state).step opts.max_steps || is_some (l.state).pending)
          && not (l.state).finished))) [
            | inl t ↦ rw t (omega arith)
            | inr t ↦ rw t (elim (Bool-cases (is_set l.stopped)) [
              | inl u ↦ rw u (omega arith)
              | inr u ↦ rw u (elim (Bool-cases (not (env.alive l.tick))) [
                | inl v ↦ rw v (omega arith)
                | inr v ↦ rw v (
                    on_pending-Spends (l.state).pending (record l { tick = l.tick + 1 }) refl h
                      (none_lt (l.state).pending (l.state).finished (l.state).step t))
              ])
            ])
          ]

  -- The loop ends: started from a checkpoint whose batch, if it holds one, is of a response with
  -- calls, with more fuel than the steps that are left, and one for the batch, it has a result,
  -- whatever the model, the tools and the lease do, and it has asked the model at most once for
  -- each step it has spent.
  pub loop_ends :
      (fuel : ℕ) (l : Loop)
      → HasCalls (l.state).pending
      → todo l < fuel
      → (l' : Loop) × (loop env opts fuel l ≡ some l')
        × (asks l'.trace + (opts.max_steps - (l'.state).step)
            ≤ asks l.trace + (opts.max_steps - (l.state).step))
  loop_ends zero l h lt = absurd (omega arith)
  loop_ends (suc n) l h lt = elim (Turn-cases env opts (turn env opts l)) [
    | inl (x, t) ↦
        let q : Spends l (halt x) = subst (Spends l) t (turn-Spends l h) in
        (x, loop-halt env opts n l x t, q)
    | inr (x, t) ↦
        let q : Spends l (again x) = subst (Spends l) t (turn-Spends l h) in
        let (l', e, b) = loop_ends n x (subst HasCalls (sym q.2) tt) (omega (arith, q.1)) in
        (l', loop-again env opts n l x t ∙ e, omega (arith, q.0))
  ]
