-- ===== src/AgentCore/Loop/Journal.antt =====
-- The trace of the loop as a journal: which call a crash may have interrupted can be read off the
-- last checkpoint.
use kapi_final.Base.{
  ℕ, zero, suc, ◌+◌, ◌≡◌, refl, subst, some-injective, sym, ap, ◌∙◌, Bool, true, false, not, ◌&&◌,
  ◌||◌, Bool-cases, inl, inr, Option, none, some, List, [], ◌∷◌, ◌++◌, drop, map, ltb, arith,
}
use kapi_final.AgentCore.Messages.{
  tool_call, assistant_parts, assistant_text, user_text, tool_results, ToolCall, ModelResponse,
  AgentTool, ToolResult, Pending, Checkpoint,
}
use kapi_final.AgentCore.Loop.{
  Turn-cases, loop-halt, loop-again, Env, LoopOptions, Effect, saved, asked, ran, Loop, is_empty,
  is_set, is_some, fresh, text_of, text_or, save, stop, push, with_pending, call_once, call_tool,
  run_tool, after_tool, block, skipped, run_calls, find_tool, is_command, after_calls, Turn, halt,
  again, act, nudge, with_response, on_reply, ask, begin_step, on_pending, turn, loop, ModelReply,
  failed, replied,
}

abbrev pub call_at : ℕ → List ToolCall → Option ToolCall
call_at n [] = none
call_at zero (c ∷ cs) = some c
call_at (suc n) (c ∷ cs) = call_at n cs

-- A batch that is saved is of a response with calls.
abbrev pub HasCalls : Option Pending → Type 0
HasCalls none = Unit
HasCalls (some p) = is_empty (p.response).tool_calls ≡ false

-- The newest effect is a checkpoint that marks the call as started.
abbrev pub Marks : ToolCall → List Effect → Type 0
Marks c (saved s ∷ t) =
    (p : Pending) × (s.pending ≡ some p)
    × (p.started ≡ true)
    × (call_at p.next (p.response).tool_calls ≡ some c)
Marks c _ = ⊥

-- A checkpoint right after a call has that call behind it, and none started.
abbrev pub Follows : Checkpoint → List Effect → Type 0
Follows s (ran c ∷ t) =
    (p : Pending) × (n : ℕ) × (s.pending ≡ some p)
    × (p.started ≡ false)
    × (p.next ≡ suc n)
    × (call_at n (p.response).tool_calls ≡ some c)
Follows s _ = Unit

abbrev pub IsSettled : List Effect → Type 0
IsSettled (ran c ∷ t) = ⊥
IsSettled _ = Unit

abbrev pub IsJournal : List Effect → Type 0
IsJournal [] = Unit
IsJournal (saved s ∷ t) = HasCalls s.pending × Follows s t × IsJournal t
IsJournal (asked ∷ t) = IsSettled t × IsJournal t
IsJournal (ran c ∷ t) = Marks c t × IsJournal t

-- What each step keeps: a journal with no call open.
abbrev pub Kept : List Effect → Type 0
Kept t = IsSettled t × IsJournal t

settled-Follows : (s : Checkpoint) (t : List Effect) → IsSettled t → Follows s t
settled-Follows s [] h = tt
settled-Follows s (saved _ ∷ t) h = tt
settled-Follows s (asked ∷ t) h = tt
settled-Follows s (ran _ ∷ t) h = absurd h

pub save-Kept : (l : Loop) → HasCalls (l.state).pending → Kept l.trace → Kept (save l).trace
unfolding save
save-Kept l h k = (tt, (h, settled-Follows l.state l.trace k.0, k.1))

drop-call_at :
    (n : ℕ) (cs : List ToolCall) {c : ToolCall} {rest : List ToolCall}
    → drop n cs ≡ c ∷ rest
    → (call_at n cs ≡ some c) × (drop (n + 1) cs ≡ rest)
drop-call_at zero [] e = absurd (cc)
drop-call_at zero (d ∷ cs) e = (cc, ground (arith, e))
drop-call_at (suc n) [] e = absurd (cc)
drop-call_at (suc n) (d ∷ cs) e = ground (arith, drop-call_at n cs e)

or_false_left : (a b : Bool) → a || b ≡ false → a ≡ false
or_false_left false b e = refl
or_false_left true b e = absurd (cc)

-- What a call leaves: the batch moved on by one, or the loop has stopped.
record IsCarried (rest : List ToolCall) (p : Pending) (o : Pending × Loop) : Type 0 where
  kept : Kept o.1.trace
  same : o.0.response ≡ p.response
  next : is_set o.1.stopped ≡ false → drop o.0.next (p.response).tool_calls ≡ rest

module _ (env : Env) (opts : LoopOptions) (c : ToolCall) (rest : List ToolCall) (p : Pending)
    (here : drop p.next (p.response).tool_calls ≡ c ∷ rest)
    (calls : is_empty (p.response).tool_calls ≡ false) where
  after_tool-IsCarried :
      (tool : AgentTool) (r : ToolResult) (l : Loop)
      → Marks c l.trace
      → IsJournal l.trace
      → IsCarried rest p (
          after_tool env opts c tool r
            (record p { started = true })
            (record l { tick = l.tick + 1; trace = ran c ∷ l.trace }))
  unfolding after_tool save with_pending
  after_tool-IsCarried tool r l m j =
      let at = drop-call_at p.next (p.response).tool_calls here in
      record {
        kept = (tt, (calls, (_, p.next, refl, refl, omega arith, at.0), (m, j)));
        same = refl;
        next = λ _. at.1;
      }

  call_tool-IsCarried :
      (tool : AgentTool) (l : Loop)
      → Kept l.trace
      → IsCarried rest p (call_tool env opts c tool p l)
  unfolding call_tool save with_pending run_tool block
  call_tool-IsCarried tool l k = elim (Bool-cases (p.started && is_command tool.name)) [
    | inl t ↦ rw t (record {
      kept = (
        tt,
        (
          calls,
          tt,
          (
            calls,
            settled-Follows (record l.state { pending = some (record p { started = true }) })
                l.trace k.0,
            k.1,
          ),
        ),
      );
      same = refl;
      next = λ e. absurd (cc);
    })
    | inr t ↦ rw t (
        after_tool-IsCarried tool _ (save (with_pending (some (record p { started = true })) l))
          (_, refl, refl, (drop-call_at p.next (p.response).tool_calls here).0)
          (
            calls,
            settled-Follows (record l.state { pending = some (record p { started = true }) })
                l.trace k.0,
            k.1,
          ))
  ]

  call_once-IsCarried :
      (o : Option AgentTool) (l : Loop)
      → Kept l.trace
      → IsCarried rest p (call_once env opts c o p l)
  unfolding call_once save with_pending
  call_once-IsCarried none l k = record {
    kept = (
      tt,
      (calls, settled-Follows (record l.state { pending = some (skipped c p) }) l.trace k.0, k.1),
    );
    same = refl;
    next = λ _. (drop-call_at p.next (p.response).tool_calls here).1;
  }
  call_once-IsCarried (some tool) l k = call_tool-IsCarried tool l k

module _ (env : Env) (opts : LoopOptions) where
  run_calls-Kept :
      (cs : List ToolCall) (p : Pending) (l : Loop)
      → drop p.next (p.response).tool_calls ≡ cs
      → is_empty (p.response).tool_calls ≡ false
      → Kept l.trace
      → Kept (run_calls env opts cs p l).1.trace
  unfolding run_calls stop
  run_calls-Kept [] p l e h k = k
  run_calls-Kept (c ∷ cs) p l e h k =
      let l1 = record l { tick = l.tick + 1 } in
      let o = call_once env opts c (find_tool opts.tools c.tool_name) p l1 in
      let i : IsCarried cs p o = call_once-IsCarried env opts c cs p e h _ l1 k in
      elim (Bool-cases (not (env.alive l.tick))) [
        | inl t ↦ rw t k
        | inr t ↦ rw t (elim (Bool-cases (is_set o.1.stopped || (o.1.state).finished)) [
          | inl u ↦ rw u i.kept
          | inr u ↦ rw u (
              run_calls-Kept cs o.0 o.1
                (ap (λ r. drop o.0.next r.tool_calls) i.same ∙ i.next (or_false_left _ _ u))
                (ap (λ r. is_empty r.tool_calls) i.same ∙ h) i.kept)
        ])
      ]

  abbrev TurnKeeps : Turn env opts → Type 0
  TurnKeeps (halt l) = Kept l.trace
  TurnKeeps (again l) = HasCalls (l.state).pending × Kept l.trace

  after_calls-TurnKeeps :
      (r : ModelResponse) (o : Pending × Loop)
      → Kept o.1.trace
      → TurnKeeps (after_calls env opts r o)
  unfolding after_calls save with_pending push stop
  after_calls-TurnKeeps r (p, l) k =
      let s = record l.state {
        messages = (l.state).messages ++ tool_results p.results ∷ [];
        pending = none;
      } in
      let k' : Kept (saved s ∷ l.trace) = (tt, (tt, settled-Follows s l.trace k.0, k.1)) in
      elim (Bool-cases (is_set l.stopped)) [
        | inl t ↦ rw t k
        | inr t ↦ rw t (elim (Bool-cases (r.budget_exhausted && not (l.state).finished)) [
          | inl u ↦ rw u k'
          | inr u ↦ rw u ((tt, k'))
        ])
      ]

  act-TurnKeeps :
      (r : ModelResponse) (l : Loop)
      → is_empty r.tool_calls ≡ false
      → Kept l.trace
      → TurnKeeps (act env opts r none l)
  unfolding act save with_pending push
  act-TurnKeeps r l h k = after_calls-TurnKeeps r _ (
      run_calls-Kept r.tool_calls (fresh env opts r) _ refl h (
        save-Kept
          (with_pending (some (fresh env opts r))
            (push (assistant_parts (text_of env opts r.text ++ map tool_call r.tool_calls) ∷ []) l))
          h k))

  nudge-TurnKeeps :
      (r : ModelResponse) (l : Loop)
      → (l.state).pending ≡ none
      → Kept l.trace
      → TurnKeeps (nudge env opts r l)
  unfolding nudge save push stop
  nudge-TurnKeeps r l e k =
      let h : HasCalls (l.state).pending = rw e tt in
      let k' =
        save-Kept
          (push
            (assistant_text (text_or env opts r.text "(no output)")
              ∷ user_text "Call a tool to make progress, or call finish if the task is complete."
              ∷ [])
            l)
          h k in
      elim (Bool-cases r.budget_exhausted) [ inl t ↦ rw t k' | inr t ↦ rw t ((h, k')) ]

  on_reply-TurnKeeps :
      (m : ModelReply) (l : Loop)
      → (l.state).pending ≡ none
      → Kept l.trace
      → TurnKeeps (on_reply env opts m l)
  unfolding on_reply with_response stop
  on_reply-TurnKeeps (failed e) l h k = k
  on_reply-TurnKeeps (replied r) l h k = elim (Bool-cases (is_empty r.tool_calls)) [
    | inl t ↦ rw t (nudge-TurnKeeps r l h k)
    | inr t ↦ rw t (act-TurnKeeps r l t k)
  ]

  on_pending-TurnKeeps :
      (p : Option Pending) (l : Loop)
      → (l.state).pending ≡ p
      → HasCalls p
      → Kept l.trace
      → TurnKeeps (on_pending env opts p l)
  unfolding on_pending with_response ask begin_step act
  on_pending-TurnKeeps none l e h k = on_reply-TurnKeeps _ _ e (tt, k)
  on_pending-TurnKeeps (some p) l e h k = rw h (
      after_calls-TurnKeeps p.response _
        (run_calls-Kept (drop p.next (p.response).tool_calls) p l refl h k))

  turn-TurnKeeps :
      (l : Loop) → HasCalls (l.state).pending → Kept l.trace → TurnKeeps (turn env opts l)
  unfolding turn stop
  turn-TurnKeeps l h k =
      elim (Bool-cases (
        not (
          (ltb (l.state).step opts.max_steps || is_some (l.state).pending)
          && not (l.state).finished))) [
            | inl t ↦ rw t k
            | inr t ↦ rw t (elim (Bool-cases (is_set l.stopped)) [
              | inl u ↦ rw u k
              | inr u ↦ rw u (elim (Bool-cases (not (env.alive l.tick))) [
                | inl v ↦ rw v k
                | inr v ↦ rw v (
                    on_pending-TurnKeeps (l.state).pending (record l { tick = l.tick + 1 }) refl h
                      k)
              ])
            ])
          ]

  -- What the loop sends out, in order, is a journal: directly before a tool runs, a checkpoint
  -- marks its call as started; the next thing after it is a checkpoint that has the call behind
  -- it; and each checkpoint that holds a batch holds a response with calls, so that a job can
  -- resume from it. It starts from a journal and a checkpoint of that kind, and has ended.
  pub loop-IsJournal :
      (fuel : ℕ) (l l' : Loop)
      → HasCalls (l.state).pending
      → Kept l.trace
      → loop env opts fuel l ≡ some l'
      → Kept l'.trace
  unfolding loop
  loop-IsJournal zero l l' h k e = absurd (cc)
  loop-IsJournal (suc n) l l' h k e = elim (Turn-cases env opts (turn env opts l)) [
    | inl (x, t) ↦
        let q : TurnKeeps (halt x) = subst TurnKeeps t (turn-TurnKeeps l h k) in
        let d = sym (loop-halt env opts n l x t) ∙ e in
        subst (λ (y : Loop). Kept y.trace) (some-injective x l' d) q
    | inr (x, t) ↦
        let q : TurnKeeps (again x) = subst TurnKeeps t (turn-TurnKeeps l h k) in
        loop-IsJournal n x l' q.0 q.1 (sym (loop-again env opts n l x t) ∙ e)
  ]
