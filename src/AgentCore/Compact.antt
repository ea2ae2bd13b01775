-- ===== src/AgentCore/Compact.antt =====
-- packages/agent-core/src/loop.ts: compacting the transcript. The wording of the summary is left
-- out, and what it lists is kept.
use kapi_final.Base.{
  ℕ, zero, suc, ◌+◌, ◌-◌, ◌≡◌, ◌<◌, refl, ap, ◌∙◌, leb, Bool, true, false, Option, none, some, List,
  [], ◌∷◌, ◌++◌, length, take, drop, take-append-drop, if◌then◌else◌, arith,
}
use kapi_final.AgentCore.Messages.{
  Part, tool_call, text_part, Action, WireMessage, user_summary, assistant_parts, is_assistant,
}

unfoldable pub assistant_indexes : ℕ → List WireMessage → List ℕ
assistant_indexes i [] = []
assistant_indexes i (m ∷ ms) =
    if is_assistant m then i ∷ assistant_indexes (i + 1) ms else assistant_indexes (i + 1) ms

-- `xs[i]`, which is undefined past the end; and `slice` with such a bound.
abbrev pub item_at : ℕ → List ℕ → Option ℕ
item_at n [] = none
item_at zero (x ∷ xs) = some x
item_at (suc n) (x ∷ xs) = item_at n xs

abbrev pub slice_to : Option ℕ → List WireMessage → List WireMessage
slice_to none ms = ms
slice_to (some n) ms = take n ms

abbrev pub slice_from : Option ℕ → List WireMessage → List WireMessage
slice_from none ms = ms
slice_from (some n) ms = drop n ms

-- target?.path ?? target?.command ?? ""
abbrev pub target_of : Option (List ℕ) → Option (List ℕ) → List ℕ
target_of (some p) command = p
target_of none (some c) = c
target_of none none = []

unfoldable pub calls_in : List Part → List Action
calls_in [] = []
calls_in (tool_call c ∷ ps) =
    record { tool_name = c.tool_name; detail = take 80 (target_of c.path c.command) } ∷ calls_in ps
calls_in (text_part _ ∷ ps) = calls_in ps

unfoldable pub actions_of : List WireMessage → List Action
actions_of [] = []
actions_of (assistant_parts ps ∷ ms) = calls_in ps ++ actions_of ms
actions_of (_ ∷ ms) = actions_of ms

abbrev pub summary_message : List Action → List WireMessage
summary_message [] = []
summary_message (a ∷ more) = user_summary (a ∷ more) ∷ []

unfoldable pub cut_of : ℕ → List WireMessage → Option ℕ
cut_of keep rest = let indexes = assistant_indexes 0 rest in item_at (length indexes - keep) indexes

unfoldable pub compact : ℕ → List WireMessage → List WireMessage × List Action
compact keep [] = ([], [])
compact keep (brief ∷ rest) =
    let actions = actions_of (slice_to (cut_of keep rest) rest) in
    if leb (length (assistant_indexes 0 rest)) keep
    then (brief ∷ rest, [])
    else (brief ∷ summary_message actions ++ slice_from (cut_of keep rest) rest, actions)

-- How many turns of the assistant there are.
unfoldable pub turns : List WireMessage → ℕ
turns [] = 0
turns (m ∷ ms) = (if is_assistant m then 1 else 0) + turns ms

abbrev pub starts_turn : List WireMessage → Bool
starts_turn [] = false
starts_turn (m ∷ ms) = is_assistant m

length-assistant_indexes :
    (i : ℕ) (ms : List WireMessage) → length (assistant_indexes i ms) ≡ turns ms
unfolding assistant_indexes turns
length-assistant_indexes i [] = refl
length-assistant_indexes i (m ∷ ms) = ground (arith, length-assistant_indexes (i + 1) ms)

-- The place of a turn: what follows it, it included, starts there.
record IsTurnAt (n i c : ℕ) (ms : List WireMessage) : Type 0 where
  place : item_at n (assistant_indexes i ms) ≡ some (i + c)
  starts : starts_turn (drop c ms) ≡ true
  left : turns (drop c ms) + n ≡ turns ms

turn_at : (n i : ℕ) (ms : List WireMessage) → n < turns ms → (c : ℕ) × IsTurnAt n i c ms
unfolding assistant_indexes turns
turn_at n i [] h = absurd (omega (arith, h))
turn_at n i (m ∷ ms) h = by_role n (is_assistant m) refl h (λ k l. turn_at k (i + 1) ms l)
  where
    by_role :
        (n : ℕ) (b : Bool)
        → is_assistant m ≡ b
        → n < turns (m ∷ ms)
        → ((k : ℕ) → k < turns ms → (c : ℕ) × IsTurnAt k (i + 1) c ms)
        → (c : ℕ) × IsTurnAt n i c (m ∷ ms)
    by_role zero true e h rest =
        (0, record { place = ground (arith, e); starts = e; left = omega arith })
    by_role (suc k) true e h rest =
        let (c, t) = rest k (ground (arith, e, h)) in
        (
          suc c,
          record {
            place = ground (arith, e, t.place);
            starts = t.starts;
            left = ground (arith, e, t.left);
          },
        )
    by_role n false e h rest =
        let (c, t) = rest n (ground (arith, e, h)) in
        (
          suc c,
          record {
            place = ground (arith, e, t.place);
            starts = t.starts;
            left = ground (arith, e, t.left);
          },
        )

-- Where some turns of the assistant are kept and there are more, the compacted transcript is the
-- brief, at most one summary of what is left out, and the end of the transcript, which starts
-- with a turn of the assistant and holds just as many turns as are kept.
pub compact_window :
    (keep : ℕ) (brief : WireMessage) (rest : List WireMessage)
    → 0 < keep
    → keep < turns rest
    → (before kept : List WireMessage) × (before ++ kept ≡ rest)
      × (compact keep (brief ∷ rest)
          ≡ (brief ∷ summary_message (actions_of before) ++ kept, actions_of before))
      × (starts_turn kept ≡ true)
      × (turns kept ≡ keep)
unfolding compact cut_of
compact_window keep brief rest h l =
    let count = length-assistant_indexes 0 rest in
    let (c, t) = turn_at (turns rest - keep) 0 rest (omega (arith, h, l)) in
    let cut : cut_of keep rest ≡ some c =
      ap (λ n. item_at (n - keep) (assistant_indexes 0 rest)) count
      ∙ (t.place ∙ ap some (omega arith)) in
    let more : leb (length (assistant_indexes 0 rest)) keep ≡ false = ground (arith, count, l) in
    let by_cut : Option ℕ → List WireMessage × List Action = λ k. (
      brief ∷ summary_message (actions_of (slice_to k rest)) ++ slice_from k rest,
      actions_of (slice_to k rest),
    ) in
    (
      take c rest,
      drop c rest,
      take-append-drop c rest,
      rw more (ap by_cut cut),
      t.starts,
      omega (arith, t.left, l),
    )
