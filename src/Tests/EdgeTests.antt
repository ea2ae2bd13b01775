-- ===== src/Tests/EdgeTests.antt =====
-- The theorems on the request tracker, the rate limiter and the agent's transcript, at small inputs.
use kapi_final.Base.{◌-◌, ◌≡◌, ◌≤◌, ◌⊎◌, ◌++◌, refl, true, none, some, List, [], ◌∷◌, arith}
use kapi_final.ControlPlane.RequestTracker.{
  IsTracking, track_all, track_all-IsTracking, enters, leaves, drains, idle, TrackerStep, track,
}
use kapi_final.ControlPlane.RateLimiter.{
  allowed_calls, allowed_calls_le, consumes, cleans, count_of,
}
use kapi_final.AgentCore.Messages.{WireMessage, user_text, assistant_parts, tool_call, tool_results}
use kapi_final.AgentCore.Compact.{turns, starts_turn, compact_window}

idle-IsTracking : IsTracking idle
idle-IsTracking = record { counted = refl; awake = λ e. refl }

abbrev two_requests : List TrackerStep
two_requests = enters 1 ∷ enters 2 ∷ drains 9 ∷ leaves 1 ∷ leaves 1 ∷ []

track_all-IsTracking_example :
    let t = track_all two_requests idle in
    IsTracking t
    × (t.resolved ++ t.waiters ≡ 9 ∷ [])
    × (((track (leaves 2) t).resolved ≡ t.resolved) ⊎ ((track (leaves 2) t).active ≡ 0))
track_all-IsTracking_example = track_all-IsTracking two_requests (leaves 2) idle idle-IsTracking

allowed_calls_le_example :
    allowed_calls 2 60 7 120
      (consumes 7 121 ∷ consumes 8 130 ∷ cleans 60 ∷ consumes 7 140 ∷ consumes 7 150 ∷ [])
      []
    ≤ 2 - count_of 7 120 []
allowed_calls_le_example =
    allowed_calls_le 2 60 7 120
      (consumes 7 121 ∷ consumes 8 130 ∷ cleans 60 ∷ consumes 7 140 ∷ consumes 7 150 ∷ []) []
      (tt, (tt, (omega arith, (tt, (tt, tt)))))

abbrev reads : WireMessage
reads = assistant_parts (
    tool_call (record {
      tool_call_id = 1;
      tool_name = "read_file";
      path = some (97 ∷ []);
      command = none;
      summary = none;
      rest = 0;
    })
    ∷ [])

-- Three turns, of which two are kept.
abbrev transcript : List WireMessage
transcript = reads ∷ tool_results [] ∷ reads ∷ tool_results [] ∷ reads ∷ tool_results [] ∷ []

compact_window_example :
    (before kept : List WireMessage) × (before ++ kept ≡ transcript)
    × (starts_turn kept ≡ true)
    × (turns kept ≡ 2)
unfolding turns
compact_window_example =
    let (before, kept, joined, e, starts, count) =
      compact_window 2 (user_text "do it") transcript (omega arith) (omega arith) in
    (before, kept, joined, starts, count)
