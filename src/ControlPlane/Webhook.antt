-- ===== src/ControlPlane/Webhook.antt =====
-- apps/control-plane/src/github-webhook.ts: the route, which puts the end of a check at GitHub into the
-- stream of the run that it belongs to. The hub's publication is part of the reply.
pub mod Once
use Prim.Native.String.{◌++◌ as glue}
use text.Mathlib.Text.{◌==◌ as str_eq}
use kapi_final.Base.{
  ℕ, ◌-◌, ◌==◌, ltb, Bool, true, false, not, ◌&&◌, Option, none, some, List, [], ◌∷◌, String,
  if◌then◌else◌, any,
}
use kapi_final.Base.Optional.{or_some, or_else, present}
use kapi_final.Protocol.Context.{Json, get}
use kapi_final.Protocol.Jobs.{orchestrator, AgentId}
use kapi_final.Protocol.Events.{
  EventInput, EventPayload, AgentEvent, EventKind, ci_completed, of_ci, of_agent, CompletedCheck,
}
use kapi_final.Db.Tables.{Db}
use kapi_final.Db.Tx.{Tx, pure, ◌>>=◌, query}
use kapi_final.Db.Handler.{Handler, commit, answer}
use kapi_final.Db.Handler
use kapi_final.Queue.Events.{append_event}
use kapi_final.ControlPlane.GithubCheck.{
  Platform, Delivery, CheckPayload, text_is, valid_github_signature, completed_check,
}
use kapi_final.ControlPlane.RunMatch.{match_run}

-- What the environment sets.
pub record Setting : Type 0 where
  pub secret : Option String
  pub is_production : Bool

pub data Reply : Type 0 where
  not_configured bad_signature pong unsupported bad_json not_completed unmatched : Reply
  -- The run, whether the delivery was there before, and what the hub is given.
  accepted : ℕ → Bool → Option AgentEvent → Reply

abbrev pub is_ci : EventKind → Bool
is_ci ci_completed = true
is_ci _ = false

abbrev pub ci_event : ℕ → Option ℕ → CompletedCheck → String → EventInput
ci_event run_id job_id c d = record {
  run_id = run_id;
  job_id = job_id;
  kind = ci_completed;
  sender = orchestrator;
  recipient = some AgentId.captain;
  payload =
      of_ci c d (glue c.name (glue " completed with " (or_else c.conclusion "no conclusion")));
}

-- The rest of the transaction, by whether the delivery is there.
unfoldable pub unless_prior : EventInput → Bool → Tx (Option ℕ)
unless_prior e true = pure none
unless_prior e false = append_event e >>= λ n. pure (some n)

abbrev pub lowest : AgentEvent → Option AgentEvent → AgentEvent
lowest e none = e
lowest e (some f) = if ltb f.seq e.seq then f else e

-- store.listEvents(runId, after, 1)
unfoldable pub next_event : ℕ → ℕ → List AgentEvent → Option AgentEvent
next_event run_id after [] = none
next_event run_id after (e ∷ es) =
    let rest = next_event run_id after es in
    if e.run_id == run_id && ltb after e.seq then some (lowest e rest) else rest

abbrev pub reply_of : ℕ → Option ℕ → Db → Reply
reply_of run_id none db = accepted run_id true none
reply_of run_id (some n) db = accepted run_id false (next_event run_id (n - 1) db.events)

unfoldable pub publish : ℕ → Option ℕ → Handler Reply
publish run_id n = Handler.◌>>=◌ (commit (query (reply_of run_id n))) answer

module _ (p : Platform) where
  abbrev pub delivery_id : String → Option String → CompletedCheck → String
  delivery_id event header c = or_else header (
      glue event (
        glue ":" (
          glue (elim c.check_id [ none ↦ "unknown" | some n ↦ p.spell n ])
            (glue ":" (or_else (or_some c.sha c.branch) "unknown")))))

  abbrev pub json_text : Option Json → Option String
  json_text none = none
  json_text (some v) = p.as_text v

  -- payload->>'deliveryId'
  abbrev pub delivery_of : EventPayload → Option String
  delivery_of (of_ci c d t) = some d
  delivery_of (of_agent o) = json_text (get "deliveryId" o)
  delivery_of _ = none

  abbrev pub is_delivered : ℕ → String → AgentEvent → Bool
  is_delivered run_id d e = e.run_id == run_id && is_ci e.kind && text_is d (delivery_of e.payload)

  unfoldable pub record_delivery : ℕ → Option ℕ → CompletedCheck → String → Tx (Option ℕ)
  record_delivery run_id job_id c d =
      query (λ db. any (is_delivered run_id d) db.events)
      >>= unless_prior (ci_event run_id job_id c d)

  unfoldable pub on_match : String → CompletedCheck → Option (ℕ × Option ℕ) → Handler Reply
  on_match d c none = answer unmatched
  on_match d c (some (run_id, job_id)) =
      Handler.◌>>=◌ (commit (record_delivery run_id job_id c d)) (publish run_id)

  unfoldable pub on_check : String → Option String → Option CompletedCheck → Handler Reply
  on_check event header none = answer not_completed
  on_check event header (some c) =
      Handler.◌>>=◌ (commit (query (match_run p c.repository c.branch)))
        (on_match (delivery_id event header c) c)

  unfoldable pub on_payload : String → Option String → Option CheckPayload → Handler Reply
  on_payload event header none = answer bad_json
  on_payload event header (some c) = on_check event header (completed_check p event c)

  unfoldable pub on_event : String → Delivery → Handler Reply
  on_event event d =
      if str_eq event "ping"
      then answer pong
      else if not (str_eq event "check_run") && not (str_eq event "check_suite")
      then answer unsupported
      else on_payload event d.delivery (p.parse d.body)

  -- Whether the signature is refused, where there is a secret.
  abbrev pub is_refused : Option String → Delivery → Bool
  is_refused none d = false
  is_refused (some secret) d = not (valid_github_signature p d.body d.signature secret)

  abbrev pub secret_of : Setting → Option String
  secret_of s = present (elim s.secret [ none ↦ none | some t ↦ some (p.trim t) ])

  abbrev pub lacks_secret : Setting → Bool
  lacks_secret s = elim (secret_of s) [ none ↦ s.is_production | some _ ↦ false ]

  unfoldable pub webhook : Setting → Delivery → Handler Reply
  webhook s d =
      if lacks_secret s
      then answer not_configured
      else if is_refused (secret_of s) d
      then answer bad_signature
      else on_event (or_else d.event "") d
