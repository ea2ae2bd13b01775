-- ===== src/Invariant/WebhookOps.antt =====
-- A delivery from GitHub keeps what each statement keeps.
use kapi_final.Base.{
  ℕ, Bool, true, false, not, ◌&&◌, Option, none, some, String, Bool-cases, inl, inr,
}
use text.Mathlib.Text.{◌==◌ as str_eq}
use kapi_final.Protocol.Events.{EventInput, CompletedCheck}
use kapi_final.Db.Tables.{Db}
use kapi_final.Db.Tx.{Keeps, Keeps-bind, Keeps-pure, Keeps-query}
use kapi_final.Db.Handler.{Serves, Serves-bind, Serves-answer, Serves-commit}
use kapi_final.ControlPlane.GithubCheck.{Platform, Delivery, CheckPayload, completed_check}
use kapi_final.ControlPlane.Webhook.{
  Setting, unless_prior, record_delivery, publish, on_match, on_check, on_payload, on_event,
  webhook, lacks_secret, is_refused, secret_of,
}
use kapi_final.Invariant.Guard.{Guard}

module _ {P : Db → Type 0} (g : Guard P) where
  unless_prior-Keeps : (e : EventInput) (b : Bool) → Keeps P (unless_prior e b)
  unfolding unless_prior
  unless_prior-Keeps e true = Keeps-pure none
  unless_prior-Keeps e false = Keeps-bind (g.append e) (λ n. Keeps-pure (some n))

  module _ (p : Platform) where
    on_match-Serves :
        (d : String) (c : CompletedCheck) (m : Option (ℕ × Option ℕ)) → Serves P (on_match p d c m)
    unfolding on_match record_delivery publish
    on_match-Serves d c none = Serves-answer _
    on_match-Serves d c (some (r, j)) =
        Serves-bind (Serves-commit (Keeps-bind (Keeps-query _) (unless_prior-Keeps _)))
          (λ n. Serves-bind (Serves-commit (Keeps-query _)) Serves-answer)

    on_check-Serves :
        (event : String) (header : Option String) (c : Option CompletedCheck)
        → Serves P (on_check p event header c)
    unfolding on_check
    on_check-Serves event header none = Serves-answer _
    on_check-Serves event header (some c) =
        Serves-bind (Serves-commit (Keeps-query _)) (on_match-Serves _ c)

    on_payload-Serves :
        (event : String) (header : Option String) (c : Option CheckPayload)
        → Serves P (on_payload p event header c)
    unfolding on_payload
    on_payload-Serves event header none = Serves-answer _
    on_payload-Serves event header (some c) =
        on_check-Serves event header (completed_check p event c)

    on_event-Serves : (event : String) (d : Delivery) → Serves P (on_event p event d)
    unfolding on_event
    on_event-Serves event d = elim (Bool-cases (str_eq event "ping")) [
      | inl t ↦ rw t (Serves-answer _)
      | inr t ↦
          rw t
            (elim (Bool-cases
              (not (str_eq event "check_run") && not (str_eq event "check_suite"))) [
                | inl u ↦ rw u (Serves-answer _)
                | inr u ↦ rw u (on_payload-Serves event d.delivery _)
              ])
    ]

    pub webhook-Serves : (s : Setting) (d : Delivery) → Serves P (webhook p s d)
    unfolding webhook
    webhook-Serves s d = elim (Bool-cases (lacks_secret p s)) [
      | inl t ↦ rw t (Serves-answer _)
      | inr t ↦ rw t (elim (Bool-cases (is_refused p (secret_of p s) d)) [
        | inl u ↦ rw u (Serves-answer _)
        | inr u ↦ rw u (on_event-Serves _ d)
      ])
    ]
