-- ===== src/Protocol/Review.antt =====
-- packages/protocol/src/review.ts: the verdict of a review, reconciled with its findings.
use kapi_final.Base.{
  String, Bool, true, false, Option, List, [], ◌∷◌, ◌&&◌, ◌≡◌, ◌↔◌, ltb, ◌==◌, if◌then◌else◌,
  length, select, arith,
}
use kapi_final.Protocol.Text.{Text}

pub data ReviewSeverity : Type 0 where
  blocker major minor nit : ReviewSeverity

-- `BLOCKING_SEVERITIES.includes`.
abbrev pub is_blocking : ReviewSeverity → Bool
is_blocking blocker = true
is_blocking major = true
is_blocking _ = false

pub record ReviewFinding : Type 0 where
  pub severity : ReviewSeverity
  pub file : Option String
  pub issue : String
  pub suggestion : Option String

pub data Decision : Type 0 where
  approve request_changes : Decision

pub record ReviewVerdict : Type 0 where
  pub decision : Decision
  pub summary : Text
  pub findings : List ReviewFinding
  pub acceptance_met : List Bool

unfoldable pub blocking_findings : ReviewVerdict → List ReviewFinding
blocking_findings v = select (λ f. is_blocking f.severity) v.findings

abbrev is_approve : Decision → Bool
is_approve approve = true
is_approve request_changes = false

abbrev is_request_changes : Decision → Bool
is_request_changes approve = false
is_request_changes request_changes = true

abbrev is_empty {ℓ} : {A : Type ℓ} → List A → Bool
is_empty [] = true
is_empty (_ ∷ _) = false

unfoldable pub normalise_verdict : ReviewVerdict → ReviewVerdict
unfolding blocking_findings
normalise_verdict v =
    let blocking = blocking_findings v in
    if ltb 0 (length blocking) && is_approve v.decision
    then record v { decision = request_changes }
    else if length blocking == 0 && is_request_changes v.decision
    then record v { decision = approve }
    else v

-- The normalised verdict approves exactly when no finding is a blocker or a major one, and the
-- findings, the summary and the criteria are as they were.
normalise_verdict-decision :
    (v : ReviewVerdict)
    → let w = normalise_verdict v in
      ((w.decision ≡ approve) ↔ (blocking_findings v ≡ []))
      × (w.findings ≡ v.findings)
      × (w.summary ≡ v.summary)
      × (w.acceptance_met ≡ v.acceptance_met)
unfolding normalise_verdict
normalise_verdict-decision v = ground arith

-- Normalising a verdict again changes nothing.
normalise_verdict-idempotent :
    (v : ReviewVerdict) → normalise_verdict (normalise_verdict v) ≡ normalise_verdict v
unfolding normalise_verdict
normalise_verdict-idempotent v = ground arith

-- The normalised verdict approves exactly when no finding is a blocker or a major one, the
-- findings, the summary and the criteria are as they were, and normalising again changes nothing.
pub normalise_verdict_lem :
    (v : ReviewVerdict)
    → let w = normalise_verdict v in
      ((w.decision ≡ approve) ↔ (blocking_findings v ≡ []))
      × (w.findings ≡ v.findings)
      × (w.summary ≡ v.summary)
      × (w.acceptance_met ≡ v.acceptance_met)
      × (normalise_verdict w ≡ w)
normalise_verdict_lem v =
    let d = normalise_verdict-decision v in (d.0, d.1, d.2, d.3, normalise_verdict-idempotent v)
