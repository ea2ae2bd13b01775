-- ===== src/ControlPlane/GithubCheck.antt =====
-- apps/control-plane/src/github-webhook.ts: the signature of a delivery, and the check that it says
-- has ended. HMAC, hexadecimals, JSON, the spelling of numbers and ids, `trim` and `toLowerCase` are
-- the platform's, and so is PostgreSQL's `->>`; parseRepoUrl, which rests on the URL class, is a
-- parameter too.
use Prim.Native.Char.{code}
use text.Mathlib.Text.{◌==◌ as str_eq}
use kapi_final.Base.{
  ℕ, ◌==◌, Bool, true, false, not, ◌&&◌, Option, none, some, List, String, if◌then◌else◌, list_eq,
}
use kapi_final.Base.Optional.{or_some, or_else, present, after_prefix}
use kapi_final.Protocol.Context.{Json}
use kapi_final.Protocol.Events.{CompletedCheck, check_run, check_suite}

pub record CheckSuite : Type 0 where
  pub id : Option ℕ
  pub status : Option String
  pub conclusion : Option String
  pub head_branch : Option String
  pub head_sha : Option String
  pub latest_check_runs_count : Option ℕ

pub record CheckRun : Type 0 where
  pub id : Option ℕ
  pub name : Option String
  pub status : Option String
  pub conclusion : Option String
  pub head_sha : Option String
  pub html_url : Option String
  pub details_url : Option String
  pub started_at : Option String
  pub completed_at : Option String
  pub check_suite : Option CheckSuite

pub record CheckPayload : Type 0 where
  pub action : Option String
  pub full_name : Option String
  pub login : Option String
  pub installation_id : Option ℕ
  pub check_run : Option CheckRun
  pub check_suite : Option CheckSuite

pub record Platform : Type 0 where
  pub hmac : (secret body : String) → List ℕ
  pub from_hex : String → List ℕ
  -- JSON.parse; none where it throws.
  pub parse : String → Option CheckPayload
  pub trim : String → String
  pub lower : String → String
  pub spell : ℕ → String
  pub id_text : ℕ → String
  -- The text of a JSON value by `->>`.
  pub as_text : Json → Option String
  pub parse_repo_url : String → Option (String × String)

-- A delivery: its body and its headers.
pub record Delivery : Type 0 where
  pub body : String
  pub signature : Option String
  pub event : Option String
  pub delivery : Option String

abbrev pub is_slash : ℕ → Bool
is_slash c = c == 47

-- /^[^/]+\/[^/]+$/
abbrev pub lacks_slash : String → Bool
lacks_slash String.[] = true
lacks_slash (String.◌∷◌ c s) = not (is_slash (code c)) && lacks_slash s

abbrev pub is_name : String → Bool
is_name String.[] = false
is_name s = lacks_slash s

abbrev pub after_owner : String → Bool
after_owner String.[] = false
after_owner (String.◌∷◌ c s) =
    let rest = after_owner s in if is_slash (code c) then is_name s else rest

abbrev pub is_full_name : String → Bool
is_full_name String.[] = false
is_full_name (String.◌∷◌ c s) = not (is_slash (code c)) && after_owner s

abbrev pub text_is : String → Option String → Bool
text_is t none = false
text_is t (some s) = str_eq s t

-- `s?.f`
abbrev pub of_suite : {A : Type 0} → (CheckSuite → Option A) → Option CheckSuite → Option A
of_suite f none = none
of_suite f (some s) = f s

abbrev pub from_run : CheckPayload → String → CheckRun → CompletedCheck
from_run p repository r = record {
  check_type = check_run;
  check_id = r.id;
  name = or_else r.name "GitHub check run";
  repository = repository;
  branch = of_suite (λ s. s.head_branch) r.check_suite;
  sha = or_some r.head_sha (of_suite (λ s. s.head_sha) r.check_suite);
  conclusion = r.conclusion;
  status = "completed";
  url = or_some r.details_url r.html_url;
  started_at = r.started_at;
  completed_at = r.completed_at;
  login = p.login;
  installation_id = p.installation_id;
  check_runs = none;
}

abbrev pub from_suite : CheckPayload → String → CheckSuite → CompletedCheck
from_suite p repository s = record {
  check_type = check_suite;
  check_id = s.id;
  name = "GitHub check suite";
  repository = repository;
  branch = s.head_branch;
  sha = s.head_sha;
  conclusion = s.conclusion;
  status = "completed";
  url = none;
  started_at = none;
  completed_at = none;
  login = p.login;
  installation_id = p.installation_id;
  check_runs = s.latest_check_runs_count;
}

abbrev pub run_check : CheckPayload → String → Option CheckRun → Option CompletedCheck
run_check p repository none = none
run_check p repository (some r) =
    if text_is "completed" r.status then some (from_run p repository r) else none

abbrev pub suite_check : CheckPayload → String → Option CheckSuite → Option CompletedCheck
suite_check p repository none = none
suite_check p repository (some s) =
    if text_is "completed" s.status then some (from_suite p repository s) else none

abbrev pub check_in : String → CheckPayload → Option String → Option CompletedCheck
check_in event p none = none
check_in event p (some repository) =
    if not (is_full_name repository)
    then none
    else if str_eq event "check_run"
    then run_check p repository p.check_run
    else suite_check p repository p.check_suite

module _ (p : Platform) where
  unfoldable pub valid_github_signature : String → Option String → String → Bool
  valid_github_signature body signature secret =
      elim (after_prefix "sha256=" (or_else signature "")) [
        | none ↦ false
        | some hex ↦ list_eq (p.from_hex hex) (p.hmac secret body)
      ]

  unfoldable pub completed_check : String → CheckPayload → Option CompletedCheck
  completed_check event c =
      if not (text_is "completed" c.action)
      then none
      else check_in event c (present (elim c.full_name [ none ↦ none | some n ↦ some (p.trim n) ]))
