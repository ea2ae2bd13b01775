-- ===== src/ControlPlane/RunMatch.antt =====
-- apps/control-plane/src/github-webhook.ts: the run that a check belongs to (`matchRun`).
use Prim.Native.String.{◌++◌ as glue}
use text.Mathlib.Text.{◌==◌ as str_eq}
use kapi_final.Base.{
  ℕ, ltb, Bool, true, false, not, ◌&&◌, Option, none, some, List, [], ◌∷◌, String, if◌then◌else◌,
  select, find, row_of, take, keep_if,
}
use kapi_final.Base.Optional.{or_some, present, after_prefix}
use kapi_final.Protocol.Jobs.{Job}
use kapi_final.Db.Tables.{Db, Run, Project}
use kapi_final.Invariant.Steps.{is_run_terminal}
use kapi_final.ControlPlane.GithubCheck.{Platform, text_is}

-- `rows.find`, `ORDER BY created_at DESC`: jobs that were made at one time keep the table's order.
unfoldable pub put_newest : Job → List Job → List Job
put_newest j [] = j ∷ []
put_newest j (k ∷ ks) =
    let rest = put_newest j ks in if ltb j.created_at k.created_at then k ∷ rest else j ∷ k ∷ ks

unfoldable pub newest_first : List Job → List Job
newest_first [] = []
newest_first (j ∷ js) = put_newest j (newest_first js)

abbrev pub matched_job : Option Job → Option (ℕ × Option ℕ)
matched_job none = none
matched_job (some j) = some (j.run_id, some j.id)

abbrev pub result_branch : Job → Option String
result_branch j = elim j.result [ none ↦ none | some r ↦ r.branch ]

abbrev pub is_joined : Db → Job → Bool
is_joined db j = elim (row_of (λ (r : Run). r.id) j.run_id db.runs) [
  | none ↦ false
  | some r ↦ elim (row_of (λ (q : Project). q.id) r.project_id db.projects) [
    | none ↦ false
    | some _ ↦ true
  ]
]

abbrev pub has_project : Db → Run → Bool
has_project db r = elim (row_of (λ (q : Project). q.id) r.project_id db.projects) [
  | none ↦ false
  | some _ ↦ true
]

abbrev pub only : List Run → Option (ℕ × Option ℕ)
only (r ∷ []) = some (r.id, none)
only _ = none

module _ (p : Platform) where
  abbrev pub same_repo : String → String → Bool
  same_repo repository url = elim (p.parse_repo_url url) [
    | none ↦ false
    | some (owner, repo) ↦ str_eq (p.lower (glue owner (glue "/" repo))) (p.lower repository)
  ]

  -- The JOINs: whether the run's project is of the repository.
  unfoldable pub run_in_repo : Db → String → ℕ → Bool
  run_in_repo db repository id = elim (row_of (λ (r : Run). r.id) id db.runs) [
    | none ↦ false
    | some r ↦ elim (row_of (λ (q : Project). q.id) r.project_id db.projects) [
      | none ↦ false
      | some q ↦ same_repo repository q.repo_url
    ]
  ]

  -- A branch kapi/<job>.
  unfoldable pub job_of_branch : Db → String → String → Option (ℕ × Option ℕ)
  job_of_branch db repository branch = elim (present (after_prefix "kapi/" branch)) [
    | none ↦ none
    | some name ↦ matched_job (
        keep_if (λ j. run_in_repo db repository j.run_id)
          (find (λ j. str_eq (p.id_text j.id) name && is_joined db j) db.jobs))
  ]

  unfoldable pub job_by_result : Db → String → String → Option (ℕ × Option ℕ)
  job_by_result db repository branch =
      let rows = select (λ j. text_is branch (result_branch j) && is_joined db j) db.jobs in
      matched_job (find (λ j. run_in_repo db repository j.run_id) (take 20 (newest_first rows)))

  -- Runs stand in the table newest first.
  unfoldable pub only_active : Db → String → Option (ℕ × Option ℕ)
  only_active db repository = only (
      select (λ r. run_in_repo db repository r.id)
        (take 100 (select (λ r. not (is_run_terminal r.status) && has_project db r) db.runs)))

  unfoldable pub match_run : String → Option String → Db → Option (ℕ × Option ℕ)
  match_run repository branch db = elim (present branch) [
    | none ↦ only_active db repository
    | some b ↦
        or_some (job_of_branch db repository b)
          (or_some (job_by_result db repository b) (only_active db repository))
  ]
