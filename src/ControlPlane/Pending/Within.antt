-- ===== src/ControlPlane/Pending/Within.antt =====
-- The jobs that are given a VM: each may have one, and no run gets more than it may have.
use mathlib.Core.List.{map}
use kapi_final.Base.{
  ℕ, zero, suc, ◌+◌, ◌≤◌, ◌≡◌, ◌⊎◌, refl, sym, subst, ◌∙◌, true, not, Bool, Option, some, List, [],
  ◌∷◌, length, length-map, length-take, select, select-All, select_sound, take, All, Bool-cases,
  inl, inr, arith, ==_iff,
}
use kapi_final.Protocol.Jobs.{Job}
use kapi_final.Db.Tables.{Db, Run}
use kapi_final.Queue.Claim.{before}
use kapi_final.Queue.Lifecycle.{sort_by, insert_sorted}
use kapi_final.ControlPlane.Provisioner.{run_of, live_agents}
use kapi_final.ControlPlane.Pending.{
  Queued, is_candidate, in_run, ranked, fits, goes_first, insert_candidate, sort_candidates, chosen,
  pending,
}

abbrev is_of : ℕ → Queued → Bool
is_of k c = in_run k c.job

abbrev count : ℕ → List Queued → ℕ
count k cs = length (select (is_of k) cs)

count-insert :
    (k : ℕ) (c : Queued) (cs : List Queued) → count k (insert_candidate c cs) ≡ count k (c ∷ cs)
unfolding insert_candidate select
count-insert k c [] = refl
count-insert k c (d ∷ ds) = ground (arith, count-insert k c ds)

count-sort : (k : ℕ) (cs : List Queued) → count k (sort_candidates cs) ≡ count k cs
unfolding sort_candidates select
count-sort k [] = refl
count-sort k (c ∷ cs) = count-insert k c (sort_candidates cs) ∙ ground (arith, count-sort k cs)

count-take : (k n : ℕ) (cs : List Queued) → count k (take n cs) ≤ count k cs
unfolding select
count-take k zero cs = omega arith
count-take k (suc n) [] = omega arith
count-take k (suc n) (c ∷ cs) = ground (arith, count-take k n cs)

count-map :
    (k : ℕ) (cs : List Queued)
    → length (select (in_run k) (map (λ (c : Queued). c.job) cs)) ≡ count k cs
unfolding select
count-map k [] = refl
count-map k (c ∷ cs) = ground (arith, count-map k cs)

-- The jobs of a run that fit, after those seen: none, or all within the limit.
count-ranked :
    (db : Db) (k : ℕ) (r : Run) (seen js : List Job)
    → run_of k db ≡ some r
    → (count k (select (fits db) (ranked db seen js)) ≡ 0)
      ⊎ (live_agents k db.agents
            + (length (select (in_run k) seen) + count k (select (fits db) (ranked db seen js)))
          ≤ r.max_concurrent_vms)
unfolding ranked fits select
count-ranked db k r seen [] own = inl refl
count-ranked db k r seen (j ∷ js) own =
    ground (arith, count-ranked db k r (j ∷ seen) js own, own, ==_iff j.run_id k)

within_room :
    (db : Db) (k : ℕ) (r : Run) (js : List Job)
    → run_of k db ≡ some r
    → live_agents k db.agents ≤ r.max_concurrent_vms
    → live_agents k db.agents + count k (select (fits db) (ranked db [] js)) ≤ r.max_concurrent_vms
unfolding select
within_room db k r js own room = ground (arith, count-ranked db k r [] js own, room)

module _ (P : Job → Type 0) where
  insert-All :
      (le : Job → Job → Bool) (j : Job) (js : List Job)
      → P j
      → All P js
      → All P (insert_sorted le j js)
  unfolding insert_sorted
  insert-All le j [] h a = (h, tt)
  insert-All le j (x ∷ js) h a = elim (Bool-cases (le j x)) [
    | inl t ↦ rw t (h, a)
    | inr t ↦ rw t (a.0, insert-All le j js h a.1)
  ]

  sort-All : (le : Job → Job → Bool) (js : List Job) → All P js → All P (sort_by le js)
  unfolding sort_by
  sort-All le [] a = tt
  sort-All le (j ∷ js) a = insert-All le j (sort_by le js) a.0 (sort-All le js a.1)

  ranked-All :
      (db : Db) (seen js : List Job) → All P js → All (λ (c : Queued). P c.job) (ranked db seen js)
  unfolding ranked
  ranked-All db seen [] a = tt
  ranked-All db seen (j ∷ js) a = (a.0, ranked-All db (j ∷ seen) js a.1)

  map-All :
      (cs : List Queued) → All (λ (c : Queued). P c.job) cs → All P (map (λ (c : Queued). c.job) cs)
  map-All [] a = tt
  map-All (c ∷ cs) a = (a.0, map-All cs a.1)

module _ (P : Queued → Type 0) where
  candidate-All : (c : Queued) (cs : List Queued) → P c → All P cs → All P (insert_candidate c cs)
  unfolding insert_candidate
  candidate-All c [] h a = (h, tt)
  candidate-All c (d ∷ ds) h a = elim (Bool-cases (goes_first d c)) [
    | inl t ↦ rw t (a.0, candidate-All c ds h a.1)
    | inr t ↦ rw t (h, a)
  ]

  candidates-All : (cs : List Queued) → All P cs → All P (sort_candidates cs)
  unfolding sort_candidates
  candidates-All [] a = tt
  candidates-All (c ∷ cs) a = candidate-All c (sort_candidates cs) a.0 (candidates-All cs a.1)

  take-All : (n : ℕ) (cs : List Queued) → All P cs → All P (take n cs)
  take-All zero cs a = tt
  take-All (suc n) [] a = tt
  take-All (suc n) (c ∷ cs) a = (a.0, take-All n cs a.1)

-- For a run that exists and has no more agents that have not stopped than it may have VMs at a
-- time: each job that the query for pending jobs gives meets its conditions, there are no more
-- than its limit, and the run's jobs among them together with its live agents are no more than it
-- may have VMs at a time.
pub pending_lem :
    (limit cutoff : ℕ) (run : Option ℕ) (db : Db) (k : ℕ) (r : Run)
    → run_of k db ≡ some r
    → live_agents k db.agents ≤ r.max_concurrent_vms
    → All (λ j. is_candidate cutoff run db j ≡ true) (pending limit cutoff run db)
      × (length (pending limit cutoff run db) ≤ limit)
      × (live_agents k db.agents + length (select (in_run k) (pending limit cutoff run db))
          ≤ r.max_concurrent_vms)
unfolding pending chosen
pending_lem limit cutoff run db k r own room =
    let rows = select (is_candidate cutoff run db) db.jobs in
    let IsReady = λ (j : Job). is_candidate cutoff run db j ≡ true in
    let sorted = sort_by (λ a b. not (before b a)) rows in
    let picked = select (fits db) (ranked db [] sorted) in
    let ready = select-All (fits db) _ (ranked db [] sorted) (
      ranked-All IsReady db [] sorted (
        sort-All IsReady (λ a b. not (before b a)) rows
          (select_sound (is_candidate cutoff run db) db.jobs))) in
    (
      map-All IsReady (take limit (sort_candidates picked))
          (take-All _ limit (sort_candidates picked) (candidates-All _ picked ready)),
      subst (λ n. n ≤ limit)
          (sym (length-map (λ (c : Queued). c.job) (take limit (sort_candidates picked))))
          (length-take limit (sort_candidates picked)),
      omega (
        arith,
        room,
        count-map k (take limit (sort_candidates picked)),
        count-take k limit (sort_candidates picked),
        count-sort k picked,
        within_room db k r sorted own room,
      ),
    )
