-- ===== src/Invariant/Reaping.antt =====
-- The reaper keeps what each of its statements keeps: the rows it takes are leased ones.
use mathlib.Core.List.{Memᴰ}
use kapi_final.Base.{
  ℕ, zero, suc, ◌≡◌, ◌==◌, refl, sym, Bool, true, List, [], ◌∷◌, All, IsKeyed, mem-select,
  All-of_mem, mem_unique, ==_iff, arith, and_left, has, take, inl, inr, Bool-cases,
}
use kapi_final.Protocol.Jobs.{Job, is_job_leased}
use kapi_final.Db.Tables.{Db}
use kapi_final.Db.Tx.{Keeps, Keeps-bind, Keeps-pure, Keeps-for_each, Holds-first, update_jobs}
use kapi_final.Queue.Lifecycle.{set_failed, sort_by, insert_sorted, ids_of}
use kapi_final.Queue.Reaper.{reap, expired, is_expired, expires_first}
use kapi_final.Invariant.Steps.{JobStep, fails}
use kapi_final.Invariant.Guard.{Guard}
use kapi_final.Invariant.QueueOps.{append_event_-Keeps, stop_agent-Keeps}

pub mem-take {ℓ} : {A : Type ℓ} (n : ℕ) (xs : List A) {x : A} → Memᴰ x (take n xs) → Memᴰ x xs
mem-take zero xs m = elim m [ ]
mem-take (suc n) [] m = elim m [ ]
mem-take (suc n) (y ∷ xs) (Memᴰ.head e) = Memᴰ.head e
mem-take (suc n) (y ∷ xs) (Memᴰ.tail m) = Memᴰ.tail (mem-take n xs m)

module _ (le : Job → Job → Bool) where
  pub mem-insert_sorted :
      (j : Job) (ks : List Job) {x : Job} → Memᴰ x (insert_sorted le j ks) → Memᴰ x (j ∷ ks)
  unfolding insert_sorted
  mem-insert_sorted j [] m = m
  mem-insert_sorted j (k ∷ ks) {x} m = elim (Bool-cases (le j k)) [
    | inl h ↦ rw h at m
    | inr h ↦ behind (mem-insert_sorted j ks) (rw h at m)
  ]
    where
      deeper : Memᴰ x (j ∷ ks) → Memᴰ x (j ∷ k ∷ ks)
      deeper (Memᴰ.head e) = Memᴰ.head e
      deeper (Memᴰ.tail n) = Memᴰ.tail (Memᴰ.tail n)

      behind :
          (Memᴰ x (insert_sorted le j ks) → Memᴰ x (j ∷ ks))
          → Memᴰ x (k ∷ insert_sorted le j ks)
          → Memᴰ x (j ∷ k ∷ ks)
      behind rest (Memᴰ.head e) = Memᴰ.tail (Memᴰ.head e)
      behind rest (Memᴰ.tail n) = deeper (rest n)

  pub mem-sort_by : (js : List Job) {x : Job} → Memᴰ x (sort_by le js) → Memᴰ x js
  unfolding sort_by
  mem-sort_by [] m = m
  mem-sort_by (j ∷ js) {x} m = back (mem-sort_by js) (mem-insert_sorted j (sort_by le js) m)
    where
      back : (Memᴰ x (sort_by le js) → Memᴰ x js) → Memᴰ x (j ∷ sort_by le js) → Memᴰ x (j ∷ js)
      back rest (Memᴰ.head e) = Memᴰ.head e
      back rest (Memᴰ.tail n) = Memᴰ.tail (rest n)

-- An id of the list is the id of a member.
pub mem-of_has :
    (i : ℕ) (js : List Job) → has i (ids_of js) ≡ true → (k : Job) × Memᴰ k js × (k.id ≡ i)
mem-of_has i [] h = cc
mem-of_has i (j ∷ js) h = elim (Bool-cases (j.id == i)) [
  | inl e ↦ (j, Memᴰ.head refl, (==_iff _ _).0 e)
  | inr n ↦ let (k, m, e) = mem-of_has i js (ground arith) in (k, Memᴰ.tail m, e)
]

pub expired-mem :
    (locked : ℕ → Bool) (limit now : ℕ) (jobs : List Job) {k : Job}
    → Memᴰ k (expired locked limit now jobs)
    → Memᴰ k jobs × (is_expired locked now k ≡ true)
unfolding expired
expired-mem locked limit now jobs m =
    mem-select (is_expired locked now) jobs (mem-sort_by expires_first _ (mem-take limit _ m))

is_expired-leased :
    (locked : ℕ → Bool) (now : ℕ) (j : Job)
    → is_expired locked now j ≡ true
    → is_job_leased j.status ≡ true
unfolding is_expired
is_expired-leased locked now j h = and_left _ _ h

reap_steps :
    (locked : ℕ → Bool) (limit now : ℕ) (why : Job → _) (jobs : List Job)
    → IsKeyed (λ (j : Job). j.id) jobs
    → All
        (λ j.
          has j.id (ids_of (expired locked limit now jobs)) ≡ true
          → JobStep j (set_failed why now j))
        jobs
reap_steps locked limit now why jobs keyed = All-of_mem _ jobs λ j m h.
    let (k, n, e) = mem-of_has j.id _ h in
    let (n', t) = expired-mem locked limit now jobs n in
    let same = mem_unique (λ (x : Job). x.id) jobs keyed m n' (sym e) in
    fails why now (rw same (is_expired-leased locked now k t))

module _ {P : Db → Type 0} (g : Guard P) where
  pub reap-Keeps : (locked : ℕ → Bool) (limit now : ℕ) → Keeps P (reap locked limit now)
  unfolding reap update_jobs
  reap-Keeps locked limit now = record {
    apply = λ db h.
        Holds-first (update_jobs _ (set_failed _ now)) _ db
          (g.jobs _ _ db (reap_steps locked limit now _ db.jobs (g.keyed db h)) h)
          (λ rows.
            Keeps-bind (Keeps-for_each rows (λ j. stop_agent-Keeps g _ _ _)) λ _.
              Keeps-bind (Keeps-for_each _ (λ j. append_event_-Keeps g _)) λ _. Keeps-pure rows);
  }
