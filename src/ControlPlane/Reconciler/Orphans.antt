-- ===== src/ControlPlane/Reconciler/Orphans.antt =====
-- What the reconciler destroys.
use mathlib.Core.List.{Memᴰ}
use kapi_final.Base.{
  ap, ==_iff, select-mem, any-mem, any-find, ◌≢◌, ℕ, ◌+◌, ◌≡◌, ◌≤◌, refl, Bool, true, false, not,
  ◌||◌, Bool-cases, Option-cases, inl, inr, Option, none, some, List, [], ◌∷◌, ◌++◌, has, find,
  select, map, All, All-of_mem, mem-select, All-mem, sym, ◌∙◌, arith,
}
use kapi_final.Db.Tables.{Db, Agent}
use kapi_final.ControlPlane.Reconciler.{
  ManagedVm, Policy, is_owned, tracked, is_id, is_null, put_id, vm_ids, is_reservation_of,
  is_matched, by_id, is_young, orphans, doomed,
}

-- What a resource is that may be destroyed.
pub record IsOrphan (c : Policy) (now : ℕ) (db : Db) (r : ManagedVm) : Type 0 where
  pub managed : r.managed ≡ true
  pub of_plane : r.plane_id ≡ some c.plane
  pub has_job : r.job_id ≢ none
  pub has_run : r.run_id ≢ none
  pub old : r.created_at + c.grace ≤ now
  pub untracked :
      (a : Agent) → Memᴰ a db.agents → a.provider ≡ some c.provider → a.vm_id ≢ some r.id
  pub unreserved :
      (a : Agent) (n : ℕ)
      → Memᴰ a db.agents
      → a.provider ≡ some c.provider
      → a.vm_id ≡ some n
      → a.reservation_id ≡ some n
      → r.reservation_id ≡ some n
      → r.job_id ≡ some a.job_id
      → r.run_id ≡ some a.run_id
      → ⊥

has-append : (n : ℕ) (xs ys : List ℕ) → has n (xs ++ ys) ≡ (has n xs || has n ys)
has-append n [] ys = refl
has-append n (x ∷ xs) ys = ground (arith, has-append n xs ys)

put_id_none :
    (v : ℕ) (o : Option ℕ) (ns : List ℕ)
    → has v (put_id o ns) ≡ false
    → (is_id o (some v) ≡ false) × (has v ns ≡ false)
put_id_none v none ns h = (refl, h)
put_id_none v (some w) ns h = (ground (arith, h), ground (arith, h))

vm_ids_none :
    (v : ℕ) (ss : List Agent)
    → has v (vm_ids ss) ≡ false
    → All (λ (a : Agent). is_id a.vm_id (some v) ≡ false) ss
vm_ids_none v [] h = tt
vm_ids_none v (a ∷ ss) h =
    let k = put_id_none v a.vm_id (vm_ids ss) h in (k.0, vm_ids_none v ss k.1)

All-mono :
    (P Q : ManagedVm → Type 0) (rs : List ManagedVm)
    → ((r : ManagedVm) → P r → Q r)
    → All P rs
    → All Q rs
All-mono P Q [] h a = tt
All-mono P Q (r ∷ rs) h a = (h r a.0, All-mono P Q rs h a.1)

abbrev matched_ids : (ManagedVm → Bool) → List ManagedVm → List ℕ
matched_ids m rs = map (λ (r : ManagedVm). r.id) (select m rs)

not_matched :
    (m : ManagedVm → Bool) (rs : List ManagedVm)
    → All (λ r. has r.id (matched_ids m rs) ≡ false → m r ≡ false) rs
unfolding select
not_matched m [] = tt
not_matched m (r ∷ rs) =
    ((λ h. ground (arith, h)), All-mono _ _ rs (λ x k h. k (ground (arith, h))) (not_matched m rs))

not_found :
    (r : ManagedVm) (ss : List Agent)
    → is_matched ss r ≡ false
    → find (is_reservation_of r) ss ≡ none
unfolding is_matched
not_found r ss h = elim (Option-cases (find (is_reservation_of r) ss)) [
  | inl e ↦ e
  | inr (a, e) ↦ absurd (ground (arith, e, h))
]

neither : (a b : Bool) → not (a || b) ≡ true → (a ≡ false) × (b ≡ false)
neither false false h = (refl, refl)
neither false true h = absurd (cc)
neither true b h = absurd (cc)

neither_of : {a b c : Bool} → a ≡ (b || c) → a ≡ false → (b ≡ false) × (c ≡ false)
neither_of {b = false} e h = (refl, sym e ∙ h)
neither_of {b = true} e h = absurd (cc)

owned_parts :
    (plane : ℕ) (r : ManagedVm)
    → is_owned plane r ≡ true
    → (r.managed ≡ true) × (r.plane_id ≡ some plane) × (r.job_id ≢ none) × (r.run_id ≢ none)
unfolding is_owned
owned_parts plane r h = (
  ground (arith, h),
  plane_of r.plane_id (ground (arith, h)),
  present r.job_id (ground (arith, h)),
  present r.run_id (ground (arith, h)),
)
  where
    plane_of : (o : Option ℕ) → is_id o (some plane) ≡ true → o ≡ some plane
    plane_of none e = absurd (cc)
    plane_of (some n) e = ap some (ground (arith, ==_iff n plane, e))

    present : (o : Option ℕ) → is_null o ≡ false → o ≢ none
    present none e = absurd (cc)
    present (some n) e = λ q. cc

is_id-same : (o : Option ℕ) (n : ℕ) → o ≡ some n → is_id o (some n) ≡ true
is_id-same o n e = rw e (ground (arith, ==_iff n n))

tracked_mem :
    (provider n : ℕ) (db : Db) (a : Agent)
    → Memᴰ a db.agents
    → a.provider ≡ some provider
    → a.vm_id ≡ some n
    → Memᴰ a (tracked provider db)
unfolding tracked
tracked_mem provider n db a m p v =
    select-mem _ db.agents m (rw v (ground (arith, is_id-same a.provider provider p)))

reservation_of :
    (n : ℕ) (r : ManagedVm) (a : Agent)
    → a.vm_id ≡ some n
    → a.reservation_id ≡ some n
    → r.reservation_id ≡ some n
    → r.job_id ≡ some a.job_id
    → r.run_id ≡ some a.run_id
    → is_reservation_of r a ≡ true
unfolding is_reservation_of
reservation_of n r a v w x y z = rw v (
    rw w (
      rw x (
        rw y
          (rw z (ground (arith, ==_iff n n, ==_iff a.job_id a.job_id, ==_iff a.run_id a.run_id))))))

orphans-IsOrphan :
    (c : Policy) (now : ℕ) (resources : List ManagedVm) (db : Db)
    → All (IsOrphan c now db) (orphans c now resources db)
unfolding orphans by_id is_young
orphans-IsOrphan c now resources db =
    let owned = select (is_owned c.plane) resources in
    let agents = tracked c.provider db in
    let rest = λ (r : ManagedVm). not (has r.id (by_id agents owned) || is_young c.grace now r) in
    All-of_mem (IsOrphan c now db) (select rest owned) (λ r m.
      let here = mem-select rest owned m in
      let ours = mem-select (is_owned c.plane) resources here.0 in
      let (untaken, old) = neither _ _ here.1 in
      let parts : (has r.id (vm_ids agents) ≡ false)
          × (has r.id (matched_ids (is_matched agents) owned) ≡ false) =
        neither_of (has-append r.id (vm_ids agents) (matched_ids (is_matched agents) owned))
          untaken in
      let free : find (is_reservation_of r) agents ≡ none = not_found r agents (
        All-mem
          (λ (x : ManagedVm).
            has x.id (matched_ids (is_matched agents) owned) ≡ false → is_matched agents x ≡ false)
          owned (not_matched (is_matched agents) owned) here.0 parts.1) in
      record {
        managed = (owned_parts c.plane r ours.1).0;
        of_plane = (owned_parts c.plane r ours.1).1;
        has_job = (owned_parts c.plane r ours.1).2;
        has_run = (owned_parts c.plane r ours.1).3;
        old = ground (arith, old);
        untracked = λ a m p v. cc (
          is_id-same a.vm_id r.id v,
          All-mem (λ (x : Agent). is_id x.vm_id (some r.id) ≡ false) agents
              (vm_ids_none r.id agents parts.0) (tracked_mem c.provider r.id db a m p v),
        );
        unreserved = λ a n m p v w x y z. cc (
          any-mem (is_reservation_of r) agents (tracked_mem c.provider n db a m p v)
              (reservation_of n r a v w x y z),
          any-find (is_reservation_of r) agents free,
        );
      })

-- Whatever the provider lists, the reconciler asks it to destroy only resources that are managed,
-- carry this plane's label with a job and a run, and are older than the grace, such that no agent
-- of this provider has the resource as its VM, and none still has for its VM the reservation that
-- the resource names with the agent's job and run; and none at all where it only audits. Agents
-- that name no provider are not looked at.
pub doomed-IsOrphan :
    (c : Policy) (now : ℕ) (resources : List ManagedVm) (db : Db)
    → All (IsOrphan c now db) (doomed c now resources db)
      × (c.audit_only ≡ true → doomed c now resources db ≡ [])
unfolding doomed
doomed-IsOrphan c now resources db = elim (Bool-cases c.audit_only) [
  | inl t ↦ simp t ((tt, λ _. refl))
  | inr t ↦ simp t ((orphans-IsOrphan c now resources db, λ e. absurd (cc)))
]
