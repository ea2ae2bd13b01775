-- ===== src/Invariant/Exclusive.antt =====
-- A schedule never has two runs that are not over.
use kapi_final.Base.{
  ℕ, ◌≤◌, ◌≡◌, refl, subst, Bool, true, false, Bool-cases, inl, inr, Option, none, some, List, [],
  ◌∷◌, any, select, length, update_where, arith,
}
use kapi_final.Protocol.Jobs.{Job}
use kapi_final.Db.Tables.{Run}
use kapi_final.ControlPlane.Scheduler.{is_active_for}
use kapi_final.Invariant.Guard.{CanOpen}
use kapi_final.Invariant.Steps.{is_run_terminal}
use kapi_final.Invariant.Riders.{Rides}

-- The number of the schedule's runs that are not over.
unfoldable pub active_runs : ℕ → List Run → ℕ
active_runs s runs = length (select (is_active_for s) runs)

pub record IsExclusive (jobs : List Job) (runs : List Run) : Type 0 where
  pub one : (s : ℕ) → active_runs s runs ≤ 1

-- No step makes a run that is over active, nor moves one to another schedule.
active_before :
    (s : ℕ) (r t : Run)
    → (is_run_terminal r.status ≡ true → t.status ≡ r.status)
    → t.schedule_id ≡ r.schedule_id
    → is_active_for s t ≡ true
    → is_active_for s r ≡ true
unfolding is_active_for
active_before s r t e same a = ground (arith, e, same, a)

active_runs-update :
    (s : ℕ) (p : Run → Bool) (f : Run → Run) (runs : List Run)
    → ((r : Run) → p r ≡ true → is_active_for s (f r) ≡ true → is_active_for s r ≡ true)
    → active_runs s (update_where p f runs) ≤ active_runs s runs
unfolding active_runs update_where select
active_runs-update s p f [] h = omega arith
active_runs-update s p f (r ∷ rs) h = ground (arith, h r, active_runs-update s p f rs h)

none_active :
    (s : ℕ) (runs : List Run) → any (is_active_for s) runs ≡ false → active_runs s runs ≡ 0
unfolding active_runs any select
none_active s [] e = refl
none_active s (r ∷ rs) e = ground (arith, none_active s rs)

active_schedule : (s t : ℕ) (r : Run) → r.schedule_id ≡ some t → is_active_for s r ≡ true → t ≡ s
unfolding is_active_for
active_schedule s t r e a = ground (arith, e, a)

active_runs-open :
    (s : ℕ) (r : Run) (runs : List Run) (o : Option ℕ)
    → r.schedule_id ≡ o
    → CanOpen o runs
    → active_runs s runs ≤ 1
    → active_runs s (r ∷ runs) ≤ 1
unfolding active_runs select is_active_for
active_runs-open s r runs none e can h = rw e h
active_runs-open s r runs (some t) e can h = elim (Bool-cases (is_active_for s r)) [
  | inl a ↦
      let idle : any (is_active_for s) runs ≡ false =
        subst (λ i. any (is_active_for i) runs ≡ false) (active_schedule s t r e a) can in
      simp a (omega (arith, none_active s runs idle))
  | inr a ↦ simp a h
]

pub IsExclusive-Rides : Rides IsExclusive
IsExclusive-Rides = record {
  jobs = λ p f jobs runs h v. record { one = v.one };
  insert = λ k jobs runs free v. record { one = v.one };
  runs = λ p f jobs runs h v. record {
    one = λ s.
        let fewer =
          active_runs-update s p f runs (λ r t. active_before s r (f r) (h r t).1 (h r t).2) in
        omega (arith, v.one s);
  };
  opens = λ r jobs runs free can v. record {
    one = λ s. active_runs-open s r runs r.schedule_id refl can (v.one s);
  };
}
