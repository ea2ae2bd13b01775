-- ===== src/Invariant/FleetOps.antt =====
-- Metering VMs, reserving them and reconciling them keep what each statement keeps.
use kapi_final.Base.{
  ℕ, refl, Bool, not, ◌&&◌, Bool-cases, inl, inr, Option, none, some, List, [], ◌∷◌, leb, row_of,
}
use kapi_final.Protocol.Jobs.{Job}
use kapi_final.Db.Tables.{Db, Agent}
use kapi_final.Db.Tx.{Outcome, done, throw, Keeps, Keeps-bind, Keeps-pure, Keeps-query, Holds}
use kapi_final.Db.Handler.{Served, served, crashed, left_by, Serves}
use kapi_final.ControlPlane.Accounting.{
  Meter, Charge, book, book_some, settle_row, settle_one, settle_usage, settle_on, with_charge,
  charge_row,
}
use kapi_final.ControlPlane.Provisioner.{
  Limits, reserve_slot, take_slot, take_row, reservation, may_reuse, is_full, may_start, is_waiting,
  run_of, attach, forget_vm, forget_of, forget_each, reap_stale, reclaim, is_distinct,
}
use kapi_final.Invariant.Guard.{Guard}

module _ {P : Db → Type 0} (g : Guard P) where
  book-Keeps : (c : Charge) → Keeps P (book c)
  unfolding book charge_row
  book-Keeps c = Keeps-bind (g.usage _) λ _. Keeps-bind (g.agents _ _) λ _.
      Keeps-bind
        (g.runs _ _ (λ r t. record {
          same_id = refl;
          same_seq = refl;
          same_schedule = refl;
          ended = λ _. refl;
        }))
        λ _. Keeps-pure (some c)

  book_some-Keeps : (c : Option Charge) → Keeps P (book_some c)
  unfolding book_some
  book_some-Keeps none = Keeps-pure none
  book_some-Keeps (some c) = record {
    apply = λ db h. elim (Bool-cases (leb c.seconds 0)) [
      | inl t ↦ simp t ((Keeps-pure none).apply db h)
      | inr t ↦ simp t ((book-Keeps c).apply db h)
    ];
  }

  settle_row-Keeps : (m : Meter) (now : ℕ) (a : Option Agent) → Keeps P (settle_row m now a)
  unfolding settle_row
  settle_row-Keeps m now none = Keeps-pure none
  settle_row-Keeps m now (some a) = book_some-Keeps _

  settle_one-Keeps : (m : Meter) (now : ℕ) → Keeps P (settle_one m now)
  unfolding settle_one
  settle_one-Keeps m now = Keeps-bind (Keeps-query _) (settle_row-Keeps m now)

  settle_on-left :
      (db : Db) (o : Outcome (Option Charge)) (next : Db → Served (List Charge))
      → P db
      → Holds P o
      → ((d : Db) → P d → P (left_by (next d)))
      → P (left_by (settle_on db o next))
  settle_on-left db (throw e) next p h k = p
  settle_on-left db (done none d) next p h k = h
  settle_on-left db (done (some c) d) next p h k = charged (next d) (k d h)
    where
      charged : (s : Served (List Charge)) → P (left_by s) → P (left_by (with_charge c s))
      charged (served cs d) h = h
      charged (crashed e d) h = h

  pub settle_usage-Serves : (ms : List Meter) (now : ℕ) → Serves P (settle_usage ms now)
  unfolding settle_usage
  settle_usage-Serves [] now = record { apply = λ db h. h }
  settle_usage-Serves (m ∷ ms) now = record {
    apply = λ db h.
        settle_on-left db (settle_one m now db) (settle_usage ms now) h
          ((settle_one-Keeps m now).apply db h) (settle_usage-Serves ms now).apply;
  }

  take_row-Keeps : (vm now : ℕ) (a : Agent) (o : Option Agent) → Keeps P (take_row vm now a o)
  unfolding take_row
  take_row-Keeps vm now a none = record { apply = λ db h. g.staff _ db h }
  take_row-Keeps vm now a (some b) = record {
    apply = λ db h. elim (Bool-cases (may_reuse b)) [
      | inl t ↦ simp t (g.staff _ db h)
      | inr t ↦ simp t h
    ];
  }

  pub reserve_slot-Keeps :
      (limits : Limits) (vm provider now : ℕ) (job : Job)
      → Keeps P (reserve_slot limits vm provider now job)
  unfolding reserve_slot take_slot
  reserve_slot-Keeps limits vm provider now job = record {
    apply = λ db h. elim (Bool-cases (is_full limits job.run_id db)) [
      | inl t ↦ simp t h
      | inr t ↦
          simp t (elim (Bool-cases (not (is_waiting (row_of (λ (j : Job). j.id) job.id db.jobs)))) [
            | inl u ↦ simp u h
            | inr u ↦ simp u (elim (Bool-cases (not (may_start (run_of job.run_id db) db))) [
              | inl v ↦ simp v h
              | inr v ↦
                  simp v ((take_row-Keeps vm now (reservation vm provider now job) _).apply db h)
            ])
          ])
    ];
  }

  pub attach-Keeps : (job vm provider now : ℕ) → Keeps P (attach job vm provider now)
  unfolding attach
  attach-Keeps job vm provider now = record {
    apply = λ db h. (Keeps-bind (g.agents _ _) (λ _. Keeps-pure _)).apply db h;
  }

  forget_of-Keeps :
      (destroy : ℕ → ℕ → Bool) (job : ℕ) (vm r : Option ℕ) → Keeps P (forget_of destroy job vm r)
  unfolding forget_vm
  forget_of-Keeps destroy job none r = Keeps-pure tt
  forget_of-Keeps destroy job (some vm) r = record {
    apply = λ db h. elim (Bool-cases (is_distinct (some vm) r && destroy job vm)) [
      | inl t ↦ simp t ((g.agents _ _).apply db h)
      | inr t ↦ simp t ((Keeps-pure tt).apply db h)
    ];
  }

  forget_each-Keeps : (destroy : ℕ → ℕ → Bool) (ss : List Agent) → Keeps P (forget_each destroy ss)
  unfolding forget_each
  forget_each-Keeps destroy [] = Keeps-pure tt
  forget_each-Keeps destroy (a ∷ ss) =
      Keeps-bind (forget_of-Keeps destroy a.job_id a.vm_id a.reservation_id)
        (λ _. forget_each-Keeps destroy ss)

  pub reap_stale-Keeps :
      (cutoff now : ℕ) (run : Option ℕ) (provider : ℕ) (destroy : ℕ → ℕ → Bool)
      → Keeps P (reap_stale cutoff now run provider destroy)
  unfolding reap_stale
  reap_stale-Keeps cutoff now run provider destroy = record {
    apply = λ db h.
        (Keeps-bind (g.agents _ _)
            λ _. Keeps-bind (forget_each-Keeps destroy _) λ _. Keeps-pure _).apply
          db h;
  }

  pub reclaim-Keeps : (provider : ℕ) (destroy : ℕ → ℕ → Bool) → Keeps P (reclaim provider destroy)
  unfolding reclaim
  reclaim-Keeps provider destroy = record {
    apply = λ db h. (forget_each-Keeps destroy _).apply db h;
  }
