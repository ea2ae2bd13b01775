-- ===== src/Invariant/Delivered.antt =====
-- Properties of the events that hold beside the invariant: no event is ever taken away.
use kapi_final.Base.{◌≡◌, Bool, true, any, arith}
use kapi_final.Protocol.Events.{AgentEvent}
use kapi_final.Db.Tables.{Db}
use kapi_final.Db.Tx.{
  update_agents, update_runs, update_schedules, insert_message, update_artifacts,
  update_reservations, update_threads, insert_schedule,
}
use kapi_final.Invariant.Guard.{Guard}
use kapi_final.Invariant.Stream.{append_event-Keeps}
use kapi_final.Invariant.Riders.{beside_any}
use kapi_final.Invariant.Whole.{
  Inv, Inv-Guard, insert_job-Keeps, upsert_agent-Keeps, insert_usage-Keeps,
}

-- An event of the kind is there.
abbrev pub Has : (AgentEvent → Bool) → Db → Type 0
Has q db = Inv db × (any q db.events ≡ true)

module _ (q : AgentEvent → Bool) where
  pub Has-Guard : Guard (Has q)
  unfolding update_agents update_runs update_schedules insert_message update_artifacts
      update_reservations update_threads insert_schedule any
  Has-Guard =
      let Q = λ (db : Db). any q db.events ≡ true in
      record {
        keyed = λ db v. (v.0).keyed;
        jobs = λ p f db h v. (Inv-Guard.jobs p f db h v.0, v.1);
        insert = λ id now s h.
            beside_any Q (Inv-Guard.insert id now s h) (insert_job-Keeps _ (λ db free v. v));
        agents = λ p f. beside_any Q (Inv-Guard.agents p f) (record { apply = λ db v. v });
        append = λ e.
            beside_any Q (Inv-Guard.append e)
              (append_event-Keeps e (λ db x h v. ground (arith, v)));
        runs = λ p f h. beside_any Q (Inv-Guard.runs p f h) (record { apply = λ db v. v });
        schedules = λ p f. beside_any Q (Inv-Guard.schedules p f) (record { apply = λ db v. v });
        artifacts = λ f. beside_any Q (Inv-Guard.artifacts f) (record { apply = λ db v. v });
        reservations = λ f. beside_any Q (Inv-Guard.reservations f) (record { apply = λ db v. v });
        upsert =
            λ a f. beside_any Q (Inv-Guard.upsert a f) (upsert_agent-Keeps a f (λ db agents v. v));
        threads = λ f. beside_any Q (Inv-Guard.threads f) (record { apply = λ db v. v });
        add_schedule = λ s. beside_any Q (Inv-Guard.add_schedule s) (record { apply = λ db v. v });
        opens = λ r db free zero can v. (Inv-Guard.opens r db free zero can v.0, v.1);
        staff = λ agents db v. (Inv-Guard.staff agents db v.0, v.1);
        usage = λ u. beside_any Q (Inv-Guard.usage u) (insert_usage-Keeps u (λ db us v. v));
        message = λ m. beside_any Q (Inv-Guard.message m) (record { apply = λ db v. v });
      }
