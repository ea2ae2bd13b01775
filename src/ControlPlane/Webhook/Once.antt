-- ===== src/ControlPlane/Webhook/Once.antt =====
-- A delivery is recorded once, however often GitHub sends it and whatever happens in between.
use text.Mathlib.Text.{◌==◌ as str_eq}
use text.Mathlib.TextPositions.{eq_refl}
use kapi_final.Base.{
  ℕ, zero, suc, ◌+◌, ◌-◌, ◌≤◌, ◌≡◌, ◌==◌, refl, sym, ap, subst, ◌∙◌, true, false, not, ◌&&◌, Option,
  none, some, List, [], ◌∷◌, String, any, row_of, All, ==_iff, arith, Bool-cases, inl, inr,
}
use kapi_final.Base.Optional.{or_else}
use kapi_final.Protocol.Events.{CompletedCheck, AgentEvent}
use kapi_final.Db.Tables.{Db, Run}
use kapi_final.Db.Tx.{Tx, done, pure, query, bind_done, Holds}
use kapi_final.Db.Handler.{Handler, served, commit, answer}
use kapi_final.Db.Handler
use kapi_final.Queue.Events.{append_event, append_event_done, appended, numbered}
use kapi_final.ControlPlane.GithubCheck.{Platform, Delivery, CheckPayload, completed_check}
use kapi_final.ControlPlane.RunMatch.{match_run}
use kapi_final.ControlPlane.Webhook.{
  Setting, accepted, reply_of, webhook, on_event, on_payload, on_check, on_match, publish,
  lacks_secret, is_refused, secret_of, delivery_id, is_delivered, record_delivery, unless_prior,
  ci_event, next_event,
}
use kapi_final.Invariant.Stream.{seqs, seq_of, seq_or_zero, countdown}
use kapi_final.Invariant.Whole.{Inv, Inv-Guard, run_id}
use kapi_final.Invariant.Delivered.{Has-Guard}
use kapi_final.Trace.{Call, run, run-Guard}

-- The delivery passes its checks, and announces that a check has ended.
pub record Announces (p : Platform) (s : Setting) (d : Delivery) (c : CompletedCheck) : Type 0 where
  pub has_secret : lacks_secret p s ≡ false
  pub signed : is_refused p (secret_of p s) d ≡ false
  pub not_ping : str_eq (or_else d.event "") "ping" ≡ false
  pub supported :
      (not (str_eq (or_else d.event "") "check_run")
        && not (str_eq (or_else d.event "") "check_suite"))
      ≡ false
  pub payload : CheckPayload
  pub parsed : p.parse d.body ≡ some payload
  pub ended : completed_check p (or_else d.event "") payload ≡ some c

-- What follows a transaction that commits.
commit_then :
    {A B : Type 0} (m : Tx A) (f : A → Handler B) (db : Db) {a : A} {db' : Db}
    → m db ≡ done a db'
    → (Handler.◌>>=◌ (commit m) f) db ≡ f a db'
unfolding Handler.◌>>=◌ commit
commit_then m f db h = ground (arith, h)

module _ (p : Platform) where
  -- Such a delivery comes to the search for its run.
  webhook-on_match :
      (s : Setting) (d : Delivery) (c : CompletedCheck) (db : Db) {r : ℕ} {j : Option ℕ}
      → Announces p s d c
      → match_run p c.repository c.branch db ≡ some (r, j)
      → webhook p s d db
        ≡ on_match p (delivery_id p (or_else d.event "") d.delivery c) c (some (r, j)) db
  unfolding webhook on_event on_payload on_check query
  webhook-on_match s d c db a m = rw (a.has_secret) (
      rw (a.signed) (
        rw (a.not_ping) (
          rw (a.supported) (
            rw (a.parsed) (
              rw (a.ended) (
                commit_then (query (match_run p c.repository c.branch)) (on_match p _ c) db refl
                ∙ ap (λ o. on_match p (delivery_id p (or_else d.event "") d.delivery c) c o db)
                    m))))))

  module _ (d : String) (c : CompletedCheck) (r : ℕ) (j : Option ℕ) (db : Db) where
    record_prior :
        any (is_delivered p r d) db.events ≡ true → record_delivery p r j c d db ≡ done none db
    unfolding record_delivery unless_prior query pure
    record_prior h = bind_done (query (λ db. any (is_delivered p r d) db.events)) _ db refl ∙ rw h

    record_first :
        {x : Run}
        → any (is_delivered p r d) db.events ≡ false
        → row_of run_id r db.runs ≡ some x
        → record_delivery p r j c d db
          ≡ done (some (x.event_seq + 1)) (appended (ci_event r j c d) x db)
    unfolding record_delivery unless_prior query pure
    record_first {x} h own =
        bind_done (query (λ db. any (is_delivered p r d) db.events))
          (unless_prior (ci_event r j c d)) db refl
        ∙ rw h (
            bind_done (append_event (ci_event r j c d)) (λ n. pure (some n)) db
              (append_event_done _ db own))

-- No event of the run comes after its cursor.
countdown-All : (n m : ℕ) → n ≤ m → All (λ k. k ≤ m) (countdown n)
unfolding countdown
countdown-All zero m h = tt
countdown-All (suc n) m h = (h, countdown-All n m (omega arith))

next_event-none :
    (r n : ℕ) (es : List AgentEvent) → All (λ k. k ≤ n) (seqs r es) → next_event r n es ≡ none
unfolding next_event seqs
next_event-none r n [] a = refl
next_event-none r n (e ∷ es) a = elim (Bool-cases (e.run_id == r)) [
  | inl t ↦
      let b : All (λ k. k ≤ n) (e.seq ∷ seqs r es) = rw t at a in
      ground (arith, b.0, next_event-none r n es b.1)
  | inr t ↦
      let b : All (λ k. k ≤ n) (seqs r es) = rw t at a in ground (arith, next_event-none r n es b)
]

-- The reply once the transaction has committed.
published :
    (p : Platform) (d : String) (c : CompletedCheck) (r : ℕ) (j n : Option ℕ) (db db' : Db)
    → record_delivery p r j c d db ≡ done n db'
    → on_match p d c (some (r, j)) db ≡ served (reply_of r n db') db'
unfolding on_match publish query answer
published p d c r j n db db' h =
    commit_then (record_delivery p r j c d) (publish r) db h
    ∙ commit_then (query (reply_of r n)) answer db' refl

-- The stream of the run after its append: the new event is the one to publish.
next_event-appended :
    (r n : ℕ) (e : AgentEvent) (es : List AgentEvent)
    → e.run_id ≡ r
    → e.seq ≡ n + 1
    → All (λ k. k ≤ n) (seqs r es)
    → next_event r n (e ∷ es) ≡ some e
unfolding next_event
next_event-appended r n e es own at a =
    ground (arith, own, at, next_event-none r n es a, ==_iff e.run_id r)

is_there :
    (p : Platform) (d : String) (c : CompletedCheck) (r n : ℕ) (j : Option ℕ) (es : List AgentEvent)
    → any (is_delivered p r d) (numbered (ci_event r j c d) n ∷ es) ≡ true
unfolding any
is_there p d c r n j es = ground (arith, eq_refl d, ==_iff r r)

-- The cursor of a run bounds the numbers of its events.
seqs-All :
    (db : Db) (r : ℕ) {x : Run}
    → Inv db
    → row_of run_id r db.runs ≡ some x
    → (n : ℕ) → x.event_seq ≤ n
    → All (λ k. k ≤ n) (seqs r db.events)
unfolding seq_of
seqs-All db r {x} v own n h =
    subst (All (λ k. k ≤ n)) (sym (v.gapless r ∙ ap (λ o. countdown (seq_or_zero o)) own))
      (countdown-All x.event_seq n h)

module _ (p : Platform) (s : Setting) (d : Delivery) (c : CompletedCheck) where
  abbrev pub id_of : String
  id_of = delivery_id p (or_else d.event "") d.delivery c

  -- In a database that satisfies the invariant, a signed delivery of the end of a check that
  -- belongs to a run, and that the run's stream does not hold yet, is recorded: one event is
  -- appended with the run's next number, and just that event is given to the hub. Sent again
  -- after whatever transactions and requests, while the check still belongs to that run, it is
  -- answered as a duplicate, nothing is published, and the database stays as it is.
  pub recorded_once :
      (cs : List Call) (db : Db) (r : ℕ) (j j' : Option ℕ) {x : Run}
      → Inv db
      → Announces p s d c
      → match_run p c.repository c.branch db ≡ some (r, j)
      → row_of run_id r db.runs ≡ some x
      → any (is_delivered p r id_of) db.events ≡ false
      → let e = ci_event r j c id_of in
        let later = run cs (appended e x db) in
        match_run p c.repository c.branch later ≡ some (r, j')
        → (webhook p s d db
            ≡ served (accepted r false (some (numbered e (x.event_seq + 1)))) (appended e x db))
          × (webhook p s d later ≡ served (accepted r true none) later)
  recorded_once cs db r j j' {x} v a m own new again =
      let e = ci_event r j c id_of in
      let db1 = appended e x db in
      let later = run cs db1 in
      let h = record_first p id_of c r j db new own in
      let inv1 : Inv db1 =
        subst (Holds Inv) (append_event_done e db own) ((Inv-Guard.append e).apply db v) in
      let there =
        (run-Guard (Has-Guard (is_delivered p r id_of)) cs db1
          (inv1, is_there p id_of c r (x.event_seq + 1) j db.events)).1 in
      let n = x.event_seq + 1 - 1 in
      let sent =
        next_event-appended r n (numbered e (x.event_seq + 1)) db.events refl (omega arith)
          (seqs-All db r v own n (omega arith)) in
      (
        webhook-on_match p s d c db a m
            ∙ published p id_of c r j (some (x.event_seq + 1)) db db1 h
            ∙ ap (λ o. served (accepted r false o) db1) sent,
        webhook-on_match p s d c later a again
            ∙ published p id_of c r j' none later later (record_prior p id_of c r j' later there),
      )
