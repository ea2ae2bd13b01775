-- ===== src/Invariant/Stream.antt =====
-- The numbers of a run's events: each append takes the next one, so the stream has no gap.
use kapi_final.Base.{
  ℕ, zero, suc, ◌+◌, ◌≡◌, ◌==◌, refl, sym, ap, ◌∙◌, Bool, true, Option, none, some, List, [], ◌∷◌,
  row_of, update_where, row_of-update, row_of-cons, subst, row_of_sound, All-everywhere,
  if◌then◌else◌, arith, ==_iff, Bool-cases, inl, inr, Option-cases,
}
use kapi_final.Protocol.Events.{EventInput, AgentEvent}
use kapi_final.Db.Tables.{Db, Run}
use kapi_final.Db.Tx.{Keeps, Holds, done, throw, run_missing}
use kapi_final.Queue.Events.{append_event, bump, numbered, append_event_lem}

-- The sequence numbers of a run's events, newest first.
unfoldable pub seqs : ℕ → List AgentEvent → List ℕ
seqs r [] = []
seqs r (e ∷ es) = if e.run_id == r then e.seq ∷ seqs r es else seqs r es

abbrev pub seq_or_zero : Option Run → ℕ
seq_or_zero none = 0
seq_or_zero (some r) = r.event_seq

unfoldable pub seq_of : ℕ → List Run → ℕ
seq_of r runs = seq_or_zero (row_of (λ (x : Run). x.id) r runs)

-- n, n - 1, …, 1
unfoldable pub countdown : ℕ → List ℕ
countdown zero = []
countdown (suc n) = suc n ∷ countdown n

-- The cursor of each run counts its events, and they are numbered 1, 2, … with no gap.
abbrev pub IsGapless : List Run → List AgentEvent → Type 0
IsGapless runs events = (r : ℕ) → seqs r events ≡ countdown (seq_of r runs)

seq_of-bump :
    (k r : ℕ) (runs : List Run) (x : Run)
    → row_of (λ (y : Run). y.id) k runs ≡ some x
    → seq_of r (update_where (λ y. y.id == k) bump runs)
      ≡ (if k == r then suc (seq_of r runs) else seq_of r runs)
unfolding seq_of
seq_of-bump k r runs x e =
    let id = λ (y : Run). y.id in
    let moved = row_of-update id (λ y. y.id == k) bump r runs (All-everywhere runs (λ y _. refl)) in
    let same : k ≡ r → row_of id r runs ≡ some x = λ q. ap (λ i. row_of id i runs) (sym q) ∙ e in
    elim (Option-cases (row_of id r runs)) [
      | inl n ↦ ground (arith, moved, same)
      | inr (y, f) ↦ ground (arith, moved, row_of_sound id r runs f)
    ]

pub IsGapless-append :
    (e : EventInput) (runs : List Run) (events : List AgentEvent) (x : Run)
    → row_of (λ (y : Run). y.id) e.run_id runs ≡ some x
    → IsGapless runs events
    → IsGapless
        (update_where (λ y. y.id == e.run_id) bump runs)
        (numbered e (x.event_seq + 1) ∷ events)
unfolding seqs
IsGapless-append e runs events x h g r =
    rw (seq_of-bump e.run_id r runs x h) (elim (Bool-cases (e.run_id == r)) [
      | inl t ↦ rw t (own ((==_iff _ _).0 t))
      | inr t ↦ rw t (g r)
    ])
  where
    here : e.run_id ≡ r → seq_of r runs ≡ x.event_seq
    here q = ap (λ i. seq_of i runs) (sym q) ∙ unfold seq_of in ap seq_or_zero h

    own : e.run_id ≡ r → (x.event_seq + 1) ∷ seqs r events ≡ countdown (suc (seq_of r runs))
    own q = unfold countdown in rw (g r, here q) (ap (λ n. n ∷ countdown x.event_seq) (omega arith))

-- A run that is opened has no event yet.
pub IsGapless-open :
    (x : Run) (runs : List Run) (events : List AgentEvent)
    → row_of (λ (y : Run). y.id) x.id runs ≡ none
    → x.event_seq ≡ 0
    → IsGapless runs events
    → IsGapless (x ∷ runs) events
unfolding seq_of countdown
IsGapless-open x runs events free z g r = g r ∙ ap countdown (open_seq r)
  where
    none_here : (r : ℕ) → x.id ≡ r → row_of (λ (y : Run). y.id) r runs ≡ none
    none_here r e = subst (λ i. row_of (λ (y : Run). y.id) i runs ≡ none) e free

    open_seq :
        (r : ℕ)
        → seq_or_zero (row_of (λ (y : Run). y.id) r runs)
          ≡ seq_or_zero (row_of (λ (y : Run). y.id) r (x ∷ runs))
    open_seq r =
        let cons = row_of-cons (λ (y : Run). y.id) r x runs in
        elim (Bool-cases (x.id == r)) [
          | inl t ↦ rw (cons, t, none_here r ((==_iff _ _).0 t)) (sym z)
          | inr t ↦ rw (cons, t)
        ]

-- `appendEvent` keeps every stream gap-free.
pub append_event-Keeps :
    {P : Db → Type 0} (e : EventInput)
    → ((db : Db) (x : Run)
        → row_of (λ (y : Run). y.id) e.run_id db.runs ≡ some x
        → P db
        → P (record db {
          runs = update_where (λ y. y.id == e.run_id) bump db.runs;
          events = numbered e (x.event_seq + 1) ∷ db.events;
        }))
    → Keeps P (append_event e)
append_event-Keeps {P} e h = record {
  apply = λ db p. rw (append_event_lem e db) (split db p (row_of _ e.run_id db.runs) refl);
}
  where
    split :
        (db : Db)
        → P db
        → (o : Option Run) → row_of (λ (y : Run). y.id) e.run_id db.runs ≡ o
        → Holds P (elim o [
          | none ↦ throw (run_missing e.run_id)
          | some r ↦ done (r.event_seq + 1) (record db {
            runs = update_where (λ x. x.id == e.run_id) bump db.runs;
            events = numbered e (r.event_seq + 1) ∷ db.events;
          })
        ])
    split db p none q = tt
    split db p (some x) q = h db x q p

-- An update that leaves ids and cursors alone leaves every cursor.
pub seq_of-update :
    (p : Run → Bool) (f : Run → Run) (r : ℕ) (runs : List Run)
    → ((x : Run) → p x ≡ true → (((f x).id ≡ x.id) × ((f x).event_seq ≡ x.event_seq)))
    → seq_of r (update_where p f runs) ≡ seq_of r runs
unfolding seq_of
seq_of-update p f r runs h =
    let id = λ (y : Run). y.id in
    let moved = row_of-update id p f r runs (All-everywhere runs (λ y t. (h y t).0)) in
    elim (Option-cases (row_of id r runs)) [
      | inl n ↦ ground (arith, moved)
      | inr (y, e) ↦ ground (arith, moved, h y)
    ]
