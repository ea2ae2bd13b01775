-- ===== src/ControlPlane/RequestTracker.antt =====
-- apps/control-plane/src/request-tracker.ts: how many handlers run, and who waits for the last one.
-- The function that `enter` returns is a ticket, with the flag that its closure holds.
use kapi_final.Base.{
  ℕ, suc, ◌+◌, ◌-◌, ◌==◌, ◌≡◌, Bool, true, false, not, List, [], ◌∷◌, ◌++◌, if◌then◌else◌, arith,
  Bool-cases, inl, inr, refl, sym, ap, ◌∙◌, ==_iff, ◌⊎◌,
}
use mathlib.Core.List.{append_assoc, append-nil}

pub record Tracker : Type 0 where
  pub active : ℕ
  pub waiters : List ℕ
  pub tickets : List (ℕ × Bool)
  -- The drains whose promise is resolved.
  pub resolved : List ℕ

abbrev pub idle : Tracker
idle = record { active = 0; waiters = []; tickets = []; resolved = [] }

unfoldable pub enter : ℕ → Tracker → Tracker
enter ticket t = record t { active = t.active + 1; tickets = (ticket, false) ∷ t.tickets }

-- Whether the ticket was handed out and its `left` is false.
unfoldable pub is_open : ℕ → List (ℕ × Bool) → Bool
is_open k [] = false
is_open k ((i, left) ∷ ts) = if i == k then not left else is_open k ts

unfoldable pub set_left : ℕ → List (ℕ × Bool) → List (ℕ × Bool)
set_left k [] = []
set_left k ((i, left) ∷ ts) = if i == k then (i, true) ∷ ts else (i, left) ∷ set_left k ts

-- for (const resolve of this.#waiters) resolve(); this.#waiters.clear()
unfoldable pub release : Tracker → Tracker
release t = record t { waiters = []; resolved = t.resolved ++ t.waiters }

unfoldable pub leave : ℕ → Tracker → Tracker
leave ticket t =
    let gone = record t { active = t.active - 1; tickets = set_left ticket t.tickets } in
    if is_open ticket t.tickets then (if gone.active == 0 then release gone else gone) else t

unfoldable pub drain : ℕ → Tracker → Tracker
drain waiter t =
    if t.active == 0
    then record t { resolved = t.resolved ++ waiter ∷ [] }
    else record t { waiters = t.waiters ++ waiter ∷ [] }

pub data TrackerStep : Type 0 where
  enters leaves drains : ℕ → TrackerStep

unfoldable pub track : TrackerStep → Tracker → Tracker
track (enters k) t = enter k t
track (leaves k) t = leave k t
track (drains w) t = drain w t

unfoldable pub track_all : List TrackerStep → Tracker → Tracker
track_all [] t = t
track_all (s ∷ ss) t = track_all ss (track s t)

abbrev pub open_count : List (ℕ × Bool) → ℕ
open_count [] = 0
open_count ((_, left) ∷ ts) = (if left then 0 else 1) + open_count ts

-- The count is right, and nobody waits for an idle tracker.
pub record IsTracking (t : Tracker) : Type 0 where
  pub counted : t.active ≡ open_count t.tickets
  pub awake : t.active ≡ 0 → t.waiters ≡ []

set_left-open_count :
    (k : ℕ) (ts : List (ℕ × Bool))
    → is_open k ts ≡ true
    → suc (open_count (set_left k ts)) ≡ open_count ts
unfolding is_open set_left
set_left-open_count k [] h = absurd (ground arith)
set_left-open_count k ((i, true) ∷ ts) h = ground (arith, set_left-open_count k ts)
set_left-open_count k ((i, false) ∷ ts) h = ground (arith, set_left-open_count k ts)

leave-IsTracking : (k : ℕ) (t : Tracker) → IsTracking t → IsTracking (leave k t)
unfolding leave release
leave-IsTracking k t v = elim (Bool-cases (is_open k t.tickets)) [
  | inr h ↦ rw h v
  | inl h ↦
      let less = set_left-open_count k t.tickets h in
      rw h (record { counted = ground (arith, less, v.counted); awake = λ e. ground (arith, e) })
]

track-IsTracking : (s : TrackerStep) (t : Tracker) → IsTracking t → IsTracking (track s t)
unfolding track enter drain
track-IsTracking (enters k) t v = record {
  counted = ground (arith, v.counted);
  awake = λ e. absurd (ground (arith, e));
}
track-IsTracking (leaves k) t v = leave-IsTracking k t v
track-IsTracking (drains w) t v = record {
  counted = ground (arith, v.counted);
  awake = λ e. ground (arith, e, v.awake);
}

-- The drains among the steps.
abbrev pub drains_of : List TrackerStep → List ℕ
drains_of [] = []
drains_of (enters k ∷ ss) = drains_of ss
drains_of (leaves k ∷ ss) = drains_of ss
drains_of (drains w ∷ ss) = w ∷ drains_of ss

-- Each drain is resolved or waits, in the order of the calls.
abbrev pub calls : Tracker → List ℕ
calls t = t.resolved ++ t.waiters

leave-calls : (k : ℕ) (t : Tracker) → calls (leave k t) ≡ calls t
unfolding leave release
leave-calls k t = elim (Bool-cases (is_open k t.tickets)) [
  | inr h ↦ rw h refl
  | inl h ↦ elim (Bool-cases (t.active - 1 == 0)) [
    | inl z ↦ rw h (rw z (append-nil (t.resolved ++ t.waiters)))
    | inr z ↦ rw h (rw z refl)
  ]
]

drain-calls : (w : ℕ) (t : Tracker) → IsTracking t → calls (drain w t) ≡ calls t ++ w ∷ []
unfolding drain
drain-calls w t v = elim (Bool-cases (t.active == 0)) [
  | inl z ↦
      let none_waits = v.awake ((==_iff t.active 0).0 z) in
      rw z (
        ap (λ ws. (t.resolved ++ w ∷ []) ++ ws) none_waits
        ∙ (append-nil (t.resolved ++ w ∷ [])
            ∙ sym (
                ap (λ ws. (t.resolved ++ ws) ++ w ∷ []) none_waits
                ∙ ap (λ r. r ++ w ∷ []) (append-nil t.resolved))))
  | inr z ↦ rw z (sym (append_assoc t.resolved t.waiters (w ∷ [])))
]

-- A step that resolves a drain leaves the tracker idle.
resolves_idle :
    (s : TrackerStep) (t : Tracker) → ((track s t).resolved ≡ t.resolved) ⊎ ((track s t).active ≡ 0)
unfolding track enter leave drain release
resolves_idle (enters k) t = inl refl
resolves_idle (leaves k) t = elim (Bool-cases (is_open k t.tickets)) [
  | inr h ↦ inl (rw h refl)
  | inl h ↦ elim (Bool-cases (t.active - 1 == 0)) [
    | inl z ↦ inr (rw h (rw z ((==_iff (t.active - 1) 0).0 z)))
    | inr z ↦ inl (rw h (rw z refl))
  ]
]
resolves_idle (drains w) t = elim (Bool-cases (t.active == 0)) [
  | inl z ↦ inr (rw z ((==_iff t.active 0).0 z))
  | inr z ↦ inl (rw z refl)
]

track_each-IsTracking :
    (ss : List TrackerStep) (t : Tracker) → IsTracking t → IsTracking (track_all ss t)
unfolding track_all
track_each-IsTracking [] t v = v
track_each-IsTracking (s ∷ ss) t v = track_each-IsTracking ss (track s t) (track-IsTracking s t v)

track_all-calls :
    (ss : List TrackerStep) (t : Tracker)
    → IsTracking t
    → calls (track_all ss t) ≡ calls t ++ drains_of ss
unfolding track_all track enter
track_all-calls [] t v = sym (append-nil (calls t))
track_all-calls (enters k ∷ ss) t v =
    track_all-calls ss (enter k t) (track-IsTracking (enters k) t v)
track_all-calls (leaves k ∷ ss) t v =
    track_all-calls ss (leave k t) (track-IsTracking (leaves k) t v)
    ∙ ap (λ c. c ++ drains_of ss) (leave-calls k t)
track_all-calls (drains w ∷ ss) t v =
    track_all-calls ss (drain w t) (track-IsTracking (drains w) t v)
    ∙ (ap (λ c. c ++ drains_of ss) (drain-calls w t v)
        ∙ append_assoc (calls t) (w ∷ []) (drains_of ss))

-- From a tracker whose count is the number of requests that have not left, and for which nobody
-- waits while it is idle, both still hold after any sequence of requests that enter or leave,
-- once or more often, and of drains; the drains that are resolved and those that wait are, in
-- order, those from before and then those of the sequence, none lost and none twice; and a next
-- step resolves a drain only if it leaves the tracker idle.
pub track_all-IsTracking :
    (ss : List TrackerStep) (s : TrackerStep) (t : Tracker)
    → IsTracking t
    → let t' = track_all ss t in
      IsTracking t'
      × (t'.resolved ++ t'.waiters ≡ (t.resolved ++ t.waiters) ++ drains_of ss)
      × (((track s t').resolved ≡ t'.resolved) ⊎ ((track s t').active ≡ 0))
track_all-IsTracking ss s t v =
    (track_each-IsTracking ss t v, track_all-calls ss t v, resolves_idle s (track_all ss t))
