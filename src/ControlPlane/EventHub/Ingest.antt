-- ===== src/ControlPlane/EventHub/Ingest.antt =====
-- The hub takes the events of the run in order, and so each client that stays is sent each of them once.
use kapi_final.Base.{
  ℕ, zero, suc, ◌+◌, ◌≤◌, ◌≡◌, ◌==◌, refl, sym, ap, ◌∙◌, subst, true, false, ◌||◌, Bool-cases, inl,
  inr, List, [], ◌∷◌, has, length, leb, arith, ==_iff,
}
use kapi_final.ControlPlane.EventHub.{
  Hub, Client, ready, closing, broken, span, ingest, chase, advance, HubStep, commits, ingests,
  fetches, delivers, closes, breaks, leaves, hub_step, hub_run, connected, set_socket,
}
use kapi_final.ControlPlane.EventHub.Delivery.{
  told, IsExact, cut, follows, replays, live, set_socket-IsStill,
}
use kapi_final.ControlPlane.EventHub.Exact.{
  fetch-IsExact, deliver-IsExact, fan_out-IsExact, set_socket-IsExact,
}

abbrev pub Exact : ℕ → Hub → Type 0
Exact since h = IsExact since h.committed h.cursor h.client

advance-Exact : (since : ℕ) (h : Hub) → Exact since h → Exact since (advance (h.cursor + 1) h)
unfolding advance
advance-Exact since h x = fan_out-IsExact since h.committed h.cursor h.client x

chase-Exact : (since fuel : ℕ) (h : Hub) → Exact since h → Exact since (chase fuel h)
unfolding chase
chase-Exact since zero h x = x
chase-Exact since (suc fuel) h x = elim (Bool-cases (has (h.cursor + 1) h.buffered)) [
  | inl t ↦ simp t (chase-Exact since fuel (advance (h.cursor + 1) h) (advance-Exact since h x))
  | inr t ↦ simp t x
]

ingest-Exact : (since n : ℕ) (h : Hub) → Exact since h → Exact since (ingest n h)
unfolding ingest
ingest-Exact since n h x = elim (Bool-cases ((h.client).gone || leb n h.cursor)) [
  | inl t ↦ simp t x
  | inr t ↦ simp t (elim (Bool-cases (n == h.cursor + 1)) [
    | inl u ↦
        let next : Exact since (advance n h) =
          subst (λ m. Exact since (advance m h)) (sym ((==_iff _ _).0 u))
            (advance-Exact since h x) in
        simp u (chase-Exact since (length h.buffered) (advance n h) next)
    | inr u ↦ simp u x
  ])
]

-- More events in the database.
commits-Exact :
    (since committed cursor : ℕ) (c : Client)
    → IsExact since committed cursor c
    → IsExact since (committed + 1) cursor c
commits-Exact since committed cursor _ (cut j c l e) = cut j c l e
commits-Exact since committed cursor _ (follows j c r g q (live v)) = follows j c r g q (live v)
commits-Exact since committed cursor _ (follows j c r g q (replays base k v)) = follows j c r g q (
    replays base k (record {
      loading = v.loading;
      held = v.held;
      reached = v.reached;
      known = omega (arith, v.known);
      behind = v.behind;
      paged = v.paged;
    }))

leaves-Exact :
    (since committed cursor : ℕ) (c : Client)
    → IsExact since committed cursor c
    → IsExact since committed cursor (record (set_socket closing c) { gone = true })
leaves-Exact since committed cursor _ (cut j c l e) =
    let i = set_socket-IsStill closing c c.socket refl refl in cut j _ i.lost (i.same ∙ e)
leaves-Exact since committed cursor _ (follows j c r g q v) =
    let i = set_socket-IsStill closing (told j c) ready r refl in
    cut j _ i.lost (i.same ∙ ap (λ x. span x j) q)

hub_step-Exact : (since : ℕ) (s : HubStep) (h : Hub) → Exact since h → Exact since (hub_step s h)
unfolding hub_step
hub_step-Exact since commits h x = commits-Exact since h.committed h.cursor h.client x
hub_step-Exact since (ingests n) h x = elim (Bool-cases (leb n h.committed)) [
  | inl t ↦ simp t (ingest-Exact since n h x)
  | inr t ↦ simp t x
]
hub_step-Exact since fetches h x = fetch-IsExact since h.committed h.cursor h.client x
hub_step-Exact since delivers h x = deliver-IsExact since h.committed h.cursor h.client x
hub_step-Exact since closes h x =
    set_socket-IsExact since h.committed h.cursor closing h.client refl x
hub_step-Exact since breaks h x =
    set_socket-IsExact since h.committed h.cursor broken h.client refl x
hub_step-Exact since leaves h x = leaves-Exact since h.committed h.cursor h.client x

hub_run-Exact :
    (since : ℕ) (ss : List HubStep) (h : Hub) → Exact since h → Exact since (hub_run ss h)
unfolding hub_run
hub_run-Exact since [] h x = x
hub_run-Exact since (s ∷ ss) h x =
    hub_run-Exact since ss (hub_step s h) (hub_step-Exact since s h x)

connected-Exact :
    (since committed cursor : ℕ) (buffered : List ℕ)
    → cursor ≤ committed
    → Exact since (connected since committed cursor buffered)
connected-Exact since committed cursor buffered h =
    let c = (connected since committed cursor buffered).client in
    let e : since + 0 ≡ since = omega arith in
    let same : told 0 c ≡ c = λ i. record c { cursor = e i } in
    subst (IsExact since committed cursor) same (
      follows 0 c refl refl refl (
        replays cursor 0 (record {
          loading = refl;
          held = refl;
          reached = omega arith;
          known = h;
          behind = omega arith;
          paged = inl refl;
        })))

received-span :
    (since committed cursor : ℕ) (c : Client)
    → IsExact since committed cursor c
    → (j : ℕ) × (c.received ≡ span since j)
      × (c.socket ≡ ready → c.replaying ≡ false → cursor ≤ since + j)
received-span since committed cursor _ (cut j c l e) = (j, e, λ r _. absurd (cc))
received-span since committed cursor _ (follows j c r g q (live v)) =
    (j, ap (λ x. span x j) q, λ _ _. omega (arith, v.caught_up, q))
received-span since committed cursor _ (follows j c r g q (replays base k v)) =
    (j, ap (λ x. span x j) q, λ _ f. absurd (cc))

-- A client that connects with a cursor, to a hub that is not past the database's last event, is
-- sent exactly the events after its cursor, in order, none twice and none left out, however
-- commits, publications, drains, pages of history and lost sockets interleave; and once it is
-- live on a socket that is ready, all that the hub has passed on.
pub delivered_once :
    (since committed cursor : ℕ) (buffered : List ℕ) (ss : List HubStep)
    → cursor ≤ committed
    → (j : ℕ) × (((hub_run ss (connected since committed cursor buffered)).client).received
        ≡ span since j)
      × (((hub_run ss (connected since committed cursor buffered)).client).socket ≡ ready
          → ((hub_run ss (connected since committed cursor buffered)).client).replaying ≡ false
          → (hub_run ss (connected since committed cursor buffered)).cursor ≤ since + j)
delivered_once since committed cursor buffered ss h =
    received-span since _ _ _
      (hub_run-Exact since ss _ (connected-Exact since committed cursor buffered h))
