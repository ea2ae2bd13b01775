-- ===== src/ControlPlane/EventHub/Exact.antt =====
-- Each thing that happens to a client keeps it exact.
use kapi_final.Base.{
  ℕ, suc, ◌+◌, ◌≤◌, ◌<◌, ◌≡◌, refl, sym, ap, ◌∙◌, subst, false, Bool-cases, inl, inr, none, some,
  [], ltb, ltb→lt, length, arith,
}
use kapi_final.ControlPlane.EventHub.{
  Client, Socket, ready, closing, send_now, send_each, span, hold, keep, fan_out, hand_off, deliver,
  fetch, sort_numbers, last_of, set_socket,
}
use kapi_final.ControlPlane.EventHub.Ranges.{
  sort-span, last_of-span, hold-span, length-span, list_events-span,
}
use kapi_final.ControlPlane.EventHub.Delivery.{
  told, send_now-told, send_each-told, IsReplaying, replays, live, IsExact, cut, follows, IsStill,
  is_ready, fan_out-IsStill, deliver-IsStill, fetch-IsStill, set_socket-IsStill, is_ready,
}

module _ (since committed cursor : ℕ) where
  still :
      {c d : Client} (j : ℕ)
      → c.received ≡ span since j
      → IsStill c d
      → IsExact since committed cursor d
  still j e i = cut j _ i.lost (i.same ∙ e)

  pub set_socket-IsExact :
      (s : Socket) (c : Client)
      → is_ready s ≡ false
      → IsExact since committed cursor c
      → IsExact since committed cursor (set_socket s c)
  set_socket-IsExact s _ h (cut j c l e) = still j e (set_socket-IsStill s c c.socket refl h)
  set_socket-IsExact s _ h (follows j c r g q v) =
      still j (ap (λ x. span x j) q) (set_socket-IsStill s (told j c) ready r h)

  fetch_page :
      (j base k : ℕ) (c : Client)
      → c.socket ≡ ready
      → c.gone ≡ false
      → c.since ≡ since
      → IsReplaying committed cursor base k (told j c)
      → c.page ≡ none
      → IsExact since committed cursor (fetch committed (told j c))
  fetch_page j base k c r g q v e =
      let (m, same, short) = list_events-span committed c.last in
      let c' = record c { page = some (span c.last m) } in
      let asked : fetch committed (told j c) ≡ told j c' =
        unfold fetch in simp (e, v.loading, g, same) in
      subst (IsExact since committed cursor) (sym asked) (
        follows j c' r g q (
          replays base k (record {
            loading = v.loading;
            held = v.held;
            reached = v.reached;
            known = v.known;
            behind = v.behind;
            paged = inr (m, refl, λ h. omega (arith, v.known, short h));
          })))

  pub fetch-IsExact :
      (c : Client)
      → IsExact since committed cursor c
      → IsExact since committed cursor (fetch committed c)
  fetch-IsExact _ (cut j c l e) = still j e (fetch-IsStill committed c.page c refl l)
  fetch-IsExact _ (follows j c r g q (live v)) =
      let idle : fetch committed (told j c) ≡ told j c = unfold fetch in simp (v.page, v.loaded) in
      subst (IsExact since committed cursor) (sym idle) (follows j c r g q (live v))
  fetch-IsExact _ (follows j c r g q (replays base k v)) = elim v.paged [
    | inl e ↦ fetch_page j base k c r g q v e
    | inr (m, e, _) ↦
        let waits : fetch committed (told j c) ≡ told j c = unfold fetch in simp e in
        subst (IsExact since committed cursor) (sym waits) (follows j c r g q (replays base k v))
  ]

  -- The events that were held, to a client that has all the pages.
  hand_off-IsExact :
      (j base k : ℕ) (c : Client)
      → c.socket ≡ ready
      → c.gone ≡ false
      → c.since ≡ since
      → c.page ≡ none
      → c.held ≡ span base k
      → cursor ≡ base + k
      → base ≤ c.since + j
      → IsExact since committed cursor (hand_off (told j c))
  hand_off-IsExact j base k c r g q p held reached le =
      let (l, e, _, to) = send_each-told base k j c r le in
      let sent : send_each (sort_numbers c.held) (told j c) ≡ told l c =
        ap (λ ns. send_each (sort_numbers ns) (told j c)) held
        ∙ (ap (λ ns. send_each ns (told j c)) (sort-span base k) ∙ e) in
      let c' = record c { replaying = false; held = [] } in
      let done : hand_off (told j c) ≡ told l c' =
        unfold hand_off in ap (λ (x : Client). record x { replaying = false; held = [] }) sent in
      subst (IsExact since committed cursor) (sym done)
        (follows l c' r g q (live (record { loaded = refl; page = p; caught_up = omega arith })))

  deliver_page :
      (j base k m : ℕ) (c : Client)
      → c.socket ≡ ready
      → c.gone ≡ false
      → c.since ≡ since
      → IsReplaying committed cursor base k (told j c)
      → (m < 1000 → base ≤ c.last + m)
      → IsExact since committed cursor (deliver (some (span c.last m)) (told j c))
  unfolding deliver
  deliver_page j base k m c r g q v short =
      let (l, e, _, to) = send_each-told c.last m j c r v.behind in
      let c' = record c { last = last_of c.last (span c.last m); page = none } in
      let sent : record (send_each (span c.last m) (told j c)) {
        last = last_of c.last (span c.last m);
        page = none;
      }
          ≡ told l c' =
        ap (λ (x : Client). record x { last = last_of c.last (span c.last m); page = none }) e in
      let here : last_of c.last (span c.last m) ≤ c.since + l =
        omega (arith, last_of-span c.last m) in
      elim (Bool-cases (ltb (length (span c.last m)) 1000)) [
        | inl t ↦ simp t (
            subst (λ x. IsExact since committed cursor (hand_off x)) (sym sent)
              (hand_off-IsExact l base k c' r g q refl v.held v.reached
                (omega (arith, short (omega (arith, ltb→lt _ _ t, length-span c.last m))))))
        | inr t ↦ simp t (
            subst (IsExact since committed cursor) (sym sent) (
              follows l c' r g q (
                replays base k (record {
                  loading = v.loading;
                  held = v.held;
                  reached = v.reached;
                  known = v.known;
                  behind = here;
                  paged = inl refl;
                }))))
      ]

  pub deliver-IsExact :
      (c : Client)
      → IsExact since committed cursor c
      → IsExact since committed cursor (deliver c.page c)
  deliver-IsExact _ (cut j c l e) = still j e (deliver-IsStill c.page c l)
  deliver-IsExact _ (follows j c r g q (live v)) =
      let idle : deliver c.page (told j c) ≡ told j c =
        ap (λ o. deliver o (told j c)) v.page ∙ unfold deliver in refl in
      subst (IsExact since committed cursor) (sym idle) (follows j c r g q (live v))
  deliver-IsExact _ (follows j c r g q (replays base k v)) = elim v.paged [
    | inl e ↦
        let idle : deliver c.page (told j c) ≡ told j c =
          ap (λ o. deliver o (told j c)) e ∙ unfold deliver in refl in
        subst (IsExact since committed cursor) (sym idle) (follows j c r g q (replays base k v))
    | inr (m, e, short) ↦
        subst (λ o. IsExact since committed cursor (deliver o (told j c))) (sym e)
          (deliver_page j base k m c r g q v short)
  ]

  keeps :
      (j base k : ℕ) (c : Client)
      → c.socket ≡ ready
      → c.gone ≡ false
      → c.since ≡ since
      → IsReplaying committed cursor base k (told j c)
      → IsExact since committed (cursor + 1) (keep (cursor + 1) (told j c))
  unfolding keep
  keeps j base k c r g q v =
      let more : hold (cursor + 1) c.held ≡ span base (suc k) =
        ap (λ ns. hold (cursor + 1) ns) v.held
        ∙ (ap (λ n. hold (n + 1) (span base k)) v.reached ∙ hold-span base k) in
      let full = set_socket-IsStill closing (told j c) ready r refl in
      elim (Bool-cases (ltb 2000 (length (hold (cursor + 1) c.held)))) [
        | inl t ↦ simp t (cut j _ full.lost (full.same ∙ ap (λ x. span x j) q))
        | inr t ↦ simp t (
            follows j (record c { held = hold (cursor + 1) c.held }) r g q
              (replays base (suc k) (record {
                loading = v.loading;
                held = more;
                reached = omega (arith, v.reached);
                known = v.known;
                behind = v.behind;
                paged = v.paged;
              })))
      ]

  -- The next event, fanned out.
  pub fan_out-IsExact :
      (c : Client)
      → IsExact since committed cursor c
      → IsExact since committed (cursor + 1) (fan_out (cursor + 1) c)
  fan_out-IsExact _ (cut j c l e) =
      let i = fan_out-IsStill (cursor + 1) c l in cut j _ i.lost (i.same ∙ e)
  fan_out-IsExact _ (follows j c r g q (live v)) =
      let (k, e, _, to) = send_now-told (cursor + 1) j c r (omega (arith, v.caught_up)) in
      let now : fan_out (cursor + 1) (told j c) ≡ send_now (cursor + 1) (told j c) =
        unfold fan_out in simp (g, v.loaded) in
      subst (IsExact since committed (cursor + 1)) (sym (now ∙ e))
        (follows k c r g q (live (record { loaded = v.loaded; page = v.page; caught_up = to })))
  fan_out-IsExact _ (follows j c r g q (replays base k v)) =
      let kept : fan_out (cursor + 1) (told j c) ≡ keep (cursor + 1) (told j c) =
        unfold fan_out in simp (g, v.loading) in
      subst (IsExact since committed (cursor + 1)) (sym kept) (keeps j base k c r g q v)
