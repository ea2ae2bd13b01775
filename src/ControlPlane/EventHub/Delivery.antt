-- ===== src/ControlPlane/EventHub/Delivery.antt =====
-- What a client whose socket is ready is sent: the numbers after its cursor, none left out and none
-- twice.
use kapi_final.Base.{
  ℕ, zero, suc, ◌+◌, ◌≤◌, ◌<◌, ◌≡◌, refl, ap, ◌∙◌, Bool, true, false, not, ◌&&◌, Bool-cases, inl,
  inr, ◌⊎◌, Option, none, some, List, [], ◌∷◌, ◌++◌, leb, leb→le, ltb, length, arith,
}
use kapi_final.ControlPlane.EventHub.{
  Client, Socket, ready, closing, broken, send, send_now, send_each, span, hold, keep, fan_out,
  hand_off, deliver, fetch, sort_numbers, last_of, set_socket,
}
use kapi_final.ControlPlane.EventHub.Ranges.{span_snoc}

-- The client has been sent the first j events after the cursor that it came with.
abbrev pub told : ℕ → Client → Client
told j c = record c { cursor = c.since + j; received = span c.since j }

pub send_now-told :
    (n j : ℕ) (c : Client)
    → c.socket ≡ ready
    → n ≤ c.since + j + 1
    → (k : ℕ) × (send_now n (told j c) ≡ told k c) × (j ≤ k) × (n ≤ c.since + k)
unfolding send_now send
send_now-told n j c r h = elim (Bool-cases (leb n (c.since + j))) [
  | inl t ↦ (j, rw t refl, omega arith, leb→le _ _ t)
  | inr t ↦
      let e : n ≡ c.since + suc j = ground arith in
      let w : span c.since j ++ n ∷ [] ≡ span c.since (suc j) =
        ap (λ x. span c.since j ++ x ∷ []) (e ∙ omega arith) ∙ span_snoc c.since j in
      (
        suc j,
        rw (t, r) (λ i. record c { cursor = e i; socket = ready; received = w i }),
        omega arith,
        omega arith,
      )
]

pub send_each-told :
    (a m j : ℕ) (c : Client)
    → c.socket ≡ ready
    → a ≤ c.since + j
    → (k : ℕ) × (send_each (span a m) (told j c) ≡ told k c) × (j ≤ k) × (a + m ≤ c.since + k)
unfolding send_each
send_each-told a zero j c r h = (j, refl, omega arith, omega arith)
send_each-told a (suc m) j c r h =
    let (k, e, le, to) = send_now-told (a + 1) j c r (omega arith) in
    let (l, f, le', to') = send_each-told (a + 1) m k c r to in
    (l, ap (send_each (span (a + 1) m)) e ∙ f, omega arith, omega arith)

-- A client that is replaying holds the events from base + 1 on that were fanned out since.
pub record IsReplaying (committed cursor base k : ℕ) (c : Client) : Type 0 where
  pub loading : c.replaying ≡ true
  pub held : c.held ≡ span base k
  pub reached : cursor ≡ base + k
  pub known : base ≤ committed
  pub behind : c.last ≤ c.cursor
  pub paged :
      (c.page ≡ none) ⊎ ((m : ℕ) × (c.page ≡ some (span c.last m)) × (m < 1000 → base ≤ c.last + m))

pub record IsLive (cursor : ℕ) (c : Client) : Type 0 where
  pub loaded : c.replaying ≡ false
  pub page : c.page ≡ none
  pub caught_up : cursor ≤ c.cursor

pub data IsServed (committed cursor : ℕ) (c : Client) : Type 0 where
  replays : (base k : ℕ) → IsReplaying committed cursor base k c → IsServed committed cursor c
  live : IsLive cursor c → IsServed committed cursor c

abbrev pub is_ready : Socket → Bool
is_ready ready = true
is_ready _ = false

-- Either the socket is lost and has sent a first part, or the client has been sent all up to its
-- cursor.
pub data IsExact (since committed cursor : ℕ) : Client → Type 0 where
  cut :
      (j : ℕ) (c : Client)
      → is_ready c.socket ≡ false
      → c.received ≡ span since j
      → IsExact since committed cursor c
  follows :
      (j : ℕ) (c : Client)
      → c.socket ≡ ready
      → c.gone ≡ false
      → c.since ≡ since
      → IsServed committed cursor (told j c)
      → IsExact since committed cursor (told j c)

-- A client whose socket is lost is sent nothing more.
pub record IsStill (c d : Client) : Type 0 where
  pub lost : is_ready d.socket ≡ false
  pub same : d.received ≡ c.received

send_now-IsStill :
    (n : ℕ) (c : Client) (s : Socket) → c.socket ≡ s → is_ready s ≡ false → IsStill c (send_now n c)
unfolding send_now send
send_now-IsStill n c ready e h = absurd (cc)
send_now-IsStill n c closing e h = elim (Bool-cases (leb n c.cursor)) [
  | inl t ↦ rw t (record { lost = ap is_ready e ∙ h; same = refl })
  | inr t ↦ rw (t, e) (record { lost = refl; same = refl })
]
send_now-IsStill n c broken e h = elim (Bool-cases (leb n c.cursor)) [
  | inl t ↦ rw t (record { lost = ap is_ready e ∙ h; same = refl })
  | inr t ↦ rw (t, e) (record { lost = refl; same = refl })
]

send_each-IsStill :
    (ns : List ℕ) (c : Client) → is_ready c.socket ≡ false → IsStill c (send_each ns c)
unfolding send_each
send_each-IsStill [] c h = record { lost = h; same = refl }
send_each-IsStill (n ∷ ns) c h =
    let a = send_now-IsStill n c c.socket refl h in
    let b = send_each-IsStill ns (send_now n c) a.lost in
    record { lost = b.lost; same = b.same ∙ a.same }

pub set_socket-IsStill :
    (s : Socket) (c : Client) (k : Socket)
    → c.socket ≡ k
    → is_ready s ≡ false
    → IsStill c (set_socket s c)
set_socket-IsStill s c ready e h = rw e (record { lost = h; same = refl })
set_socket-IsStill s c closing e h = rw e (record { lost = refl; same = refl })
set_socket-IsStill s c broken e h = rw e (record { lost = refl; same = refl })

keep-IsStill : (n : ℕ) (c : Client) → is_ready c.socket ≡ false → IsStill c (keep n c)
unfolding keep
keep-IsStill n c h =
    let i = set_socket-IsStill closing c c.socket refl refl in
    elim (Bool-cases (ltb 2000 (length (hold n c.held)))) [
      | inl t ↦ rw t (record { lost = i.lost; same = i.same })
      | inr t ↦ rw t (record { lost = h; same = refl })
    ]

pub fan_out-IsStill : (n : ℕ) (c : Client) → is_ready c.socket ≡ false → IsStill c (fan_out n c)
unfolding fan_out
fan_out-IsStill n c h = elim (Bool-cases c.gone) [
  | inl t ↦ simp t (record { lost = h; same = refl })
  | inr t ↦ simp t (elim (Bool-cases c.replaying) [
    | inl u ↦ simp u (keep-IsStill n c h)
    | inr u ↦ simp u (send_now-IsStill n c c.socket refl h)
  ])
]

hand_off-IsStill : (c : Client) → is_ready c.socket ≡ false → IsStill c (hand_off c)
unfolding hand_off
hand_off-IsStill c h =
    let i = send_each-IsStill (sort_numbers c.held) c h in record { lost = i.lost; same = i.same }

pub deliver-IsStill :
    (o : Option (List ℕ)) (c : Client) → is_ready c.socket ≡ false → IsStill c (deliver o c)
unfolding deliver
deliver-IsStill none c h = record { lost = h; same = refl }
deliver-IsStill (some ns) c h =
    let i = send_each-IsStill ns c h in
    let c' = record (send_each ns c) { last = last_of c.last ns; page = none } in
    let k = hand_off-IsStill c' i.lost in
    elim (Bool-cases (ltb (length ns) 1000)) [
      | inl t ↦ rw t (record { lost = k.lost; same = k.same ∙ i.same })
      | inr t ↦ rw t (record { lost = i.lost; same = i.same })
    ]

pub fetch-IsStill :
    (committed : ℕ) (o : Option (List ℕ)) (c : Client)
    → c.page ≡ o
    → is_ready c.socket ≡ false
    → IsStill c (fetch committed c)
unfolding fetch
fetch-IsStill committed none c e h = rw e (elim (Bool-cases (c.replaying && not c.gone)) [
  | inl t ↦ rw t (record { lost = h; same = refl })
  | inr t ↦ rw t (record { lost = h; same = refl })
])
fetch-IsStill committed (some ns) c e h = rw e (record { lost = h; same = refl })
