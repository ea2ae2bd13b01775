-- ===== src/ControlPlane/EventHub.antt =====
-- apps/control-plane/src/events.ts and ws.ts: the fan-out of one run's events to one websocket client
-- that watches the run. An event is its number in the run; the database numbers them 1, 2, … The
-- other clients and runs have state of their own, and the last frame of a replay is left out.
pub mod Ranges
pub mod Delivery
pub mod Exact
pub mod Ingest
use kapi_final.Base.{
  ℕ, zero, suc, ◌+◌, ◌-◌, ◌==◌, leb, ltb, Bool, true, false, not, ◌&&◌, ◌||◌, Option, none, some,
  List, [], ◌∷◌, ◌++◌, has, length, select, if◌then◌else◌,
}

-- A socket that is closing takes frames and sends none; one that is broken throws.
pub data Socket : Type 0 where
  ready closing broken : Socket

pub record Client : Type 0 where
  -- The cursor that it connected with.
  pub since : ℕ
  pub cursor : ℕ
  pub replaying : Bool
  -- Events that were fanned out while the history was loading, in the order of insertion.
  pub held : List ℕ
  -- `after`, and the page that `listEvents` has answered.
  pub last : ℕ
  pub page : Option (List ℕ)
  pub socket : Socket
  -- It is no longer among the hub's clients.
  pub gone : Bool
  -- The frames that the socket has sent.
  pub received : List ℕ

pub record Hub : Type 0 where
  -- The events of the run that are in the database.
  pub committed : ℕ
  pub cursor : ℕ
  pub buffered : List ℕ
  pub client : Client

abbrev pub set_socket : Socket → Client → Client
set_socket s c = elim c.socket [ ready ↦ record c { socket = s } | _ ↦ c ]

unfoldable pub send : ℕ → Client → Client
send n c = elim c.socket [
  | ready ↦ record c { cursor = n; received = c.received ++ n ∷ [] }
  | closing ↦ record c { cursor = n }
  | broken ↦ record c { gone = true }
]

-- #sendNow
unfoldable pub send_now : ℕ → Client → Client
send_now n c = if leb n c.cursor then c else send n c

-- Map.set of an event under its number
abbrev pub hold : ℕ → List ℕ → List ℕ
hold n ns = if has n ns then ns else ns ++ n ∷ []

unfoldable pub keep : ℕ → Client → Client
keep n c =
    let held = hold n c.held in
    if ltb 2000 (length held)
    then record (set_socket closing c) { gone = true }
    else record c { held = held }

-- #fanOut
unfoldable pub fan_out : ℕ → Client → Client
fan_out n c = if c.gone then c else if c.replaying then keep n c else send_now n c

-- #advance
unfoldable pub advance : ℕ → Hub → Hub
advance n h = record h {
  cursor = n;
  buffered = select (λ k. not (k == n)) h.buffered;
  client = fan_out n h.client;
}

-- The loop over the events that wait; each round takes one of them out.
unfoldable pub chase : ℕ → Hub → Hub
chase zero h = h
chase (suc fuel) h =
    let rest = chase fuel (advance (h.cursor + 1) h) in
    if has (h.cursor + 1) h.buffered then rest else h

-- #ingest; nobody watches the run once the client is gone.
unfoldable pub ingest : ℕ → Hub → Hub
ingest n h =
    if (h.client).gone || leb n h.cursor
    then h
    else if n == h.cursor + 1
    then chase (length h.buffered) (advance n h)
    else record h { buffered = hold n h.buffered }

unfoldable pub send_each : List ℕ → Client → Client
send_each [] c = c
send_each (n ∷ ns) c = send_each ns (send_now n c)

unfoldable pub insert_number : ℕ → List ℕ → List ℕ
insert_number n [] = n ∷ []
insert_number n (k ∷ ks) = if leb n k then n ∷ k ∷ ks else k ∷ insert_number n ks

-- sort((a, b) => a.seq - b.seq)
unfoldable pub sort_numbers : List ℕ → List ℕ
sort_numbers [] = []
sort_numbers (n ∷ ns) = insert_number n (sort_numbers ns)

-- The events that were held, and then the client is live; no other code runs in between.
unfoldable pub hand_off : Client → Client
hand_off c = record (send_each (sort_numbers c.held) c) { replaying = false; held = [] }

-- a + 1, …, a + k
abbrev pub span : ℕ → ℕ → List ℕ
span a zero = []
span a (suc k) = (a + 1) ∷ span (a + 1) k

abbrev pub at_most : ℕ → ℕ → ℕ
at_most limit n = if leb n limit then n else limit

-- listEvents(runId, after, limit): the events after one, in order.
unfoldable pub list_events : ℕ → (after limit : ℕ) → List ℕ
list_events committed after limit = span after (at_most limit (committed - after))

abbrev pub last_of : ℕ → List ℕ → ℕ
last_of d [] = d
last_of d (n ∷ ns) = last_of n ns

abbrev pub set_page : ℕ → Client → Client
set_page committed c = record c { page = some (list_events committed c.last 1000) }

-- One page is asked for at a time.
unfoldable pub fetch : ℕ → Client → Client
fetch committed c = elim c.page [
  | none ↦ if c.replaying && not c.gone then set_page committed c else c
  | some _ ↦ c
]

-- A page has arrived; a short one is the last.
unfoldable pub deliver : Option (List ℕ) → Client → Client
deliver none c = c
deliver (some ns) c =
    let c' = record (send_each ns c) { last = last_of c.last ns; page = none } in
    if ltb (length ns) 1000 then hand_off c' else c'

pub data HubStep : Type 0 where
  -- An event is appended in the database, by whatever process.
  commits : HubStep
  -- publish, or an event that a drain has read: one of the run's.
  ingests : ℕ → HubStep
  fetches : HubStep
  delivers : HubStep
  -- The socket is closed, for slowness or by the peer, or breaks.
  closes breaks : HubStep
  -- The socket's close event has removed the client.
  leaves : HubStep

unfoldable pub hub_step : HubStep → Hub → Hub
hub_step commits h = record h { committed = h.committed + 1 }
hub_step (ingests n) h = if leb n h.committed then ingest n h else h
hub_step fetches h = record h { client = fetch h.committed h.client }
hub_step delivers h = record h { client = deliver (h.client).page h.client }
hub_step closes h = record h { client = set_socket closing h.client }
hub_step breaks h = record h { client = set_socket broken h.client }
hub_step leaves h = record h { client = record (set_socket closing h.client) { gone = true } }

unfoldable pub hub_run : List HubStep → Hub → Hub
hub_run [] h = h
hub_run (s ∷ ss) h = hub_run ss (hub_step s h)

-- add and replay, on a hub that may have served the run before.
abbrev pub connected : (since committed cursor : ℕ) (buffered : List ℕ) → Hub
connected since committed cursor buffered = record {
  committed = committed;
  cursor = cursor;
  buffered = buffered;
  client = record {
    since = since;
    cursor = since;
    replaying = true;
    held = [];
    last = since;
    page = none;
    socket = ready;
    gone = false;
    received = [];
  };
}
