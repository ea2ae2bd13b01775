-- ===== src/ControlPlane/AgentApi/Inbox.antt =====
-- apps/control-plane/src/agent-api.ts: GET /agent/inbox, the messages to one agent after a cursor,
-- a page of 100 at a time.
use mathlib.Core.List.{Memᴰ}
use kapi_final.Base.{
  ℕ, zero, suc, ◌==◌, ◌≡◌, ◌≤◌, ◌<◌, leb, ltb, Bool, true, false, ◌&&◌, Bool-cases, inl, inr,
  Option, none, some, List, [], ◌∷◌, any, select, take, if◌then◌else◌, All, All-mem, select-mem,
  arith,
}
use kapi_final.Protocol.Jobs.{
  Job, JobKind, AgentId, orchestrator, captain, broadcast, agent, kind_eq,
}
use kapi_final.Protocol.Events.{AgentEvent, EventKind, agent_message, ci_completed}
use kapi_final.Queue.Lifecycle.{get_job}
use kapi_final.ControlPlane.RunLifecycle.{is_null}
use kapi_final.ControlPlane.AgentTx.{Claims}

abbrev pub same_address : AgentId → AgentId → Bool
same_address orchestrator orchestrator = true
same_address captain captain = true
same_address broadcast broadcast = true
same_address (agent i) (agent j) = i == j
same_address _ _ = false

-- A run's root captain also answers to the alias.
unfoldable pub addresses : Claims → Option Job → List AgentId
addresses c none = agent c.job_id ∷ broadcast ∷ []
addresses c (some j) =
    if kind_eq j.kind JobKind.captain && is_null j.parent_job_id
    then agent c.job_id ∷ broadcast ∷ captain ∷ []
    else agent c.job_id ∷ broadcast ∷ []

abbrev is_message : EventKind → Bool
is_message agent_message = true
is_message ci_completed = true
is_message _ = false

abbrev sent_to : List AgentId → Option AgentId → Bool
sent_to mine none = false
sent_to mine (some a) = any (same_address a) mine

unfoldable pub is_for : Claims → List AgentId → ℕ → AgentEvent → Bool
is_for c mine after e =
    e.run_id == c.run_id && (is_message e.kind && (ltb after e.seq && sent_to mine e.recipient))

-- ORDER BY seq ASC
unfoldable pub insert_event_sorted : AgentEvent → List AgentEvent → List AgentEvent
insert_event_sorted e [] = e ∷ []
insert_event_sorted e (f ∷ fs) =
    if leb e.seq f.seq then e ∷ f ∷ fs else f ∷ insert_event_sorted e fs

unfoldable pub by_seq : List AgentEvent → List AgentEvent
by_seq [] = []
by_seq (e ∷ es) = insert_event_sorted e (by_seq es)

unfoldable pub inbox : Claims → ℕ → List Job → List AgentEvent → List AgentEvent
inbox c after jobs events =
    take 100 (by_seq (select (is_for c (addresses c (get_job c.job_id jobs)) after) events))

-- messages.at(-1)?.seq ?? after
abbrev pub cursor_of : ℕ → List AgentEvent → ℕ
cursor_of after [] = after
cursor_of after (e ∷ es) = cursor_of e.seq es

abbrev IsSorted : List AgentEvent → Type 0
IsSorted [] = Unit
IsSorted (e ∷ es) = All (λ (f : AgentEvent). e.seq ≤ f.seq) es × IsSorted es

All-insert :
    (P : AgentEvent → Type 0) (e : AgentEvent) (fs : List AgentEvent)
    → P e
    → All P fs
    → All P (insert_event_sorted e fs)
unfolding insert_event_sorted
All-insert P e [] p a = (p, tt)
All-insert P e (f ∷ fs) p a = elim (Bool-cases (leb e.seq f.seq)) [
  | inl t ↦ rw t (p, a)
  | inr t ↦ rw t (a.0, All-insert P e fs p a.1)
]

All-le :
    (m n : ℕ) (fs : List AgentEvent)
    → m ≤ n
    → All (λ (f : AgentEvent). n ≤ f.seq) fs
    → All (λ (f : AgentEvent). m ≤ f.seq) fs
All-le m n [] h a = tt
All-le m n (f ∷ fs) h a = (omega (arith, h, a.0), All-le m n fs h a.1)

insert-IsSorted :
    (e : AgentEvent) (fs : List AgentEvent) → IsSorted fs → IsSorted (insert_event_sorted e fs)
unfolding insert_event_sorted
insert-IsSorted e [] s = (tt, tt)
insert-IsSorted e (f ∷ fs) s = elim (Bool-cases (leb e.seq f.seq)) [
  | inl t ↦ rw t ((ground arith, All-le e.seq f.seq fs (ground arith) s.0), s)
  | inr t ↦ rw t (All-insert _ e fs (ground arith) s.0, insert-IsSorted e fs s.1)
]

by_seq-IsSorted : (es : List AgentEvent) → IsSorted (by_seq es)
unfolding by_seq
by_seq-IsSorted [] = tt
by_seq-IsSorted (e ∷ es) = insert-IsSorted e (by_seq es) (by_seq-IsSorted es)

mem-insert :
    (x e : AgentEvent) (fs : List AgentEvent) → Memᴰ x (e ∷ fs) → Memᴰ x (insert_event_sorted e fs)
unfolding insert_event_sorted
mem-insert x e [] m = m
mem-insert x e (f ∷ fs) m = elim (Bool-cases (leb e.seq f.seq)) [
  | inl t ↦ rw t m
  | inr t ↦ rw t (swap (mem-insert x e fs) m)
]
  where
    swap :
        (Memᴰ x (e ∷ fs) → Memᴰ x (insert_event_sorted e fs))
        → Memᴰ x (e ∷ f ∷ fs)
        → Memᴰ x (f ∷ insert_event_sorted e fs)
    swap rest (Memᴰ.head p) = Memᴰ.tail (rest (Memᴰ.head p))
    swap rest (Memᴰ.tail (Memᴰ.head p)) = Memᴰ.head p
    swap rest (Memᴰ.tail (Memᴰ.tail p)) = Memᴰ.tail (rest (Memᴰ.tail p))

mem-by_seq : (x : AgentEvent) (es : List AgentEvent) → Memᴰ x es → Memᴰ x (by_seq es)
unfolding by_seq
mem-by_seq x [] m = elim m [ ]
mem-by_seq x (e ∷ es) (Memᴰ.head p) = mem-insert x e (by_seq es) (Memᴰ.head p)
mem-by_seq x (e ∷ es) (Memᴰ.tail m) = mem-insert x e (by_seq es) (Memᴰ.tail (mem-by_seq x es m))

-- Of a sorted list, what lies before the last one of a page is on the page.
mem-page :
    (n after : ℕ) (x : AgentEvent) (es : List AgentEvent)
    → IsSorted es
    → after ≤ x.seq
    → Memᴰ x es
    → x.seq < cursor_of after (take n es)
    → Memᴰ x (take n es)
mem-page zero after x es s a m h = absurd (omega (arith, a, h))
mem-page (suc n) after x [] s a m h = elim m [ ]
mem-page (suc n) after x (e ∷ es) s a (Memᴰ.head p) h = Memᴰ.head p
mem-page (suc n) after x (e ∷ es) s a (Memᴰ.tail m) h =
    Memᴰ.tail (mem-page n e.seq x es s.1 (All-mem _ es s.0 m) m h)

-- Every event for the agent that comes after the old cursor and before the cursor of the page is
-- on the page.
pub inbox_skips_nothing :
    (c : Claims) (after : ℕ) (jobs : List Job) (events : List AgentEvent) (x : AgentEvent)
    → Memᴰ x events
    → is_for c (addresses c (get_job c.job_id jobs)) after x ≡ true
    → x.seq < cursor_of after (inbox c after jobs events)
    → Memᴰ x (inbox c after jobs events)
unfolding inbox is_for
inbox_skips_nothing c after jobs events x m t h =
    let p = is_for c (addresses c (get_job c.job_id jobs)) after in
    mem-page 100 after x (by_seq (select p events)) (by_seq-IsSorted (select p events))
      (ground arith) (mem-by_seq x (select p events) (select-mem p events m t)) h
