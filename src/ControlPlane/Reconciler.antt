-- ===== src/ControlPlane/Reconciler.antt =====
-- apps/control-plane/src/reconciler.ts: one pass over the provider's inventory. The inventory and the
-- answers of the provider are arguments; each UPDATE is a transaction of its own, and logging is left
-- out.
pub mod Orphans
use kapi_final.Base.{
  ℕ, ◌+◌, ◌-◌, ◌==◌, leb, ltb, Bool, true, false, not, ◌&&◌, ◌||◌, Option, none, some, List, [],
  ◌∷◌, ◌++◌, has, find, select, map, update_where, if◌then◌else◌,
}
use kapi_final.Db.Tables.{
  Db, Agent, AgentStatus, provisioning, provision_timeout, provision_absent, resource_stopped,
  resource_missing,
}

-- `status` of a resource, as the pattern of ended states reads it.
pub data Health : Type 0 where
  healthy ended unreported : Health

pub record ManagedVm : Type 0 where
  pub id : ℕ
  pub created_at : ℕ
  pub managed : Bool
  pub health : Health
  pub plane_id : Option ℕ
  pub job_id : Option ℕ
  pub run_id : Option ℕ
  pub reservation_id : Option ℕ

pub record Policy : Type 0 where
  pub provider : ℕ
  pub plane : ℕ
  pub grace : ℕ
  pub provision_timeout : ℕ
  pub audit_only : Bool

abbrev pub is_id : Option ℕ → Option ℕ → Bool
is_id (some a) (some b) = a == b
is_id _ _ = false

abbrev pub is_null {ℓ} : {A : Type ℓ} → Option A → Bool
is_null none = true
is_null (some _) = false

abbrev time_or_zero : Option ℕ → ℕ
time_or_zero none = 0
time_or_zero (some t) = t

-- #isOwned
unfoldable pub is_owned : ℕ → ManagedVm → Bool
is_owned plane r =
    (r.managed && is_id r.plane_id (some plane))
    && (not (is_null r.job_id) && not (is_null r.run_id))

unfoldable pub tracked : ℕ → Db → List Agent
tracked provider db =
    select (λ a. is_id a.provider (some provider) && not (is_null a.vm_id)) db.agents

-- A row that still has its reservation's id for a VM.
abbrev pub is_reserved : Agent → Bool
is_reserved a = is_id a.reservation_id a.vm_id

unfoldable pub is_reservation_of : ManagedVm → Agent → Bool
is_reservation_of r a =
    is_reserved a
    && (is_id r.reservation_id a.reservation_id
        && (is_id r.job_id (some a.job_id) && is_id r.run_id (some a.run_id)))

abbrev pub put_id : Option ℕ → List ℕ → List ℕ
put_id none ns = ns
put_id (some v) ns = v ∷ ns

abbrev pub vm_ids : List Agent → List ℕ
vm_ids [] = []
vm_ids (a ∷ as') = put_id a.vm_id (vm_ids as')

abbrev pub is_some {ℓ} : {A : Type ℓ} → Option A → Bool
is_some none = false
is_some (some _) = true

unfoldable pub is_matched : List Agent → ManagedVm → Bool
is_matched agents r = is_some (find (is_reservation_of r) agents)

-- The keys of byId.
unfoldable pub by_id : List Agent → List ManagedVm → List ℕ
by_id agents owned =
    vm_ids agents ++ map (λ (r : ManagedVm). r.id) (select (is_matched agents) owned)

unfoldable pub is_young : ℕ → ℕ → ManagedVm → Bool
is_young grace now r = ltb now (r.created_at + grace)

unfoldable pub orphans : Policy → ℕ → List ManagedVm → Db → List ManagedVm
orphans c now resources db =
    let owned = select (is_owned c.plane) resources in
    let agents = tracked c.provider db in
    select (λ r. not (has r.id (by_id agents owned) || is_young c.grace now r)) owned

-- The resources that the provider is asked to destroy.
unfoldable pub doomed : Policy → ℕ → List ManagedVm → Db → List ManagedVm
doomed c now resources db = if c.audit_only then [] else orphans c now resources db

abbrev is_provisioning : AgentStatus → Bool
is_provisioning provisioning = true
is_provisioning _ = false

-- A create call that is still within its window is not disturbed.
unfoldable pub is_starting : Policy → ℕ → Agent → Bool
is_starting c now a =
    (is_provisioning a.status && is_null a.stopped_at)
    && ltb (now - time_or_zero a.last_heartbeat) c.provision_timeout

abbrev recovered : (vm now : ℕ) → Agent → Agent
recovered vm now a = record a { vm_id = some vm; status = provision_timeout; stopped_at = some now }

-- The VM of a reservation whose answer was lost.
unfoldable pub recover : Policy → ℕ → ManagedVm → Option Agent → List Agent → List Agent
recover c now r none agents = agents
recover c now r (some a) agents =
    if is_starting c now a
    then agents
    else update_where
        (λ x.
          x.job_id == a.job_id
          && (is_id x.reservation_id a.reservation_id && is_id x.vm_id a.reservation_id))
        (recovered r.id now) agents

unfoldable pub recover_all : Policy → ℕ → List Agent → List ManagedVm → List Agent → List Agent
recover_all c now snapshot [] agents = agents
recover_all c now snapshot (r ∷ rs) agents =
    recover_all c now snapshot rs (recover c now r (find (is_reservation_of r) snapshot) agents)

abbrev later : ℕ → ℕ → ℕ
later a b = if leb a b then b else a

abbrev absent : ℕ → Agent → Agent
absent now a = record a { vm_id = none; status = provision_absent; stopped_at = some now }

abbrev lost : AgentStatus → ℕ → Agent → Agent
lost status now a = record a { status = status; stopped_at = some now }

unfoldable pub close_reserved : Policy → ℕ → Bool → Agent → List Agent → List Agent
close_reserved c now matched a agents =
    if matched || ltb (now - time_or_zero a.last_heartbeat) (later c.grace c.provision_timeout)
    then agents
    else update_where (λ x. x.job_id == a.job_id && is_id x.vm_id a.vm_id) (absent now) agents

unfoldable pub close_lost : ℕ → Agent → AgentStatus → List Agent → List Agent
close_lost now a status =
    update_where (λ x. x.job_id == a.job_id && is_null x.stopped_at) (lost status now)

unfoldable pub close_listed : ℕ → Agent → Option ManagedVm → List Agent → List Agent
close_listed now a none agents = close_lost now a resource_missing agents
close_listed now a (some r) agents = elim r.health [
  | ended ↦ close_lost now a resource_stopped agents
  | _ ↦ agents
]

-- found.get(vm_id): of two resources with one id, the last.
unfoldable pub found : Option ℕ → List ManagedVm → Option ManagedVm
found vm [] = none
found vm (r ∷ rs) = elim (found vm rs) [
  | some s ↦ some s
  | none ↦ if is_id (some r.id) vm then some r else none
]

abbrev matches_job : List Agent → List ManagedVm → Agent → Bool
matches_job snapshot [] a = false
matches_job snapshot (r ∷ rs) a = elim (find (is_reservation_of r) snapshot) [
  | none ↦ matches_job snapshot rs a
  | some b ↦ b.job_id == a.job_id || matches_job snapshot rs a
]

unfoldable pub close_agent :
    Policy → ℕ → List Agent → List ManagedVm → Agent → List Agent → List Agent
close_agent c now snapshot owned a agents =
    if is_reserved a
    then close_reserved c now (matches_job snapshot owned a) a agents
    else if not (is_null a.stopped_at)
    then agents
    else close_listed now a (found a.vm_id owned) agents

unfoldable pub close_all :
    Policy → ℕ → List Agent → List ManagedVm → List Agent → List Agent → List Agent
close_all c now snapshot owned [] agents = agents
close_all c now snapshot owned (a ∷ as') agents =
    close_all c now snapshot owned as' (close_agent c now snapshot owned a agents)

-- What a pass leaves in the database.
unfoldable pub reconcile : Policy → ℕ → List ManagedVm → Db → Db
reconcile c now resources db =
    let owned = select (is_owned c.plane) resources in
    let snapshot = tracked c.provider db in
    record db {
      agents = close_all c now snapshot owned snapshot (recover_all c now snapshot owned db.agents);
    }
