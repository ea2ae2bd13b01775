-- ===== src/ControlPlane/Provision.antt =====
-- apps/control-plane/src/provisioner.ts: `provision`, from the reservation of a slot to the agent that
-- runs in the VM. What the provider answers is part of the attempt, and so is what else happens to the
-- database while it works. The bundle, the URL, the secrets and the token are put together outside.
pub mod Capacity
pub mod Placement
use kapi_final.Base.{ℕ, ◌==◌, ◌&&◌, Bool, some, select, if◌then◌else◌}
use kapi_final.Protocol.Jobs.{Job}
use kapi_final.Db.Tables.{Db, Agent, agent_start_failed, provision_timeout}
use kapi_final.Db.Tx.{Tx, pure, update_agents}
use kapi_final.Db.Tx
use kapi_final.Db.Handler.{Handler, commit, answer, elapse, ◌>>=◌, ◌>>◌}
use kapi_final.ControlPlane.Provisioner.{
  Limits, reserve_slot, attach, hold_unknown, release_agent, is_id, non_empty,
}

-- What #createVm gives: a VM, or an error, which may have lost the answer.
pub data Created : Type 0 where
  created : ℕ → Created
  create_failed : Created

pub record Attempt : Type 0 where
  pub job : Job
  pub vm_id : ℕ
  pub provider : ℕ
  pub limits : Limits
  pub now : ℕ
  pub creation : Created
  -- writeFile and spawnDetached
  pub starts : Bool
  -- the provider confirms that the VM is destroyed
  pub is_destroyed : Bool
  pub while_creating : Db → Db
  pub while_starting : Db → Db

-- The VM that runs the agent, or the error.
pub data Provisioned : Type 0 where
  provisioned : ℕ → Provisioned
  no_slot : Provisioned
  answer_lost : Provisioned
  -- the VM is sent back to the provider
  slot_expired : ℕ → Provisioned
  not_started : ℕ → Provisioned

-- On an error of the start the provider is asked to destroy the VM.
unfoldable pub start_agent : Attempt → ℕ → Handler Provisioned
start_agent p vm =
    elapse p.while_starting
    >> (if p.starts
        then answer (provisioned vm)
        else (commit (release_agent (p.job).id p.now agent_start_failed p.is_destroyed)
            >> answer (not_started vm)))

unfoldable pub on_created : Attempt → Created → Handler Provisioned
on_created p create_failed = commit (hold_unknown (p.job).id p.vm_id) >> answer answer_lost
on_created p (created vm) = commit (attach (p.job).id vm p.provider p.now) >>= λ ok.
    if ok then start_agent p vm else answer (slot_expired vm)

unfoldable pub create_vm : Attempt → Handler Provisioned
create_vm p = elapse p.while_creating >> on_created p p.creation

unfoldable pub provision : Attempt → Handler Provisioned
provision p = commit (reserve_slot p.limits p.vm_id p.provider p.now p.job) >>= λ ok.
    if ok then create_vm p else answer no_slot

abbrev pub is_reserved_as : (job reservation : ℕ) → Agent → Bool
is_reserved_as job reservation a =
    (a.job_id == job && is_id a.reservation_id (some reservation))
    && is_id a.vm_id (some reservation)

-- A VM whose creation is reported after the time was up; false sends it back to the provider.
unfoldable pub keep_late : (job vm reservation now : ℕ) → Tx Bool
keep_late job vm reservation now db =
    Tx.◌>>◌
      (update_agents (is_reserved_as job reservation)
        (λ a. record a { vm_id = some vm; status = provision_timeout; stopped_at = some now }))
      (pure (non_empty (select (is_reserved_as job reservation) db.agents))) db
