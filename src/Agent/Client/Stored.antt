-- ===== src/Agent/Client/Stored.antt =====
-- What the saves of a VM leave with the control plane.
use mathlib.Core.Option
use kapi_final.Base.{
  ℕ, zero, suc, ◌+◌, ◌≤◌, ◌<◌, ◌≡◌, ◌==◌, ltb, refl, ap, ◌∙◌, true, ◌&&◌, Option, none, some, List,
  [], ◌∷◌, length, arith, Bool-cases, inl, inr, ==_iff,
}
use kapi_final.ControlPlane.Checkpoints.{
  Codec, Checkpoint, Artifacts, Chunk, max_bytes, is_chunk, collect, put_checkpoint,
  store_checkpoint, checked, revision_of, is_ref, keep_current,
}
use kapi_final.Agent.Client.{
  Client, is_uploaded, save_checkpoint, load_checkpoint, upload_all, reference, ◌>>=◌,
}
use kapi_final.Agent.Client.Chunks.{
  HasParts, joined_all, collect-HasParts, chunk_at-select, is_chunk_sound,
}
use kapi_final.Agent.Client.Upload.{
  IsCodec, name_of, text_of, count_of, Content, Took, upload_lem, count_bounded, count_pos,
}

-- A client and a job's artifacts before anything is saved.
abbrev pub new_client : Client
new_client = record { revision = 0; uploaded = none }

abbrev pub no_artifacts : Artifacts
no_artifacts = record { chunks = []; saved = none; exported = none }

-- The saves of one VM, in order.
unfoldable pub save_all : Codec → Client → List Checkpoint → Artifacts → Option (Client × Artifacts)
save_all c cl [] a = some (cl, a)
save_all c cl (k ∷ ks) a = save_checkpoint c cl k a >>= λ r. save_all c r.0 ks r.1

-- A VM loads what is stored, and then saves its checkpoints.
unfoldable pub vm_saves : Codec → List Checkpoint → Artifacts → Option (Client × Artifacts)
vm_saves c ks a = load_checkpoint c new_client a >>= λ r. save_all c r.0 ks a

-- VMs that work on the job, one after the other.
unfoldable pub vms_save : Codec → List (List Checkpoint) → Artifacts → Option Artifacts
vms_save c [] a = some a
vms_save c (ks ∷ vms) a = vm_saves c ks a >>= λ r. vms_save c vms r.1

abbrev pub saves_of : List (List Checkpoint) → ℕ
saves_of [] = 0
saves_of (ks ∷ vms) = length ks + saves_of vms

-- A checkpoint as the loop makes it: with no reference, and a workspace within the limit, if any.
abbrev pub IsDraft : Codec → Checkpoint → Type 0
IsDraft c k =
    (k.workspace_ref ≡ none) × ((w : ℕ) → k.workspace ≡ some w → length (c.stringify w) ≤ max_bytes)

-- What is stored for it.
abbrev pub stored : Codec → ℕ → Checkpoint → Checkpoint
stored c n k = record {
  revision = some n;
  rest = k.rest;
  workspace = k.workspace;
  workspace_ref = Option.map (λ w. reference c (c.stringify w)) k.workspace;
}

-- The parts of a snapshot are there.
abbrev pub HasWorkspace : Codec → ℕ → List Chunk → Type 0
HasWorkspace c w = HasParts (name_of c w) (text_of c w) 0 (count_of c w)

pub record IsSynced (c : Codec) (cl : Client) (a : Artifacts) : Type 0 where
  pub content : Content c a.chunks
  pub held : (w : ℕ) → is_uploaded cl.uploaded (name_of c w) ≡ true → HasWorkspace c w a.chunks
  pub newest : revision_of a.saved ≤ cl.revision

-- What a save leaves.
pub record Saved (c : Codec) (n : ℕ) (k : Checkpoint) (cl : Client) (a : Artifacts) : Type 0 where
  pub synced : IsSynced c cl a
  pub counted : cl.revision ≡ n
  pub kept : a.saved ≡ some (stored c n k)
  pub there : (w : ℕ) → k.workspace ≡ some w → HasWorkspace c w a.chunks

module _ {c : Codec} (l : IsCodec c) where
  pub uploaded_all :
      (cl : Client) (w : ℕ) (a : Artifacts)
      → length (c.stringify w) ≤ max_bytes
      → IsSynced c cl a
      → (a' : Artifacts) × (upload_all c cl (c.stringify w) a ≡ some a')
        × Took l w 0 (count_of c w) a a'
  uploaded_all cl w a h v = elim (Bool-cases (is_uploaded cl.uploaded (name_of c w))) [
    | inl t ↦ (
      a,
      rw t,
      record { there = v.held w t; grows = λ d i z q. q; content = v.content; saved = refl },
    )
    | inr t ↦
        let (a', e, took) =
          upload_lem l w 0 (count_of c w) a (omega arith) (count_bounded l w h) v.content in
        (a', rw t e, took)
  ]

  only_part :
      (w part : ℕ)
      → part < count_of c w
      → (k : Chunk) → is_chunk (name_of c w) part k ≡ true
      → k.digest == name_of c w && ltb k.part (count_of c w) ≡ true
  only_part w part b k t =
      let p = is_chunk_sound (name_of c w) part k t in
      ground (arith, p.0, p.1, ==_iff k.digest (name_of c w))

  -- The chunks of a stored reference are kept.
  pub kept_parts :
      (w part n : ℕ) (ks : List Chunk)
      → part + n ≤ count_of c w
      → HasParts (name_of c w) (text_of c w) part n ks
      → HasParts
          (name_of c w)
          (text_of c w)
          part
          n
          (keep_current (some (reference c (c.stringify w))) ks)
  kept_parts w part zero ks b h = tt
  kept_parts w part (suc n) ks b h = (
    chunk_at-select _ (name_of c w) part ks (only_part w part (omega arith)) ∙ h.0,
    kept_parts w (part + 1) n ks (omega arith) h.1,
  )

  ref-IsValid :
      (w : ℕ)
      → length (c.stringify w) ≤ max_bytes
      → is_ref c.is_digest (reference c (c.stringify w)) ≡ true
  ref-IsValid w b =
      ground (arith, l.named (c.stringify w), l.written w, b, count_pos l w, count_bounded l w b)

  pub checked_own : (w : ℕ) → checked c (reference c (c.stringify w)) (c.stringify w) ≡ some w
  checked_own w = ground (
    arith,
    l.read w,
    ==_iff (length (c.stringify w)) (length (c.stringify w)),
    ==_iff (name_of c w) (name_of c w),
  )

  collected :
      (w : ℕ) (ks : List Chunk)
      → HasWorkspace c w ks
      → collect (name_of c w) 0 (count_of c w) ks ≡ some (text_of c w)
  collected w ks h =
      collect-HasParts (name_of c w) (text_of c w) 0 (count_of c w) ks h
      ∙ ap some (joined_all (text_of c w))

  -- The snapshot as the control plane is sent it, without the workspace.
  pub put_own :
      (w n rest : ℕ) (a : Artifacts)
      → length (c.stringify w) ≤ max_bytes
      → HasWorkspace c w a.chunks
      → let r = reference c (c.stringify w) in
        let k : Checkpoint = record {
          revision = some n;
          rest = rest;
          workspace = none;
          workspace_ref = some r;
        } in
        put_checkpoint c k a ≡ some (store_checkpoint (record k { workspace = some w }) a)
  unfolding put_checkpoint
  put_own w n rest a b h =
      rw (ref-IsValid w b)
        (rw (collected w a.chunks h) (rw (l.decoded (c.stringify w)) (rw (checked_own w) refl)))
