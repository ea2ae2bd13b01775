-- ===== src/Agent/Client.antt =====
-- apps/agent/src/client.ts: saving and loading a checkpoint through the control plane. A request that
-- the control plane refuses ends the call; that the client sends a request again until the network lets
-- it through is left out.
pub mod Chunks
pub mod Upload
pub mod Stored
pub mod Saved
pub mod Loaded
use kapi_final.Base.{
  ℕ, zero, suc, ◌+◌, ◌-◌, ◌*◌, ◌/◌, ◌==◌, ltb, Bool, false, ◌&&◌, Option, none, some, List, [],
  ◌++◌, length, take, drop, if◌then◌else◌,
}
use kapi_final.ControlPlane.Checkpoints.{
  Codec, WorkspaceRef, Checkpoint, Artifacts, max_bytes, chunk_size, get_chunk, put_chunk,
  put_checkpoint, get_checkpoint,
}
use mathlib.Core.Option

-- #revision and #uploadedDigest
pub record Client : Type 0 where
  pub revision : ℕ
  pub uploaded : Option ℕ

infixl 5 ◌>>=◌
abbrev pub ◌>>=◌ : {A B : Type 0} → Option A → (A → Option B) → Option B
none >>= f = none
some a >>= f = f a

-- data.slice(part * chunkSize, (part + 1) * chunkSize)
unfoldable pub slice : (size part : ℕ) → List ℕ → List ℕ
slice size part text = take size (drop (part * size) text)

-- Math.ceil(data.length / chunkSize)
unfoldable pub parts_of : (size : ℕ) → List ℕ → ℕ
parts_of size text = (length text + (size - 1)) / size

abbrev pub is_uploaded : Option ℕ → ℕ → Bool
is_uploaded none d = false
is_uploaded (some e) d = e == d

-- Math.max(this.#revision, checkpoint?.revision ?? 0)
abbrev pub seen : Client → Option ℕ → Client
seen cl none = cl
seen cl (some n) = record cl { revision = if ltb cl.revision n then n else cl.revision }

module _ (c : Codec) where
  unfoldable pub upload : ℕ → List ℕ → (part left : ℕ) → Artifacts → Option Artifacts
  upload d text part zero a = some a
  upload d text part (suc left) a =
      put_chunk c d part (slice chunk_size part text) a >>= λ a'. upload d text (part + 1) left a'

  -- #persistCheckpoint
  abbrev pub persist : Client → Checkpoint → Artifacts → Option (Client × Artifacts)
  persist cl k a = put_checkpoint c k a >>= λ a'. some (cl, a')

  abbrev pub reference : List ℕ → WorkspaceRef
  reference bytes = record {
    digest = c.digest bytes;
    size = length bytes;
    parts = parts_of chunk_size (c.encode bytes);
  }

  abbrev pub upload_all : Client → List ℕ → Artifacts → Option Artifacts
  upload_all cl bytes a =
      let text = c.encode bytes in
      let sent = upload (c.digest bytes) text 0 (parts_of chunk_size text) a in
      if is_uploaded cl.uploaded (c.digest bytes) then some a else sent

  unfoldable pub save_workspace :
      Client → Checkpoint → List ℕ → Artifacts → Option (Client × Artifacts)
  save_workspace cl k bytes a =
      if ltb max_bytes (length bytes)
      then none
      else upload_all cl bytes a >>= λ a'.
          persist (record cl { uploaded = some (c.digest bytes) })
            (record k { workspace = none; workspace_ref = some (reference bytes) }) a'

  unfoldable pub save_checkpoint : Client → Checkpoint → Artifacts → Option (Client × Artifacts)
  save_checkpoint cl k a =
      let next = record cl { revision = cl.revision + 1 } in
      let k' = record k { revision = some (cl.revision + 1) } in
      elim k.workspace [
        | none ↦ persist next k' a
        | some w ↦ save_workspace next k' (c.stringify w) a
      ]

  unfoldable pub download : ℕ → (part left : ℕ) → Artifacts → Option (List ℕ)
  download d part zero a = some []
  download d part (suc left) a =
      get_chunk c d part a >>= λ x. download d (part + 1) left a >>= λ xs. some (x ++ xs)

  abbrev pub verified : WorkspaceRef → List ℕ → Option ℕ
  verified r bytes =
      if length bytes == r.size && c.digest bytes == r.digest then c.parse bytes else none

  abbrev pub fetch_workspace :
      Client → Checkpoint → WorkspaceRef → Artifacts → Option (Client × Option Checkpoint)
  fetch_workspace cl k r a = download r.digest 0 r.parts a >>= λ text.
      verified r (c.decode text) >>= λ w.
      some (record cl { uploaded = some r.digest }, some (record k { workspace = some w }))

  abbrev pub load_from :
      Client
      → Checkpoint
      → Option WorkspaceRef
      → Option ℕ
      → Artifacts
      → Option (Client × Option Checkpoint)
  load_from cl k (some r) none a = fetch_workspace cl k r a
  load_from cl k (some r) (some w) a = some (cl, some k)
  load_from cl k none w a = some (cl, some k)

  unfoldable pub load_checkpoint : Client → Artifacts → Option (Client × Option Checkpoint)
  load_checkpoint cl a = elim (get_checkpoint a) [
    | none ↦ some (cl, none)
    | some k ↦ load_from (seen cl k.revision) k k.workspace_ref k.workspace a
  ]
