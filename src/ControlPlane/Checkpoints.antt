-- ===== src/ControlPlane/Checkpoints.antt =====
-- apps/control-plane/src/model-proxy.ts: the checkpoint of a job and the parts of its workspace, as the
-- agent uploads them. The artifacts of one job: their ids hold the job's. A snapshot and the rest of a
-- checkpoint are numbers, since nothing here looks into them; a text is the list of its code units.
use kapi_final.Base.{
  ℕ, zero, suc, ◌+◌, ◌*◌, ◌==◌, leb, ltb, Bool, true, false, not, ◌&&◌, ◌||◌, Option, none, some,
  List, [], ◌∷◌, ◌++◌, length, if◌then◌else◌, select, find, list_eq,
}
use mathlib.Core.Option

-- base64, JSON and SHA-256.
pub record Codec : Type 0 where
  pub encode : List ℕ → List ℕ
  pub decode : List ℕ → List ℕ
  -- JSON.stringify and its inverse, which fails where the schema does.
  pub stringify : ℕ → List ℕ
  pub parse : List ℕ → Option ℕ
  pub digest : List ℕ → ℕ
  -- /^[a-f0-9]{64}$/
  pub is_digest : ℕ → Bool

pub record WorkspaceRef : Type 0 where
  pub digest : ℕ
  pub size : ℕ
  pub parts : ℕ

pub record Checkpoint : Type 0 where
  pub revision : Option ℕ
  pub rest : ℕ
  pub workspace : Option ℕ
  pub workspace_ref : Option WorkspaceRef

-- chunk_<job>_<digest>_<part>
pub record Chunk : Type 0 where
  pub digest : ℕ
  pub part : ℕ
  pub body : List ℕ

pub record Artifacts : Type 0 where
  pub chunks : List Chunk
  pub saved : Option Checkpoint
  pub exported : Option ℕ

unfoldable pub max_bytes : ℕ
max_bytes = 64 * 1024 * 1024

unfoldable pub chunk_size : ℕ
chunk_size = 512 * 1024

abbrev pub is_chunk : ℕ → ℕ → Chunk → Bool
is_chunk d i k = k.digest == d && k.part == i

unfoldable pub chunk_at : ℕ → ℕ → List Chunk → Option (List ℕ)
chunk_at d i ks = Option.map (λ (k : Chunk). k.body) (find (is_chunk d i) ks)

abbrev pub is_empty : List ℕ → Bool
is_empty [] = true
is_empty _ = false

abbrev pub revision_of : Option Checkpoint → ℕ
revision_of none = 0
revision_of (some k) = elim k.revision [ none ↦ 0 | some n ↦ n ]

-- The chunks of the checkpoint that is stored; all, if it has no reference.
abbrev pub keep_current : Option WorkspaceRef → List Chunk → List Chunk
keep_current none ks = ks
keep_current (some r) ks = select (λ k. k.digest == r.digest && ltb k.part r.parts) ks

abbrev pub export_of : Option ℕ → Option ℕ → Option ℕ
export_of none old = old
export_of (some w) old = some w

-- The transaction: an older revision changes nothing.
unfoldable pub store_checkpoint : Checkpoint → Artifacts → Artifacts
store_checkpoint k a =
    if leb (revision_of a.saved) (revision_of (some k))
    then record {
      chunks = keep_current k.workspace_ref a.chunks;
      saved = some k;
      exported = export_of k.workspace a.exported;
    }
    else a

unfoldable pub collect : ℕ → (i n : ℕ) → List Chunk → Option (List ℕ)
collect d i zero ks = some []
collect d i (suc n) ks =
    let later = collect d (i + 1) n ks in
    elim (chunk_at d i ks) [ none ↦ none | some x ↦ Option.map (λ xs. x ++ xs) later ]

-- The schema of a reference.
abbrev pub is_ref : (ℕ → Bool) → WorkspaceRef → Bool
is_ref is_digest r =
    is_digest r.digest
    && (ltb 0 r.size && leb r.size max_bytes)
    && (ltb 0 r.parts && leb r.parts 256)

module _ (c : Codec) where
  -- GET /agent/workspace-chunks/:digest/:part
  unfoldable pub get_chunk : ℕ → ℕ → Artifacts → Option (List ℕ)
  get_chunk d i a = if not (c.is_digest d) || leb 256 i then none else chunk_at d i a.chunks

  abbrev pub is_valid : ℕ → ℕ → List ℕ → Bool
  is_valid d i x =
      c.is_digest d
      && ltb i 256
      && leb (length x) chunk_size
      && not (is_empty x)
      && list_eq (c.encode (c.decode x)) x

  abbrev pub put_over : Chunk → Artifacts → Option (List ℕ) → Option Artifacts
  put_over k a none = some (record a { chunks = k ∷ a.chunks })
  put_over k a (some x) = if list_eq x k.body then some a else none

  -- PUT /agent/workspace-chunks/:digest/:part; none where it is refused.
  unfoldable pub put_chunk : ℕ → ℕ → List ℕ → Artifacts → Option Artifacts
  put_chunk d i x a =
      if is_valid d i x
      then put_over (record { digest = d; part = i; body = x }) a (chunk_at d i a.chunks)
      else none

  -- The bytes of the parts, if they are those of the reference.
  abbrev pub checked : WorkspaceRef → List ℕ → Option ℕ
  checked r bytes =
      if length bytes == r.size && c.digest bytes == r.digest then c.parse bytes else none

  abbrev pub assembled : WorkspaceRef → Option (List ℕ) → Option ℕ
  assembled r none = none
  assembled r (some text) = checked r (c.decode text)

  abbrev pub store_with : Checkpoint → Artifacts → Option ℕ → Option Artifacts
  store_with k a none = none
  store_with k a (some w) = some (store_checkpoint (record k { workspace = some w }) a)

  abbrev pub put_ref : Checkpoint → Artifacts → WorkspaceRef → Option ℕ → Option Artifacts
  put_ref k a r (some _) = none
  put_ref k a r none =
      if is_ref c.is_digest r
      then store_with k a (assembled r (collect r.digest 0 r.parts a.chunks))
      else none

  -- PUT /agent/checkpoint
  unfoldable pub put_checkpoint : Checkpoint → Artifacts → Option Artifacts
  put_checkpoint k a = elim k.workspace_ref [
    | none ↦ some (store_checkpoint k a)
    | some r ↦ put_ref k a r k.workspace
  ]

-- GET /agent/checkpoint, asked for chunks: the workspace stays out where a reference is there.
abbrev pub small : Checkpoint → Checkpoint
small k = record k { workspace = elim k.workspace_ref [ none ↦ k.workspace | some _ ↦ none ] }

abbrev pub get_checkpoint : Artifacts → Option Checkpoint
get_checkpoint a = Option.map small a.saved
