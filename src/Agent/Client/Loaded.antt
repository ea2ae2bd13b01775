-- ===== src/Agent/Client/Loaded.antt =====
-- A checkpoint that one VM saves is the one that the next VM loads.
use kapi_final.Base.{
  ℕ, suc, ◌+◌, ◌≤◌, ◌≡◌, ◌⊎◌, inl, inr, ltb, if◌then◌else◌, refl, sym, ap, subst, ◌∙◌, true, Option,
  none, some, List, [], ◌∷◌, ◌++◌, length, All, arith,
}
use kapi_final.ControlPlane.Checkpoints.{
  Codec, Checkpoint, Artifacts, Chunk, max_bytes, revision_of,
}
use kapi_final.Agent.Client.{Client, is_uploaded, load_checkpoint, download, seen, ◌>>=◌}
use kapi_final.Agent.Client.Chunks.{joined_all, download-HasParts}
use kapi_final.Agent.Client.Upload.{IsCodec, Content, name_of, text_of, count_of, count_bounded}
use kapi_final.Agent.Client.Stored.{
  new_client, no_artifacts, save_all, vm_saves, vms_save, saves_of, IsDraft, stored, HasWorkspace,
  IsSynced, checked_own,
}
use kapi_final.Agent.Client.Saved.{draft, held_same, save_lem, save_last}

-- What a client holds after it has loaded revision n.
record IsLoaded (c : Codec) (reader : Client) (n : ℕ) (ks : List Chunk) (r : Client) : Type 0 where
  counts : r.revision ≡ (if ltb reader.revision n then n else reader.revision)
  held :
      (v : ℕ)
      → is_uploaded r.uploaded (name_of c v) ≡ true
      → (is_uploaded reader.uploaded (name_of c v) ≡ true) ⊎ HasWorkspace c v ks

-- The checkpoint that is stored is the last of n, with its workspace's parts; or there is none.
data IsLast (c : Codec) (a : Artifacts) : ℕ → Type 0 where
  untouched : a.saved ≡ none → IsLast c a 0
  last_of :
      (n : ℕ) (k : Checkpoint)
      → a.saved ≡ some (stored c n k)
      → ((w : ℕ)
          → k.workspace ≡ some w
          → (length (c.stringify w) ≤ max_bytes) × HasWorkspace c w a.chunks)
      → IsLast c a n

module _ {c : Codec} (l : IsCodec c) where
  fetched :
      (cl : Client) (w : ℕ) (a : Artifacts)
      → length (c.stringify w) ≤ max_bytes
      → HasWorkspace c w a.chunks
      → download c (name_of c w) 0 (count_of c w) a ≡ some (text_of c w)
  fetched cl w a b h =
      download-HasParts c (name_of c w) (text_of c w) 0 (count_of c w) a (l.named (c.stringify w))
        (omega (arith, count_bounded l w b)) h
      ∙ ap some (joined_all (text_of c w))

  load_draft :
      (reader : Client) (n rest : ℕ) (w : Option ℕ) (a : Artifacts)
      → ((v : ℕ) → w ≡ some v → (length (c.stringify v) ≤ max_bytes) × HasWorkspace c v a.chunks)
      → let k = stored c n (draft none rest w) in
        (r : Client) × (load_checkpoint c reader (record a { saved = some k }) ≡ some (r, some k))
        × IsLoaded c reader n a.chunks r
  unfolding load_checkpoint
  load_draft reader n rest none a h =
      (seen reader (some n), refl, record { counts = refl; held = λ v t. inl t })
  load_draft reader n rest (some w) a h =
      let (b, there) = h w refl in
      let k = stored c n (draft none rest (some w)) in
      (
        record (seen reader (some n)) { uploaded = some (name_of c w) },
        rw (fetched reader w (record a { saved = some k }) b there)
            (rw (l.decoded (c.stringify w)) (rw (checked_own l w) refl)),
        record { counts = refl; held = λ v t. inr (held_same l w v a.chunks there t) },
      )

  load_lem :
      (reader : Client) (n : ℕ) (k : Checkpoint) (a : Artifacts)
      → a.saved ≡ some (stored c n k)
      → ((v : ℕ)
          → k.workspace ≡ some v
          → (length (c.stringify v) ≤ max_bytes) × HasWorkspace c v a.chunks)
      → (r : Client) × (load_checkpoint c reader a ≡ some (r, some (stored c n k)))
        × IsLoaded c reader n a.chunks r
  load_lem reader n k a e h =
      let same : record a { saved = some (stored c n k) } ≡ a =
        ap (λ s. record a { saved = s }) (sym e) in
      subst
        (λ x.
          (r : Client) × (load_checkpoint c reader x ≡ some (r, some (stored c n k)))
          × IsLoaded c reader n x.chunks r)
        same (load_draft reader n k.rest k.workspace a h)

  -- A VM that starts is in step with what the VMs before it have stored.
  vm_starts :
      {n : ℕ} (a : Artifacts)
      → Content c a.chunks
      → IsLast c a n
      → (r : Client × Option Checkpoint) × (load_checkpoint c new_client a ≡ some r)
        × ((r.0).revision ≡ n)
        × IsSynced c r.0 a
  unfolding load_checkpoint
  vm_starts a content (untouched e) = (
    (new_client, none),
    rw e refl,
    refl,
    record { content = content; held = λ w t. cc; newest = rw e (omega arith) },
  )
  vm_starts a content (last_of n k e h) =
      let (r, f, m) = load_lem new_client n k a e h in
      let at : r.revision ≡ n = ground (arith, m.counts) in
      let newest : revision_of a.saved ≤ r.revision = omega (arith, at, ap revision_of e) in
      (
        (r, some (stored c n k)),
        f,
        at,
        record {
          content = content;
          held = λ w t. elim (m.held w t) [ inl q ↦ cc (q) | inr parts ↦ parts ];
          newest = newest;
        },
      )

  saves_last :
      (cl : Client) (ks : List Checkpoint) (a : Artifacts)
      → All (IsDraft c) ks
      → IsSynced c cl a
      → IsLast c a cl.revision
      → (cl' : Client) × (a' : Artifacts) × (save_all c cl ks a ≡ some (cl', a'))
        × Content c a'.chunks
        × IsLast c a' (cl.revision + length ks)
  unfolding save_all
  saves_last cl [] a all v p = (cl, a, refl, v.content, subst (IsLast c a) (omega arith) p)
  saves_last cl (k ∷ ks) a all v p =
      let (cl1, a1, e1, s) = save_lem l cl k a all.0 v in
      let here : IsLast c a1 cl1.revision =
        last_of cl1.revision k (subst (λ n. a1.saved ≡ some (stored c n k)) (sym s.counted) s.kept)
          (λ w q. ((all.0).1 w q, s.there w q)) in
      let (cl2, a2, e2, content, q) = saves_last cl1 ks a1 all.1 s.synced here in
      let count : cl1.revision + length ks ≡ cl.revision + suc (length ks) =
        omega (arith, s.counted) in
      (cl2, a2, rw e1 e2, content, subst (IsLast c a2) count q)

  vms_last :
      (vms : List (List Checkpoint)) (n : ℕ) (a : Artifacts)
      → All (All (IsDraft c)) vms
      → Content c a.chunks
      → IsLast c a n
      → (a' : Artifacts) × (vms_save c vms a ≡ some a')
        × Content c a'.chunks
        × IsLast c a' (n + saves_of vms)
  unfolding vms_save vm_saves
  vms_last [] n a all content p = (a, refl, content, subst (IsLast c a) (omega arith) p)
  vms_last (ks ∷ vms) n a all content p =
      let (r, e, at, v) = vm_starts a content p in
      let (cl1, a1, e1, content1, p1) =
        saves_last r.0 ks a all.0 v (subst (IsLast c a) (sym at) p) in
      let (a2, e2, content2, p2) = vms_last vms _ a1 all.1 content1 p1 in
      let count : ((r.0).revision + length ks) + saves_of vms ≡ n + (length ks + saves_of vms) =
        omega (arith, at) in
      (a2, rw e (rw e1 e2), content2, subst (IsLast c a2) count p2)

-- Whatever VMs work on a job one after the other, each with a new client that first loads and
-- then saves any number of checkpoints, each without a reference and with a workspace within 64
-- MiB or none: from a job for which nothing is stored, every load and save is taken, whatever
-- workspaces recur; and after a VM that has saved at least once, whatever client then loads gets
-- its last checkpoint with its workspace, whose revision is the number of all saves so far, and
-- counts on from there. No two VMs save at a time. For the codes it is taken that base64 and JSON
-- can be read back, that whole groups of four characters of base64 are base64, that three bytes
-- take at most four characters, that neither a snapshot's text nor the base64 of a text is empty,
-- that a digest has the form of one, and that no two snapshots share a digest.
pub saved_loads :
    {c : Codec}
    → IsCodec c
    → (vms : List (List Checkpoint)) (ks : List Checkpoint) (k : Checkpoint) (reader : Client)
    → All (All (IsDraft c)) vms
    → All (IsDraft c) ks
    → IsDraft c k
    → let n = saves_of vms + (length ks + 1) in
      (cl : Client) × (a : Artifacts) × (r : Client) × ((vms_save c vms no_artifacts
          >>= vm_saves c (ks ++ (k ∷ [])))
        ≡ some (cl, a))
      × (load_checkpoint c reader a ≡ some (r, some (stored c n k)))
      × (cl.revision ≡ n)
      × (n ≤ r.revision)
unfolding vm_saves
saved_loads {c} l vms ks k reader before all h =
    let n = saves_of vms + (length ks + 1) in
    let (a0, e0, content, p) = vms_last l vms 0 no_artifacts before tt (untouched refl) in
    let (s, e1, at, v) = vm_starts l a0 content p in
    let (cl, a, e2, saved) = save_last l s.0 ks k a0 all h v in
    let count : (s.0).revision + (length ks + 1) ≡ n = omega (arith, at) in
    let kept = subst (λ m. a.saved ≡ some (stored c m k)) count saved.kept in
    let (r, f, m) = load_lem l reader n k a kept (λ w q. (h.1 w q, saved.there w q)) in
    (cl, a, r, rw e0 (rw e1 e2), f, saved.counted ∙ count, ground (arith, m.counts))
