-- ===== src/Agent/Client/Saved.antt =====
-- The saves of a VM: what each leaves with the control plane.
use kapi_final.Base.{
  ℕ, suc, ◌+◌, ◌≤◌, ◌≡◌, leb, ltb, refl, sym, ap, subst, true, false, Option, none, some, List, [],
  ◌∷◌, ◌++◌, length, All, select-All, arith, ==_iff,
}
use kapi_final.ControlPlane.Checkpoints.{
  Codec, Checkpoint, Artifacts, Chunk, chunk_size, max_bytes, put_checkpoint, store_checkpoint,
  revision_of, export_of, keep_current,
}
use kapi_final.Agent.Client.{
  Client, is_uploaded, parts_of, save_checkpoint, save_workspace, reference,
}
use kapi_final.Agent.Client.Chunks.{HasParts}
use kapi_final.Agent.Client.Upload.{IsCodec, name_of, count_of}
use kapi_final.Agent.Client.Stored.{
  save_all, IsDraft, stored, HasWorkspace, IsSynced, Saved, uploaded_all, kept_parts, put_own,
}

-- A checkpoint with no reference.
abbrev pub draft : Option ℕ → ℕ → Option ℕ → Checkpoint
draft revision rest w = record {
  revision = revision;
  rest = rest;
  workspace = w;
  workspace_ref = none;
}

module _ {c : Codec} (l : IsCodec c) where
  pub held_same :
      (w v : ℕ) (ks : List Chunk)
      → HasWorkspace c w ks
      → is_uploaded (some (name_of c w)) (name_of c v) ≡ true
      → HasWorkspace c v ks
  held_same w v ks h t =
      subst (λ s. HasParts (c.digest s) (c.encode s) 0 (parts_of chunk_size (c.encode s)) ks)
        (l.no_collision w v (ground (arith, ==_iff (name_of c w) (name_of c v)))) h

  stored_newer :
      (k : Checkpoint) (a : Artifacts)
      → revision_of a.saved ≤ revision_of (some k)
      → store_checkpoint k a ≡ record {
        chunks = keep_current k.workspace_ref a.chunks;
        saved = some k;
        exported = export_of k.workspace a.exported;
      }
  unfolding store_checkpoint
  stored_newer k a h =
      let t : leb (revision_of a.saved) (revision_of (some k)) ≡ true = ground (arith, h) in
      rw t refl

  save_draft :
      (cl : Client) (revision : Option ℕ) (rest : ℕ) (w : Option ℕ) (a : Artifacts)
      → ((v : ℕ) → w ≡ some v → length (c.stringify v) ≤ max_bytes)
      → IsSynced c cl a
      → (cl' : Client) × (a' : Artifacts) × (save_checkpoint c cl (draft revision rest w) a
          ≡ some (cl', a'))
        × Saved c (cl.revision + 1) (draft revision rest w) cl' a'
  unfolding save_checkpoint save_workspace put_checkpoint
  save_draft cl revision rest none a f v =
      let n = cl.revision + 1 in
      let k = stored c n (draft revision rest none) in
      (
        record cl { revision = n },
        record { chunks = a.chunks; saved = some k; exported = a.exported },
        rw (stored_newer k a (omega (arith, v.newest))) refl,
        record {
          synced = record { content = v.content; held = v.held; newest = omega arith };
          counted = refl;
          kept = refl;
          there = λ u e. cc;
        },
      )
  save_draft cl revision rest (some w) a f v =
      let n = cl.revision + 1 in
      let k = stored c n (draft revision rest (some w)) in
      let b = f w refl in
      let next : Client = record cl { revision = n } in
      let v' : IsSynced c next a = record {
        content = v.content;
        held = v.held;
        newest = omega (arith, v.newest);
      } in
      let (a1, e, took) = uploaded_all l next w a b v' in
      let sized : ltb max_bytes (length (c.stringify w)) ≡ false = ground (arith, b) in
      let older : revision_of a1.saved ≤ n = rw took.saved (v'.newest) in
      let parts = kept_parts l w 0 (count_of c w) a1.chunks (omega arith) took.there in
      (
        record { revision = n; uploaded = some (name_of c w) },
        record {
          chunks = keep_current (some (reference c (c.stringify w))) a1.chunks;
          saved = some k;
          exported = some w;
        },
        rw sized
            (rw e (rw (put_own l w n rest a1 b took.there) (rw (stored_newer k a1 older) refl))),
        record {
          synced = record {
            content = select-All _ _ a1.chunks took.content;
            held = λ u t. held_same w u _ parts t;
            newest = omega arith;
          };
          counted = refl;
          kept = refl;
          there = λ u d.
              subst
                (λ x.
                  HasWorkspace c x (keep_current (some (reference c (c.stringify w))) a1.chunks))
                (cc) parts;
        },
      )

  pub save_lem :
      (cl : Client) (k : Checkpoint) (a : Artifacts)
      → IsDraft c k
      → IsSynced c cl a
      → (cl' : Client) × (a' : Artifacts) × (save_checkpoint c cl k a ≡ some (cl', a'))
        × Saved c (cl.revision + 1) k cl' a'
  save_lem cl k a h v =
      let same : draft k.revision k.rest k.workspace ≡ k =
        ap (λ r. record k { workspace_ref = r }) (sym h.0) in
      subst
        (λ x.
          (cl' : Client) × (a' : Artifacts) × (save_checkpoint c cl x a ≡ some (cl', a'))
          × Saved c (cl.revision + 1) x cl' a')
        same (save_draft cl k.revision k.rest k.workspace a h.1 v)

  -- The last of several saves.
  pub save_last :
      (cl : Client) (ks : List Checkpoint) (k : Checkpoint) (a : Artifacts)
      → All (IsDraft c) ks
      → IsDraft c k
      → IsSynced c cl a
      → (cl' : Client) × (a' : Artifacts) × (save_all c cl (ks ++ (k ∷ [])) a ≡ some (cl', a'))
        × Saved c (cl.revision + (length ks + 1)) k cl' a'
  unfolding save_all
  save_last cl [] k a all h v = let (cl', a', e, s) = save_lem cl k a h v in (cl', a', rw e refl, s)
  save_last cl (x ∷ ks) k a all h v =
      let (cl1, a1, e1, s1) = save_lem cl x a all.0 v in
      let (cl2, a2, e2, s2) = save_last cl1 ks k a1 all.1 h s1.synced in
      let count : cl1.revision + (length ks + 1) ≡ cl.revision + (suc (length ks) + 1) =
        omega (arith, s1.counted) in
      (cl2, a2, rw e1 e2, subst (λ n. Saved c n k cl2 a2) count s2)
