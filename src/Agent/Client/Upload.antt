-- ===== src/Agent/Client/Upload.antt =====
-- An upload of a workspace: the control plane takes each part.
use kapi_final.Base.{
  ℕ, zero, suc, ◌+◌, ◌*◌, ◌/◌, ◌≤◌, ◌<◌, ◌≡◌, refl, sym, ap, ◌∙◌, true, false, some, List, [], ◌∷◌,
  length, length-take, All, find, find-All, find_sound, list_eq, list_eq_refl, arith, Option-cases,
  inl, inr,
}
use kapi_final.ControlPlane.Checkpoints.{
  Codec, Chunk, Artifacts, chunk_size, max_bytes, is_chunk, chunk_at, put_chunk, is_valid, is_empty,
}
use kapi_final.Agent.Client.{slice, parts_of, upload}
use kapi_final.Agent.Client.Chunks.{
  HasParts, Grows, chunk_at-cons, chunk_at-head, is_chunk_sound, length-drop, length-take_short,
}

-- What the codes promise: base64 and JSON can be read back; whole groups of four characters of a base64
-- text are base64 text; three bytes take four characters; and no two snapshots share a digest.
pub record IsCodec (c : Codec) : Type 0 where
  pub decoded : (b : List ℕ) → c.decode (c.encode b) ≡ b
  pub grouped :
      (b : List ℕ) (n part : ℕ)
      → c.encode (c.decode (slice (4 * n) part (c.encode b))) ≡ slice (4 * n) part (c.encode b)
  pub growth : (b : List ℕ) → length (c.encode b) ≤ 4 * ((length b + 2) / 3)
  pub filled : (b : List ℕ) → 0 < length b → 0 < length (c.encode b)
  pub read : (w : ℕ) → c.parse (c.stringify w) ≡ some w
  pub written : (w : ℕ) → 0 < length (c.stringify w)
  pub named : (b : List ℕ) → c.is_digest (c.digest b) ≡ true
  pub no_collision :
      (v w : ℕ)
      → c.digest (c.stringify v) ≡ c.digest (c.stringify w)
      → c.stringify v ≡ c.stringify w

abbrev pub name_of : Codec → ℕ → ℕ
name_of c w = c.digest (c.stringify w)

abbrev pub text_of : Codec → ℕ → List ℕ
text_of c w = c.encode (c.stringify w)

abbrev pub count_of : Codec → ℕ → ℕ
count_of c w = parts_of chunk_size (text_of c w)

-- Every chunk is a part of the snapshot that it is named after.
abbrev pub Content : Codec → List Chunk → Type 0
Content c =
    All (λ k. (v : ℕ) × (k.digest ≡ name_of c v) × (k.body ≡ slice chunk_size k.part (text_of c v)))

not_empty : (x : List ℕ) → 0 < length x → is_empty x ≡ false
not_empty [] h = absurd (omega arith)
not_empty (y ∷ x) h = refl

module _ {c : Codec} (l : IsCodec c) (w : ℕ) where
  stored_part :
      (i : ℕ) (ks : List Chunk) {x : List ℕ}
      → Content c ks
      → chunk_at (name_of c w) i ks ≡ some x
      → x ≡ slice chunk_size i (text_of c w)
  unfolding chunk_at
  stored_part i ks {x} all e = elim (Option-cases (find (is_chunk (name_of c w) i) ks)) [
    | inl n ↦ absurd (ground (arith, n, e))
    | inr (k, f) ↦
        let (v, p, q) = find-All (is_chunk (name_of c w) i) _ ks all f in
        let s = is_chunk_sound (name_of c w) i k (find_sound (is_chunk (name_of c w) i) ks f) in
        let same = l.no_collision v w (sym p ∙ s.0) in
        let body : k.body ≡ x = ground (arith, f, e) in
        sym body
        ∙ (q
            ∙ (ap (λ j. slice chunk_size j (text_of c v)) s.1
                ∙ ap (λ t. slice chunk_size i (c.encode t)) same))
  ]

  -- A snapshot within the limit has at most 256 parts.
  pub count_bounded : length (c.stringify w) ≤ max_bytes → count_of c w ≤ 256
  unfolding parts_of chunk_size max_bytes
  count_bounded h = omega (arith, l.growth (c.stringify w))

  pub count_pos : 0 < count_of c w
  unfolding parts_of chunk_size
  count_pos = omega (arith, l.filled (c.stringify w) (l.written w))

  inside : (part : ℕ) → part < count_of c w → part * chunk_size < length (text_of c w)
  unfolding parts_of chunk_size
  inside part h = omega arith

  slice_pos : (part : ℕ) → part < count_of c w → 0 < length (slice chunk_size part (text_of c w))
  unfolding slice
  slice_pos part h =
      length-take_short chunk_size _ (unfold chunk_size in omega arith)
        (omega (arith, length-drop (part * chunk_size) (text_of c w), inside part h))

  slice-IsValid :
      (part : ℕ)
      → part < count_of c w
      → count_of c w ≤ 256
      → is_valid c (name_of c w) part (slice chunk_size part (text_of c w)) ≡ true
  slice-IsValid part h b =
      let x = slice chunk_size part (text_of c w) in
      let short : length x ≤ chunk_size = unfold slice in length-take chunk_size _ in
      let own : c.encode (c.decode x) ≡ x =
        unfold chunk_size in l.grouped (c.stringify w) 131072 part in
      let same : list_eq (c.encode (c.decode x)) x ≡ true =
        ap (λ y. list_eq y x) own ∙ list_eq_refl x in
      ground (arith, l.named (c.stringify w), not_empty x (slice_pos part h), same, short)

  -- The part is there after it was put, and whatever was there still is.
  pub record Took (part left : ℕ) (a a' : Artifacts) : Type 0 where
    pub there : HasParts (name_of c w) (text_of c w) part left a'.chunks
    pub grows : Grows a.chunks a'.chunks
    pub content : Content c a'.chunks
    pub saved : a'.saved ≡ a.saved

  put_slice :
      (part : ℕ) (a : Artifacts)
      → part < count_of c w
      → count_of c w ≤ 256
      → Content c a.chunks
      → (a' : Artifacts) × (put_chunk c (name_of c w) part (slice chunk_size part (text_of c w)) a
          ≡ some a')
        × Took part 1 a a'
  unfolding put_chunk
  put_slice part a h b all =
      let x = slice chunk_size part (text_of c w) in
      elim (Option-cases (chunk_at (name_of c w) part a.chunks)) [
        | inl n ↦ (
          record a { chunks = record { digest = name_of c w; part = part; body = x } ∷ a.chunks },
          rw (slice-IsValid part h b) (rw n),
          record {
            there = (chunk_at-head _ a.chunks, tt);
            grows = chunk_at-cons _ a.chunks n;
            content = ((w, refl, refl), all);
            saved = refl;
          },
        )
        | inr (y, e) ↦ (
          a,
          rw (slice-IsValid part h b)
              (rw e (rw (stored_part part a.chunks all e) (rw (list_eq_refl x)))),
          record {
            there = (e ∙ ap some (stored_part part a.chunks all e), tt);
            grows = λ d i z q. q;
            content = all;
            saved = refl;
          },
        )
      ]

  pub upload_lem :
      (part n : ℕ) (a : Artifacts)
      → part + n ≤ count_of c w
      → count_of c w ≤ 256
      → Content c a.chunks
      → (a' : Artifacts) × (upload c (name_of c w) (text_of c w) part n a ≡ some a')
        × Took part n a a'
  unfolding upload
  upload_lem part zero a h b all =
      (a, refl, record { there = tt; grows = λ d i z q. q; content = all; saved = refl })
  upload_lem part (suc n) a h b all =
      let (a1, e1, t1) = put_slice part a (omega arith) b all in
      let (a2, e2, t2) = upload_lem (part + 1) n a1 (omega arith) b t1.content in
      (
        a2,
        rw e1 e2,
        record {
          there = (t2.grows _ part _ (t1.there).0, t2.there);
          grows = λ d i z q. t2.grows d i z (t1.grows d i z q);
          content = t2.content;
          saved = t2.saved ∙ t1.saved;
        },
      )
