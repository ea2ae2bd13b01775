-- ===== src/Agent/Client/Chunks.antt =====
-- The parts of an upload: that they make up the text, and that the control plane takes and keeps them.
use mathlib.Core.Option
use native.Mathlib.Nat.{zero-add, suc-add, zero-mul}
use kapi_final.Base.{
  ℕ, zero, suc, ◌+◌, ◌-◌, ◌*◌, ◌≤◌, ◌<◌, ◌≡◌, refl, sym, ap, ◌∙◌, Bool, true, none, some, List, [],
  ◌∷◌, ◌++◌, length, take, drop, find, find-select, arith, ==_iff, inl, inr, select, Bool-cases,
}
use kapi_final.ControlPlane.Checkpoints.{
  Codec, Chunk, Artifacts, chunk_size, is_chunk, chunk_at, collect, get_chunk,
}
use kapi_final.Agent.Client.{slice, parts_of, download}

take-nil : (n : ℕ) → ◌≡◌ {A = List ℕ} (take n []) []
take-nil zero = refl
take-nil (suc n) = refl

drop-nil : (n : ℕ) → ◌≡◌ {A = List ℕ} (drop n []) []
drop-nil zero = refl
drop-nil (suc n) = refl

take-add : (a b : ℕ) (xs : List ℕ) → take (a + b) xs ≡ take a xs ++ take b (drop a xs)
take-add zero b xs = rw (zero-add b)
take-add (suc a) b [] = take-nil (suc a + b) ∙ sym (take-nil b)
take-add (suc a) b (x ∷ xs) = rw (suc-add a b) (ap (◌∷◌ x) (take-add a b xs))

drop-add : (a b : ℕ) (xs : List ℕ) → drop (a + b) xs ≡ drop b (drop a xs)
drop-add zero b xs = rw (zero-add b)
drop-add (suc a) b [] = drop-nil (suc a + b) ∙ sym (drop-nil b)
drop-add (suc a) b (x ∷ xs) = rw (suc-add a b) (drop-add a b xs)

take_all : (n : ℕ) (xs : List ℕ) → length xs ≤ n → take n xs ≡ xs
take_all zero [] h = refl
take_all zero (x ∷ xs) h = absurd (omega arith)
take_all (suc n) [] h = refl
take_all (suc n) (x ∷ xs) h = ap (◌∷◌ x) (take_all n xs (omega arith))

pub length-drop : (n : ℕ) (xs : List ℕ) → length (drop n xs) ≡ length xs - n
length-drop zero xs = omega arith
length-drop (suc n) [] = omega arith
length-drop (suc n) (x ∷ xs) = omega (arith, length-drop n xs)

pub length-take_short : (n : ℕ) (xs : List ℕ) → 0 < n → 0 < length xs → 0 < length (take n xs)
length-take_short zero xs h k = absurd (omega arith)
length-take_short (suc n) [] h k = absurd (omega arith)
length-take_short (suc n) (x ∷ xs) h k = omega arith

-- The parts from one on, one after the other.
unfoldable pub joined : ℕ → List ℕ → (part left : ℕ) → List ℕ
joined size text part zero = []
joined size text part (suc n) = slice size part text ++ joined size text (part + 1) n

joined-take :
    (size : ℕ) (text : List ℕ) (part n : ℕ)
    → joined size text part n ≡ take (n * size) (drop (part * size) text)
unfolding joined slice
joined-take size text part zero = rw (zero-mul size)
joined-take size text part (suc n) =
    let step : (part + 1) * size ≡ part * size + size = grind arith in
    let all : suc n * size ≡ size + n * size = grind arith in
    ap (λ r. take size (drop (part * size) text) ++ r)
      (joined-take size text (part + 1) n
        ∙ ap (λ m. take (n * size) (drop m text)) step
        ∙ ap (take (n * size)) (drop-add (part * size) size text))
    ∙ sym (
        ap (λ m. take m (drop (part * size) text)) all
        ∙ take-add size (n * size) (drop (part * size) text))

-- Enough parts for the text, and no empty one.
parts_cover : (text : List ℕ) → length text ≤ parts_of chunk_size text * chunk_size
unfolding parts_of chunk_size
parts_cover text = omega arith

pub joined_all : (text : List ℕ) → joined chunk_size text 0 (parts_of chunk_size text) ≡ text
joined_all text =
    joined-take chunk_size text 0 (parts_of chunk_size text)
    ∙ ap (λ m. take (parts_of chunk_size text * chunk_size) (drop m text)) (zero-mul chunk_size)
    ∙ take_all _ text (parts_cover text)

-- A chunk that is there stays there.
abbrev pub Grows : List Chunk → List Chunk → Type 0
Grows ks ks' = (d i : ℕ) (x : List ℕ) → chunk_at d i ks ≡ some x → chunk_at d i ks' ≡ some x

pub is_chunk_sound : (d i : ℕ) (k : Chunk) → is_chunk d i k ≡ true → (k.digest ≡ d) × (k.part ≡ i)
is_chunk_sound d i k t = (ground (arith, ==_iff k.digest d), ground (arith, ==_iff k.part i))

-- A part that is missing is not there under the same name.
missing :
    (d i : ℕ) (k : Chunk) (ks : List Chunk) {x : List ℕ}
    → chunk_at k.digest k.part ks ≡ none
    → chunk_at d i ks ≡ some x
    → is_chunk d i k ≡ true
    → ⊥
missing d i k ks n e t = let p = is_chunk_sound d i k t in cc (n, e, p.0, p.1)

pub chunk_at-cons :
    (k : Chunk) (ks : List Chunk) → chunk_at k.digest k.part ks ≡ none → Grows ks (k ∷ ks)
unfolding chunk_at find
chunk_at-cons k ks n d i x e = elim (Bool-cases (is_chunk d i k)) [
  | inl t ↦ absurd (missing d i k ks n e t)
  | inr t ↦ rw t e
]

pub chunk_at-head : (k : Chunk) (ks : List Chunk) → chunk_at k.digest k.part (k ∷ ks) ≡ some k.body
unfolding chunk_at find
chunk_at-head k ks = ground (arith, ==_iff k.digest k.digest, ==_iff k.part k.part)

-- Chunks that are kept can be found as before.
pub chunk_at-select :
    (q : Chunk → Bool) (d i : ℕ) (ks : List Chunk)
    → ((k : Chunk) → is_chunk d i k ≡ true → q k ≡ true)
    → chunk_at d i (select q ks) ≡ chunk_at d i ks
unfolding chunk_at
chunk_at-select q d i ks h =
    ap (Option.map (λ (k : Chunk). k.body)) (find-select (is_chunk d i) q ks h)

-- The parts of a text are there.
abbrev pub HasParts : ℕ → List ℕ → (part left : ℕ) → List Chunk → Type 0
HasParts d text part zero ks = Unit
HasParts d text part (suc n) ks =
    (chunk_at d part ks ≡ some (slice chunk_size part text)) × HasParts d text (part + 1) n ks

pub HasParts-Grows :
    (d : ℕ) (text : List ℕ) (part n : ℕ) (ks ks' : List Chunk)
    → Grows ks ks'
    → HasParts d text part n ks
    → HasParts d text part n ks'
HasParts-Grows d text part zero ks ks' g h = tt
HasParts-Grows d text part (suc n) ks ks' g h =
    (g d part _ h.0, HasParts-Grows d text (part + 1) n ks ks' g h.1)

pub collect-HasParts :
    (d : ℕ) (text : List ℕ) (part n : ℕ) (ks : List Chunk)
    → HasParts d text part n ks
    → collect d part n ks ≡ some (joined chunk_size text part n)
unfolding collect joined
collect-HasParts d text part zero ks h = refl
collect-HasParts d text part (suc n) ks h =
    ground (arith, h.0, collect-HasParts d text (part + 1) n ks h.1)

module _ (c : Codec) where
  pub download-HasParts :
      (d : ℕ) (text : List ℕ) (part n : ℕ) (a : Artifacts)
      → c.is_digest d ≡ true
      → part + n ≤ 256
      → HasParts d text part n a.chunks
      → download c d part n a ≡ some (joined chunk_size text part n)
  unfolding download joined get_chunk
  download-HasParts d text part zero a t b h = refl
  download-HasParts d text part (suc n) a t b h =
      ground (arith, t, h.0, download-HasParts d text (part + 1) n a t (omega arith) h.1)
