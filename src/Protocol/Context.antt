-- ===== src/Protocol/Context.antt =====
-- The free-form context of a job (`z.record(z.unknown())`): an object with text keys.
use text.Mathlib.Text.{◌==◌ as str_eq}
use text.Mathlib.TextEquality.{eq_iff}
use kapi_final.Base.{
  ℕ, zero, suc, String, Bool, true, false, Option, none, some, List, [], ◌∷◌, ◌≡◌, refl,
  if◌then◌else◌, arith,
}

pub data Json : Type 0 where
  null : Json
  flag : Bool → Json
  num : ℕ → Json
  str : String → Json
  -- An object or an array, which nothing here looks into.
  opaque : ℕ → Json

abbrev pub Context : Type 0
Context = List (String × Json)

-- JavaScript's truth of a value.
abbrev pub is_truthy : Json → Bool
is_truthy null = false
is_truthy (flag b) = b
is_truthy (num zero) = false
is_truthy (num (suc n)) = true
is_truthy (str String.[]) = false
is_truthy (str _) = true
is_truthy (opaque _) = true

-- `o.k`
unfoldable pub get : String → Context → Option Json
get k [] = none
get k ((j, v) ∷ o) = if str_eq j k then some v else get k o

-- `o.k = v`
unfoldable pub put : String → Json → Context → Context
put k v [] = (k, v) ∷ []
put k v ((j, w) ∷ o) = if str_eq j k then (k, v) ∷ o else (j, w) ∷ put k v o

-- `{ ...a, ...b }`
unfoldable pub spread : Context → Context → Context
spread a [] = a
spread a ((k, v) ∷ b) = spread (put k v a) b

pub get-put :
    (k j : String) (v : Json) (o : Context)
    → get j (put k v o) ≡ (if str_eq k j then some v else get j o)
unfolding get put
get-put k j v [] = refl
get-put k j v ((i, w) ∷ o) = ground (arith, eq_iff k j, eq_iff i k, eq_iff i j, get-put k j v o)
