-- ===== src/Base/Optional.antt =====
-- JavaScript's operators on values that may be missing, and on texts.
use Prim.Native.Char.{code}
use Prim.Native.String.{String}
use mathlib.Core.Option.{Option, none, some}
use kapi_final.Base.Tests.{◌==◌, if◌then◌else◌}

-- `a ?? b`, where `b` may be missing too and where it is not.
abbrev pub or_some {ℓ} : {A : Type ℓ} → Option A → Option A → Option A
or_some none b = b
or_some (some a) b = some a

abbrev pub or_else {ℓ} : {A : Type ℓ} → Option A → A → A
or_else none b = b
or_else (some a) b = a

-- A text that is missing or empty is false.
abbrev pub present : Option String → Option String
present (some String.[]) = none
present t = t

-- The rest of a text after a prefix.
unfoldable pub after_prefix : String → String → Option String
after_prefix String.[] t = some t
after_prefix (String.◌∷◌ c p) String.[] = none
after_prefix (String.◌∷◌ c p) (String.◌∷◌ d t) =
    let rest = after_prefix p t in if code c == code d then rest else none
