-- ===== src/Base/Text.antt =====
-- Python's tests on `str`: truth, and emptiness after `strip()`.
use Prim.Native.Nat.{ℕ, zero, suc}
use Prim.Native.Char.{code}
use Prim.Native.String.{String, ◌++◌}
use mathlib.Core.List.{List, [], ◌∷◌}
use mathlib.Core.Path.{◌≡◌, refl}
use mathlib.Core.Bool.{Bool, true, false, ◌&&◌, ◌||◌}
use mathlib.Core.Option.{Option, none, some}
use text.Mathlib.Text.{◌==◌}
use text.Mathlib.TextEquality.{eq_iff}
use ai_factory.Base.Tests.{leb, eqb}

-- `not s` for a text.
abbrev pub is_empty : String → Bool
is_empty String.[] = true
is_empty (String.◌∷◌ c s) = false

-- The code points that `str.strip` removes.
unfoldable pub is_space : ℕ → Bool
is_space n =
    (leb 9 n && leb n 13)
    || (leb 28 n && leb n 32)
    || eqb n 0x85
    || eqb n 0xa0
    || eqb n 0x1680
    || (leb 0x2000 n && leb n 0x200a)
    || eqb n 0x2028
    || eqb n 0x2029
    || eqb n 0x202f
    || eqb n 0x205f
    || eqb n 0x3000

-- `not s.strip()`.
unfoldable pub is_blank : String → Bool
unfolding is_space
is_blank String.[] = true
is_blank (String.◌∷◌ c s) = is_space (code c) && is_blank s

-- `not s` for an optional text: `None` and the empty text are false.
abbrev pub is_absent : Option String → Bool
is_absent none = true
is_absent (some s) = is_empty s

-- `not s or not s.strip()` for an optional text.
abbrev pub is_absent_or_blank : Option String → Bool
is_absent_or_blank none = true
is_absent_or_blank (some s) = is_blank s

pub String-discrete : Discrete String
String-discrete s t = go (s == t) (λ h. (eq_iff s t).0 h) (λ e. (eq_iff s t).1 e)
  where
    go : (b : Bool) → (b ≡ true → s ≡ t) → (s ≡ t → b ≡ true) → Dec (s ≡ t)
    go true f g = yes (f refl)
    go false f g = no (λ e. (cc (g e)))

-- `separator.join(parts)`
unfoldable pub joined : String → List String → String
joined separator [] = ""
joined separator (s ∷ []) = s
joined separator (s ∷ t ∷ rest) = s ++ separator ++ joined separator (t ∷ rest)

-- `s[:n]`
unfoldable pub text_prefix : ℕ → String → String
text_prefix zero s = ""
text_prefix (suc n) String.[] = ""
text_prefix (suc n) (String.◌∷◌ c s) = String.◌∷◌ c (text_prefix n s)
