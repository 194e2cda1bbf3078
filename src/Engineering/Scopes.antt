-- ===== src/Engineering/Scopes.antt =====
-- factory/engineering_pod/validator.py: the scopes that a package may write to, and the paths in them.
use Prim.Native.Char.{code}
use Prim.Native.String.{◌++◌ as concat}
use ai_factory.Base.{
  ℕ, String, Bool, true, false, ◌&&◌, ◌||◌, List, [], ◌∷◌, if◌then◌else◌, eqb, ◌==◌, is_empty,
}
use ai_factory.Base.Text.{is_space}
use ai_factory.Base.Result.{Result, ok, err, ◌>>=◌}
use ai_factory.Engineering.{EngineeringError, invalid_scope}

-- `lstrip` and `rstrip`, of the characters that a test accepts.
unfoldable pub drop_start : (ℕ → Bool) → String → String
drop_start p String.[] = ""
drop_start p (String.◌∷◌ c s) =
    let rest = drop_start p s in if p (code c) then rest else String.◌∷◌ c s

unfoldable pub drop_end : (ℕ → Bool) → String → String
drop_end p String.[] = ""
drop_end p (String.◌∷◌ c s) =
    let rest = drop_end p s in if p (code c) && is_empty rest then "" else String.◌∷◌ c rest

abbrev pub strip_of : (ℕ → Bool) → String → String
strip_of p s = drop_end p (drop_start p s)

abbrev pub slash : ℕ
slash = 47

abbrev pub backslash : ℕ
backslash = 92

-- `.replace("\\", "/")`
unfoldable pub with_slashes : String → String
with_slashes String.[] = ""
with_slashes (String.◌∷◌ c s) =
    let rest = with_slashes s in
    if eqb (code c) backslash then concat "/" rest else String.◌∷◌ c rest

-- `t.startswith(s)`
unfoldable pub starts_with : String → String → Bool
starts_with String.[] t = true
starts_with (String.◌∷◌ c s) String.[] = false
starts_with (String.◌∷◌ c s) (String.◌∷◌ d t) = eqb (code c) (code d) && starts_with s t

-- `s in t`
unfoldable pub occurs_in : String → String → Bool
unfolding starts_with
occurs_in s String.[] = is_empty s
occurs_in s (String.◌∷◌ c t) = starts_with s (String.◌∷◌ c t) || occurs_in s t

-- `_normalize_scope`
unfoldable pub normalize_scope : String → Result EngineeringError String
unfolding drop_start drop_end with_slashes starts_with occurs_in is_space
normalize_scope scope =
    let value = strip_of (λ n. eqb n slash) (with_slashes (strip_of is_space scope)) in
    if is_empty value
      || (starts_with ".." value || occurs_in "/../" (concat "/" (concat value "/")))
    then err (invalid_scope scope)
    else ok value

abbrev pub is_inside : String → String → Bool
is_inside path scope = path == scope || starts_with (concat scope "/") path

-- `_path_in_scope`
unfoldable pub path_in_scope : String → String → Result EngineeringError Bool
unfolding normalize_scope
path_in_scope path scope = do
  normalized_path ← normalize_scope path
  normalized_scope ← normalize_scope scope
  ok (is_inside normalized_path normalized_scope)

-- `any(_path_in_scope(path, scope) for scope in scopes)`, which stops at the first.
unfoldable pub in_any_scope : String → List String → Result EngineeringError Bool
in_any_scope path [] = ok false
in_any_scope path (scope ∷ scopes) =
    let rest = in_any_scope path scopes in
    path_in_scope path scope >>= λ found. if found then ok true else rest
