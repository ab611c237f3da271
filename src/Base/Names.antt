-- ===== src/Base/Names.antt =====
-- `HashSet<String>` as the source uses it, and the comparison of names without case. The order of
-- the list stands for the unspecified order of a hash set; no result depends on it.
use Prim.Native.Nat.{ℕ, ◌+◌}
use Prim.Native.Char.{code}
use Prim.Native.String.{String}
use mathlib.Core.Path.{◌≡◌, refl}
use mathlib.Core.Bool.{Bool, true, false, ◌&&◌, ◌||◌}
use mathlib.Core.List.{List, [], ◌∷◌, ◌++◌}
use native.Mathlib.Omega.{arith}
use rs_polygraph.Base.Tests.{if◌then◌else◌, leb, nat_beq}
use rs_polygraph.Base.Eq.{◌==◌, string_eq}
use text.Mathlib.TextEquality.{eq_iff}

-- `names.contains(name)`
unfoldable pub has : String → List String → Bool
has x [] = false
has x (y ∷ ys) = y == x || has x ys

-- `names.insert(name)`
abbrev pub insert : String → List String → List String
insert x ys = if has x ys then ys else x ∷ ys

pub has-insert : (x y : String) (ys : List String) → has x (insert y ys) ≡ (y == x || has x ys)
unfolding has
has-insert x y ys = ground (arith, eq_iff y x)

pub has-nil : (x : String) → has x [] ≡ false
unfolding has
has-nil x = refl

pub has-append : (x : String) (ys zs : List String) → has x (ys ++ zs) ≡ (has x ys || has x zs)
unfolding has
has-append x [] zs = refl
has-append x (y ∷ ys) zs = ground (arith, has-append x ys zs)

abbrev lower : ℕ → ℕ
lower c = if leb 65 c && leb c 90 then c + 32 else c

-- `a.eq_ignore_ascii_case(b)`
unfoldable pub eq_ignore_ascii_case : String → String → Bool
eq_ignore_ascii_case String.[] String.[] = true
eq_ignore_ascii_case (String.◌∷◌ c s) (String.◌∷◌ d t) =
    nat_beq (lower (code c)) (lower (code d)) && eq_ignore_ascii_case s t
eq_ignore_ascii_case _ _ = false

size_matches : eq_ignore_ascii_case "SiZe" "size" ≡ true
unfolding eq_ignore_ascii_case
size_matches = refl
