-- ===== src/Base/Decimal.antt =====
-- The decimal text of a number, as `format!("{}", n)` writes it, and its injectivity.
use Prim.Native.Nat.{ℕ, zero, suc, ◌+◌, ◌-◌, ◌*◌, ◌/◌, ◌%◌, ◌≤◌, ◌<◌}
use Prim.Native.Char.{Char, code}
use Prim.Native.String.{String, [], ◌∷◌, ◌++◌}
use Prim.Native.String.append
use mathlib.Core.Path.{◌≡◌, refl, sym, ap, ◌∙◌}
use mathlib.Core.Logic.{inl, inr}
use native.Mathlib.Omega.{arith}
use mathlib.Core.Bool.{◌&&◌}
use mathlib.Core.Option.{Option, none, some, some-injective}
use rs_polygraph.Base.Tests.{ltb, leb, if◌then◌else◌, Bool-cases}

abbrev digit : ℕ → Char
digit zero = "0"
digit (suc zero) = "1"
digit (suc (suc zero)) = "2"
digit (suc (suc (suc zero))) = "3"
digit (suc (suc (suc (suc zero)))) = "4"
digit (suc (suc (suc (suc (suc zero))))) = "5"
digit (suc (suc (suc (suc (suc (suc zero)))))) = "6"
digit (suc (suc (suc (suc (suc (suc (suc zero))))))) = "7"
digit (suc (suc (suc (suc (suc (suc (suc (suc zero)))))))) = "8"
digit (suc (suc (suc (suc (suc (suc (suc (suc (suc n))))))))) = "9"

-- the digits of `n` before `acc`, least first; the fuel bounds their number
decimal : ℕ → ℕ → String → String
decimal zero n acc = acc
decimal (suc fuel) n acc =
    let rest = decimal fuel (n / 10) (digit (n % 10) ∷ acc) in
    if ltb n 10 then digit n ∷ acc else rest

unfoldable pub to_string : ℕ → String
unfolding decimal
to_string n = decimal (suc n) n ""

-- the number that a text of digits stands for, after a number already read
unfoldable pub digits : ℕ → String → Option ℕ
digits v [] = some v
digits v (c ∷ s) =
    let rest = digits (v * 10 + (code c - 48)) s in
    if leb 48 (code c) && leb (code c) 57 then rest else none

code-digit : (d : ℕ) → d < 10 → code (digit d) ≡ d + 48
code-digit zero h = refl
code-digit (suc zero) h = refl
code-digit (suc (suc zero)) h = refl
code-digit (suc (suc (suc zero))) h = refl
code-digit (suc (suc (suc (suc zero)))) h = refl
code-digit (suc (suc (suc (suc (suc zero))))) h = refl
code-digit (suc (suc (suc (suc (suc (suc zero)))))) h = refl
code-digit (suc (suc (suc (suc (suc (suc (suc zero))))))) h = refl
code-digit (suc (suc (suc (suc (suc (suc (suc (suc zero)))))))) h = refl
code-digit (suc (suc (suc (suc (suc (suc (suc (suc (suc n))))))))) h = omega arith

digits-digit : (v d : ℕ) (s : String) → d < 10 → digits v (digit d ∷ s) ≡ digits (v * 10 + d) s
unfolding digits
digits-digit v d s h = ground (arith, code-digit d h)

digits-decimal :
    (fuel n : ℕ) (acc : String) → n < fuel → digits 0 (decimal fuel n acc) ≡ digits n acc
unfolding decimal
digits-decimal zero n acc h = absurd (omega arith)
digits-decimal (suc fuel) n acc h = elim (Bool-cases (ltb n 10)) [
  | inl small ↦
      rw small (digits-digit 0 n acc (ground arith) ∙ ap (λ (v : ℕ). digits v acc) (omega arith))
  | inr big ↦ rw big (
      digits-decimal fuel (n / 10) (digit (n % 10) ∷ acc) (ground arith)
      ∙ digits-digit (n / 10) (n % 10) acc (omega arith)
      ∙ ap (λ (v : ℕ). digits v acc) (omega arith))
]

-- A number is read back from its text.
pub digits-to_string : (n : ℕ) → digits 0 (to_string n) ≡ some n
unfolding to_string digits
digits-to_string n = digits-decimal (suc n) n "" (omega arith)

-- Different numbers have different texts.
pub to_string_injective : (m n : ℕ) → to_string m ≡ to_string n → m ≡ n
to_string_injective m n e =
    some-injective m n (sym (digits-to_string m) ∙ ap (digits 0) e ∙ digits-to_string n)

-- The text begins with a digit.
abbrev pub Headed : String → Type 0
Headed s = (c : Char) × ((t : String) × ((s ≡ c ∷ t) × (48 ≤ code c)))

decimal-Headed : (fuel n : ℕ) (acc : String) → n < fuel → Headed (decimal fuel n acc)
unfolding decimal
decimal-Headed zero n acc h = absurd (omega arith)
decimal-Headed (suc fuel) n acc h = elim (Bool-cases (ltb n 10)) [
  | inl small ↦ (digit n, (acc, (rw small refl, ground (arith, code-digit n (ground arith)))))
  | inr big ↦
      let (c, (t, (e, low))) = decimal-Headed fuel (n / 10) (digit (n % 10) ∷ acc) (ground arith) in
      (c, (t, (rw big e, low)))
]

pub to_string-Headed : (n : ℕ) → Headed (to_string n)
unfolding to_string
to_string-Headed n = decimal-Headed (suc n) n "" (omega arith)

to_string_runs : to_string 1024 ≡ "1024"
unfolding to_string
to_string_runs = refl

-- A common prefix cancels.
pub append_cancel : (p s t : String) → p ++ s ≡ p ++ t → s ≡ t
append_cancel [] s t e = sym (append.nil s) ∙ e ∙ append.nil t
append_cancel (c ∷ p) s t e = append_cancel p s t (cc (append.cons c p s, append.cons c p t))
