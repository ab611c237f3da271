-- ===== src/Lqa/Normalize/Alias.antt =====
-- The aliases that `desugar_implicit_alias` generates (crates/polygraph/src/lqa/normalize.rs).
use rs_polygraph.Base.{
  ℕ, suc, ◌+◌, ◌<◌, String, Option, none, some, List, [], ◌∷◌, ◌≡◌, ◌≢◌, refl, ap, arith, All,
}
use rs_polygraph.Base.Decimal.{to_string_injective, append_cancel}
use rs_polygraph.Lqa.Syntax
use rs_polygraph.Lqa.Syntax.{Expr, ProjItems}
use rs_polygraph.Lqa.Normalize.{AliasGen, gen_name, desugar_implicit_alias}

abbrev pub Item : Type 0
Item = Expr × Option String

-- the number of items that have no alias
abbrev missing : List Item → ℕ
missing [] = 0
missing ((_, none) ∷ items) = suc (missing items)
missing ((_, some _) ∷ items) = missing items

-- the items with every alias explicit: the user's, or the next number's name
numbered : List Item → ℕ → ProjItems
numbered [] n = Syntax.no_item
numbered ((expr, none) ∷ items) n = Syntax.item expr (gen_name n) none (numbered items (suc n))
numbered ((expr, some alias) ∷ items) n = Syntax.item expr alias none (numbered items n)

-- The items keep their expressions, order and explicit aliases, the others are numbered from the
-- counter on, and the counter moves by the number of names that were generated.
desugar_implicit_alias_numbers :
    (items : List Item) (gen : AliasGen)
    → ((desugar_implicit_alias items gen).0 ≡ numbered items gen.counter)
      × ((desugar_implicit_alias items gen).1.counter ≡ gen.counter + missing items)
unfolding desugar_implicit_alias numbered
desugar_implicit_alias_numbers [] gen = (refl, omega arith)
desugar_implicit_alias_numbers ((expr, some alias) ∷ items) gen =
    let (e, c) = desugar_implicit_alias_numbers items gen in (ap (Syntax.item expr alias none) e, c)
desugar_implicit_alias_numbers ((expr, none) ∷ items) gen =
    let (e, c) = desugar_implicit_alias_numbers items (record { counter = suc gen.counter }) in
    (ap (Syntax.item expr (gen_name gen.counter) none) e, omega (arith, c))

-- The aliases in a projection at the places where the items had none.
pub fresh_aliases : List Item → ProjItems → List String
fresh_aliases ((_, none) ∷ items) (Syntax.item _ alias _ rest) = alias ∷ fresh_aliases items rest
fresh_aliases ((_, some _) ∷ items) (Syntax.item _ _ _ rest) = fresh_aliases items rest
fresh_aliases _ _ = []

abbrev pub Distinct : List String → Type 0
Distinct [] = Unit
Distinct (x ∷ xs) = All (λ y. x ≢ y) xs × Distinct xs

gen_name_injective : (m n : ℕ) → gen_name m ≡ gen_name n → m ≡ n
gen_name_injective m n e = to_string_injective m n (append_cancel "?gen_" _ _ e)

numbered-All-ne :
    (m : ℕ) (items : List Item) (n : ℕ)
    → m < n
    → All (λ y. gen_name m ≢ y) (fresh_aliases items (numbered items n))
unfolding fresh_aliases numbered
numbered-All-ne m [] n h = tt
numbered-All-ne m ((_, none) ∷ items) n h = (
  λ e. absurd (omega (arith, gen_name_injective m n e)),
  numbered-All-ne m items (suc n) (omega arith),
)
numbered-All-ne m ((_, some _) ∷ items) n h = numbered-All-ne m items n h

numbered-Distinct : (items : List Item) (n : ℕ) → Distinct (fresh_aliases items (numbered items n))
unfolding fresh_aliases numbered
numbered-Distinct [] n = tt
numbered-Distinct ((_, none) ∷ items) n =
    (numbered-All-ne n items (suc n) (omega arith), numbered-Distinct items (suc n))
numbered-Distinct ((_, some _) ∷ items) n = numbered-Distinct items n

-- No two of the aliases that are generated for one projection are the same.
pub fresh_aliases-Distinct :
    (items : List Item) (gen : AliasGen)
    → Distinct (fresh_aliases items (desugar_implicit_alias items gen).0)
fresh_aliases-Distinct items gen =
    rw (desugar_implicit_alias_numbers items gen).0 (numbered-Distinct items gen.counter)
