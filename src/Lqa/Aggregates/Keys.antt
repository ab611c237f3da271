-- ===== src/Lqa/Aggregates/Keys.antt =====
-- `proj_cols_keys` of crates/polygraph/src/lqa/lower.rs: the GROUP BY keys of a projection. A set of
-- names is the list it is built from.
use mathlib.Core.List.{Memᴰ}
use rs_polygraph.Base.{
  ◌≢◌, refl, sym, true, false, String, Bool, not, ◌&&◌, List, [], ◌∷◌, ◌≡◌, ap, arith, Bool-cases,
  inl, inr, if◌then◌else◌,
}
use rs_polygraph.Base.Eq.{◌==◌, string_eq}
use rs_polygraph.Lqa.Syntax
use rs_polygraph.Lqa.Syntax.{ProjItems}
use rs_polygraph.Lqa.Bag.{bag_contains, multiplicity}

-- the condition of `filter_map`
unfoldable pub is_key : String → List String → List String → Bool
unfolding bag_contains
is_key alias agg_aliases post_group_aliases =
    not (alias == "*")
    && (not (bag_contains agg_aliases alias) && not (bag_contains post_group_aliases alias))

unfoldable pub proj_cols_keys : ProjItems → List String → List String → List String
unfolding is_key
proj_cols_keys Syntax.no_item agg_aliases post_group_aliases = []
proj_cols_keys (Syntax.item _ alias _ items) agg_aliases post_group_aliases =
    let rest = proj_cols_keys items agg_aliases post_group_aliases in
    if is_key alias agg_aliases post_group_aliases then alias ∷ rest else rest

abbrev pub aliases : ProjItems → List String
aliases Syntax.no_item = []
aliases (Syntax.item _ alias _ items) = alias ∷ aliases items

multiplicity-is_key :
    (items : ProjItems) (agg_aliases post_group_aliases : List String) (name : String)
    → multiplicity (proj_cols_keys items agg_aliases post_group_aliases) name ≡ (
        if is_key name agg_aliases post_group_aliases then multiplicity (aliases items) name else 0)
unfolding proj_cols_keys multiplicity
multiplicity-is_key Syntax.no_item agg_aliases post_group_aliases name = ground arith
multiplicity-is_key (Syntax.item _ alias _ items) agg_aliases post_group_aliases name =
    elim (Bool-cases (alias == name)) [
      | inl same ↦ ground (
        arith,
        same,
        ap (λ s. is_key s agg_aliases post_group_aliases) ((string_eq.decides alias name).0 same),
        multiplicity-is_key items agg_aliases post_group_aliases name,
      )
      | inr other ↦
          ground (arith, other, multiplicity-is_key items agg_aliases post_group_aliases name)
    ]

contains_member : (x : String) (xs : List String) → Memᴰ x xs → bag_contains xs x ≡ true
unfolding bag_contains
contains_member x [] m = elim m [ ]
contains_member x (y ∷ xs) (Memᴰ.head e) = rw ((string_eq.decides y x).1 (sym e)) refl
contains_member x (y ∷ xs) (Memᴰ.tail m) = ground (arith, contains_member x xs m)

member_of : (x : String) (xs : List String) → bag_contains xs x ≡ true → Memᴰ x xs
unfolding bag_contains
member_of x [] h = absurd (cc h)
member_of x (y ∷ xs) h = elim (Bool-cases (y == x)) [
  | inl same ↦ Memᴰ.head (sym ((string_eq.decides y x).0 same))
  | inr other ↦ Memᴰ.tail (member_of x xs (ground (arith, h, other)))
]

absent : (x : String) (xs : List String) → ¬ Memᴰ x xs → bag_contains xs x ≡ false
absent x xs h = elim (Bool-cases (bag_contains xs x)) [
  | inl found ↦ absurd (h (member_of x xs found))
  | inr missing ↦ missing
]

unequal : (x y : String) → x ≢ y → (x == y) ≡ false
unequal x y h = elim (Bool-cases (x == y)) [
  | inl same ↦ absurd (h ((string_eq.decides x y).0 same))
  | inr other ↦ other
]

module _ (items : ProjItems) (agg_aliases post_group_aliases : List String) (name : String) where
  -- A name is a GROUP BY key as often as it is an alias of the projection. Only the wildcard, an alias
  -- of an aggregate and an alias computed after grouping are no keys.
  pub multiplicity-proj_cols_keys :
      let keys = multiplicity (proj_cols_keys items agg_aliases post_group_aliases) name in
      (name ≡ "*" → keys ≡ 0)
      × ((Memᴰ name agg_aliases → keys ≡ 0)
          × ((Memᴰ name post_group_aliases → keys ≡ 0)
              × (name ≢ "*"
                  → ¬ Memᴰ name agg_aliases
                  → ¬ Memᴰ name post_group_aliases
                  → keys ≡ multiplicity (aliases items) name)))
  unfolding is_key
  multiplicity-proj_cols_keys =
      let counted = multiplicity-is_key items agg_aliases post_group_aliases name in
      (
        λ e. ground (arith, counted, (string_eq.decides name "*").1 e),
        (
          λ m. ground (arith, counted, contains_member name agg_aliases m),
          (
            λ m. ground (arith, counted, contains_member name post_group_aliases m),
            λ other agg post. ground (
              arith,
              counted,
              unequal name "*" other,
              absent name agg_aliases agg,
              absent name post_group_aliases post,
            ),
          ),
        ),
      )
