-- ===== src/Translator/Scope/Tracked.antt =====
-- The names that `validate_semantics` keeps in scope, against the scope rules: it adds neither the
-- variables of a YIELD nor the path variables of a CREATE, and it keeps its scope at a UNION
-- (crates/polygraph/src/translator/cypher/semantics.rs).
use rs_polygraph.Base.{String, Bool, true, false, ◌||◌, List, [], ◌∷◌, ◌++◌, ◌≡◌, refl, arith, All}
use rs_polygraph.Base.Names.{has, has-append, has-nil}
use rs_polygraph.Ast
use rs_polygraph.Ast.{Clause}
use rs_polygraph.Ast.Views.{items_of, patterns}
use rs_polygraph.Translator.Unions.{is_union}
use rs_polygraph.Translator.Scope.Known.{gather}
use rs_polygraph.Translator.Scope.Visible.{
  item_names, path_names, pattern_names, added, visible_after, visible_from, visible,
}

-- the names that the checks add for a clause
unfoldable pub registered : Clause → List String
unfolding gather pattern_names
registered (Ast.match _ list _) =
    gather path_names (patterns list) ++ gather pattern_names (patterns list)
registered (Ast.unwind _ v) = v ∷ []
registered (Ast.create list) = gather pattern_names (patterns list)
registered (Ast.merge p _) = pattern_names p ++ path_names p
registered _ = []

unfoldable pub tracked_after : Clause → (String → Bool) → String → Bool
unfolding registered gather
tracked_after (Ast.with_items _ (Ast.explicit list) _ _ _ _) before x =
    has x (gather item_names (items_of list))
tracked_after c before x = before x || has x (registered c)

unfoldable pub tracked_from : (String → Bool) → List Clause → String → Bool
unfolding tracked_after
tracked_from before [] x = before x
tracked_from before (c ∷ cs) x = tracked_from (tracked_after c before) cs x

unfoldable pub tracked : List Clause → String → Bool
unfolding tracked_from
tracked = tracked_from (λ _. false)

-- no YIELD, no UNION and no path variable of a CREATE
abbrev pub IsPlain : Clause → Type 0
IsPlain (Ast.create list) = gather path_names (patterns list) ≡ []
IsPlain (Ast.call _ _ yields) = yields ≡ []
IsPlain (Ast.union _) = ⊥
IsPlain _ = Unit

or_keeps :
    (a b c d : Bool)
    → (a ≡ true → b ≡ true)
    → (c ≡ true → d ≡ true)
    → (a || c) ≡ true
    → (b || d) ≡ true
or_keeps true b c d f g h = ground (arith, f refl)
or_keeps false b c d f g h = ground (arith, g h)

module _ {before before' : String → Bool} where
  tracked_after-visible_after :
      (c : Clause)
      → IsPlain c
      → ((x : String) → before x ≡ before' x)
      → (x : String) → tracked_after c before x ≡ visible_after c before' x
  unfolding tracked_after visible_after registered added
  tracked_after-visible_after (Ast.with_items _ (Ast.explicit list) _ _ _ _) _ h x = refl
  tracked_after-visible_after (Ast.create list) plain h x = rw (plain, h x) refl
  tracked_after-visible_after (Ast.call _ _ yields) plain h x = rw (plain, h x) refl
  tracked_after-visible_after (Ast.union _) plain h x = absurd plain
  tracked_after-visible_after _ _ h x = rw (h x) refl

  visible_after_keeps :
      (c : Clause)
      → is_union c ≡ false
      → ((x : String) → before x ≡ true → before' x ≡ true)
      → (x : String) → tracked_after c before x ≡ true
      → visible_after c before' x ≡ true
  unfolding tracked_after visible_after registered added
  visible_after_keeps (Ast.with_items _ (Ast.explicit list) _ _ _ _) _ h x g = g
  visible_after_keeps (Ast.create list) _ h x g =
      or_keeps _ _ _ _ (h x)
        (λ r. ground (
          arith,
          r,
          has-append x (gather path_names (patterns list)) (gather pattern_names (patterns list)),
        ))
        g
  visible_after_keeps (Ast.call _ _ yields) _ h x g =
      or_keeps _ _ _ _ (h x) (λ r. absurd (ground (arith, r, has-nil x))) g
  visible_after_keeps (Ast.union _) u h x g = absurd (cc u)
  visible_after_keeps _ _ h x g = or_keeps _ _ _ _ (h x) (λ r. r) g

tracked_from-visible_from :
    (cs : List Clause) {before before' : String → Bool}
    → All IsPlain cs
    → ((x : String) → before x ≡ before' x)
    → (x : String) → tracked_from before cs x ≡ visible_from before' cs x
unfolding tracked_from visible_from
tracked_from-visible_from [] plain h x = h x
tracked_from-visible_from (c ∷ cs) plain h x =
    tracked_from-visible_from cs plain.1 (tracked_after-visible_after c plain.0 h) x

visible_from_keeps :
    (cs : List Clause) {before before' : String → Bool}
    → All (λ c. is_union c ≡ false) cs
    → ((x : String) → before x ≡ true → before' x ≡ true)
    → (x : String) → tracked_from before cs x ≡ true
    → visible_from before' cs x ≡ true
unfolding tracked_from visible_from
visible_from_keeps [] arm h x = h x
visible_from_keeps (c ∷ cs) arm h x = visible_from_keeps cs arm.1 (visible_after_keeps c arm.0 h) x

pub tracked-visible :
    (cs : List Clause) → All IsPlain cs → (x : String) → tracked cs x ≡ visible cs x
unfolding tracked visible
tracked-visible cs plain = tracked_from-visible_from cs plain (λ x. refl)

-- within one arm of a UNION, what the checks keep is visible
pub visible_keeps :
    (cs : List Clause)
    → All (λ c. is_union c ≡ false) cs
    → (x : String) → tracked cs x ≡ true
    → visible cs x ≡ true
unfolding tracked visible
visible_keeps cs arm = visible_from_keeps cs arm (λ x h. h)
