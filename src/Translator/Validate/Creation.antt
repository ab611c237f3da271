-- ===== src/Translator/Validate/Creation.antt =====
-- The patterns that `CREATE` may have (crates/polygraph/src/translator/cypher/semantics.rs).
use rs_polygraph.Base.{
  String, Bool, false, not, ◌&&◌, ◌||◌, Option, none, some, List, [], ◌≡◌, arith, All, length,
}
use rs_polygraph.Ast
use rs_polygraph.Ast.{
  Direction, OptMapLiteral, Pattern, PatternList, PatternElement, RangeQuantifier,
}
use rs_polygraph.Ast.Equality.{same_direction}
use rs_polygraph.Ast.Views.{patterns, elements_of, is_some_map}
use rs_polygraph.Results.{ok}
use rs_polygraph.Results.Checks.{
  Ensures, passes, ◌⟫◌, weaken, skim, reject_lem, each_lem, try_fold_each, of_ok,
}
use rs_polygraph.Translator.Scans.{is_known}
use rs_polygraph.Translator.Scope.{Scope}
use rs_polygraph.Translator.Scope.Create.{
  is_empty, is_some, check_new_rel, check_new_node, check_prop_vars, check_create_element,
  is_standalone, check_create_pattern, check_create,
}
use rs_polygraph.Translator.Scope.Creates.{check_rel_types_lem, check_rel_range_lem}

-- a variable that the clause may introduce: one that no clause before it has
abbrev pub NewName : Scope → Option String → Type 0
NewName s none = Unit
NewName s (some v) = is_known s.bound_vars s.kinds v ≡ false

-- a relationship that may be created
pub record Creatable (s : Scope) (v : Option String) (direction : Direction) (types : List String)
    (range : Option RangeQuantifier) : Type 0 where
  pub typed : length types ≡ 1
  pub directed : same_direction direction Ast.both ≡ false
  pub single : is_some range ≡ false
  pub new : NewName s v

-- What holds of an element of a `CREATE`: a relationship is creatable, and a node whose variable is
-- known already has neither labels nor properties and is not a pattern of its own.
abbrev pub CreatableElement : Scope → Bool → PatternElement → Type 0
CreatableElement s standalone (Ast.node none labels properties) = Unit
CreatableElement s standalone (Ast.node (some v) labels properties) =
    (is_known s.bound_vars s.kinds v
      && (not (is_empty labels) || is_some_map properties || standalone))
    ≡ false
CreatableElement s standalone (Ast.relationship v direction types properties range) =
    Creatable s v direction types range

check_new_rel-NewName :
    (s : Scope) (vars : List String) (v : Option String)
    → Ensures (λ _. NewName s v) (check_new_rel s vars v)
unfolding check_new_rel
check_new_rel-NewName s vars none = passes tt
check_new_rel-NewName s vars (some v) = reject_lem _ _ ⟫ λ _ free. passes (ground (arith, free))

check_prop_vars_passes :
    (s : Scope) (vars : List String) (m : OptMapLiteral)
    → Ensures (λ _. Unit {0}) (check_prop_vars s vars m)
unfolding check_prop_vars
check_prop_vars_passes s vars m = skim (each_lem (λ _. Unit) _ (λ _. skim (reject_lem _ _)) _)

check_new_node-bare :
    (s : Scope) (standalone : Bool) (vars : List String) (v : String) (labels : List String)
    (properties : OptMapLiteral)
    → Ensures
        (λ _.
          (is_known s.bound_vars s.kinds v
            && (not (is_empty labels) || is_some_map properties || standalone))
          ≡ false)
        (check_new_node s standalone vars (some v) labels properties)
unfolding check_new_node
check_new_node-bare s standalone vars v labels properties =
    reject_lem _ _ ⟫ λ _ free. passes (ground (arith, free))

check_create_element-Creatable :
    (s : Scope) (standalone : Bool) (vars : List String) (e : PatternElement)
    → Ensures (λ _. CreatableElement s standalone e) (check_create_element s standalone vars e)
unfolding check_create_element
check_create_element-Creatable s standalone vars (Ast.node none labels properties) =
    unfold check_new_node in check_prop_vars_passes s vars properties ⟫ λ _ _. passes tt
check_create_element-Creatable s standalone vars (Ast.node (some v) labels properties) =
    check_new_node-bare s standalone vars v labels properties ⟫ λ vars' bare.
    check_prop_vars_passes s vars' properties ⟫ λ _ _. passes bare
check_create_element-Creatable s standalone vars
      (Ast.relationship v direction types properties range) =
    check_rel_types_lem "CREATE" types ⟫ λ _ typed. reject_lem _ _ ⟫ λ _ directed.
    check_rel_range_lem "CREATE" range ⟫ λ _ single.
    weaken (λ _ new. record { typed = typed; directed = directed; single = single; new = new })
      (check_new_rel-NewName s vars v)

check_create_pattern-Creatable :
    (s : Scope) (vars : List String) (p : Pattern)
    → Ensures
        (λ _. All (CreatableElement s (is_standalone p)) (elements_of p))
        (check_create_pattern s vars p)
unfolding check_create_pattern
check_create_pattern-Creatable s vars p =
    try_fold_each (CreatableElement s (is_standalone p)) _
      (check_create_element-Creatable s (is_standalone p)) vars (elements_of p)

check_create-Ensures :
    (s : Scope) (list : PatternList)
    → Ensures
        (λ _. All (λ p. All (CreatableElement s (is_standalone p)) (elements_of p)) (patterns list))
        (check_create s list)
unfolding check_create
check_create-Ensures s list =
    try_fold_each (λ p. All (CreatableElement s (is_standalone p)) (elements_of p)) _
      (check_create_pattern-Creatable s) [] (patterns list)
    ⟫ λ _ creatable. passes creatable

-- In a `CREATE` that passes, every relationship has one type, a direction, no range and a variable
-- that was not in scope, and a node whose variable was in scope has neither labels nor properties
-- and is not alone in its pattern.
pub check_create-Creatable :
    (s s' : Scope) (list : PatternList)
    → check_create s list ≡ ok s'
    → All (λ p. All (CreatableElement s (is_standalone p)) (elements_of p)) (patterns list)
check_create-Creatable s s' list e = of_ok (rw e at (check_create-Ensures s list))
