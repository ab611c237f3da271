-- ===== src/Translator/Scope/Creates.antt =====
-- The scopes after `CREATE` and `MERGE` (crates/polygraph/src/translator/cypher/semantics.rs).
use rs_polygraph.Base.{
  String, Bool, true, false, ◌||◌, Option, none, some, List, [], ◌∷◌, ◌++◌, ◌≡◌, arith, length, ltb,
  All,
}
use rs_polygraph.Base.Eq.{string_eq}
use rs_polygraph.Base.Names.{has, insert, has-insert, has-nil, has-append}
use rs_polygraph.Ast
use rs_polygraph.Ast.{
  Pattern, PatternList, PatternElement, OptMapLiteral, RangeQuantifier, MergeActions, SetItem,
}
use rs_polygraph.Ast.Views.{patterns, path_variable, elements_of, action_items}
use rs_polygraph.Results.{Result}
use rs_polygraph.Results.Checks.{
  Ensures, Passes, passes, ◌⟫◌, weaken, reject_lem, each_lem, try_fold,
}
use rs_polygraph.Translator.Scans.{Kind}
use rs_polygraph.Translator.Scans
use rs_polygraph.Translator.Scope.{Scope, require_known}
use rs_polygraph.Translator.Scope.Known.{
  Known, is_known-Known, Extended, same-Extended, bind-Extended, then-Extended, gather,
}
use rs_polygraph.Translator.Scope.Visible.{name, element_names, path_names, pattern_names}
use rs_polygraph.Translator.Scope.Create.{
  is_empty, is_some, check_rel_types, check_rel_range, check_null_properties, register_merged_path,
  note_var, check_new_node, check_new_rel, check_prop_vars, check_create_element, is_standalone,
  check_create_pattern, insert_names, check_create, check_merge_element, element_kind,
  register_merged, check_action_item, check_merge,
}

-- Together with the scope, `vars'` has the names of `vars` and `names`.
abbrev Grown : Scope → List String → List String → List String → Type 0
Grown s vars names vars' =
    (x : String)
    → (has x s.bound_vars || has x vars') ≡ ((has x s.bound_vars || has x vars) || has x names)

note_var-Grown :
    (s : Scope) (vars : List String) (v : String)
    → Known s
    → Grown s vars (v ∷ []) (note_var s vars v)
unfolding has
note_var-Grown s vars v known x =
    ground (arith, is_known-Known s known v, has-insert x v vars, string_eq.decides v x)

same-Grown : (s : Scope) (vars : List String) → Grown s vars [] vars
unfolding has
same-Grown s vars x = ground arith

then-Grown :
    (s : Scope) (vars names vars' names' vars'' : List String)
    → Grown s vars names vars'
    → Grown s vars' names' vars''
    → Grown s vars (names ++ names') vars''
then-Grown s vars names vars' names' vars'' p q x =
    ground (arith, p x, q x, has-append x names names')

try_fold-Grown :
    {A : Type 0} (s : Scope) (names : A → List String)
    (step : List String → A → Result (List String))
    → ((vars : List String) (a : A) → Ensures (Grown s vars (names a)) (step vars a))
    → (vars : List String) (xs : List A)
    → Ensures (Grown s vars (gather names xs)) (try_fold step vars xs)
unfolding try_fold gather
try_fold-Grown s names step one vars [] = passes (same-Grown s vars)
try_fold-Grown s names step one vars (x ∷ xs) = one vars x ⟫ λ vars' p.
    weaken (λ vars'' q. then-Grown s vars (names x) vars' (gather names xs) vars'' p q)
      (try_fold-Grown s names step one vars' xs)

-- The checks of the type list leave exactly one type.
pub check_rel_types_lem :
    (clause : String) (types : List String)
    → Passes (check_rel_types clause types) (length types ≡ 1)
unfolding check_rel_types
check_rel_types_lem clause types =
    reject_lem _ _ ⟫ λ _ p. weaken (λ _ q. one types p q) (reject_lem _ _)
  where
    one :
        (types : List String)
        → is_empty types ≡ false
        → ltb 1 (length types) ≡ false
        → length types ≡ 1
    one [] p q = ground arith
    one (_ ∷ ts) p q = ground arith

pub check_rel_range_lem :
    (clause : String) (range : Option RangeQuantifier)
    → Passes (check_rel_range clause range) (is_some range ≡ false)
unfolding check_rel_range
check_rel_range_lem clause range = reject_lem _ _

module _ (s : Scope) (known : Known s) where
  check_new_node-Grown :
      (standalone : Bool) (vars : List String) (v : Option String) (labels : List String)
      (properties : OptMapLiteral)
      → Ensures (Grown s vars (name v)) (check_new_node s standalone vars v labels properties)
  unfolding check_new_node
  check_new_node-Grown standalone vars none labels properties = passes (same-Grown s vars)
  check_new_node-Grown standalone vars (some v) labels properties =
      reject_lem _ _ ⟫ λ _ _. passes (note_var-Grown s vars v known)

  check_new_rel-Grown :
      (vars : List String) (v : Option String)
      → Ensures (Grown s vars (name v)) (check_new_rel s vars v)
  unfolding check_new_rel
  check_new_rel-Grown vars none = passes (same-Grown s vars)
  check_new_rel-Grown vars (some v) = reject_lem _ _ ⟫ λ _ _. passes (note_var-Grown s vars v known)

  check_create_element-Grown :
      (standalone : Bool) (vars : List String) (e : PatternElement)
      → Ensures (Grown s vars (element_names e)) (check_create_element s standalone vars e)
  unfolding check_create_element check_prop_vars
  check_create_element-Grown standalone vars (Ast.node v labels properties) =
      check_new_node-Grown standalone vars v labels properties ⟫ λ vars' p.
      each_lem (λ _. Unit) _ (λ _. weaken (λ _ _. tt) (reject_lem _ _)) _ ⟫ λ _ _. passes p
  check_create_element-Grown standalone vars (Ast.relationship v direction types properties range) =
      check_rel_types_lem "CREATE" types ⟫ λ _ _.
      reject_lem _ _ ⟫ λ _ _. check_rel_range_lem "CREATE" range ⟫ λ _ _. check_new_rel-Grown vars v

  check_merge_element-Grown :
      (standalone : Bool) (vars : List String) (e : PatternElement)
      → Ensures (Grown s vars (element_names e)) (check_merge_element s standalone vars e)
  unfolding check_merge_element check_null_properties
  check_merge_element-Grown standalone vars (Ast.node v labels properties) =
      reject_lem _ _ ⟫ λ _ _. check_new_node-Grown standalone vars v labels properties
  check_merge_element-Grown standalone vars (Ast.relationship v direction types properties range) =
      reject_lem _ _ ⟫ λ _ _. check_rel_types_lem "MERGE" types ⟫ λ _ _.
      check_rel_range_lem "MERGE" range ⟫ λ _ _. check_new_rel-Grown vars v

  check_create_pattern-Grown :
      (vars : List String) (p : Pattern)
      → Ensures (Grown s vars (pattern_names p)) (check_create_pattern s vars p)
  unfolding check_create_pattern pattern_names
  check_create_pattern-Grown vars p =
      try_fold-Grown s element_names _ (check_create_element-Grown (is_standalone p)) vars
        (elements_of p)

insert_names-has :
    (x : String) (vars bound : List String)
    → has x (insert_names vars bound) ≡ (has x bound || has x vars)
unfolding insert_names has
insert_names-has x [] bound = ground arith
insert_names-has x (v ∷ vs) bound =
    ground (arith, insert_names-has x vs (insert v bound), has-insert x v bound)

insert_names-Extended :
    (s : Scope) (vars : List String)
    → Known s
    → Extended s vars (record s { bound_vars = insert_names vars s.bound_vars })
insert_names-Extended s vars known = record {
  known = λ x h. ground (arith, insert_names-has x vars s.bound_vars, known x h);
  grows = λ x. insert_names-has x vars s.bound_vars;
}

-- the variables of the clause that were new are all its variables, with the scope before
renew :
    (s s' : Scope) (vars names : List String)
    → Grown s [] names vars
    → Extended s vars s'
    → Extended s names s'
renew s s' vars names grown e = record {
  known = e.known;
  grows = λ x. ground (arith, e.grows x, grown x, has-nil x);
}

-- A `CREATE` adds the node and relationship variables of its patterns.
pub check_create-Extended :
    (s : Scope) (list : PatternList)
    → Known s
    → Ensures (Extended s (gather pattern_names (patterns list))) (check_create s list)
unfolding check_create
check_create-Extended s list known =
    try_fold-Grown s pattern_names _ (check_create_pattern-Grown s known) [] (patterns list)
    ⟫ λ vars p. passes (renew s _ vars _ p (insert_names-Extended s vars known))

register_merged-Extended :
    (es : List PatternElement) (vars : List String) (s : Scope)
    → Known s
    → Extended s vars (register_merged es vars s)
unfolding register_merged
register_merged-Extended es [] s known = same-Extended known
register_merged-Extended es (v ∷ vs) s known =
    let first = bind-Extended s v (element_kind v es) known in
    then-Extended first (register_merged-Extended es vs _ first.known)

register_merged_path-Extended :
    (v : Option String) (s : Scope) → Known s → Extended s (name v) (register_merged_path v s)
register_merged_path-Extended none s known = same-Extended known
register_merged_path-Extended (some v) s known = bind-Extended s v Scans.path known

pub require_known_lem :
    (s : Scope) (vars : List String)
    → Known s
    → Passes (require_known s vars) (All (λ v. has v s.bound_vars ≡ true) vars)
unfolding require_known
require_known_lem s vars known =
    each_lem _ _ (λ v. weaken (λ _ h. ground (arith, is_known-Known s known v, h)) (reject_lem _ _))
      vars

check_action_item_passes :
    (s : Scope) (i : SetItem) → Known s → Passes (check_action_item s i) (Unit {0})
unfolding check_action_item
check_action_item_passes s i known =
    reject_lem _ _ ⟫ λ _ _. weaken (λ _ _. tt) (require_known_lem s _ known)

-- A `MERGE` adds the variables of its pattern, and its path variable.
pub check_merge-Extended :
    (s : Scope) (p : Pattern) (actions : MergeActions)
    → Known s
    → Ensures (Extended s (pattern_names p ++ path_names p)) (check_merge s p actions)
unfolding check_merge pattern_names
check_merge-Extended s p actions known =
    try_fold-Grown s element_names _ (check_merge_element-Grown s known (is_standalone p)) []
      (elements_of p)
    ⟫ λ vars grown.
        let t = register_merged (elements_of p) vars s in
        let u = register_merged_path (path_variable p) t in
        let registered = register_merged-Extended (elements_of p) vars s known in
        let merged = register_merged_path-Extended (path_variable p) t registered.known in
        each_lem (λ _. Unit) _
          (λ items.
            weaken (λ _ _. tt)
              (each_lem (λ _. Unit) _ (λ i. check_action_item_passes u i merged.known) items))
          (action_items actions)
        ⟫ λ _ _. passes (then-Extended (renew s t vars _ grown registered) merged)
