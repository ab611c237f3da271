-- ===== src/Translator/Scope/Create.antt =====
-- The arms of `Clause::Create` and `Clause::Merge` in `validate_semantics`
-- (crates/polygraph/src/translator/cypher/semantics.rs).
use Prim.Native.String.{◌++◌}
use rs_polygraph.Base.{
  String, Bool, true, false, not, ◌&&◌, ◌||◌, Option, none, some, List, [], ◌∷◌, length, ltb,
  nat_beq, if◌then◌else◌,
}
use rs_polygraph.Base.Any.{any}
use rs_polygraph.Base.Eq.{◌==◌, string_eq, option_eq}
use rs_polygraph.Base.Names.{has, insert}
use rs_polygraph.Ast
use rs_polygraph.Ast.{
  Expression, OptMapLiteral, Pattern, PatternList, PatternElement, RangeQuantifier, SetItem,
  MergeActions,
}
use rs_polygraph.Ast.Equality.{same_direction}
use rs_polygraph.Ast.Views.{
  patterns, path_variable, elements_of, opt_values, is_some_map, action_items,
}
use rs_polygraph.Results.{Result, ok, ◌>>=◌}
use rs_polygraph.Results.Checks.{reject, each, try_fold, ◌>>◌}
use rs_polygraph.Translator.Collect.{collect_prop_vars, collect_merge_action_vars}
use rs_polygraph.Translator.Scans.{Kind, is_known}
use rs_polygraph.Translator.Scans
use rs_polygraph.Translator.Scope.{Scope, bind, already_bound, undefined, require_known}

abbrev pub is_empty {ℓ} : {A : Type ℓ} → List A → Bool
is_empty [] = true
is_empty (_ ∷ _) = false

abbrev pub is_some {ℓ} : {A : Type ℓ} → Option A → Bool
is_some none = false
is_some (some _) = true

abbrev is_null : Expression → Bool
is_null (Ast.literal Ast.null) = true
is_null _ = false

-- `already_bound`: known before the clause, or a variable of the clause already
abbrev pub is_taken : Scope → List String → String → Bool
is_taken s vars v = is_known s.bound_vars s.kinds v || has v vars

-- The variables of the clause after one more; `insert` is reached only for an unknown variable.
abbrev pub note_var : Scope → List String → String → List String
note_var s vars v = if is_known s.bound_vars s.kinds v then vars else insert v vars

-- a node of `CREATE` or `MERGE`: a variable that is taken must be a bare end of a relationship
unfoldable pub check_new_node :
    Scope → Bool → List String → Option String → List String → OptMapLiteral → Result (List String)
check_new_node s standalone vars none labels properties = ok vars
check_new_node s standalone vars (some v) labels properties =
    reject (is_taken s vars v && (not (is_empty labels) || is_some_map properties || standalone))
      (already_bound v)
    >> ok (note_var s vars v)

-- a relationship variable must be new
unfoldable pub check_new_rel : Scope → List String → Option String → Result (List String)
check_new_rel s vars none = ok vars
check_new_rel s vars (some v) =
    reject (is_taken s vars v) (already_bound v) >> ok (note_var s vars v)

-- the variables in the properties of a created node
unfoldable pub check_prop_vars : Scope → List String → OptMapLiteral → Result (Unit {0})
check_prop_vars s vars properties =
    each (λ v. reject (not (is_taken s vars v)) (undefined v)) (collect_prop_vars properties)

-- the checks of the type list
unfoldable pub check_rel_types : String → List String → Result (Unit {0})
check_rel_types clause types =
    reject (is_empty types)
      ("NoSingleRelationshipType: relationship in " ++ (clause ++ " must have exactly one type"))
    >> reject (ltb 1 (length types))
        ("NoSingleRelationshipType: relationship in " ++ (clause ++ " cannot have multiple types"))

unfoldable pub check_rel_range : String → Option RangeQuantifier → Result (Unit {0})
check_rel_range clause range =
    reject (is_some range)
      ("CreatingVarLength: variable-length relationship in " ++ (clause ++ " is not supported"))

unfoldable pub check_create_element :
    Scope → Bool → List String → PatternElement → Result (List String)
unfolding check_new_node check_new_rel check_prop_vars check_rel_types check_rel_range
check_create_element s standalone vars (Ast.node v labels properties) = do
  vars' ← check_new_node s standalone vars v labels properties
  check_prop_vars s vars' properties
  ok vars'
check_create_element s standalone vars (Ast.relationship v direction types properties range) = do
  check_rel_types "CREATE" types
  reject (same_direction direction Ast.both)
      "RequiresDirectedRelationship: relationship in CREATE must have a direction"
  check_rel_range "CREATE" range
  check_new_rel s vars v

-- `pattern.elements.len() == 1`
abbrev pub is_standalone : Pattern → Bool
is_standalone p = nat_beq (length (elements_of p)) 1

unfoldable pub check_create_pattern : Scope → List String → Pattern → Result (List String)
unfolding check_create_element
check_create_pattern s vars p =
    try_fold (check_create_element s (is_standalone p)) vars (elements_of p)

-- `for v in create_vars { bound_vars.insert(v); }`
unfoldable pub insert_names : List String → List String → List String
insert_names [] bound = bound
insert_names (v ∷ vs) bound = insert_names vs (insert v bound)

unfoldable pub check_create : Scope → PatternList → Result Scope
unfolding check_create_pattern insert_names
check_create s list = do
  vars ← try_fold (check_create_pattern s) [] (patterns list)
  ok (record s { bound_vars = insert_names vars s.bound_vars })

unfoldable pub check_null_properties : OptMapLiteral → Result (Unit {0})
check_null_properties properties =
    reject (any is_null (opt_values properties))
      "SemanticError: MergeReadOwnWrites: null property values are not allowed in MERGE"

unfoldable pub check_merge_element :
    Scope → Bool → List String → PatternElement → Result (List String)
unfolding check_new_node check_new_rel check_rel_types check_rel_range check_null_properties
check_merge_element s standalone vars (Ast.node v labels properties) =
    check_null_properties properties >> check_new_node s standalone vars v labels properties
check_merge_element s standalone vars (Ast.relationship v direction types properties range) = do
  check_null_properties properties
  check_rel_types "MERGE" types
  check_rel_range "MERGE" range
  check_new_rel s vars v

-- the kind of the first element that has the variable
unfoldable pub element_kind : String → List PatternElement → Kind
element_kind v [] = Scans.node
element_kind v (Ast.node u _ _ ∷ es) = if u == some v then Scans.node else element_kind v es
element_kind v (Ast.relationship u _ _ _ _ ∷ es) =
    if u == some v then Scans.rel else element_kind v es

-- `for v in merge_vars { … }`
unfoldable pub register_merged : List PatternElement → List String → Scope → Scope
unfolding element_kind
register_merged es [] s = s
register_merged es (v ∷ vs) s = register_merged es vs (bind v (element_kind v es) s)

abbrev pub register_merged_path : Option String → Scope → Scope
register_merged_path none s = s
register_merged_path (some v) s = bind v Scans.path s

-- the variable that a `SET` changes
abbrev pub subject : SetItem → String
subject (Ast.set_property v _ _) = v
subject (Ast.merge_map v _) = v
subject (Ast.node_replace v _) = v
subject (Ast.set_label v _) = v

-- the variables of the right-hand side in an action of `MERGE`
abbrev pub action_rhs_vars : SetItem → List String
action_rhs_vars (Ast.set_property _ _ e) = collect_merge_action_vars e
action_rhs_vars (Ast.node_replace _ e) = collect_merge_action_vars e
action_rhs_vars _ = []

unfoldable pub check_action_item : Scope → SetItem → Result (Unit {0})
unfolding require_known
check_action_item s i =
    reject (not (is_known s.bound_vars s.kinds (subject i))) (undefined (subject i))
    >> require_known s (action_rhs_vars i)

unfoldable pub check_merge : Scope → Pattern → MergeActions → Result Scope
unfolding check_merge_element register_merged check_action_item
check_merge s p actions = do
  vars ← try_fold (check_merge_element s (is_standalone p)) [] (elements_of p)
  let s' = register_merged_path (path_variable p) (register_merged (elements_of p) vars s)
  each (each (check_action_item s')) (action_items actions)
  ok s'
