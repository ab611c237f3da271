-- ===== src/Translator/Scope/Replaces.antt =====
-- The scope after `WITH` (crates/polygraph/src/translator/cypher/semantics.rs).
use rs_polygraph.Base.{
  String, true, false, ◌||◌, Option, none, some, List, [], ◌∷◌, ◌++◌, ◌≡◌, refl, arith,
}
use rs_polygraph.Base.Any.{any}
use rs_polygraph.Base.Dict.{get}
use rs_polygraph.Base.Eq.{◌==◌, string_eq}
use rs_polygraph.Base.Names.{has, has-insert, has-nil, has-append}
use rs_polygraph.Ast
use rs_polygraph.Ast.{Expression, ReturnItems, ItemList, OptOrderBy}
use rs_polygraph.Ast.Views.{ReturnItem, items_of, sort_keys}
use rs_polygraph.Results.Checks.{
  Ensures, Passes, passes, fails, ◌⟫◌, weaken, skim, when_lem, reject_lem, each_skim,
  each_reject_lem, try_fold,
}
use rs_polygraph.Translator.Aggregation.{expr_contains_aggregate, expr_has_free_var_outside_agg}
use rs_polygraph.Translator.Collect.{collect_free_vars_ob}
use rs_polygraph.Translator.Scans.{Kind, Kinds, contains_key}
use rs_polygraph.Translator.Unions.{column_name}
use rs_polygraph.Translator.Scope.{Scope, put}
use rs_polygraph.Translator.Scope.Known.{Known, contains_key-put, gather}
use rs_polygraph.Translator.Scope.Visible.{name, item_names}
use rs_polygraph.Translator.Scope.With.{
  projection_has_agg, Projected, note_kind, project_name, project_item, project_items,
  check_order_scope, check_order_aggregate, check_order_aggregates, check_with_order, retain,
  insert_all, replace_scope, check_with,
}

-- The projection has the names of the first items, and kinds for those names only.
record Names (names : List String) (p : Projected) : Type 0 where
  exact : (x : String) → has x p.names ≡ has x names
  typed : (x : String) → contains_key p.kinds x ≡ true → has x p.names ≡ true

note_kind-typed :
    (v x : String) (kind : Option Kind) (m : Kinds)
    → contains_key (note_kind v kind m) x ≡ true
    → (v == x || contains_key m x) ≡ true
note_kind-typed v x none m h = ground arith
note_kind-typed v x (some kind) m h = ground (arith, contains_key-put v x kind m)

project_name-Names :
    (kinds : Kinds) (p : Projected) (names : List String) (e : Expression) (v : Option String)
    → Names names p
    → Ensures (Names (names ++ name v)) (project_name kinds p e v)
unfolding has
project_name-Names kinds p names e none h = fails _
project_name-Names kinds p names e (some v) h = passes (record {
  exact = λ x. ground (arith, has-insert x v p.names, has-append x names (v ∷ []), h.exact x);
  typed = λ x k. ground (arith, has-insert x v p.names, note_kind-typed v x _ p.kinds k, h.typed x);
})

-- the names of a list, regrouped
regroup :
    {ns ms : List String} (p : Projected)
    → ((x : String) → has x ns ≡ has x ms)
    → Names ns p
    → Names ms p
regroup p e h = record { exact = λ x. ground (arith, h.exact x, e x); typed = h.typed }

has-append_nil : (x : String) (ns : List String) → has x ns ≡ has x (ns ++ [])
has-append_nil x ns = ground (arith, has-append x ns [], has-nil x)

has-append_assoc :
    (x : String) (ns ms ks : List String) → has x ((ns ++ ms) ++ ks) ≡ has x (ns ++ (ms ++ ks))
has-append_assoc x ns ms ks = ground (
  arith,
  has-append x (ns ++ ms) ks,
  has-append x ns ms,
  has-append x ns (ms ++ ks),
  has-append x ms ks,
)

project_items-Names :
    (kinds : Kinds) (p : Projected) (names : List String) (items : List ReturnItem)
    → Names names p
    → Ensures (Names (names ++ gather item_names items)) (try_fold (project_item kinds) p items)
unfolding try_fold gather project_item
project_items-Names kinds p names [] h = passes (regroup p (λ x. has-append_nil x names) h)
project_items-Names kinds p names (i ∷ is) h =
    project_name-Names kinds p names i.expression (column_name i) h ⟫ λ p' h'.
    weaken (λ q. regroup q (λ x. has-append_assoc x names (item_names i) (gather item_names is)))
      (project_items-Names kinds p' (names ++ item_names i) is h')

retain-kept :
    (kept m : Kinds) (x : String)
    → contains_key (retain kept m) x ≡ true
    → contains_key kept x ≡ true
unfolding retain get
retain-kept kept [] x h = absurd (ground arith)
retain-kept kept ((k, kind) ∷ m) x h = ground (arith, retain-kept kept m x, string_eq.decides k x)

insert_all-keys :
    (m kinds : Kinds) (x : String)
    → contains_key (insert_all m kinds) x ≡ (contains_key m x || contains_key kinds x)
unfolding insert_all get
insert_all-keys [] kinds x = refl
insert_all-keys ((k, kind) ∷ m) kinds x =
    ground (arith, insert_all-keys m (put k kind kinds) x, contains_key-put k x kind kinds)

replace_scope-Known :
    (p : Projected) (names : List String) (s : Scope) → Names names p → Known (replace_scope p s)
unfolding replace_scope
replace_scope-Known p names s h x k = h.typed x (
    ground
      (arith, insert_all-keys p.kinds (retain p.kinds s.kinds) x, retain-kept p.kinds s.kinds x))

check_order_scope_passes :
    (s : Scope) (names : List String) (items : List ReturnItem) (keys : List Expression)
    → Passes (check_order_scope s names items keys) (Unit {0})
unfolding check_order_scope
check_order_scope_passes s names items = each_skim _ λ key.
    when_lem (expr_contains_aggregate key) _ _ (passes tt)
      (skim (each_reject_lem _ _ (collect_free_vars_ob key)))

check_order_aggregate_passes :
    (items : List ReturnItem) (key : Expression)
    → Passes (check_order_aggregate items key) (Unit {0})
unfolding check_order_aggregate
check_order_aggregate_passes items key =
    when_lem (expr_has_free_var_outside_agg key) _ _ (skim (reject_lem _ _)) (skim (reject_lem _ _))

check_order_aggregates_passes :
    (items : List ReturnItem) (keys : List Expression)
    → Passes (check_order_aggregates items keys) (Unit {0})
unfolding check_order_aggregates
check_order_aggregates_passes items keys =
    when_lem (projection_has_agg items) _ _
      (each_skim _
        (λ key.
          when_lem (expr_contains_aggregate key) _ _ (check_order_aggregate_passes items key)
            (passes tt))
        keys)
      (skim (each_reject_lem _ _ keys))

check_with_order_passes :
    (s : Scope) (names : List String) (items : List ReturnItem) (order : OptOrderBy)
    → Passes (check_with_order s names items order) (Unit {0})
unfolding check_with_order
check_with_order_passes s names items Ast.unordered = passes tt
check_with_order_passes s names items (Ast.order_by keys) =
    when_lem (any (λ _. true) s.bound_vars) _ _
      (check_order_scope_passes s names items (sort_keys keys)) (passes tt)
    ⟫ λ _ _. check_order_aggregates_passes items (sort_keys keys)

no_keys : (x : String) → contains_key [] x ≡ false
unfolding get
no_keys x = refl

-- After a `WITH` with items, the names of the items are in scope and no others.
pub check_with-replaces :
    (s : Scope) (list : ItemList) (order : OptOrderBy)
    → Ensures
        (λ s'.
          Known s'
          × ((x : String) → has x s'.bound_vars ≡ has x (gather item_names (items_of list))))
        (check_with s (Ast.explicit list) order)
unfolding check_with project_items
check_with-replaces s list order = each_skim _ (λ i. skim (reject_lem _ _)) (items_of list) ⟫ λ _ _.
    project_items-Names s.kinds (record { names = []; kinds = [] }) [] (items_of list)
      (record { exact = λ x. refl; typed = λ x k. ground (arith, no_keys x, k) })
    ⟫ λ p h. check_with_order_passes s p.names (items_of list) order ⟫ λ _ _.
        each_skim _ (λ i. skim (reject_lem _ _)) (items_of list) ⟫ λ _ _.
        passes (replace_scope-Known p _ s h, unfold replace_scope in h.exact)
