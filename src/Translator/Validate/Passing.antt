-- ===== src/Translator/Validate/Passing.antt =====
-- What the clauses that leave the scope as it is establish: `RETURN`, `DELETE` and `SET`
-- (crates/polygraph/src/translator/cypher/semantics.rs).
use rs_polygraph.Base.{String, Bool, true, Option, none, some, List, ◌≡◌, All}
use rs_polygraph.Base.Names.{has}
use rs_polygraph.Ast
use rs_polygraph.Ast.{Expression, Expressions, ReturnItems, OptOrderBy, SetItem, SetItems}
use rs_polygraph.Ast.Views.{ReturnItem, expressions, set_items, sort_keys, items_of}
use rs_polygraph.Results.Checks.{
  Passes, passes, fails, ◌⟫◌, weaken, skim, when_lem, reject_lem, each_lem, each_skim,
}
use rs_polygraph.Translator.Collect.{collect_free_vars, collect_set_rhs_vars}
use rs_polygraph.Translator.Scope.{Scope}
use rs_polygraph.Translator.Scope.Known.{Known}
use rs_polygraph.Translator.Scope.Creates.{require_known_lem}
use rs_polygraph.Translator.Scope.With.{projection_has_agg}
use rs_polygraph.Translator.Scope.Return.{
  explicit_items, order_keys, size_fault, check_return_item, check_return_vars, distinct_fault,
  check_distinct_order, check_return_order, check_return,
}
use rs_polygraph.Translator.Scope.Update.{
  has_context, check_deleted, check_delete, check_set_rhs, check_set_item, check_set,
}

size_fault_passes : (fault : Option String) → Passes (size_fault fault) (Unit {0})
unfolding size_fault
size_fault_passes none = passes tt
size_fault_passes (some fault) = skim (reject_lem _ _)

check_return_item_passes :
    (items : List ReturnItem) (e : Expression) → Passes (check_return_item items e) (Unit {0})
unfolding check_return_item
check_return_item_passes items (Ast.aggregate a) = skim (reject_lem _ _)
check_return_item_passes items _ = skim (reject_lem _ _)

distinct_fault_passes :
    (s : Scope) (items : List ReturnItem) (e : Expression)
    → Passes (distinct_fault s items e) (Unit {0})
unfolding distinct_fault
distinct_fault_passes s items (Ast.property (Ast.variable v) k) = skim (reject_lem _ _)
distinct_fault_passes s items _ = passes tt

check_distinct_order_passes :
    (s : Scope) (distinct : Bool) (returned : ReturnItems) (order : OptOrderBy)
    → Passes (check_distinct_order s distinct returned order) (Unit {0})
unfolding check_distinct_order
check_distinct_order_passes s true (Ast.explicit list) (Ast.order_by keys) =
    each_skim _ (distinct_fault_passes s (items_of list)) (sort_keys keys)
check_distinct_order_passes s _ _ _ = passes tt

check_return_order_passes :
    (items : List ReturnItem) (keys : List Expression)
    → Passes (check_return_order items keys) (Unit {0})
unfolding check_return_order
check_return_order_passes items keys =
    when_lem (projection_has_agg items) _ _ (each_skim _ (λ _. skim (reject_lem _ _)) keys)
      (each_skim _ (λ _. skim (reject_lem _ _)) keys)

-- every collected variable of the item is in scope
abbrev pub Closed : Scope → ReturnItem → Type 0
Closed s i = All (λ v. has v s.bound_vars ≡ true) (collect_free_vars i.expression)

-- A `RETURN` that passes has items whose collected variables are in scope.
pub check_return-Closed :
    (s : Scope) (distinct : Bool) (returned : ReturnItems) (order : OptOrderBy)
    → Known s
    → Passes (check_return s distinct returned order) (All (Closed s) (explicit_items returned))
unfolding check_return check_return_vars
check_return-Closed s distinct returned order known =
    let items = explicit_items returned in
    reject_lem _ _ ⟫ λ _ _. each_skim _ (λ _. skim (reject_lem _ _)) items ⟫ λ _ _.
    each_skim _ (λ _. size_fault_passes _) items ⟫ λ _ _.
    each_skim _ (λ i. check_return_item_passes items i.expression) items ⟫ λ _ _.
    each_lem (Closed s) _ (λ i. require_known_lem s (collect_free_vars i.expression) known) items
    ⟫ λ _ closed. check_distinct_order_passes s distinct returned order ⟫ λ _ _.
        each_skim _ (λ _. skim (reject_lem _ _)) items ⟫ λ _ _.
        weaken (λ _ _. closed) (check_return_order_passes items (order_keys order))

check_deleted_passes : (s : Scope) (e : Expression) → Passes (check_deleted s e) (Unit {0})
unfolding check_deleted
check_deleted_passes s (Ast.label_check _ _) = fails _
check_deleted_passes s (Ast.literal _) = fails _
check_deleted_passes s (Ast.add _ _) = fails _
check_deleted_passes s (Ast.subtract _ _) = fails _
check_deleted_passes s (Ast.multiply _ _) = fails _
check_deleted_passes s (Ast.divide _ _) = fails _
check_deleted_passes s (Ast.variable v) = skim (reject_lem _ _)
check_deleted_passes s _ = passes tt

pub check_delete_passes :
    (s : Scope) (deleted : Expressions) → Passes (check_delete s deleted) (Unit {0})
unfolding check_delete
check_delete_passes s deleted = each_skim _ (check_deleted_passes s) (expressions deleted)

check_set_rhs_passes :
    (s : Scope) (e : Expression) → Known s → Passes (check_set_rhs s e) (Unit {0})
unfolding check_set_rhs
check_set_rhs_passes s e known =
    when_lem (has_context s) _ _ (skim (require_known_lem s (collect_set_rhs_vars e) known))
      (passes tt)

check_set_item_passes : (s : Scope) (i : SetItem) → Known s → Passes (check_set_item s i) (Unit {0})
unfolding check_set_item
check_set_item_passes s (Ast.set_property _ _ e) known =
    reject_lem _ _ ⟫ λ _ _. reject_lem _ _ ⟫ λ _ _. check_set_rhs_passes s e known
check_set_item_passes s (Ast.node_replace _ e) known = check_set_rhs_passes s e known
check_set_item_passes s (Ast.merge_map _ _) known = passes tt
check_set_item_passes s (Ast.set_label _ _) known = passes tt

pub check_set_passes :
    (s : Scope) (items : SetItems) → Known s → Passes (check_set s items) (Unit {0})
unfolding check_set
check_set_passes s items known =
    each_skim _ (λ i. check_set_item_passes s i known) (set_items items)
