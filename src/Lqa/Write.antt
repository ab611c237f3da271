-- ===== src/Lqa/Write.antt =====
-- The tests and rewrites of operator trees that the compiler of write queries uses
-- (crates/polygraph/src/lqa/write.rs).
pub mod Strip
pub mod Bnodes
pub mod Search
use mathlib.Core.List.{head?, tail}
use text.Mathlib.Text.{starts_with}
use rs_polygraph.Base.{
  Bool, true, false, ◌||◌, String, Option, none, some, List, [], ◌∷◌, ◌++◌, if◌then◌else◌,
}
use rs_polygraph.Lqa.Syntax
use rs_polygraph.Lqa.Syntax.{Op, CreateNodes}

unfoldable pub contains_write : Op → Bool
contains_write Op.unit = false
contains_write (Op.scan _ _ _) = false
contains_write (Op.values _) = false
contains_write (Op.create _ _ _) = true
contains_write (Op.set _ _) = true
contains_write (Op.delete _ _ _) = true
contains_write (Op.remove _ _) = true
contains_write (Op.merge _ _) = true
contains_write (Op.call _ _ _ _) = true
contains_write (Op.foreach _ _ _ _) = true
contains_write (Op.projection inner _ _) = contains_write inner
contains_write (Op.selection inner _) = contains_write inner
contains_write (Op.expand inner _ _ _ _ _ _ _) = contains_write inner
contains_write (Op.order_by inner _) = contains_write inner
contains_write (Op.limit inner _) = contains_write inner
contains_write (Op.skip inner _) = contains_write inner
contains_write (Op.distinct inner) = contains_write inner
contains_write (Op.group_by inner _ _) = contains_write inner
contains_write (Op.unwind inner _ _) = contains_write inner
contains_write (Op.cartesian_product left right) = contains_write left || contains_write right
contains_write (Op.union left right) = contains_write left || contains_write right
contains_write (Op.union_all left right) = contains_write left || contains_write right
contains_write (Op.left_outer_join left right _) = contains_write left || contains_write right
contains_write (Op.subquery outer inner) = contains_write outer || contains_write inner

unfoldable pub contains_delete : Op → Bool
contains_delete Op.unit = false
contains_delete (Op.scan _ _ _) = false
contains_delete (Op.values _) = false
contains_delete (Op.delete _ _ _) = true
contains_delete (Op.create inner _ _) = contains_delete inner
contains_delete (Op.set inner _) = contains_delete inner
contains_delete (Op.remove inner _) = contains_delete inner
contains_delete (Op.merge inner _) = contains_delete inner
contains_delete (Op.call inner _ _ _) = contains_delete inner
contains_delete (Op.foreach inner _ _ _) = contains_delete inner
contains_delete (Op.projection inner _ _) = contains_delete inner
contains_delete (Op.selection inner _) = contains_delete inner
contains_delete (Op.expand inner _ _ _ _ _ _ _) = contains_delete inner
contains_delete (Op.order_by inner _) = contains_delete inner
contains_delete (Op.limit inner _) = contains_delete inner
contains_delete (Op.skip inner _) = contains_delete inner
contains_delete (Op.distinct inner) = contains_delete inner
contains_delete (Op.group_by inner _ _) = contains_delete inner
contains_delete (Op.unwind inner _ _) = contains_delete inner
contains_delete (Op.cartesian_product left right) = contains_delete left || contains_delete right
contains_delete (Op.union left right) = contains_delete left || contains_delete right
contains_delete (Op.union_all left right) = contains_delete left || contains_delete right
contains_delete (Op.left_outer_join left right _) = contains_delete left || contains_delete right
contains_delete (Op.subquery outer inner) = contains_delete outer || contains_delete inner

unfoldable pub contains_projection : Op → Bool
contains_projection Op.unit = false
contains_projection (Op.scan _ _ _) = false
contains_projection (Op.values _) = false
contains_projection (Op.projection _ _ _) = true
contains_projection (Op.selection inner _) = contains_projection inner
contains_projection (Op.expand inner _ _ _ _ _ _ _) = contains_projection inner
contains_projection (Op.order_by inner _) = contains_projection inner
contains_projection (Op.limit inner _) = contains_projection inner
contains_projection (Op.skip inner _) = contains_projection inner
contains_projection (Op.distinct inner) = contains_projection inner
contains_projection (Op.group_by inner _ _) = contains_projection inner
contains_projection (Op.unwind inner _ _) = contains_projection inner
contains_projection (Op.create inner _ _) = contains_projection inner
contains_projection (Op.set inner _) = contains_projection inner
contains_projection (Op.delete inner _ _) = contains_projection inner
contains_projection (Op.remove inner _) = contains_projection inner
contains_projection (Op.merge inner _) = contains_projection inner
contains_projection (Op.call inner _ _ _) = contains_projection inner
contains_projection (Op.foreach inner _ _ _) = contains_projection inner
contains_projection (Op.cartesian_product left right) =
    contains_projection left || contains_projection right
contains_projection (Op.union left right) = contains_projection left || contains_projection right
contains_projection (Op.union_all left right) =
    contains_projection left || contains_projection right
contains_projection (Op.left_outer_join left right _) =
    contains_projection left || contains_projection right
contains_projection (Op.subquery outer inner) =
    contains_projection outer || contains_projection inner

unfoldable pub is_top_level_return : Op → Bool
is_top_level_return (Op.projection _ _ _) = true
is_top_level_return (Op.order_by inner _) = is_top_level_return inner
is_top_level_return (Op.limit inner _) = is_top_level_return inner
is_top_level_return (Op.skip inner _) = is_top_level_return inner
is_top_level_return (Op.distinct inner) = is_top_level_return inner
is_top_level_return _ = false

unfoldable pub read_context : Op → Op
read_context (Op.create inner _ _) = read_context inner
read_context (Op.set inner _) = read_context inner
read_context (Op.delete inner _ _) = read_context inner
read_context (Op.remove inner _) = read_context inner
read_context (Op.merge inner _) = read_context inner
read_context (Op.call inner _ _ _) = read_context inner
read_context (Op.foreach inner _ _ _) = read_context inner
read_context op = op

-- The scan that stands for a created node, if the query itself named the node.
unfoldable pub node_scan : Option String → List String → List Op
node_scan none labels = []
node_scan (some var) labels =
    if starts_with var "_lqa_" then [] else Op.scan var (head? labels) (tail labels) ∷ []

unfoldable pub node_scans : CreateNodes → List Op
unfolding node_scan
node_scans Syntax.no_node = []
node_scans (Syntax.node variable labels _ rest) = node_scan variable labels ++ node_scans rest

-- the `fold` over the scans
unfoldable pub product : Op → List Op → Op
product acc [] = acc
product acc (op ∷ rest) = product (Op.cartesian_product acc op) rest

unfoldable pub strip_writes : Op → Op
strip_writes (Op.projection inner items d) = Op.projection (strip_writes inner) items d
strip_writes (Op.create inner nodes _) = product (strip_writes inner) (node_scans nodes)
strip_writes (Op.set inner _) = strip_writes inner
strip_writes (Op.delete inner _ _) = strip_writes inner
strip_writes (Op.remove inner _) = strip_writes inner
strip_writes (Op.merge inner _) = strip_writes inner
strip_writes (Op.call inner _ _ _) = strip_writes inner
strip_writes (Op.foreach inner _ _ _) = strip_writes inner
strip_writes (Op.group_by inner keys items) = Op.group_by (strip_writes inner) keys items
strip_writes (Op.selection inner predicate) = Op.selection (strip_writes inner) predicate
strip_writes (Op.unwind inner list variable) = Op.unwind (strip_writes inner) list variable
strip_writes (Op.order_by inner keys) = Op.order_by (strip_writes inner) keys
strip_writes (Op.limit inner count) = Op.limit (strip_writes inner) count
strip_writes (Op.skip inner count) = Op.skip (strip_writes inner) count
strip_writes (Op.distinct inner) = Op.distinct (strip_writes inner)
strip_writes (Op.expand inner from rel_var to rel_types direction range path_var) =
    Op.expand (strip_writes inner) from rel_var to rel_types direction range path_var
strip_writes (Op.cartesian_product left right) =
    Op.cartesian_product (strip_writes left) (strip_writes right)
strip_writes (Op.union left right) = Op.union (strip_writes left) (strip_writes right)
strip_writes (Op.union_all left right) = Op.union_all (strip_writes left) (strip_writes right)
strip_writes (Op.left_outer_join left right condition) =
    Op.left_outer_join (strip_writes left) (strip_writes right) condition
strip_writes (Op.subquery outer inner) = Op.subquery (strip_writes outer) (strip_writes inner)
strip_writes op = op
