-- ===== src/Lqa/Write/Bnodes.antt =====
-- `strip_writes_with_bnodes` and the tests before it (crates/polygraph/src/lqa/write.rs). The map
-- from node names to IRIs is read only by `get`, so it is a function here.
use Prim.Native.Char.{Char, code}
use Prim.Native.String.{[] as empty, ◌∷◌ as ◌◂◌}
use text.Mathlib.Text.{starts_with}
use mathlib.Core.List.{head?, tail}
use rs_polygraph.Base.{
  Bool, true, false, ◌||◌, String, Option, none, some, List, [], ◌∷◌, ◌++◌, ℕ, if◌then◌else◌,
  nat_beq,
}
use rs_polygraph.Lqa.Syntax
use rs_polygraph.Lqa.Syntax.{Op, CreateNodes, Literal}
use rs_polygraph.Lqa.Write.{product}

unfoldable pub op_contains_create : Op → Bool
op_contains_create (Op.create _ _ _) = true
op_contains_create (Op.set inner _) = op_contains_create inner
op_contains_create (Op.delete inner _ _) = op_contains_create inner
op_contains_create (Op.remove inner _) = op_contains_create inner
op_contains_create (Op.projection inner _ _) = op_contains_create inner
op_contains_create (Op.group_by inner _ _) = op_contains_create inner
op_contains_create (Op.limit inner _) = op_contains_create inner
op_contains_create (Op.skip inner _) = op_contains_create inner
op_contains_create (Op.order_by inner _) = op_contains_create inner
op_contains_create (Op.expand inner _ _ _ _ _ _ _) = op_contains_create inner
op_contains_create (Op.selection inner _) = op_contains_create inner
op_contains_create (Op.merge inner _) = op_contains_create inner
op_contains_create (Op.cartesian_product left right) =
    op_contains_create left || op_contains_create right
op_contains_create _ = false

unfoldable pub op_has_create_before_merge : Op → Bool
unfolding op_contains_create
op_has_create_before_merge (Op.merge inner _) = op_contains_create inner
op_has_create_before_merge (Op.create inner _ _) = op_has_create_before_merge inner
op_has_create_before_merge (Op.set inner _) = op_has_create_before_merge inner
op_has_create_before_merge (Op.delete inner _ _) = op_has_create_before_merge inner
op_has_create_before_merge (Op.remove inner _) = op_has_create_before_merge inner
op_has_create_before_merge (Op.projection inner _ _) = op_has_create_before_merge inner
op_has_create_before_merge (Op.group_by inner _ _) = op_has_create_before_merge inner
op_has_create_before_merge (Op.limit inner _) = op_has_create_before_merge inner
op_has_create_before_merge (Op.skip inner _) = op_has_create_before_merge inner
op_has_create_before_merge (Op.order_by inner _) = op_has_create_before_merge inner
op_has_create_before_merge (Op.expand inner _ _ _ _ _ _ _) = op_has_create_before_merge inner
op_has_create_before_merge (Op.selection inner _) = op_has_create_before_merge inner
op_has_create_before_merge (Op.cartesian_product left right) =
    op_has_create_before_merge left || op_has_create_before_merge right
op_has_create_before_merge _ = false

-- `trim_start_matches(c)`
unfoldable pub trim_start_matches : ℕ → String → String
trim_start_matches c empty = empty
trim_start_matches c (ch ◂ rest) =
    if nat_beq (code ch) c then trim_start_matches c rest else ch ◂ rest

abbrev drop_last : ℕ → Char → String → String
drop_last c ch empty = if nat_beq (code ch) c then empty else ch ◂ empty
drop_last c ch (d ◂ rest) = ch ◂ (d ◂ rest)

-- `trim_end_matches(c)`
unfoldable pub trim_end_matches : ℕ → String → String
trim_end_matches c empty = empty
trim_end_matches c (ch ◂ rest) = drop_last c ch (trim_end_matches c rest)

-- `<iri>` without its angle brackets
unfoldable pub bare_iri : String → String
unfolding trim_start_matches trim_end_matches
bare_iri iri = trim_end_matches b'>' (trim_start_matches b'<' iri)

module _ (bnode_map : String → Option String) where
  unfoldable pub node_source : String → List String → Op
  unfolding bare_iri
  node_source var labels = elim (bnode_map var) [
    | none ↦ Op.scan var (head? labels) (tail labels)
    | some iri ↦
        if starts_with iri "<"
        then Op.values
            (Syntax.binding var (Syntax.literal (Literal.iri (bare_iri iri))) Syntax.no_binding)
        else Op.scan var (head? labels) (tail labels)
  ]

  unfoldable pub node_op : Option String → List String → List Op
  unfolding node_source
  node_op none labels = []
  node_op (some var) labels = if starts_with var "_lqa_" then [] else node_source var labels ∷ []

  unfoldable pub node_ops : CreateNodes → List Op
  unfolding node_op
  node_ops Syntax.no_node = []
  node_ops (Syntax.node variable labels _ rest) = node_op variable labels ++ node_ops rest

  unfoldable pub strip_writes_with_bnodes : Op → Op
  unfolding node_ops product
  strip_writes_with_bnodes (Op.projection inner items d) =
      Op.projection (strip_writes_with_bnodes inner) items d
  strip_writes_with_bnodes (Op.create inner nodes _) =
      product (strip_writes_with_bnodes inner) (node_ops nodes)
  strip_writes_with_bnodes (Op.set inner _) = strip_writes_with_bnodes inner
  strip_writes_with_bnodes (Op.delete inner _ _) = strip_writes_with_bnodes inner
  strip_writes_with_bnodes (Op.remove inner _) = strip_writes_with_bnodes inner
  strip_writes_with_bnodes (Op.merge inner _) = strip_writes_with_bnodes inner
  strip_writes_with_bnodes (Op.group_by inner keys items) =
      Op.group_by (strip_writes_with_bnodes inner) keys items
  strip_writes_with_bnodes op = op
