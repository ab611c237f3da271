-- ===== src/Lqa/Write/Search.antt =====
-- What the searches of crates/polygraph/src/lqa/write.rs have to do with one another.
use rs_polygraph.Base.{Bool, true, false, ◌||◌, ◌≡◌, refl, arith}
use rs_polygraph.Lqa.Syntax.{Op}
use rs_polygraph.Lqa.Write.{
  contains_write, contains_delete, contains_projection, is_top_level_return, read_context,
}
use rs_polygraph.Lqa.Write.Bnodes.{op_has_create_before_merge}

or_mono :
    (a b : Bool) {c d : Bool}
    → (a ≡ true → c ≡ true)
    → (b ≡ true → d ≡ true)
    → (a || b) ≡ true
    → (c || d) ≡ true
or_mono true b {c} {d} f g h = ground (arith, f refl)
or_mono false b {c} {d} f g h = ground (arith, g h)

-- A tree with a delete is a tree with a write.
pub contains_write_of_delete : (op : Op) → contains_delete op ≡ true → contains_write op ≡ true
unfolding contains_write contains_delete
contains_write_of_delete Op.unit h = h
contains_write_of_delete (Op.cartesian_product l r) h =
    or_mono _ _ (contains_write_of_delete l) (contains_write_of_delete r) h
contains_write_of_delete (Op.union l r) h =
    or_mono _ _ (contains_write_of_delete l) (contains_write_of_delete r) h
contains_write_of_delete (Op.union_all l r) h =
    or_mono _ _ (contains_write_of_delete l) (contains_write_of_delete r) h
contains_write_of_delete (Op.left_outer_join l r _) h =
    or_mono _ _ (contains_write_of_delete l) (contains_write_of_delete r) h
contains_write_of_delete (Op.subquery l r) h =
    or_mono _ _ (contains_write_of_delete l) (contains_write_of_delete r) h
contains_write_of_delete (Op.projection inner _ _) h = contains_write_of_delete inner h
contains_write_of_delete (Op.group_by inner _ _) h = contains_write_of_delete inner h
contains_write_of_delete (Op.selection inner _) h = contains_write_of_delete inner h
contains_write_of_delete (Op.unwind inner _ _) h = contains_write_of_delete inner h
contains_write_of_delete (Op.order_by inner _) h = contains_write_of_delete inner h
contains_write_of_delete (Op.limit inner _) h = contains_write_of_delete inner h
contains_write_of_delete (Op.skip inner _) h = contains_write_of_delete inner h
contains_write_of_delete (Op.distinct inner) h = contains_write_of_delete inner h
contains_write_of_delete (Op.expand inner _ _ _ _ _ _ _) h = contains_write_of_delete inner h
contains_write_of_delete (Op.scan _ _ _) h = h
contains_write_of_delete (Op.values _) h = h
contains_write_of_delete _ h = refl

-- A create that a merge follows is a write, and so is the merge.
pub contains_write_of_create_before_merge :
    (op : Op) → op_has_create_before_merge op ≡ true → contains_write op ≡ true
unfolding contains_write op_has_create_before_merge
contains_write_of_create_before_merge Op.unit h = h
contains_write_of_create_before_merge (Op.cartesian_product l r) h =
    or_mono _ _ (contains_write_of_create_before_merge l) (contains_write_of_create_before_merge r)
      h
contains_write_of_create_before_merge (Op.projection inner _ _) h =
    contains_write_of_create_before_merge inner h
contains_write_of_create_before_merge (Op.group_by inner _ _) h =
    contains_write_of_create_before_merge inner h
contains_write_of_create_before_merge (Op.selection inner _) h =
    contains_write_of_create_before_merge inner h
contains_write_of_create_before_merge (Op.order_by inner _) h =
    contains_write_of_create_before_merge inner h
contains_write_of_create_before_merge (Op.limit inner _) h =
    contains_write_of_create_before_merge inner h
contains_write_of_create_before_merge (Op.skip inner _) h =
    contains_write_of_create_before_merge inner h
contains_write_of_create_before_merge (Op.expand inner _ _ _ _ _ _ _) h =
    contains_write_of_create_before_merge inner h
contains_write_of_create_before_merge (Op.create inner _ _) h = refl
contains_write_of_create_before_merge (Op.set inner _) h = refl
contains_write_of_create_before_merge (Op.delete inner _ _) h = refl
contains_write_of_create_before_merge (Op.remove inner _) h = refl
contains_write_of_create_before_merge (Op.merge inner _) h = refl
contains_write_of_create_before_merge (Op.call inner _ _ _) h = refl
contains_write_of_create_before_merge (Op.foreach inner _ _ _) h = refl
contains_write_of_create_before_merge _ h = cc

-- A RETURN at the top is found by the search for projections.
pub contains_projection_of_return :
    (op : Op) → is_top_level_return op ≡ true → contains_projection op ≡ true
unfolding contains_projection is_top_level_return
contains_projection_of_return (Op.order_by inner _) h = contains_projection_of_return inner h
contains_projection_of_return (Op.limit inner _) h = contains_projection_of_return inner h
contains_projection_of_return (Op.skip inner _) h = contains_projection_of_return inner h
contains_projection_of_return (Op.distinct inner) h = contains_projection_of_return inner h
contains_projection_of_return (Op.projection _ _ _) h = refl
contains_projection_of_return _ h = cc

-- the operators on which `read_context` goes on
abbrev pub WritesFirst : Op → Type 0
WritesFirst (Op.create _ _ _) = Unit
WritesFirst (Op.set _ _) = Unit
WritesFirst (Op.delete _ _ _) = Unit
WritesFirst (Op.remove _ _) = Unit
WritesFirst (Op.merge _ _) = Unit
WritesFirst (Op.call _ _ _ _) = Unit
WritesFirst (Op.foreach _ _ _ _) = Unit
WritesFirst _ = ⊥

-- `read_context` ends at an operator that is no write.
pub read_context_reads : (op : Op) → ¬ WritesFirst (read_context op)
unfolding read_context
read_context_reads (Op.create inner _ _) = read_context_reads inner
read_context_reads (Op.set inner _) = read_context_reads inner
read_context_reads (Op.delete inner _ _) = read_context_reads inner
read_context_reads (Op.remove inner _) = read_context_reads inner
read_context_reads (Op.merge inner _) = read_context_reads inner
read_context_reads (Op.call inner _ _ _) = read_context_reads inner
read_context_reads (Op.foreach inner _ _ _) = read_context_reads inner
read_context_reads Op.unit = λ h. h
read_context_reads _ = λ h. h
