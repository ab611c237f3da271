-- ===== src/Lqa/Write/Strip.antt =====
-- `strip_writes` of crates/polygraph/src/lqa/write.rs: what is left is a read query.
use rs_polygraph.Base.{
  Bool, true, false, ◌||◌, ◌≡◌, refl, ap, ap₂, ◌∙◌, List, [], ◌∷◌, ◌++◌, arith, if◌then◌else◌, All,
  String, Option, none, some,
}
use text.Mathlib.Text.{starts_with}
use mathlib.Core.List.{head?, tail}
use rs_polygraph.Lqa.Syntax
use rs_polygraph.Lqa.Syntax.{Op, CreateNodes}
use rs_polygraph.Lqa.Write.{
  contains_write, contains_projection, node_scan, node_scans, product, strip_writes,
}

or_left : (a b : Bool) → (a || b) ≡ false → a ≡ false
or_left false b h = refl
or_left true b h = h

or_right : (a b : Bool) → (a || b) ≡ false → b ≡ false
or_right false b h = h
or_right true b h = cc

-- a plain scan, which neither writes nor projects
abbrev IsScan : Op → Type 0
IsScan (Op.scan _ _ _) = Unit
IsScan _ = ⊥

All-append : (xs ys : List Op) → All IsScan xs → All IsScan ys → All IsScan (xs ++ ys)
All-append [] ys h k = k
All-append (x ∷ xs) ys h k = (h.0, All-append xs ys h.1 k)

node_scan-IsScan : (v : Option String) (labels : List String) → All IsScan (node_scan v labels)
unfolding node_scan
node_scan-IsScan none labels = tt
node_scan-IsScan (some v) labels =
    elim (starts_with v "_lqa_")
      as (λ b. All IsScan (if b then [] else Op.scan v (head? labels) (tail labels) ∷ [])) [
        | true ↦ tt
        | false ↦ (tt, tt)
      ]

node_scans-IsScan : (nodes : CreateNodes) → All IsScan (node_scans nodes)
unfolding node_scans
node_scans-IsScan Syntax.no_node = tt
node_scans-IsScan (Syntax.node v labels _ rest) =
    All-append (node_scan v labels) (node_scans rest) (node_scan-IsScan v labels)
      (node_scans-IsScan rest)

-- A product with scans is searched in its first operand only.
module _ (test : Op → Bool) (test-scan : (s : Op) → IsScan s → test s ≡ false)
    (test-product : (l r : Op) → test (Op.cartesian_product l r) ≡ (test l || test r)) where
  test-product_of_scans :
      (acc : Op) (scans : List Op) → All IsScan scans → test (product acc scans) ≡ test acc
  unfolding product
  test-product_of_scans acc [] h = refl
  test-product_of_scans acc (s ∷ rest) h =
      test-product_of_scans (Op.cartesian_product acc s) rest h.1
      ∙ ground (arith, test-product acc s, test-scan s h.0)

contains_write-scan : (s : Op) → IsScan s → contains_write s ≡ false
unfolding contains_write
contains_write-scan s h = ground arith

contains_projection-scan : (s : Op) → IsScan s → contains_projection s ≡ false
unfolding contains_projection
contains_projection-scan s h = ground arith

contains_write-product :
    (l r : Op) → contains_write (Op.cartesian_product l r) ≡ (contains_write l || contains_write r)
unfolding contains_write
contains_write-product l r = refl

contains_projection-product :
    (l r : Op)
    → contains_projection (Op.cartesian_product l r)
      ≡ (contains_projection l || contains_projection r)
unfolding contains_projection
contains_projection-product l r = refl

contains_write-create :
    (acc : Op) (nodes : CreateNodes)
    → contains_write (product acc (node_scans nodes)) ≡ contains_write acc
contains_write-create acc nodes =
    test-product_of_scans contains_write contains_write-scan contains_write-product acc
      (node_scans nodes) (node_scans-IsScan nodes)

contains_projection-create :
    (acc : Op) (nodes : CreateNodes)
    → contains_projection (product acc (node_scans nodes)) ≡ contains_projection acc
contains_projection-create acc nodes =
    test-product_of_scans contains_projection contains_projection-scan contains_projection-product
      acc (node_scans nodes) (node_scans-IsScan nodes)

-- No write operator is left in the stripped tree.
pub contains_write-strip_writes : (op : Op) → contains_write (strip_writes op) ≡ false
unfolding contains_write strip_writes
contains_write-strip_writes Op.unit = refl
contains_write-strip_writes (Op.create inner nodes _) =
    contains_write-create (strip_writes inner) nodes ∙ contains_write-strip_writes inner
contains_write-strip_writes (Op.cartesian_product l r) =
    ap₂ ◌||◌ (contains_write-strip_writes l) (contains_write-strip_writes r)
contains_write-strip_writes (Op.union l r) =
    ap₂ ◌||◌ (contains_write-strip_writes l) (contains_write-strip_writes r)
contains_write-strip_writes (Op.union_all l r) =
    ap₂ ◌||◌ (contains_write-strip_writes l) (contains_write-strip_writes r)
contains_write-strip_writes (Op.left_outer_join l r _) =
    ap₂ ◌||◌ (contains_write-strip_writes l) (contains_write-strip_writes r)
contains_write-strip_writes (Op.subquery l r) =
    ap₂ ◌||◌ (contains_write-strip_writes l) (contains_write-strip_writes r)
contains_write-strip_writes (Op.projection inner _ _) = contains_write-strip_writes inner
contains_write-strip_writes (Op.set inner _) = contains_write-strip_writes inner
contains_write-strip_writes (Op.delete inner _ _) = contains_write-strip_writes inner
contains_write-strip_writes (Op.remove inner _) = contains_write-strip_writes inner
contains_write-strip_writes (Op.merge inner _) = contains_write-strip_writes inner
contains_write-strip_writes (Op.call inner _ _ _) = contains_write-strip_writes inner
contains_write-strip_writes (Op.foreach inner _ _ _) = contains_write-strip_writes inner
contains_write-strip_writes (Op.group_by inner _ _) = contains_write-strip_writes inner
contains_write-strip_writes (Op.selection inner _) = contains_write-strip_writes inner
contains_write-strip_writes (Op.unwind inner _ _) = contains_write-strip_writes inner
contains_write-strip_writes (Op.order_by inner _) = contains_write-strip_writes inner
contains_write-strip_writes (Op.limit inner _) = contains_write-strip_writes inner
contains_write-strip_writes (Op.skip inner _) = contains_write-strip_writes inner
contains_write-strip_writes (Op.distinct inner) = contains_write-strip_writes inner
contains_write-strip_writes (Op.expand inner _ _ _ _ _ _ _) = contains_write-strip_writes inner
contains_write-strip_writes _ = refl

-- Stripping neither adds nor removes a projection: the result has a RETURN exactly if the query had.
contains_projection-strip_writes :
    (op : Op) → contains_projection (strip_writes op) ≡ contains_projection op
unfolding contains_projection strip_writes
contains_projection-strip_writes Op.unit = refl
contains_projection-strip_writes (Op.projection inner a b) = refl
contains_projection-strip_writes (Op.create inner nodes _) =
    contains_projection-create (strip_writes inner) nodes ∙ contains_projection-strip_writes inner
contains_projection-strip_writes (Op.cartesian_product l r) =
    ap₂ ◌||◌ (contains_projection-strip_writes l) (contains_projection-strip_writes r)
contains_projection-strip_writes (Op.union l r) =
    ap₂ ◌||◌ (contains_projection-strip_writes l) (contains_projection-strip_writes r)
contains_projection-strip_writes (Op.union_all l r) =
    ap₂ ◌||◌ (contains_projection-strip_writes l) (contains_projection-strip_writes r)
contains_projection-strip_writes (Op.left_outer_join l r _) =
    ap₂ ◌||◌ (contains_projection-strip_writes l) (contains_projection-strip_writes r)
contains_projection-strip_writes (Op.subquery l r) =
    ap₂ ◌||◌ (contains_projection-strip_writes l) (contains_projection-strip_writes r)
contains_projection-strip_writes (Op.set inner _) = contains_projection-strip_writes inner
contains_projection-strip_writes (Op.delete inner _ _) = contains_projection-strip_writes inner
contains_projection-strip_writes (Op.remove inner _) = contains_projection-strip_writes inner
contains_projection-strip_writes (Op.merge inner _) = contains_projection-strip_writes inner
contains_projection-strip_writes (Op.call inner _ _ _) = contains_projection-strip_writes inner
contains_projection-strip_writes (Op.foreach inner _ _ _) = contains_projection-strip_writes inner
contains_projection-strip_writes (Op.group_by inner _ _) = contains_projection-strip_writes inner
contains_projection-strip_writes (Op.selection inner _) = contains_projection-strip_writes inner
contains_projection-strip_writes (Op.unwind inner _ _) = contains_projection-strip_writes inner
contains_projection-strip_writes (Op.order_by inner _) = contains_projection-strip_writes inner
contains_projection-strip_writes (Op.limit inner _) = contains_projection-strip_writes inner
contains_projection-strip_writes (Op.skip inner _) = contains_projection-strip_writes inner
contains_projection-strip_writes (Op.distinct inner) = contains_projection-strip_writes inner
contains_projection-strip_writes (Op.expand inner _ _ _ _ _ _ _) =
    contains_projection-strip_writes inner
contains_projection-strip_writes _ = refl

-- A query with no write operator is left as it is.
pub strip_writes_of_read : (op : Op) → contains_write op ≡ false → strip_writes op ≡ op
unfolding contains_write strip_writes
strip_writes_of_read Op.unit h = refl
strip_writes_of_read (Op.cartesian_product l r) h =
    ap₂ (λ x y. Op.cartesian_product x y) (strip_writes_of_read l (or_left _ _ h))
      (strip_writes_of_read r (or_right _ _ h))
strip_writes_of_read (Op.union l r) h =
    ap₂ (λ x y. Op.union x y) (strip_writes_of_read l (or_left _ _ h))
      (strip_writes_of_read r (or_right _ _ h))
strip_writes_of_read (Op.union_all l r) h =
    ap₂ (λ x y. Op.union_all x y) (strip_writes_of_read l (or_left _ _ h))
      (strip_writes_of_read r (or_right _ _ h))
strip_writes_of_read (Op.left_outer_join l r c) h =
    ap₂ (λ x y. Op.left_outer_join x y c) (strip_writes_of_read l (or_left _ _ h))
      (strip_writes_of_read r (or_right _ _ h))
strip_writes_of_read (Op.subquery l r) h =
    ap₂ (λ x y. Op.subquery x y) (strip_writes_of_read l (or_left _ _ h))
      (strip_writes_of_read r (or_right _ _ h))
strip_writes_of_read (Op.projection inner a b) h =
    ap (λ x. Op.projection x a b) (strip_writes_of_read inner h)
strip_writes_of_read (Op.group_by inner a b) h =
    ap (λ x. Op.group_by x a b) (strip_writes_of_read inner h)
strip_writes_of_read (Op.selection inner a) h =
    ap (λ x. Op.selection x a) (strip_writes_of_read inner h)
strip_writes_of_read (Op.unwind inner a b) h =
    ap (λ x. Op.unwind x a b) (strip_writes_of_read inner h)
strip_writes_of_read (Op.order_by inner a) h =
    ap (λ x. Op.order_by x a) (strip_writes_of_read inner h)
strip_writes_of_read (Op.limit inner a) h = ap (λ x. Op.limit x a) (strip_writes_of_read inner h)
strip_writes_of_read (Op.skip inner a) h = ap (λ x. Op.skip x a) (strip_writes_of_read inner h)
strip_writes_of_read (Op.distinct inner) h = ap (λ x. Op.distinct x) (strip_writes_of_read inner h)
strip_writes_of_read (Op.expand inner a b c d e f g) h =
    ap (λ x. Op.expand x a b c d e f g) (strip_writes_of_read inner h)
strip_writes_of_read (Op.scan _ _ _) h = refl
strip_writes_of_read (Op.values _) h = refl
strip_writes_of_read _ h = cc

-- Stripping twice is stripping once.
pub strip_writes_idem : (op : Op) → strip_writes (strip_writes op) ≡ strip_writes op
strip_writes_idem op = strip_writes_of_read (strip_writes op) (contains_write-strip_writes op)
