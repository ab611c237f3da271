-- ===== src/Lqa/Aggregates/Fresh.antt =====
-- The variables that stand for extracted aggregates (crates/polygraph/src/lqa/lower.rs): they are
-- fresh, and there is one for each recorded aggregate.
use rs_polygraph.Base.{ℕ, suc, ◌+◌, ◌≤◌, String, ◌≡◌, ◌≢◌, refl, ap, arith}
use rs_polygraph.Base.Decimal.{to_string_injective, append_cancel}
use rs_polygraph.Lqa.Syntax
use rs_polygraph.Lqa.Syntax.{Expr, Exprs, OptExpr, AggItems}
use rs_polygraph.Lqa.Aggregates.{
  Extraction, M, pure, ◌>>=◌, push, agg_name, extract_aggregate, extract_nested_aggregates,
  extract_from_list, extract_from_option,
}

-- `m` keeps `P`
pub record Keeps {A : Type 0} (P : Extraction → Type 0) (m : M A) : Type 0 where
  pub at : (s : Extraction) → P s → P (m s).1

module _ {A : Type 0} {P : Extraction → Type 0} where
  Keeps-pure : (a : A) → Keeps P (pure a)
  Keeps-pure a = record { at = λ s h. h }

module _ {A B : Type 0} {P : Extraction → Type 0} where
  Keeps-bind : (m : M A) (f : A → M B) → Keeps P m → ((a : A) → Keeps P (f a)) → Keeps P (m >>= f)
  Keeps-bind m f km kf = record { at = λ s h. (kf (m s).0).at (m s).1 (km.at s h) }

ruleset keeps_rules = (Keeps-pure, Keeps-bind)

-- What every single extraction keeps, the traversal keeps.
module _ {P : Extraction → Type 0} (one : (e : Expr) → Keeps P (extract_aggregate e)) where
  mutual
    unfolding extract_nested_aggregates

    keeps : (e : Expr) → Keeps P (extract_nested_aggregates e)
    keeps (Expr.aggregate kind d arg) = one (Expr.aggregate kind d arg)
    keeps (Expr.add a b) = search (keeps_rules, keeps a, keeps b)
    keeps (Expr.sub a b) = search (keeps_rules, keeps a, keeps b)
    keeps (Expr.mul a b) = search (keeps_rules, keeps a, keeps b)
    keeps (Expr.div a b) = search (keeps_rules, keeps a, keeps b)
    keeps (Expr.modulo a b) = search (keeps_rules, keeps a, keeps b)
    keeps (Expr.pow a b) = search (keeps_rules, keeps a, keeps b)
    keeps (Expr.unary op e) = search (keeps_rules, keeps e)
    keeps (Expr.not e) = search (keeps_rules, keeps e)
    keeps (Expr.function_call name d args) = search (keeps_rules, Keeps-list args)
    keeps (Expr.list_comprehension v list predicate projection) =
        search (keeps_rules, keeps list, Keeps-option predicate, Keeps-option projection)
    keeps _ = search keeps_rules

    Keeps-list : (es : Exprs) → Keeps P (extract_from_list es)
    Keeps-list Syntax.nil = search keeps_rules
    Keeps-list (Syntax.cons e rest) = search (keeps_rules, keeps e, Keeps-list rest)

    Keeps-option : (o : OptExpr) → Keeps P (extract_from_option o)
    Keeps-option Syntax.absent = search keeps_rules
    Keeps-option (Syntax.present e) = search (keeps_rules, keeps e)

-- No alias is a name that the counter still has to give out.
abbrev pub Avoids : AggItems → ℕ → Type 0
Avoids Syntax.no_agg n = Unit
Avoids (Syntax.agg _ alias rest) n = ((k : ℕ) → n ≤ k → alias ≢ agg_name k) × Avoids rest n

abbrev pub Differs : String → AggItems → Type 0
Differs x Syntax.no_agg = Unit
Differs x (Syntax.agg _ alias rest) = (x ≢ alias) × Differs x rest

abbrev pub DistinctAliases : AggItems → Type 0
DistinctAliases Syntax.no_agg = Unit
DistinctAliases (Syntax.agg _ alias rest) = Differs alias rest × DistinctAliases rest

abbrev pub length : AggItems → ℕ
length Syntax.no_agg = 0
length (Syntax.agg _ _ rest) = suc (length rest)

agg_name_injective : (m n : ℕ) → agg_name m ≡ agg_name n → m ≡ n
agg_name_injective m n e = to_string_injective m n (append_cancel "_agg_ex_" _ _ e)

Avoids-push :
    (l : AggItems) (e : Expr) (n : ℕ) → Avoids l n → Avoids (push l e (agg_name n)) (suc n)
unfolding push
Avoids-push Syntax.no_agg e n h = (λ k le p. absurd (omega (arith, agg_name_injective n k p)), tt)
Avoids-push (Syntax.agg _ _ rest) e n h =
    (λ k le p. h.0 k (omega arith) p, Avoids-push rest e n h.1)

Differs-push :
    (x : String) (l : AggItems) (e : Expr) (y : String)
    → Differs x l
    → x ≢ y
    → Differs x (push l e y)
unfolding push
Differs-push x Syntax.no_agg e y h ne = (ne, tt)
Differs-push x (Syntax.agg _ _ rest) e y h ne = (h.0, Differs-push x rest e y h.1 ne)

DistinctAliases-push :
    (l : AggItems) (e : Expr) (n : ℕ)
    → Avoids l n
    → DistinctAliases l
    → DistinctAliases (push l e (agg_name n))
unfolding push
DistinctAliases-push Syntax.no_agg e n a d = (tt, tt)
DistinctAliases-push (Syntax.agg _ alias rest) e n a d = (
  Differs-push alias rest e (agg_name n) d.0 (a.0 n (omega arith)),
  DistinctAliases-push rest e n a.1 d.1,
)

length-push : (l : AggItems) (e : Expr) (x : String) → length (push l e x) ≡ suc (length l)
unfolding push
length-push Syntax.no_agg e x = refl
length-push (Syntax.agg _ _ rest) e x = ap suc (length-push rest e x)

pub record IsFresh (s : Extraction) : Type 0 where
  pub avoids : Avoids s.aggs s.counter
  pub distinct : DistinctAliases s.aggs

extract_aggregate-IsFresh : (e : Expr) → Keeps IsFresh (extract_aggregate e)
unfolding extract_aggregate
extract_aggregate-IsFresh e = record {
  at = λ s h. record {
    avoids = Avoids-push s.aggs e s.counter h.avoids;
    distinct = DistinctAliases-push s.aggs e s.counter h.avoids h.distinct;
  };
}

-- From a fresh state the extraction ends in a fresh state: the aliases are distinct, and none is a
-- name that is still to come.
pub extract_nested_aggregates-IsFresh :
    (e : Expr) (s : Extraction) → IsFresh s → IsFresh (extract_nested_aggregates e s).1
extract_nested_aggregates-IsFresh e s h = (keeps extract_aggregate-IsFresh e).at s h

-- The counter moves by one for each recorded aggregate.
abbrev InStep : Extraction → Extraction → Type 0
InStep s t = length t.aggs + s.counter ≡ length s.aggs + t.counter

extract_aggregate-InStep : (s : Extraction) (e : Expr) → Keeps (InStep s) (extract_aggregate e)
unfolding extract_aggregate
extract_aggregate-InStep s e = record {
  at = λ t h. omega (arith, length-push t.aggs e (agg_name t.counter));
}

-- As many aggregates are recorded as names are taken from the counter.
pub extract_nested_aggregates_counts :
    (e : Expr) (s : Extraction)
    → length (extract_nested_aggregates e s).1.aggs + s.counter
      ≡ length s.aggs + (extract_nested_aggregates e s).1.counter
extract_nested_aggregates_counts e s = (keeps (extract_aggregate-InStep s) e).at s refl
