-- ===== src/Lqa/Kind/Lattice.antt =====
-- `Type::join` and `Type::meet` of crates/polygraph/src/lqa/expr.rs against an order on types.
use rs_polygraph.Base.{
  true, false, ◌&&◌, ◌||◌, ◌≡◌, refl, sym, ap, ap₂, ◌∙◌, ◌⊎◌, inl, inr, arith, Bool-cases,
}
use mathlib.Core.Path.{subst}
use rs_polygraph.Lqa.Kind.{
  Kind, integer, float, list, any, null, numeric, kind_eq, is_numeric, is_null, is_any, is_float,
  meet, join,
}

-- "is at most": `null` below everything, `any` above, and integer, numeric, float in a chain.
pub data Sub : Kind → Kind → Type 0 where
  same : {a b : Kind} → a ≡ b → Sub a b
  bottom : {a b : Kind} → a ≡ null → Sub a b
  top : {a b : Kind} → b ≡ any → Sub a b
  widen : {a b : Kind} → a ≡ integer → is_numeric b ≡ true → Sub a b
  to_float : {a b : Kind} → is_numeric a ≡ true → b ≡ float → Sub a b

kind_eq_self : (a : Kind) → kind_eq a a ≡ true
unfolding kind_eq
kind_eq_self (list a) = kind_eq_self a
kind_eq_self integer = refl
kind_eq_self _ = refl

kind_eq_sound : (a b : Kind) → kind_eq a b ≡ true → a ≡ b
unfolding kind_eq
kind_eq_sound (list a) (list b) h = ap list (kind_eq_sound a b h)
kind_eq_sound integer b h = ground arith
kind_eq_sound _ b h = ground arith

null_of_test : (a : Kind) → is_null a ≡ true → a ≡ null
null_of_test a h = ground arith

any_of_test : (a : Kind) → is_any a ≡ true → a ≡ any
any_of_test a h = ground arith

float_of_test : (a : Kind) → is_float a ≡ true → a ≡ float
float_of_test a h = ground arith

Sub-numeric : (a : Kind) → is_numeric a ≡ true → is_float a ≡ false → Sub a numeric
Sub-numeric integer h k = widen refl refl
Sub-numeric numeric h k = same refl
Sub-numeric float h k = cc
Sub-numeric _ h k = cc

join_comm : (a b : Kind) → join a b ≡ join b a
unfolding join
join_comm a b =
    ground
      (arith, kind_eq_sound a b, kind_eq_sound b a, kind_eq_self a, null_of_test a, null_of_test b)

join_upper_left : (a b : Kind) → Sub a (join a b)
unfolding join
join_upper_left a b = elim (Bool-cases (kind_eq a b)) [
  | inl e ↦ rw e (same refl)
  | inr e ↦ elim (Bool-cases (is_any a || is_any b)) [
    | inl f ↦ rw (e, f) (top refl)
    | inr f ↦ elim (Bool-cases (is_numeric a && is_numeric b)) [
      | inl n ↦ elim (Bool-cases (is_float a || is_float b)) [
        | inl g ↦ rw (e, f, n, g) (to_float (ground arith) refl)
        | inr g ↦ rw (e, f, n, g) (Sub-numeric a (ground arith) (ground arith))
      ]
      | inr n ↦ elim (Bool-cases (is_null a)) [
        | inl g ↦ bottom (null_of_test a g)
        | inr g ↦ elim (Bool-cases (is_null b)) [
          | inl k ↦ rw (e, f, n, g, k) (same refl)
          | inr k ↦ rw (e, f, n, g, k) (top refl)
        ]
      ]
    ]
  ]
]

-- `join` is an upper bound of both types.
pub join_upper : (a b : Kind) → Sub a (join a b) × Sub b (join a b)
join_upper a b = (join_upper_left a b, rw (join_comm a b) (join_upper_left b a))

-- Off the numeric pairs the two operations agree.
pub meet-eq-join : (a b : Kind) → (is_numeric a && is_numeric b) ≡ false → meet a b ≡ join a b
unfolding meet join
meet-eq-join a b h = ground (arith, null_of_test a, null_of_test b, any_of_test a, any_of_test b)

join_self : (a : Kind) → join a a ≡ a
unfolding join
join_self a = rw kind_eq_self

join_null : (a : Kind) → join null a ≡ a
unfolding join
join_null a = ground (arith, kind_eq_sound null a, any_of_test a)

join-any : (a : Kind) → join any a ≡ any
unfolding join
join-any a = ground (arith, kind_eq_sound any a)

join_integer : (a : Kind) → is_numeric a ≡ true → join integer a ≡ a
unfolding join kind_eq
join_integer a h = ground arith

is_numeric-join :
    (a b : Kind) → is_numeric a ≡ true → is_numeric b ≡ true → is_numeric (join a b) ≡ true
unfolding join
is_numeric-join a b h k = ground arith

Sub-join_null : {a b c : Kind} → a ≡ null → Sub b c → Sub (join a b) c
Sub-join_null {a} {b} {c} e s = subst (λ x. Sub x c) (sym (ap (λ x. join x b) e ∙ join_null b)) s

numeric_of : {a b : Kind} → a ≡ b → is_numeric b ≡ true → is_numeric a ≡ true
numeric_of e h = ap is_numeric e ∙ h

-- `join` is below every common upper bound.
join_least : {a b c : Kind} → Sub a c → Sub b c → Sub (join a b) c
join_least (top e) s = top e
join_least (bottom e) s = Sub-join_null e s
join_least s (top e) = top e
join_least {a} {b} {c} s (bottom e) = subst (λ x. Sub x c) (join_comm b a) (Sub-join_null e s)
join_least {c = c} (same e) (same f) = same (ap₂ join e f ∙ join_self c)
join_least {a} {b} {c} (same e) (widen f g) =
    same (ap₂ join e f ∙ join_comm c integer ∙ join_integer c g)
join_least {a} {b} {c} (same e) (to_float n f) =
    to_float (is_numeric-join a b (numeric_of (e ∙ f) refl) n) f
join_least {a} {b} {c} (widen e g) (same f) = same (ap₂ join e f ∙ join_integer c g)
join_least (widen e g) (widen f k) = widen (ap₂ join e f ∙ join_self integer) g
join_least {a} {b} {c} (widen e g) (to_float n f) =
    to_float (is_numeric-join a b (numeric_of e refl) n) f
join_least {a} {b} {c} (to_float n f) (same e) =
    to_float (is_numeric-join a b n (numeric_of (e ∙ f) refl)) f
join_least {a} {b} {c} (to_float n f) (widen e g) =
    to_float (is_numeric-join a b n (numeric_of e refl)) f
join_least {a} {b} {c} (to_float n f) (to_float m g) = to_float (is_numeric-join a b n m) f

Sub-trans : {a b c : Kind} → Sub a b → Sub b c → Sub a c
Sub-trans {c = c} (same e) s = subst (λ x. Sub x c) (sym e) s
Sub-trans (bottom e) s = bottom e
Sub-trans s (top e) = top e
Sub-trans (top e) (same f) = top (sym f ∙ e)
Sub-trans (top e) (bottom f) = cc
Sub-trans (top e) (widen f g) = cc
Sub-trans (top e) (to_float f g) = absurd (ground (arith, ap is_numeric e))
Sub-trans {a} s (same f) = subst (λ x. Sub a x) f s
Sub-trans (widen e g) (bottom f) = absurd (ground (arith, ap is_numeric f))
Sub-trans (widen e g) (widen f h) = widen e h
Sub-trans (widen e g) (to_float n h) = to_float (numeric_of e refl) h
Sub-trans (to_float n f) (bottom h) = cc
Sub-trans (to_float n f) (widen h k) = cc
Sub-trans (to_float n f) (to_float h k) = to_float n k

Sub-antisymm : {a b : Kind} → Sub a b → Sub b a → a ≡ b
Sub-antisymm (same e) t = e
Sub-antisymm s (same e) = sym e
Sub-antisymm (bottom e) (bottom f) = e ∙ sym f
Sub-antisymm (top e) (top f) = f ∙ sym e
Sub-antisymm (to_float n e) (to_float m f) = f ∙ sym e
Sub-antisymm (widen e g) (widen f k) = e ∙ sym f
Sub-antisymm (bottom e) (top f) = cc
Sub-antisymm (bottom e) (widen f g) = absurd (ground (arith, ap is_numeric e))
Sub-antisymm (bottom e) (to_float n f) = cc
Sub-antisymm (top e) (bottom f) = cc
Sub-antisymm (top e) (widen f g) = cc
Sub-antisymm (top e) (to_float n f) = absurd (ground (arith, ap is_numeric e))
Sub-antisymm (widen e g) (bottom f) = absurd (ground (arith, ap is_numeric f))
Sub-antisymm (widen e g) (top f) = cc
Sub-antisymm (widen e g) (to_float n f) = cc
Sub-antisymm (to_float n e) (bottom f) = cc
Sub-antisymm (to_float n e) (top f) = absurd (ground (arith, ap is_numeric f))
Sub-antisymm (to_float n e) (widen f g) = cc

-- `join` is associative: the type of a sequence of joins does not depend on the grouping.
pub join_assoc : (a b c : Kind) → join (join a b) c ≡ join a (join b c)
join_assoc a b c =
    Sub-antisymm
      (join_least
        (join_least (join_upper a (join b c)).0
          (Sub-trans (join_upper b c).0 (join_upper a (join b c)).1))
        (Sub-trans (join_upper b c).1 (join_upper a (join b c)).1))
      (join_least (Sub-trans (join_upper a b).0 (join_upper (join a b) c).0) (
        join_least (Sub-trans (join_upper a b).1 (join_upper (join a b) c).0)
          (join_upper (join a b) c).1))

-- Two numeric types are comparable.
numeric_comparable : (a b : Kind) → is_numeric a ≡ true → is_numeric b ≡ true → Sub a b ⊎ Sub b a
numeric_comparable integer b h k = inl (widen refl k)
numeric_comparable float b h k = inr (to_float k refl)
numeric_comparable numeric integer h k = inr (widen refl refl)
numeric_comparable numeric float h k = inl (to_float refl refl)
numeric_comparable numeric numeric h k = inl (same refl)
numeric_comparable numeric _ h k = cc
numeric_comparable _ b h k = cc

-- `meet` of two types of which neither is below the other is not below the first: it is no
-- greatest lower bound.
meet_not_lower : (a b : Kind) → ¬ Sub a b → ¬ Sub b a → ¬ Sub (meet a b) a
meet_not_lower a b h k s = elim (Bool-cases (is_numeric a && is_numeric b)) [
  | inl n ↦ elim (numeric_comparable a b (ground arith) (ground arith)) [
    | inl p ↦ h p
    | inr p ↦ k p
  ]
  | inr n ↦ k (Sub-trans (join_upper a b).1 (subst (λ x. Sub x a) (meet-eq-join a b n) s))
]
