-- ===== src/Lqa/Lower/Yields.antt =====
-- What an action of the lowering yields: a property of its value, and a later state
-- (crates/polygraph/src/lqa/lower.rs).
use rs_polygraph.Lqa.Lower.Outcomes.{Ensures, passes, fails, panics, ◌⟫◌, weaken}
use rs_polygraph.Base.{
  ◌≤◌, String, Bool, true, false, Option, none, some, List, [], ◌∷◌, ◌≡◌, arith, Bool-cases, inl,
  inr, sym, ap, ◌∙◌, if◌then◌else◌,
}
use rs_polygraph.Base.Eq.{◌==◌, string_eq}
use rs_polygraph.Base.Dict.{get, get-upsert}
use rs_polygraph.Base.Names.{has, has-insert}
use mathlib.Core.Option.{some-injective}
use rs_polygraph.Lqa.Syntax.{Expr}
use rs_polygraph.Lqa.Lower.State.{
  AstLowerer, new, Lowering, pure, ◌>>=◌, fail, fail_if, fresh, visit, insert_const, nested,
  next_name, or_fail,
}
use rs_polygraph.Lqa.Lower.Items.{is_list, ItemKind, plain, note_list}

-- Every constant is a literal list.
abbrev pub OnlyLists : AstLowerer → Type 0
OnlyLists s = (x : String) (e : Expr) → get x s.list_const_map ≡ some e → is_list e ≡ true

-- Names are only used up, variables only seen, and constants stay literal lists.
pub record Later (s s' : AstLowerer) : Type 0 where
  pub counter : s.counter ≤ s'.counter
  pub seen_vars : (x : String) → has x s.seen_vars ≡ true → has x s'.seen_vars ≡ true
  pub lists : OnlyLists s → OnlyLists s'

pub Later-refl : (s : AstLowerer) → Later s s
Later-refl s = record { counter = omega arith; seen_vars = λ x h. h; lists = λ h. h }

pub Later-trans : {s t u : AstLowerer} → Later s t → Later t u → Later s u
Later-trans a b = record {
  counter = omega (arith, a.counter, b.counter);
  seen_vars = λ x h. b.seen_vars x (a.seen_vars x h);
  lists = λ h. b.lists (a.lists h);
}

pub record Yields {A : Type 0} (P : A → Type 0) (m : Lowering A) : Type 0 where
  pub at : (s : AstLowerer) → Ensures (λ r. P r.0 × Later s r.1) (m s)

module _ {A : Type 0} {P : A → Type 0} where
  pub Yields-pure : {a : A} → P a → Yields P (pure a)
  Yields-pure h = record { at = λ s. passes (h, Later-refl s) }

  pub Yields-fail : (message : String) → Yields P (fail message)
  Yields-fail message = record { at = λ s. fails message }

  pub Yields-bind :
      {B : Type 0} {Q : B → Type 0} {m : Lowering A} {f : A → Lowering B}
      → Yields P m
      → ((a : A) → P a → Yields Q (f a))
      → Yields Q (m >>= f)
  Yields-bind {f = f} h k = record {
    at = λ s. h.at s ⟫ λ r p. weaken (λ u q. (q.0, Later-trans p.1 q.1)) ((k r.0 p.0).at r.1);
  }

pub Yields-weaken :
    {A : Type 0} {P Q : A → Type 0} {m : Lowering A}
    → ((a : A) → P a → Q a)
    → Yields P m
    → Yields Q m
Yields-weaken g h = record { at = λ s. weaken (λ r p. (g r.0 p.0, p.1)) (h.at s) }

-- an action of which only the state matters
abbrev pub Fine : {A : Type 0} → Lowering A → Type 0
Fine m = Yields (λ _. Unit {0}) m

pub Fine-pure : {A : Type 0} (a : A) → Fine (pure a)
Fine-pure a = Yields-pure tt

module _ {A B : Type 0} {Q : B → Type 0} {m : Lowering A} {f : A → Lowering B} where
  infixr 2 ◌▹◌
  pub ◌▹◌ : Fine m → ((a : A) → Yields Q (f a)) → Yields Q (m >>= f)
  h ▹ k = Yields-bind h (λ a _. k a)

pub Fine-fail_if :
    {A : Type 0} (test : Bool) (message : String) {m : Lowering A}
    → Fine m
    → Fine (fail_if test message m)
Fine-fail_if true message h = Yields-fail message
Fine-fail_if false message h = h

pub Fine-fresh : (prefix : String) → Fine (fresh prefix)
unfolding fresh
Fine-fresh prefix = record {
  at = λ s. passes (tt, record { counter = omega arith; seen_vars = λ x h. h; lists = λ h. h });
}

pub Fine-visit : (x : String) → Fine (visit x)
unfolding visit
Fine-visit x = record {
  at = λ s. passes (
    tt,
    record {
      counter = omega arith;
      seen_vars = λ y h. ground (arith, h, has-insert y x s.seen_vars);
      lists = λ h. h;
    },
  );
}

pub Fine-next_name : (xs : List String) → Fine (next_name xs)
unfolding next_name
Fine-next_name [] = record { at = λ s. panics }
Fine-next_name (x ∷ xs) = record { at = λ s. passes (tt, Later-refl s) }

pub Fine-or_fail : {A : Type 0} (o : Option A) (message : String) → Fine (or_fail o message)
unfolding or_fail
Fine-or_fail none message = Yields-fail message
Fine-or_fail (some a) message = Fine-pure a

-- a nested query leaves the state as it is
pub Fine-nested : {A : Type 0} {m : Lowering A} → Fine m → Fine (nested m)
Fine-nested h = record { at = λ s. h.at new ⟫ λ r _. passes (tt, Later-refl s) }

pub insert_const-Later :
    (x : String) (e : Expr) (s : AstLowerer) → is_list e ≡ true → Later s (insert_const x e s)
unfolding insert_const
insert_const-Later x e s h = record {
  counter = omega arith;
  seen_vars = λ y g. g;
  lists = λ only y e' g.
      of_choice (x == y) (sym (get-upsert x y e (λ _. e) s.list_const_map) ∙ g) (only y e');
}
  where
    of_choice :
        {o : Option Expr} {e' : Expr} (b : Bool)
        → (if b then some e else o) ≡ some e'
        → (o ≡ some e' → is_list e' ≡ true)
        → is_list e' ≡ true
    of_choice true g k = sym (ap is_list (some-injective _ _ g)) ∙ h
    of_choice false g k = k g

pub note_list-Later :
    (kind : ItemKind) (e : Expr) (x : String) (s : AstLowerer) → Later s (note_list kind e x s)
unfolding note_list
note_list-Later plain e x s = elim (Bool-cases (is_list e)) [
  | inl list ↦ rw list (insert_const-Later x e s list)
  | inr other ↦ rw other (Later-refl s)
]
note_list-Later kind e x s = Later-refl s
