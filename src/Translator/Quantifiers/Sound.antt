-- ===== src/Translator/Quantifiers/Sound.antt =====
-- The key of a quantifier against its truth: `quantifier_canonical`
-- (crates/polygraph/src/translator/cypher/mod.rs).
use rs_polygraph.Base.{
  ℕ, String, Bool, true, false, not, ◌&&◌, Option, none, some, List, if◌then◌else◌, ◌≡◌, refl, sym,
  ap, ◌∙◌, arith,
}
use rs_polygraph.Base.Int.{ℤ, pos, negsuc, eq_ℤ, ltb_ℤ}
use rs_polygraph.Base.Eq.{string_eq}
use rs_polygraph.Base.Names.{eq_ignore_ascii_case, has}
use rs_polygraph.Ast
use rs_polygraph.Ast.{Expression, OptExpression, CompOp, QuantifierKind}
use rs_polygraph.Translator.Quantifiers.{
  get_literal_int, sized_variable, strip_not_chain, KeyKind, none_of, some_of, one_of, Key,
  pred_raw, key_of, negated_key_of, quantifier_key, swap_kind, not_key, is_just, size_eq_key,
  size_gt_key, size_key, quantifier_canonical,
}
use rs_polygraph.Translator.Quantifiers.Counting.{
  count, count_cong, count_everything, count-any, count-every_holds, count_zero, count_positive,
}
use rs_polygraph.Translator.Quantifiers.Truth.{
  Reading, xor, kind_truth, quantify, number_of, compare_opt, not_opt, passes, size_of, number,
  truth, bound_of, signed, key_truth,
}

eq_ℤ_sound : (a b : ℤ) → eq_ℤ a b ≡ true → a ≡ b
eq_ℤ_sound (pos a) (pos b) h = ap pos (ground (arith, h))
eq_ℤ_sound (pos a) (negsuc b) h = ground (arith, h)
eq_ℤ_sound (negsuc a) (pos b) h = ground (arith, h)
eq_ℤ_sound (negsuc a) (negsuc b) h = ap negsuc (ground (arith, h))

is_just_sound : (v : String) (o : Option String) → is_just v o ≡ true → o ≡ some v
is_just_sound v none h = ground (arith, h)
is_just_sound v (some u) h = ap some ((string_eq.decides u v).0 h)

module _ (r : Reading)
    (holds-not : (x : String) (e : Expression) (a : r.Element)
      → r.holds x (Ast.not e) a ≡ not (r.holds x e a))
    (holds-true : (x : String) (a : r.Element)
      → r.holds x (Ast.literal (Ast.boolean true)) a ≡ true) where
  signed-strip_not_chain :
      (x : String) (negated : Bool) (e : Expression) (a : r.Element)
      → signed r x (strip_not_chain negated e) a ≡ xor negated (r.holds x e a)
  unfolding strip_not_chain
  signed-strip_not_chain x true (Ast.not e) a =
      signed-strip_not_chain x false e a ∙ rw (holds-not x e a) (ground arith)
  signed-strip_not_chain x false (Ast.not e) a =
      signed-strip_not_chain x true e a ∙ sym (holds-not x e a)
  signed-strip_not_chain x negated (Ast.variable v) a = refl
  signed-strip_not_chain x negated e a = refl

  signed-pred_raw :
      (x : String) (p : OptExpression) (a : r.Element)
      → signed r x (strip_not_chain false (pred_raw p)) a ≡ passes r x p a
  unfolding strip_not_chain
  signed-pred_raw x Ast.absent a = holds-true x a
  signed-pred_raw x (Ast.present p) a = signed-strip_not_chain x false p a

  -- a predicate and the r.elements it is about, as what the key keeps of it
  key_of-truth :
      (x v : String) (kind : KeyKind) (p : OptExpression)
      → key_truth r x (key_of v kind (strip_not_chain false (pred_raw p)))
        ≡ kind_truth kind (count (passes r x p) (r.elements v))
  key_of-truth x v kind p = ap (kind_truth kind) (count_cong (signed-pred_raw x p) (r.elements v))

  negated_key_of-truth :
      (x v : String) (kind : KeyKind) (p : OptExpression)
      → key_truth r x (negated_key_of v kind (strip_not_chain false (pred_raw p)))
        ≡ kind_truth kind (count (λ a. not (passes r x p a)) (r.elements v))
  negated_key_of-truth x v kind p = ap (kind_truth kind) (
      count_cong
        (λ a. xor-not (strip_not_chain false (pred_raw p)) a ∙ ap not (signed-pred_raw x p a))
        (r.elements v))
    where
      xor-not :
          (q : Bool × Expression) (a : r.Element)
          → xor (not q.0) (r.holds x q.1 a) ≡ not (signed r x q a)
      xor-not (true, e) a = ground arith
      xor-not (false, e) a = refl

  quantifier_key-truth :
      (kind : QuantifierKind) (x v : String) (p : OptExpression)
      → quantify kind (passes r x p) (r.elements v)
        ≡ key_truth r x (quantifier_key kind v (strip_not_chain false (pred_raw p)))
  quantifier_key-truth Ast.no_one x v p =
      ap not (sym (count-any (passes r x p) (r.elements v)))
      ∙ sym (count_zero (count (passes r x p) (r.elements v)))
      ∙ sym (key_of-truth x v none_of p)
  quantifier_key-truth Ast.any x v p =
      sym (count-any (passes r x p) (r.elements v)) ∙ sym (key_of-truth x v some_of p)
  quantifier_key-truth Ast.all x v p =
      sym (count-every_holds (passes r x p) (r.elements v))
      ∙ sym (negated_key_of-truth x v none_of p)
  quantifier_key-truth Ast.single x v p = sym (key_of-truth x v one_of p)

  -- `b` is what the key says, when there is a key
  abbrev Agrees : String → Option Bool → Option Key → Type 0
  Agrees x b o = (k : Key) → o ≡ some k → b ≡ some (key_truth r x k)

  Agrees-some :
      (x : String) (b : Option Bool) (q : Key) → b ≡ some (key_truth r x q) → Agrees x b (some q)
  Agrees-some x b q h k e = h ∙ ap (said x) e
    where
      said : String → Option Key → Option Bool
      said x none = none
      said x (some k) = some (key_truth r x k)

  Agrees-none : (x : String) (b : Option Bool) → Agrees x b none
  Agrees-none x b k e = absurd (ground (arith, e))

  Agrees-if :
      (x : String) (b : Option Bool) (c : Bool) (p q : Option Key)
      → (c ≡ true → Agrees x b p)
      → Agrees x b q
      → Agrees x b (if c then p else q)
  Agrees-if x b true p q f g = f refl
  Agrees-if x b false p q f g = g

  Agrees-and :
      (x : String) (b : Option Bool) (c d : Bool) (o : Option Key)
      → Agrees x b o
      → Agrees x (if c then b else none) (if c && d then o else none)
  Agrees-and x b true true o f = f
  Agrees-and x b true false o f = Agrees-none x _
  Agrees-and x b false d o f = Agrees-none x _

  size_gt_key-Agrees :
      (x v : String) (p : OptExpression) (lit : Option ℤ) (size : Option ℕ)
      → Agrees x
          (compare_opt Ast.gt (count (passes r x p) (r.elements v)) (number_of lit size))
          (size_gt_key v (strip_not_chain false (pred_raw p)) lit)
  size_gt_key-Agrees x v p none size = Agrees-none x _
  size_gt_key-Agrees x v p (some n) size =
      Agrees-if x _ (eq_ℤ n (pos 0)) _ _
        (λ h. Agrees-some x _ _ (
          ap (λ m. some (ltb_ℤ m (pos (count (passes r x p) (r.elements v)))))
            (eq_ℤ_sound n (pos 0) h)
          ∙ ap some (sym (key_of-truth x v some_of p))))
        (Agrees-none x _)

  size_eq_key-Agrees :
      (x v : String) (p : OptExpression) (lit : Option ℤ) (rhs : Expression)
      → Agrees x
          (compare_opt Ast.eq
            (count (passes r x p) (r.elements v))
            (number_of lit (size_of r (sized_variable rhs))))
          (size_eq_key v (strip_not_chain false (pred_raw p)) lit rhs)
  size_eq_key-Agrees x v p (some n) rhs =
      Agrees-if x _ (eq_ℤ n (pos 0)) _ _
        (λ h. Agrees-some x _ _ (
          ap (λ m. some (eq_ℤ (pos (count (passes r x p) (r.elements v))) m))
            (eq_ℤ_sound n (pos 0) h)
          ∙ ap some (sym (key_of-truth x v none_of p))))
        (Agrees-if x _ (eq_ℤ n (pos 1)) _ _
          (λ h. Agrees-some x _ _ (
            ap (λ m. some (eq_ℤ (pos (count (passes r x p) (r.elements v))) m))
              (eq_ℤ_sound n (pos 1) h)
            ∙ ap some (sym (key_of-truth x v one_of p))))
          (Agrees-none x _))
  size_eq_key-Agrees x v p none rhs =
      Agrees-if x _ (is_just v (sized_variable rhs)) _ _
        (λ h. Agrees-some x _ _ (
          ap
            (λ u.
              compare_opt Ast.eq (count (passes r x p) (r.elements v))
                (number_of none (size_of r u)))
            (is_just_sound v (sized_variable rhs) h)
          ∙ ap some (
              count_everything (passes r x p) (r.elements v)
              ∙ sym (negated_key_of-truth x v none_of p))))
        (Agrees-none x _)

  size_key-Agrees :
      (op : CompOp) (x v : String) (p : OptExpression) (rhs : Expression)
      → Agrees x
          (compare_opt op (count (passes r x p) (r.elements v)) (number r rhs))
          (size_key v (strip_not_chain false (pred_raw p)) op rhs)
  size_key-Agrees Ast.eq x v p rhs = size_eq_key-Agrees x v p (get_literal_int rhs) rhs
  size_key-Agrees Ast.gt x v p rhs =
      size_gt_key-Agrees x v p (get_literal_int rhs) (size_of r (sized_variable rhs))
  size_key-Agrees op x v p rhs = Agrees-none x _

  not_key-Agrees :
      (x : String) (b : Option Bool) (o : Option Key)
      → Agrees x b o
      → Agrees x (not_opt b) (not_key o)
  not_key-Agrees x b none f = Agrees-none x _
  not_key-Agrees x b (some k) f = swapped k.kind refl
    where
      n : ℕ
      n = count (signed r x (k.negated, k.base)) (r.elements k.list_var)

      swapped : (kind : KeyKind) → k.kind ≡ kind → Agrees x (not_opt b) (swap_kind k kind)
      swapped none_of h = Agrees-some x _ _ (
          ap not_opt (f k refl)
          ∙ ap (λ c. some (not (kind_truth c n))) h
          ∙ ap some (count_positive n))
      swapped some_of h = Agrees-some x _ _ (
          ap not_opt (f k refl)
          ∙ ap (λ c. some (not (kind_truth c n))) h
          ∙ ap some (sym (count_zero n)))
      swapped one_of h = Agrees-none x _

  -- With two-valued predicates, an expression that has a key is true exactly when the key, read
  -- for the variable that the expression binds, is.
  pub quantifier_canonical-truth :
      (e : Expression) (opaque : List String) (k : Key)
      → quantifier_canonical e opaque ≡ some k
      → truth r e ≡ some (key_truth r (bound_of e) k)
  unfolding quantifier_canonical truth bound_of
  quantifier_canonical-truth (Ast.quantifier_expr kind x (Ast.variable v) p) opaque =
      Agrees-if x _ (has v opaque) _ _
        (λ h. Agrees-some x _ _ (ap some (quantifier_key-truth kind x v p))) (Agrees-none x _)
  quantifier_canonical-truth (Ast.not e) opaque =
      not_key-Agrees (bound_of e) (truth r e) _ (quantifier_canonical-truth e opaque)
  quantifier_canonical-truth
        (Ast.comparison
          (Ast.function_call name _ (Ast.cons (Ast.list_comprehension x (Ast.variable v) p _) _))
          op
          rhs)
        opaque =
      Agrees-and x _ (eq_ignore_ascii_case name "size") (has v opaque) _
        (size_key-Agrees op x v p rhs)
  quantifier_canonical-truth e opaque = Agrees-none (bound_of e) _
