-- ===== src/Translator/Substitution/Correct.antt =====
-- Substitution keeps the meaning of an expression
-- (crates/polygraph/src/translator/cypher/util.rs).
use rs_polygraph.Base.{
  String, Bool, true, false, some, [], ◌∷◌, ◌≡◌, refl, ap, ap₂, sym, ◌∙◌, arith, if◌then◌else◌,
  Bool-cases, inl, inr,
}
use mathlib.Core.Path.{fun_ext}
use rs_polygraph.Base.Eq.{◌==◌, string_eq}
use rs_polygraph.Ast
use rs_polygraph.Ast.{Expression, OptExpression, Expressions, Whens}
use rs_polygraph.Translator.Substitution.{
  substitute_var_in_expr, substitute_opt, substitute_all, substitute_whens,
}
use rs_polygraph.Translator.Substitution.Meaning
use rs_polygraph.Translator.Substitution.Meaning.{
  Algebra, Environment, assign, meaning, opt_meaning, body_meaning, meanings, when_meanings,
  Substitutable, OptSubstitutable, AllSubstitutable, WhensSubstitutable,
}

ap₃ :
    {A B C D : Type 0} (f : A → B → C → D) {a a' : A} {b b' : B} {c c' : C}
    → a ≡ a'
    → b ≡ b'
    → c ≡ c'
    → f a b c ≡ f a' b' c'
ap₃ f p q r = cc (p, q, r)

module _ (m : Algebra) (x : String) (r : Expression) (a : m.Value)
    (fixed : (env : Environment m) → meaning m r env ≡ a) where
  -- a binder of the same name hides the assignment
  assign_shadow :
      (y : String) (b : m.Value) (env : Environment m)
      → y == x ≡ true
      → assign m y b env ≡ assign m y b (assign m x a env)
  unfolding assign
  assign_shadow y b env same =
      fun_ext λ z.
        ground (arith, string_eq.decides y x, same, string_eq.decides z y, string_eq.decides z x)

  -- assignments to two names commute
  assign_swap :
      (y : String) (b : m.Value) (env : Environment m)
      → y == x ≡ false
      → assign m x a (assign m y b env) ≡ assign m y b (assign m x a env)
  unfolding assign
  assign_swap y b env differ = fun_ext λ z.
      ground (arith, string_eq.decides y x, differ, string_eq.decides z y, string_eq.decides z x)

  body_shadow :
      (p : OptExpression) (y : String) (env : Environment m)
      → y == x ≡ true
      → body_meaning m p y env ≡ body_meaning m p y (assign m x a env)
  unfolding meaning
  body_shadow Ast.absent y env same = refl
  body_shadow (Ast.present e) y env same =
      ap some (fun_ext λ b. ap (meaning m e) (assign_shadow y b env same))

  variable-meaning :
      (v : String) (env : Environment m) (b : Bool)
      → v == x ≡ b
      → meaning m (if v == x then r else Ast.variable v) env ≡ assign m x a env v
  unfolding assign meaning
  variable-meaning v env true e = rw e (fixed env)
  variable-meaning v env false e = rw e refl

  mutual
    unfolding meaning substitute_var_in_expr Substitutable

    substitute-meaning :
        (e : Expression)
        → Substitutable m x r a e
        → (env : Environment m)
        → meaning m (substitute_var_in_expr e x r) env ≡ meaning m e (assign m x a env)
    substitute-meaning (Ast.variable v) s env = variable-meaning v env (v == x) refl
    substitute-meaning (Ast.literal l) s env = refl
    substitute-meaning (Ast.not e) s env =
        ap (λ v. m.operate Meaning.not (v ∷ [])) (substitute-meaning e s env)
    substitute-meaning (Ast.negate e) s env =
        ap (λ v. m.operate Meaning.negate (v ∷ [])) (substitute-meaning e s env)
    substitute-meaning (Ast.is_null e) s env =
        ap (λ v. m.operate Meaning.is_null (v ∷ [])) (substitute-meaning e s env)
    substitute-meaning (Ast.is_not_null e) s env =
        ap (λ v. m.operate Meaning.is_not_null (v ∷ [])) (substitute-meaning e s env)
    substitute-meaning (Ast.or a b) (s, t) env =
        ap₂ (λ v w. m.operate Meaning.or (v ∷ w ∷ [])) (substitute-meaning a s env)
          (substitute-meaning b t env)
    substitute-meaning (Ast.and a b) (s, t) env =
        ap₂ (λ v w. m.operate Meaning.and (v ∷ w ∷ [])) (substitute-meaning a s env)
          (substitute-meaning b t env)
    substitute-meaning (Ast.xor a b) (s, t) env =
        ap₂ (λ v w. m.operate Meaning.xor (v ∷ w ∷ [])) (substitute-meaning a s env)
          (substitute-meaning b t env)
    substitute-meaning (Ast.add a b) (s, t) env =
        ap₂ (λ v w. m.operate Meaning.add (v ∷ w ∷ [])) (substitute-meaning a s env)
          (substitute-meaning b t env)
    substitute-meaning (Ast.subtract a b) (s, t) env =
        ap₂ (λ v w. m.operate Meaning.subtract (v ∷ w ∷ [])) (substitute-meaning a s env)
          (substitute-meaning b t env)
    substitute-meaning (Ast.multiply a b) (s, t) env =
        ap₂ (λ v w. m.operate Meaning.multiply (v ∷ w ∷ [])) (substitute-meaning a s env)
          (substitute-meaning b t env)
    substitute-meaning (Ast.divide a b) (s, t) env =
        ap₂ (λ v w. m.operate Meaning.divide (v ∷ w ∷ [])) (substitute-meaning a s env)
          (substitute-meaning b t env)
    substitute-meaning (Ast.modulo a b) (s, t) env =
        ap₂ (λ v w. m.operate Meaning.modulo (v ∷ w ∷ [])) (substitute-meaning a s env)
          (substitute-meaning b t env)
    substitute-meaning (Ast.power a b) (s, t) env =
        ap₂ (λ v w. m.operate Meaning.power (v ∷ w ∷ [])) (substitute-meaning a s env)
          (substitute-meaning b t env)
    substitute-meaning (Ast.subscript a b) (s, t) env =
        ap₂ (λ v w. m.operate Meaning.subscript (v ∷ w ∷ [])) (substitute-meaning a s env)
          (substitute-meaning b t env)
    substitute-meaning (Ast.comparison a op b) (s, t) env =
        ap₂ (λ v w. m.operate (Meaning.comparison op) (v ∷ w ∷ [])) (substitute-meaning a s env)
          (substitute-meaning b t env)
    substitute-meaning (Ast.property base key) s env =
        ap (λ v. m.operate (Meaning.property key) (v ∷ [])) (substitute-meaning base s env)
    substitute-meaning (Ast.function_call name distinct args) s env =
        ap (m.operate (Meaning.function_call name distinct)) (all-meaning args s env)
    substitute-meaning (Ast.list_of es) s env =
        ap (m.operate Meaning.list_of) (all-meaning es s env)
    substitute-meaning (Ast.list_slice l start end) (s, t, u) env =
        ap₃ m.slice (substitute-meaning l s env) (opt-meaning start t env) (opt-meaning end u env)
    substitute-meaning (Ast.case_expression operand whens otherwise) (s, t, u) env =
        ap₃ m.choose (opt-meaning operand s env) (whens-meaning whens t env)
          (opt-meaning otherwise u env)
    substitute-meaning (Ast.quantifier_expr kind y l p) (s, t, same) env =
        elim (Bool-cases (y == x)) [
          | inl eq ↦ rw eq (
              ap₂ (m.quantify kind)
                (sym (ap (λ k. meaning m k env) (same eq)) ∙ substitute-meaning l s env)
                (body_shadow p y env eq))
          | inr ne ↦
              rw ne (ap₂ (m.quantify kind) (substitute-meaning l s env) (body-meaning p y t env ne))
        ]
    substitute-meaning (Ast.list_comprehension y l p j) (s, t, u, same) env =
        elim (Bool-cases (y == x)) [
          | inl eq ↦ rw eq (
              ap₃ m.comprehend
                (sym (ap (λ k. meaning m k env) (same eq)) ∙ substitute-meaning l s env)
                (body_shadow p y env eq) (body_shadow j y env eq))
          | inr ne ↦ rw ne (
              ap₃ m.comprehend (substitute-meaning l s env) (body-meaning p y t env ne)
                (body-meaning j y u env ne))
        ]
    substitute-meaning _ s env = s env

    opt-meaning :
        (e : OptExpression)
        → OptSubstitutable m x r a e
        → (env : Environment m)
        → opt_meaning m (substitute_opt e x r) env ≡ opt_meaning m e (assign m x a env)
    opt-meaning Ast.absent s env = refl
    opt-meaning (Ast.present e) s env = ap some (substitute-meaning e s env)

    body-meaning :
        (e : OptExpression) (y : String)
        → OptSubstitutable m x r a e
        → (env : Environment m) → y == x ≡ false
        → body_meaning m (substitute_opt e x r) y env ≡ body_meaning m e y (assign m x a env)
    body-meaning Ast.absent y s env ne = refl
    body-meaning (Ast.present e) y s env ne = ap some (
        fun_ext λ b.
          substitute-meaning e s (assign m y b env) ∙ ap (meaning m e) (assign_swap y b env ne))

    all-meaning :
        (es : Expressions)
        → AllSubstitutable m x r a es
        → (env : Environment m)
        → meanings m (substitute_all es x r) env ≡ meanings m es (assign m x a env)
    all-meaning Ast.nil s env = refl
    all-meaning (Ast.cons e es) (s, t) env =
        ap₂ ◌∷◌ (substitute-meaning e s env) (all-meaning es t env)

    whens-meaning :
        (ws : Whens)
        → WhensSubstitutable m x r a ws
        → (env : Environment m)
        → when_meanings m (substitute_whens ws x r) env ≡ when_meanings m ws (assign m x a env)
    whens-meaning Ast.no_when s env = refl
    whens-meaning (Ast.when_then w t ws) (s, u, v) env =
        ap₃ (λ b c ds. (b, c) ∷ ds) (substitute-meaning w s env) (substitute-meaning t u env)
          (whens-meaning ws v env)

-- For a replacement whose value does not depend on the variables, the substituted expression has the
-- value of the expression with the variable bound to the replacement's value. The parts that are
-- left alone must not depend on the variable.
pub substitute_var_in_expr-meaning :
    (m : Algebra) (x : String) (r : Expression) (a : m.Value)
    → ((env : Environment m) → meaning m r env ≡ a)
    → (e : Expression) → Substitutable m x r a e
    → (env : Environment m)
    → meaning m (substitute_var_in_expr e x r) env ≡ meaning m e (assign m x a env)
substitute_var_in_expr-meaning m x r a fixed e s env = substitute-meaning m x r a fixed e s env
