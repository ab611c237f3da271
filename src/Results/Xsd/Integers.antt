-- ===== src/Results/Xsd/Integers.antt =====
-- Integer literals of crates/polygraph/src/result_mapping/xsd.rs, from their decimal text.
use Prim.Native.Char.{Char, code}
use Prim.Native.String.{◌∷◌ as ◌◂◌}
use rs_polygraph.Base.{ℕ, suc, ◌≤◌, ◌<◌, String, Option, none, some, ◌≡◌, refl, sym, ap, ◌∙◌, arith}
use rs_polygraph.Base.Int.{ℤ, pos, negsuc, pos_part, neg_part}
use rs_polygraph.Base.Decimal.{to_string, digits, digits-to_string, to_string-Headed}
use rs_polygraph.Results.Values.{CypherValue, literal}
use rs_polygraph.Results.Xsd.{
  digits_of, parse_i64, i64_bound, datatype_of, rdf_term_to_cypher, xsd_integer, below_bound,
  negated,
}

-- the text of an integer, a sign before a negative one
abbrev pub integer_text : ℤ → String
integer_text (pos n) = to_string n
integer_text (negsuc n) = "-" ◂ to_string (suc n)

digits_of-to_string : (n : ℕ) → digits_of (to_string n) ≡ some n
unfolding digits_of
digits_of-to_string n =
    let (c, (t, (e, _))) = to_string-Headed n in rw e (sym (ap (digits 0) e) ∙ digits-to_string n)

parse_unsigned :
    (c : Char) (s : String)
    → 48 ≤ code c
    → parse_i64 (c ◂ s) ≡ below_bound 9223372036854775807 (digits_of (c ◂ s))
unfolding parse_i64
parse_unsigned c s low = ground arith

parse_i64-to_string : (n : ℕ) → n < i64_bound → parse_i64 (to_string n) ≡ some (pos n)
parse_i64-to_string n h =
    let (c, (t, (e, low))) = to_string-Headed n in
    ap parse_i64 e
    ∙ parse_unsigned c t low
    ∙ ap (below_bound 9223372036854775807) (sym (ap digits_of e) ∙ digits_of-to_string n)
    ∙ ground arith

parse_i64-minus : (s : String) → parse_i64 ("-" ◂ s) ≡ negated (digits_of s)
unfolding parse_i64
parse_i64-minus s = refl

parse_i64-integer_text :
    (z : ℤ) → pos_part z < i64_bound → neg_part z ≤ i64_bound → parse_i64 (integer_text z) ≡ some z
parse_i64-integer_text (pos n) low high = parse_i64-to_string n low
parse_i64-integer_text (negsuc n) low high =
    parse_i64-minus (to_string (suc n)) ∙ ap negated (digits_of-to_string (suc n)) ∙ ground arith

-- what the arm of an integer type makes of the parsed value
abbrev or_text : String → Option ℤ → CypherValue
or_text value (some n) = CypherValue.integer n
or_text value none = CypherValue.string value

integral_arm :
    (parse_f64 : String → Option ℕ) (value : String) (language : Option String) (base_iri : String)
    → rdf_term_to_cypher parse_f64 (literal value (some xsd_integer) language) base_iri
      ≡ or_text value (parse_i64 value)
unfolding rdf_term_to_cypher datatype_of
integral_arm parse_f64 value language base_iri = ground arith

-- An `i64` written in decimal as an `xsd:integer` literal, with any language tag, is read back as
-- that integer, whatever the base IRI is.
pub rdf_term_to_cypher-integer :
    (parse_f64 : String → Option ℕ) (z : ℤ) (language : Option String) (base_iri : String)
    → pos_part z < i64_bound
    → neg_part z ≤ i64_bound
    → rdf_term_to_cypher parse_f64 (literal (integer_text z) (some xsd_integer) language) base_iri
      ≡ CypherValue.integer z
rdf_term_to_cypher-integer parse_f64 z language base_iri low high =
    integral_arm parse_f64 (integer_text z) language base_iri
    ∙ ap (or_text (integer_text z)) (parse_i64-integer_text z low high)
