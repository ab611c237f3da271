-- ===== src/Temporal/Text.antt =====
-- Padded numbers and the texts of times: `tc_fmt_frac`, `tc_fmt_time` and `TcComponents` of
-- crates/polygraph/src/translator/cypher/temporal.rs.
use Prim.Native.String.{[] as empty, ◌∷◌ as ◌◂◌, ◌++◌}
use rs_polygraph.Base.{ℕ, zero, suc, ◌-◌, String, Bool, ◌&&◌, Option, none, if◌then◌else◌}
use rs_polygraph.Base.Int.{ℤ, pos, negsuc, eq_ℤ}
use rs_polygraph.Base.Decimal.{to_string}
use Prim.Native.String
use rs_polygraph.Base.Eq.{◌==◌, string_eq}

-- a partial date and time; `None` in all fields but those set
pub record TcComponents : Type 0 where
  pub year : Option ℤ
  pub month : Option ℤ
  pub day : Option ℤ
  pub hour : Option ℤ
  pub minute : Option ℤ
  pub second : Option ℤ
  pub ns : Option ℤ
  pub tz : Option String
  pub is_localdatetime : Bool

abbrev pub or_default : ℤ → Option ℤ → ℤ
or_default d none = d
or_default d (Option.some n) = n

unfoldable pub zeros : ℕ → String
zeros zero = ""
zeros (suc n) = "0" ++ zeros n

-- `{n:0w}`: a sign counts as a place
unfoldable pub padded : ℕ → ℤ → String
unfolding zeros
padded w (pos n) = zeros (w - String.count (to_string n)) ++ to_string n
padded w (negsuc n) =
    "-" ++ (zeros (w - suc (String.count (to_string (suc n)))) ++ to_string (suc n))

-- `s.trim_end_matches('0')`
unfoldable pub trim_end_zeros : String → String
trim_end_zeros empty = empty
trim_end_zeros (c ◂ s) =
    let rest = trim_end_zeros s in if rest == "" && (c ◂ "") == "0" then "" else c ◂ rest

unfoldable pub tc_fmt_frac : ℤ → String
unfolding padded trim_end_zeros
tc_fmt_frac n = if eq_ℤ n (pos 0) then "" else "." ++ trim_end_zeros (padded 9 n)

unfoldable pub tc_fmt_time : ℤ → ℤ → ℤ → ℤ → String
unfolding padded tc_fmt_frac
tc_fmt_time h min sec n =
    let hm = padded 2 h ++ (":" ++ padded 2 min) in
    if eq_ℤ sec (pos 0) && eq_ℤ n (pos 0)
    then hm
    else hm ++ (":" ++ (padded 2 sec ++ tc_fmt_frac n))
