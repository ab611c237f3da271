-- ===== src/Temporal/Durations.antt =====
-- The arithmetic of durations in crates/polygraph/src/translator/cypher/temporal.rs. An `i64` or
-- `i128` is read as an integer: the functions only divide, so no result is larger than the input.
pub mod Carry
pub mod Difference
use rs_polygraph.Base.{ℕ, ◌+◌, ◌*◌, ◌/◌, ◌%◌, Bool, true, false, Option, none, some, if◌then◌else◌}
use rs_polygraph.Base.Int.{
  ℤ, pos, neg, pos_part, neg_part, ◌+ℤ◌, ◌-ℤ◌, ◌*ℤ◌, ◌/ℤ◌, ◌%ℤ◌, ltb_ℤ, leb_ℤ, eq_ℤ,
}
use rs_polygraph.Temporal.Calendar.{temporal_dim}

unfoldable pub ns_carry : ℤ → ℤ × ℤ
ns_carry total_ns =
    let s_whole =
      if leb_ℤ (pos 0) total_ns then total_ns /ℤ 1000000000 else neg (neg total_ns /ℤ 1000000000) in
    let remain_ns = total_ns -ℤ s_whole *ℤ pos 1000000000 in
    let carry_min = if leb_ℤ (pos 0) s_whole then s_whole /ℤ 60 else neg (neg s_whole /ℤ 60) in
    let s_final = s_whole -ℤ carry_min *ℤ pos 60 in
    (carry_min, s_final *ℤ pos 1000000000 +ℤ remain_ns)

unfoldable pub min_carry : ℤ → ℤ × ℤ
min_carry total_min =
    let carry_h = if leb_ℤ (pos 0) total_min then total_min /ℤ 60 else neg (neg total_min /ℤ 60) in
    let min = total_min -ℤ carry_h *ℤ pos 60 in (carry_h, min)

-- `unsigned_abs`
abbrev pub abs : ℤ → ℕ
abs z = pos_part z + neg_part z

unfoldable pub split_ns_to_hms : ℤ → ℤ × (ℤ × ℤ)
split_ns_to_hms total_ns =
    let negative = ltb_ℤ total_ns (pos 0) in
    let whole = abs total_ns in
    let h = pos (whole / 3600000000000) in
    let rem = whole % 3600000000000 in
    let m = pos (rem / 60000000000) in
    let s = pos (rem % 60000000000) in
    if eq_ℤ total_ns (pos 0)
    then (pos 0, (pos 0, pos 0))
    else if negative
    then (neg h, (neg m, neg s))
    else (h, (m, s))

-- the days of the month before month `m` of year `y`
abbrev pub days_before : ℤ → ℤ → ℤ
days_before y m =
    let pm = if eq_ℤ m (pos 1) then pos 12 else m -ℤ pos 1 in
    let py = if eq_ℤ m (pos 1) then y -ℤ pos 1 else y in temporal_dim py pm

unfoldable pub calendar_diff_pos : ℤ → ℤ → ℤ → ℤ → ℤ → ℤ → ℤ × (ℤ × ℤ)
unfolding temporal_dim
calendar_diff_pos y1 m1 d1 y2 m2 d2 =
    let yd = y2 -ℤ y1 in
    let md = m2 -ℤ m1 in
    let dd = d2 -ℤ d1 in
    let md' = if ltb_ℤ dd (pos 0) then md -ℤ pos 1 else md in
    let dd' = if ltb_ℤ dd (pos 0) then dd +ℤ days_before y2 m2 else dd in
    let yd' = if ltb_ℤ md' (pos 0) then yd -ℤ pos 1 else yd in
    let md'' = if ltb_ℤ md' (pos 0) then md' +ℤ pos 12 else md' in (yd', (md'', dd'))

-- three-valued conjunction
unfoldable pub tval_and : Option Bool → Option Bool → Option Bool
tval_and (some false) b = some false
tval_and a (some false) = some false
tval_and (some true) (some true) = some true
tval_and _ _ = none
