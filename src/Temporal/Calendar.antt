-- ===== src/Temporal/Calendar.antt =====
-- The calendar arithmetic of crates/polygraph/src/translator/cypher/temporal.rs. An `i64` is read as
-- an integer. That is right as long as no step overflows, which holds for dates up to the year 10 ^ 16;
-- beyond about 2.5 * 10 ^ 16 the products of the source do overflow.
pub mod Months
pub mod Years
pub mod RoundTrip
pub mod Wrapped
use rs_polygraph.Base.{
  ℕ, zero, suc, Bool, true, false, not, ◌&&◌, ◌||◌, List, [], ◌∷◌, if◌then◌else◌,
}
use rs_polygraph.Base.Int.{
  ℤ, pos, negsuc, pos_part, ◌+ℤ◌, ◌-ℤ◌, ◌*ℤ◌, ◌/ℤ◌, ◌%ℤ◌, leb_ℤ, eq_ℤ, min_ℤ,
}

unfoldable pub temporal_is_leap : ℤ → Bool
temporal_is_leap y =
    (eq_ℤ (y %ℤ 4) (pos 0) && not (eq_ℤ (y %ℤ 100) (pos 0))) || eq_ℤ (y %ℤ 400) (pos 0)

abbrev february : Bool → ℤ
february leap = if leap then pos 29 else pos 28

abbrev pub is_one_of : List ℕ → ℤ → Bool
is_one_of [] m = false
is_one_of (k ∷ ks) m = eq_ℤ m (pos k) || is_one_of ks m

unfoldable pub temporal_dim : ℤ → ℤ → ℤ
unfolding temporal_is_leap
temporal_dim y m =
    if is_one_of (1 ∷ 3 ∷ 5 ∷ 7 ∷ 8 ∷ 10 ∷ 12 ∷ []) m
    then pos 31
    else if is_one_of (4 ∷ 6 ∷ 9 ∷ 11 ∷ []) m
    then pos 30
    else if is_one_of (2 ∷ []) m
    then february (temporal_is_leap y)
    else pos 30

-- `n`, after `for mo in 1..(count + 1) { n += temporal_dim(y, mo) }`
unfoldable pub add_months : ℤ → ℕ → ℤ → ℤ
unfolding temporal_dim
add_months y zero n = n
add_months y (suc count) n = add_months y count n +ℤ temporal_dim y (pos (suc count))

unfoldable pub temporal_epoch : ℤ → ℤ → ℤ → ℤ
unfolding add_months
temporal_epoch y m d =
    let y1 = y -ℤ pos 1 in
    let n = pos 365 *ℤ y1 +ℤ y1 /ℤ 4 -ℤ y1 /ℤ 100 +ℤ y1 /ℤ 400 in
    add_months y (pos_part (m -ℤ pos 1)) n +ℤ d

abbrev pub month_lengths : Bool → List ℤ
month_lengths leap =
    pos 31
    ∷ february leap
    ∷ pos 31
    ∷ pos 30
    ∷ pos 31
    ∷ pos 30
    ∷ pos 31
    ∷ pos 31
    ∷ pos 30
    ∷ pos 31
    ∷ pos 30
    ∷ pos 31
    ∷ []

-- the loop over the lengths of the months
unfoldable pub walk_months : List ℤ → ℤ → ℤ → ℤ × ℤ
walk_months [] month rem = (month, rem)
walk_months (dm ∷ months) month rem =
    if leb_ℤ rem dm then (month, rem) else walk_months months (month +ℤ pos 1) (rem -ℤ dm)

unfoldable pub temporal_ordinal_to_md : ℤ → ℤ → ℤ × ℤ
unfolding temporal_is_leap walk_months
temporal_ordinal_to_md y ord = walk_months (month_lengths (temporal_is_leap y)) (pos 1) ord

-- The second half of `temporal_from_epoch`: the loop there is the loop of `temporal_ordinal_to_md`.
abbrev pub dated : ℤ → ℤ → ℤ × (ℤ × ℤ)
dated year rem = (year, temporal_ordinal_to_md year rem)

unfoldable pub temporal_from_epoch : ℤ → ℤ × (ℤ × ℤ)
unfolding temporal_ordinal_to_md
temporal_from_epoch n =
    let n400 = (n -ℤ pos 1) /ℤ 146097 in
    let r400 = n -ℤ n400 *ℤ pos 146097 in
    let n100 = min_ℤ ((r400 -ℤ pos 1) /ℤ 36524) (pos 3) in
    let r100 = r400 -ℤ n100 *ℤ pos 36524 in
    let n4 = (r100 -ℤ pos 1) /ℤ 1461 in
    let r4 = r100 -ℤ n4 *ℤ pos 1461 in
    let n1 = min_ℤ ((r4 -ℤ pos 1) /ℤ 365) (pos 3) in
    let rem = r4 -ℤ n1 *ℤ pos 365 in
    dated (n400 *ℤ pos 400 +ℤ n100 *ℤ pos 100 +ℤ n4 *ℤ pos 4 +ℤ n1 +ℤ pos 1) rem

-- the loop of `temporal_quarter_to_md`
unfoldable pub walk_quarter : ℤ → ℕ → ℤ → ℤ → ℤ × ℤ
unfolding temporal_dim
walk_quarter y zero month rem = (month, rem)
walk_quarter y (suc count) month rem =
    let dm = temporal_dim y month in
    let rest = walk_quarter y count (month +ℤ pos 1) (rem -ℤ dm) in
    if leb_ℤ rem dm then (month, rem) else rest

unfoldable pub temporal_quarter_to_md : ℤ → ℤ → ℤ → ℤ × ℤ
unfolding walk_quarter
temporal_quarter_to_md y quarter doq = walk_quarter y 3 ((quarter -ℤ pos 1) *ℤ pos 3 +ℤ pos 1) doq
