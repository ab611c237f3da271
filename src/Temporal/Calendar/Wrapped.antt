-- ===== src/Temporal/Calendar/Wrapped.antt =====
-- `temporal_epoch` of crates/polygraph/src/translator/cypher/temporal.rs in the arithmetic of `i64`,
-- each operation wrapping around, as it does where overflow is not checked.
use rs_polygraph.Base.{ℕ, zero, suc, ◌-◌, ◌^◌, ◌%◌, ltb, if◌then◌else◌}
use rs_polygraph.Base.Int.{ℤ, pos, negsuc, pos_part, ◌+ℤ◌, ◌-ℤ◌, ◌*ℤ◌, ◌/ℤ◌}
use rs_polygraph.Temporal.Calendar.{temporal_dim}

-- an integer modulo 2 ^ 64, as an `i64`
unfoldable pub wrapped : ℤ → ℤ
wrapped (pos n) = let r = n % 2 ^ 64 in if ltb r (2 ^ 63) then pos r else negsuc (2 ^ 64 - 1 - r)
wrapped (negsuc n) = let r = n % 2 ^ 64 in if ltb r (2 ^ 63) then negsuc r else pos (2 ^ 64 - 1 - r)

unfoldable pub add_months_i64 : ℤ → ℕ → ℤ → ℤ
unfolding wrapped temporal_dim
add_months_i64 y zero n = n
add_months_i64 y (suc count) n =
    wrapped (add_months_i64 y count n +ℤ temporal_dim y (pos (suc count)))

unfoldable pub temporal_epoch_i64 : ℤ → ℤ → ℤ → ℤ
unfolding wrapped add_months_i64
temporal_epoch_i64 y m d =
    let y1 = wrapped (y -ℤ pos 1) in
    let n =
      wrapped (wrapped (wrapped (wrapped (pos 365 *ℤ y1) +ℤ y1 /ℤ 4) -ℤ y1 /ℤ 100) +ℤ y1 /ℤ 400) in
    wrapped (add_months_i64 y (pos_part (m -ℤ pos 1)) n +ℤ d)

-- the sum of the years before, with and without wraps
abbrev years_i64 : ℤ → ℤ
years_i64 y1 =
    wrapped (wrapped (wrapped (wrapped (pos 365 *ℤ y1) +ℤ y1 /ℤ 4) -ℤ y1 /ℤ 100) +ℤ y1 /ℤ 400)

abbrev years : ℤ → ℤ
years y1 = pos 365 *ℤ y1 +ℤ y1 /ℤ 4 -ℤ y1 /ℤ 100 +ℤ y1 /ℤ 400
