-- ===== src/Temporal/Durations/Difference.antt =====
-- `calendar_diff_pos` of crates/polygraph/src/translator/cypher/temporal.rs.
use rs_polygraph.Base.{ℕ, ◌+◌, ◌≤◌, ◌<◌, ◌≡◌, ◌⊎◌, inl, inr, ◌*◌, le-or-lt, if◌then◌else◌, arith}
use rs_polygraph.Base.Int.{ℤ, pos, negsuc, ltb_ℤ, ◌-ℤ◌, ◌+ℤ◌, pos_part, neg_part}
use rs_polygraph.Temporal.Durations.{calendar_diff_pos, days_before}

-- the first date is not after the second
abbrev pub NotAfter : ℕ → ℕ → ℕ → ℕ → ℕ → ℕ → Type 0
NotAfter y1 m1 d1 y2 m2 d2 = (y1 < y2) ⊎ ((y1 ≡ y2) × ((m1 < m2) ⊎ ((m1 ≡ m2) × (d1 ≤ d2))))

-- the days, a month of `l` days before
abbrev days_of : ℕ → ℕ → ℤ → ℤ
days_of d1 d2 l = let dd = pos d2 -ℤ pos d1 in if ltb_ℤ dd (pos 0) then dd +ℤ l else dd

days_of_lem :
    (d1 d2 : ℕ) (l : ℤ)
    → d1 ≤ d2 + pos_part l
    → (neg_part (days_of d1 d2 l) ≡ 0)
      × (((d1 ≤ d2) × (d1 + pos_part (days_of d1 d2 l) ≡ d2))
          ⊎ ((d2 < d1) × (d1 + pos_part (days_of d1 d2 l) ≡ d2 + pos_part l)))
days_of_lem d1 d2 (pos l) near = elim (le-or-lt d1 d2) [
  | inl le ↦ (ground arith, inl (le, ground arith))
  | inr lt ↦ (ground arith, inr (lt, ground arith))
]
days_of_lem d1 d2 (negsuc l) near = (ground arith, inl (ground arith, ground arith))

signs_lem :
    (y1 m1 d1 y2 m2 d2 : ℕ)
    → m1 ≤ 12
    → 1 ≤ m1
    → m2 ≤ 12
    → 1 ≤ m2
    → NotAfter y1 m1 d1 y2 m2 d2
    → let (yd, (md, _)) = calendar_diff_pos (pos y1) (pos m1) (pos d1) (pos y2) (pos m2) (pos d2) in
      (neg_part yd ≡ 0) × ((neg_part md ≡ 0) × (pos_part md < 12))
unfolding calendar_diff_pos
signs_lem y1 m1 d1 y2 m2 d2 h1 h2 h3 h4 order = (ground arith, (ground arith, ground arith))

straight_lem :
    (y1 m1 d1 y2 m2 d2 : ℕ)
    → m1 ≤ 12
    → 1 ≤ m1
    → m2 ≤ 12
    → 1 ≤ m2
    → NotAfter y1 m1 d1 y2 m2 d2
    → d1 ≤ d2
    → let (yd, (md, _)) = calendar_diff_pos (pos y1) (pos m1) (pos d1) (pos y2) (pos m2) (pos d2) in
      12 * (y1 + pos_part yd) + (m1 + pos_part md) ≡ 12 * y2 + m2
unfolding calendar_diff_pos
straight_lem y1 m1 d1 y2 m2 d2 h1 h2 h3 h4 order le = ground arith

borrow_lem :
    (y1 m1 d1 y2 m2 d2 : ℕ)
    → m1 ≤ 12
    → 1 ≤ m1
    → m2 ≤ 12
    → 1 ≤ m2
    → NotAfter y1 m1 d1 y2 m2 d2
    → d2 < d1
    → let (yd, (md, _)) = calendar_diff_pos (pos y1) (pos m1) (pos d1) (pos y2) (pos m2) (pos d2) in
      12 * (y1 + pos_part yd) + (m1 + pos_part md) + 1 ≡ 12 * y2 + m2
unfolding calendar_diff_pos
borrow_lem y1 m1 d1 y2 m2 d2 h1 h2 h3 h4 order lt = ground arith

-- Between two dates in order, when the first day of the month is after the second by no more than the
-- length of the month before the second date, none of the years, months and days is negative and there
-- are less than 12 months. The months and the days lead from the first date to the second, where a
-- first day after the second borrows the month before the second date.
pub calendar_diff_pos_lem :
    (y1 m1 d1 y2 m2 d2 : ℕ)
    → m1 ≤ 12
    → 1 ≤ m1
    → m2 ≤ 12
    → 1 ≤ m2
    → NotAfter y1 m1 d1 y2 m2 d2
    → d1 ≤ d2 + pos_part (days_before (pos y2) (pos m2))
    → let (yd, (md, dd)) =
        calendar_diff_pos (pos y1) (pos m1) (pos d1) (pos y2) (pos m2) (pos d2) in
      let months = 12 * (y1 + pos_part yd) + (m1 + pos_part md) in
      ((neg_part yd ≡ 0) × ((neg_part md ≡ 0) × ((pos_part md < 12) × (neg_part dd ≡ 0))))
      × (((d1 ≤ d2) × ((months ≡ 12 * y2 + m2) × (d1 + pos_part dd ≡ d2)))
          ⊎ ((d2 < d1)
              × ((months + 1 ≡ 12 * y2 + m2)
                  × (d1 + pos_part dd ≡ d2 + pos_part (days_before (pos y2) (pos m2))))))
unfolding calendar_diff_pos
calendar_diff_pos_lem y1 m1 d1 y2 m2 d2 h1 h2 h3 h4 order near =
    let (small, days) = days_of_lem d1 d2 (days_before (pos y2) (pos m2)) near in
    let (years, (months, below)) = signs_lem y1 m1 d1 y2 m2 d2 h1 h2 h3 h4 order in
    (
      (years, (months, (below, small))),
      elim days [
        | inl (le, day) ↦ inl (le, (straight_lem y1 m1 d1 y2 m2 d2 h1 h2 h3 h4 order le, day))
        | inr (lt, day) ↦ inr (lt, (borrow_lem y1 m1 d1 y2 m2 d2 h1 h2 h3 h4 order lt, day))
      ],
    )
