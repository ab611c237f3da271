-- ===== src/Temporal/Truncation/Twice.antt =====
-- Truncating what is truncated (`tc_apply_truncation` of
-- crates/polygraph/src/translator/cypher/temporal.rs).
use mathlib.Core.Option
use native.Mathlib.Nat.{mul-div_cancel}
use rs_polygraph.Base.{
  ◌≤◌, ℕ, zero, suc, ◌+◌, ◌-◌, ◌*◌, ◌/◌, ◌%◌, String, Bool, Option, none, some, ◌≡◌, ◌≢◌, refl, ◌∙◌,
  sym, ap, arith,
}
use rs_polygraph.Base.Int.{ℤ, pos, negsuc, ◌-ℤ◌, ◌*ℤ◌, sub_ℕ}
use rs_polygraph.Temporal.Calendar.{temporal_epoch, temporal_from_epoch}
use rs_polygraph.Temporal.Calendar.RoundTrip.{max_year, IsDate, epoch-from_epoch, epoch_of_date}
use rs_polygraph.Temporal.Text.{TcComponents}
use rs_polygraph.Temporal.Weeks.{dow_of}
use rs_polygraph.Temporal.Truncation.{
  TruncationUnit, by_millennium, by_century, by_decade, by_year, by_week_year, by_quarter, by_month,
  by_week, by_day, by_hour, by_minute, by_second, by_millisecond, by_microsecond, by_nothing,
  unit_of, rounded, midnight, first_of_year, Date, dated, redated, monday_of, quarter_start,
  truncated, tc_apply_truncation,
}

minus : (a : ℕ) → sub_ℕ 0 (suc a) ≡ negsuc a
minus a = ground arith

product_suc : (k q : ℕ) → suc q * suc k ≡ suc (q * suc k + k)
product_suc k q = omega arith

rounded_negative : (k q : ℕ) → rounded (suc k) (sub_ℕ 0 q *ℤ pos (suc k)) ≡ sub_ℕ 0 q *ℤ pos (suc k)
rounded_negative k zero = ap pos (ap (◌* suc k) (mul-div_cancel 0 (omega arith)))
rounded_negative k (suc q) =
    let below : negsuc q *ℤ pos (suc k) ≡ negsuc (q * suc k + k) =
      ap (sub_ℕ 0) (product_suc k q) ∙ minus (q * suc k + k) in
    let quotient : suc (q * suc k + k) / suc k ≡ suc q =
      ap (◌/ suc k) (sym (product_suc k q)) ∙ mul-div_cancel (suc q) (omega arith) in
    ap (λ n. rounded (suc k) (n *ℤ pos (suc k))) (minus q)
    ∙ (ap (rounded (suc k)) below ∙ ap (λ n. sub_ℕ 0 n *ℤ pos (suc k)) quotient)

rounded_twice : (k : ℕ) (n : ℤ) → rounded (suc k) (rounded (suc k) n) ≡ rounded (suc k) n
rounded_twice k (pos n) = ap pos (ap (◌* suc k) (mul-div_cancel (n / suc k) (omega arith)))
rounded_twice k (negsuc n) = rounded_negative k (suc n / suc k)

quarter_start_twice : (m : ℤ) → quarter_start (quarter_start m) ≡ quarter_start m
quarter_start_twice (pos n) = ground arith
quarter_start_twice (negsuc n) = ground arith

Option-map_twice :
    {A : Type 0} {f : A → A}
    → ((a : A) → f (f a) ≡ f a)
    → (o : Option A) → Option.map f (Option.map f o) ≡ Option.map f o
Option-map_twice h none = refl
Option-map_twice h (some a) = ap some (h a)

abbrev pub IsDateOf : Date → Type 0
IsDateOf date =
    (y : ℕ) × ((m : ℕ) × ((d : ℕ) × (IsDate y m d
          × ((y ≤ max_year) × (date ≡ (pos y, (pos m, pos d)))))))

week_back : (n : ℕ) → pos (suc n) -ℤ (dow_of (pos (suc n)) -ℤ pos 1) ≡ pos (suc (n - n % 7))
week_back n = ground arith

monday_of_lem :
    (y m d n : ℕ)
    → temporal_epoch (pos y) (pos m) (pos d) ≡ pos (suc n)
    → monday_of (pos y, (pos m, pos d)) ≡ temporal_from_epoch (pos (suc (n - n % 7)))
unfolding monday_of
monday_of_lem y m d n e =
    ap (λ k. temporal_from_epoch (k -ℤ (dow_of k -ℤ pos 1))) e
    ∙ ap temporal_from_epoch (week_back n)

monday_of_twice : (date : Date) → IsDateOf date → monday_of (monday_of date) ≡ monday_of date
monday_of_twice date (y, (m, (d, (valid, (_, e))))) =
    let (n, number) = epoch_of_date y m d valid in
    let (y', (m', (d', (_, (from, to))))) = epoch-from_epoch (suc (n - n % 7)) (omega arith) in
    let first = ap monday_of e ∙ monday_of_lem y m d n number in
    ap monday_of (first ∙ from)
    ∙ (monday_of_lem y' m' d' (n - n % 7) to
        ∙ (ap (λ k. temporal_from_epoch (pos (suc k))) (omega arith) ∙ sym first))

-- a date, where the three are set
abbrev pub Dated : Option ℤ → Option ℤ → Option ℤ → Type 0
Dated (some y) (some m) (some d) = IsDateOf (y, (m, d))
Dated _ _ _ = Unit

redated_twice :
    (y m d h mi s n : Option ℤ) (tz : Option String) (l : Bool)
    → Dated y m d
    → let c : TcComponents = record {
      year = y;
      month = m;
      day = d;
      hour = h;
      minute = mi;
      second = s;
      ns = n;
      tz = tz;
      is_localdatetime = l;
    } in
      redated (λ e. some (monday_of e)) (redated (λ e. some (monday_of e)) c)
      ≡ redated (λ e. some (monday_of e)) c
redated_twice none m d h mi s n tz l _ = refl
redated_twice (some y) none d h mi s n tz l _ = refl
redated_twice (some y) (some m) none h mi s n tz l _ = refl
redated_twice (some y) (some m) (some d) h mi s n tz l date =
    ap
      (λ e. midnight (
        dated (some e) (record {
          year = none;
          month = none;
          day = none;
          hour = none;
          minute = none;
          second = none;
          ns = none;
          tz = tz;
          is_localdatetime = l;
        })))
      (monday_of_twice (y, (m, d)) date)

truncated_twice :
    (unit : TruncationUnit) (c : TcComponents)
    → unit ≢ by_week_year
    → Dated c.year c.month c.day
    → truncated unit (truncated unit c) ≡ truncated unit c
unfolding truncated
truncated_twice by_millennium c _ _ =
    ap (λ y. first_of_year y c) (Option-map_twice (rounded_twice 999) c.year)
truncated_twice by_century c _ _ =
    ap (λ y. first_of_year y c) (Option-map_twice (rounded_twice 99) c.year)
truncated_twice by_decade c _ _ =
    ap (λ y. first_of_year y c) (Option-map_twice (rounded_twice 9) c.year)
truncated_twice by_year c _ _ = refl
truncated_twice by_week_year c ne _ = absurd (ne refl)
truncated_twice by_quarter c _ _ =
    ap (λ m. midnight (record c { month = m; day = some (pos 1) }))
      (Option-map_twice quarter_start_twice c.month)
truncated_twice by_month c _ _ = refl
truncated_twice by_week c _ date =
    redated_twice c.year c.month c.day c.hour c.minute c.second c.ns c.tz c.is_localdatetime date
truncated_twice by_day c _ _ = refl
truncated_twice by_hour c _ _ = refl
truncated_twice by_minute c _ _ = refl
truncated_twice by_second c _ _ = refl
truncated_twice by_millisecond c _ _ =
    ap (λ n. record c { ns = n }) (Option-map_twice (rounded_twice 999999) c.ns)
truncated_twice by_microsecond c _ _ =
    ap (λ n. record c { ns = n }) (Option-map_twice (rounded_twice 999) c.ns)
truncated_twice by_nothing c _ _ = refl

-- Truncating to a unit twice is truncating once. The unit is not weekYear, and where a year, a month
-- and a day are set they are a date from the year 1 to the year 10 ^ 16.
pub tc_apply_truncation_twice :
    (unit : String) (c : TcComponents)
    → unit_of unit ≢ by_week_year
    → Dated c.year c.month c.day
    → tc_apply_truncation unit (tc_apply_truncation unit c) ≡ tc_apply_truncation unit c
unfolding tc_apply_truncation
tc_apply_truncation_twice unit c = truncated_twice (unit_of unit) c
