-- ===== src/Lqa/Lower/Folding.antt =====
-- Function calls that the lowering computes (crates/polygraph/src/lqa/lower.rs): the constructors and
-- truncations of dates, times and durations. The functions of
-- crates/polygraph/src/translator/cypher/temporal.rs that read and write their texts are the interface
-- `Texts`. The names of functions are taken to be ASCII.
use Prim.Native.String.{◌++◌}
use text.Mathlib.Text.{starts_with}
use rs_polygraph.Base.{
  ℕ, ◌^◌, String, Bool, true, false, ◌||◌, Option, none, some, ltb, if◌then◌else◌,
}
use rs_polygraph.Base.Int.{ℤ, pos}
use rs_polygraph.Base.Names.{eq_ignore_ascii_case}
use rs_polygraph.Ast
use rs_polygraph.Lqa.Syntax
use rs_polygraph.Lqa.Syntax.{Expr, Exprs, Literal}
use rs_polygraph.Temporal.Truncation.{tc_apply_truncation}
use rs_polygraph.Temporal.Text.{TcComponents, or_default, padded, tc_fmt_time}

pub data TemporalKind : Type 0 where
  date localtime localdatetime time datetime duration : TemporalKind

pub data Span : Type 0 where
  between in_months in_days in_seconds : Span

-- the functions that are computed, by the base of their name
pub data Base : Type 0 where
  construct : TemporalKind → Base
  truncate : TemporalKind → Base
  span : Span → Base
  from_epoch from_epoch_millis other : Base

-- The name without its suffix, in lower case, is `base`.
unfoldable pub has_base : String → String → Bool
has_base name base =
    eq_ignore_ascii_case name base
    || (eq_ignore_ascii_case name (base ++ ".transaction")
        || (eq_ignore_ascii_case name (base ++ ".statement")
            || eq_ignore_ascii_case name (base ++ ".realtime")))

unfoldable pub base_of : String → Base
unfolding has_base
base_of name =
    if has_base name "date"
    then construct date
    else if has_base name "localtime"
    then construct localtime
    else if has_base name "localdatetime"
    then construct localdatetime
    else if has_base name "time"
    then construct time
    else if has_base name "datetime"
    then construct datetime
    else if has_base name "duration"
    then construct duration
    else if has_base name "date.truncate"
    then truncate date
    else if has_base name "datetime.truncate"
    then truncate datetime
    else if has_base name "localdatetime.truncate"
    then truncate localdatetime
    else if has_base name "localtime.truncate"
    then truncate localtime
    else if has_base name "time.truncate"
    then truncate time
    else if has_base name "duration.between"
    then span between
    else if has_base name "duration.inmonths"
    then span in_months
    else if has_base name "duration.indays"
    then span in_days
    else if has_base name "duration.inseconds"
    then span in_seconds
    else if has_base name "datetime.fromepoch"
    then from_epoch
    else if has_base name "datetime.fromepochmillis"
    then from_epoch_millis
    else other

-- a text with the datatype of its kind
unfoldable pub typed : TemporalKind → String → Literal
typed date s = Literal.typed_literal s "http://www.w3.org/2001/XMLSchema#date"
typed localtime s = Literal.typed_literal s "http://www.w3.org/2001/XMLSchema#time"
typed time s = Literal.typed_literal s "http://www.w3.org/2001/XMLSchema#time"
typed localdatetime s = Literal.typed_literal s "http://www.w3.org/2001/XMLSchema#dateTime"
typed datetime s = Literal.typed_literal s "http://www.w3.org/2001/XMLSchema#dateTime"
typed duration s = Literal.string s

-- the value of a constructor with no argument
unfoldable pub placeholder : TemporalKind → String
placeholder date = "2000-01-01"
placeholder localtime = "00:00:00"
placeholder time = "00:00:00Z"
placeholder localdatetime = "2000-01-01T00:00:00"
placeholder datetime = "2000-01-01T00:00:00Z"
placeholder duration = "PT0S"

abbrev pub has_variable : Ast.MapLiteral → Bool
has_variable Ast.no_pair = false
has_variable (Ast.pair _ (Ast.variable _) m) = true
has_variable (Ast.pair _ _ m) = has_variable m

abbrev pub date_text : TcComponents → String
date_text c =
    padded 4 (or_default (pos 0) c.year)
    ++ ("-"
        ++ (padded 2 (or_default (pos 1) c.month) ++ ("-" ++ padded 2 (or_default (pos 1) c.day))))

abbrev pub time_text : TcComponents → String
time_text c =
    tc_fmt_time (or_default (pos 0) c.hour) (or_default (pos 0) c.minute)
      (or_default (pos 0) c.second) (or_default (pos 0) c.ns)

abbrev pub zone_text : TcComponents → String
zone_text c = elim c.tz [ none ↦ "Z" | some z ↦ z ]

-- the text of what a truncation leaves
unfoldable pub truncated_text : TemporalKind → TcComponents → String
unfolding padded tc_fmt_time
truncated_text date c = date_text c
truncated_text datetime c = date_text c ++ ("T" ++ (time_text c ++ zone_text c))
truncated_text localdatetime c = date_text c ++ ("T" ++ time_text c)
truncated_text localtime c = time_text c
truncated_text time c = time_text c ++ zone_text c
truncated_text duration c = ""

abbrev pub map_literal : TemporalKind → Option String → Option Expr
map_literal kind none = none
map_literal kind (some s) = some (Expr.literal (typed kind s))

-- a typed text, or a text that begins as a duration does
abbrev pub temporal_text : Expr → Option String
temporal_text (Expr.literal (Literal.typed_literal v _)) = some v
temporal_text (Expr.literal (Literal.string v)) =
    if starts_with v "P" || starts_with v "-P" then some v else none
temporal_text _ = none

abbrev pub is_null : Expr → Bool
is_null (Expr.literal Literal.null) = true
is_null _ = false

-- an integer that fits a `u32`
abbrev pub nanoseconds : Expr → Option ℕ
nanoseconds (Expr.literal (Literal.integer (pos n))) = if ltb n (2 ^ 32) then some n else none
nanoseconds _ = none

-- `temporal_*_from_map`, `temporal_parse_*`, `tc_from_expr`, `tc_from_iso_string`,
-- `tc_apply_overrides`, `temporal_duration_*` and `temporal_fromepoch*`
pub record Texts : Type 0 where
  pub from_map : TemporalKind → Ast.MapLiteral → Option String
  pub parse : TemporalKind → String → Option String
  pub components : Ast.Expression → Option TcComponents
  pub iso_components : String → Option TcComponents
  pub apply_overrides : Ast.MapLiteral → TcComponents → TcComponents
  pub duration_of : Span → String → String → Option String
  pub epoch_text : ℤ → ℕ → String
  pub millis_text : ℤ → String

module _ (t : Texts) where
  unfoldable pub construct_literal : TemporalKind → Ast.Expressions → Option Expr
  unfolding typed placeholder
  construct_literal kind Ast.nil = some (Expr.literal (typed kind (placeholder kind)))
  construct_literal kind (Ast.cons (Ast.literal Ast.null) _) = some (Expr.literal Literal.null)
  construct_literal kind (Ast.cons (Ast.map_of pairs) _) =
      if has_variable pairs then none else map_literal kind (t.from_map kind pairs)
  construct_literal kind (Ast.cons (Ast.literal (Ast.string s)) _) =
      map_literal kind (t.parse kind s)
  construct_literal kind _ = none

  abbrev pub components_of : Ast.Expression → Option TcComponents
  components_of e = elim (t.components e) [
    | some c ↦ some c
    | none ↦ elim e [ Ast.literal (Ast.string s) ↦ t.iso_components s | _ ↦ none ]
  ]

  unfoldable pub truncate_literal : TemporalKind → Ast.Expressions → Option Expr
  unfolding typed truncated_text tc_apply_truncation
  truncate_literal kind
        (Ast.cons (Ast.literal (Ast.string u)) (Ast.cons e (Ast.cons (Ast.map_of overrides) _))) =
      elim (components_of e) [
        | none ↦ none
        | some c ↦ some (
            Expr.literal (
              typed kind
                (truncated_text kind (t.apply_overrides overrides (tc_apply_truncation u c)))))
      ]
  truncate_literal kind _ = none

  abbrev pub span_texts : Span → Option String → Option String → Option Expr
  span_texts s (some v) (some w) = map_literal duration (t.duration_of s v w)
  span_texts s _ _ = none

  unfoldable pub span_literal : Span → Exprs → Option Expr
  unfolding typed
  span_literal s (Syntax.cons a (Syntax.cons b _)) =
      if is_null a || is_null b
      then some (Expr.literal Literal.null)
      else span_texts s (temporal_text a) (temporal_text b)
  span_literal s _ = none

  abbrev pub epoch_texts : ℤ → Option ℕ → Option Expr
  epoch_texts n none = none
  epoch_texts n (some ns) = some (Expr.literal (typed datetime (t.epoch_text n ns)))

  unfoldable pub epoch_literal : Exprs → Option Expr
  unfolding typed
  epoch_literal (Syntax.cons (Expr.literal (Literal.integer n)) (Syntax.cons ns _)) =
      epoch_texts n (nanoseconds ns)
  epoch_literal _ = none

  unfoldable pub millis_literal : Exprs → Option Expr
  unfolding typed
  millis_literal (Syntax.cons (Expr.literal (Literal.integer n)) _) =
      some (Expr.literal (typed datetime (t.millis_text n)))
  millis_literal _ = none

  -- the folded call, from the arguments before and after they are lowered
  unfoldable pub fold_base : Base → Ast.Expressions → Exprs → Option Expr
  unfolding construct_literal truncate_literal span_literal epoch_literal millis_literal
  fold_base (construct kind) args lowered = construct_literal kind args
  fold_base (truncate kind) args lowered = truncate_literal kind args
  fold_base (span s) args lowered = span_literal s lowered
  fold_base from_epoch args lowered = epoch_literal lowered
  fold_base from_epoch_millis args lowered = millis_literal lowered
  fold_base other args lowered = none

  unfoldable pub lower_call : String → Bool → Ast.Expressions → Exprs → Expr
  unfolding base_of fold_base
  lower_call name distinct args lowered = elim (fold_base (base_of name) args lowered) [
    | some e ↦ e
    | none ↦ Expr.function_call name distinct lowered
  ]
