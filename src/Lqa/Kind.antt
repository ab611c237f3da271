-- ===== src/Lqa/Kind.antt =====
-- The static types of expressions and their two combinations (crates/polygraph/src/lqa/expr.rs).
-- The enum `Type` is `Kind` here, since `Type` is the word for a universe.
pub mod Lattice
use rs_polygraph.Base.{Bool, true, false, ◌&&◌, ◌||◌, if◌then◌else◌}

pub data Kind : Type 0 where
  integer float string boolean : Kind
  date local_time zoned_time local_date_time zoned_date_time duration : Kind
  list : Kind → Kind
  map node relationship path any null numeric : Kind

-- the derived `PartialEq`
pub kind_eq : Kind → Kind → Bool
kind_eq integer integer = true
kind_eq float float = true
kind_eq string string = true
kind_eq boolean boolean = true
kind_eq date date = true
kind_eq local_time local_time = true
kind_eq zoned_time zoned_time = true
kind_eq local_date_time local_date_time = true
kind_eq zoned_date_time zoned_date_time = true
kind_eq duration duration = true
kind_eq (list a) (list b) = kind_eq a b
kind_eq map map = true
kind_eq node node = true
kind_eq relationship relationship = true
kind_eq path path = true
kind_eq any any = true
kind_eq null null = true
kind_eq numeric numeric = true
kind_eq _ _ = false

abbrev is_nullable : Kind → Bool
is_nullable _ = true

abbrev pub is_numeric : Kind → Bool
is_numeric integer = true
is_numeric float = true
is_numeric numeric = true
is_numeric _ = false

abbrev pub is_graph_entity : Kind → Bool
is_graph_entity node = true
is_graph_entity relationship = true
is_graph_entity path = true
is_graph_entity _ = false

abbrev pub is_primitive : Kind → Bool
is_primitive integer = true
is_primitive float = true
is_primitive string = true
is_primitive boolean = true
is_primitive date = true
is_primitive local_time = true
is_primitive zoned_time = true
is_primitive local_date_time = true
is_primitive zoned_date_time = true
is_primitive duration = true
is_primitive null = true
is_primitive _ = false

abbrev pub is_null : Kind → Bool
is_null null = true
is_null _ = false

abbrev pub is_any : Kind → Bool
is_any any = true
is_any _ = false

abbrev pub is_float : Kind → Bool
is_float float = true
is_float _ = false

pub meet : Kind → Kind → Kind
meet a b =
    if kind_eq a b
    then a
    else if is_numeric a && is_numeric b
    then numeric
    else if is_null a
    then b
    else if is_null b
    then a
    else any

pub join : Kind → Kind → Kind
join a b =
    if kind_eq a b
    then a
    else if is_any a || is_any b
    then any
    else if is_numeric a && is_numeric b
    then (if is_float a || is_float b then float else numeric)
    else if is_null a
    then b
    else if is_null b
    then a
    else any
