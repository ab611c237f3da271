-- ===== src/Lib.antt =====
-- rs-polygraph translates openCypher queries into SPARQL. A query is parsed into an abstract syntax
-- tree, lowered to a logical query algebra, normalised, and written out as SPARQL; the caller runs the
-- SPARQL, and the bindings come back as Cypher values. This library models the parts of the crate
-- crates/polygraph that carry its own logic.
--
-- Base holds what the parts share: Boolean tests and integers over the native numbers (Base.Int), the
-- `Eq` bound as an interface (Base.Eq), hash and tree maps as association lists read by look-up
-- (Base.Dict), and decimal texts (Base.Decimal). `i64` and `i128` values are integers without bounds,
-- but for the counter of `range` in Lqa.Lower.Ranges.
--
-- Lqa is crates/polygraph/src/lqa:
-- - Lqa.Kind: the static types of expr.rs (`Type`, with `Type::meet` and `Type::join`).
-- - Lqa.Syntax: `Expr` of expr.rs and `Op` of op.rs, constructor by constructor; a `Vec` of a struct is
--   a list type whose second constructor has the struct's fields. An `f64` stands by its bits.
-- - Lqa.Write: the tests on trees with writes and `strip_writes` of write.rs; Lqa.Write.Bnodes has
--   `op_has_create_before_merge` and `strip_writes_with_bnodes`. They decide which query is run after
--   the updates of a write query.
-- - Lqa.Normalize: the rules of normalize.rs. Lqa.Normalize.Truth reads predicates in three-valued
--   logic, over an environment that gives the truth of everything that is no connective.
-- - Lqa.Aggregates: `expr_contains_aggregate` and `extract_nested_aggregates` of lower.rs; the `&mut`
--   list and counter are a state that is passed on. The counter, a `u32`, is taken not to wrap, and so
--   is the `usize` of `AliasGen`.
--   Lqa.Aggregates.Keys is `proj_cols_keys`.
-- - Lqa.Bag: bag.rs, with hash tables as association lists.
-- - Lqa.Lower: `AstLowerer` of lower.rs, from the syntax tree of Ast to Lqa.Syntax. An action takes the
--   lowerer (Lqa.Lower.State) to an outcome with the next one: a value, an error, a panic, or a `range`
--   that runs past the end of `i64` (Lqa.Lower.Outcomes). Lqa.Lower.Queries is the walk over clauses,
--   patterns and expressions, one block, which recurses on the syntax tree, and Lqa.Lower.Splits cuts a
--   query at its UNIONs. A query inside EXISTS is part of the block, where the cut is fused with the walk;
--   Lqa.Lower.Unions relates the two. Lqa.Lower.Items has the items of
--   a projection, Lqa.Lower.Terms and Lqa.Lower.Steps what is built from lowered parts. Calls that are
--   computed are in Lqa.Lower.Ranges and Lqa.Lower.Folding: the functions of temporal.rs that the latter
--   uses are the interface `Texts`. The loop of `range` has fuel for each number between its ends and one
--   round to stop, which is enough unless its `i64` wraps: Lqa.Lower.Progressions has its lists. The
--   derived `PartialEq` of `Expr` is a parameter. The counter, a `u32`, is taken not to wrap.
--
-- Results is crates/polygraph/src/result_mapping with runtime.rs and error.rs: the values and terms
-- (Results.Values), the reading of literals (Results.Xsd), the rows (Results.Mapper), and
-- `TranspileOutput` with `drive` (Results.Output). The closures of continuations are of a type that is
-- a parameter, with a function to call them: they may return continuations without end, so `drive` has
-- fuel, and Results.Output.Drive has the pipelines for which a call for each phase is enough. The
-- executor and `str::parse::<f64>` are parameters.
--
-- Temporal is the arithmetic of crates/polygraph/src/translator/cypher/temporal.rs: day numbers and
-- months (Temporal.Calendar), ISO weeks (Temporal.Weeks), carries and differences (Temporal.Durations),
-- the texts of times (Temporal.Text) and `tc_apply_truncation` (Temporal.Truncation).
-- Divisions truncate toward zero, as in the source. An `i64` is an integer there: up to the year 10 ^ 16
-- no step overflows, and the theorems on dates are limited to these years. Temporal.Calendar.Wrapped has
-- the day number in the arithmetic of `i64`. The loops over months run over a list or a count,
-- so there is no fuel. Fuel stands in Lqa.Lower.Ranges, in Results.Output and in
-- Base.Decimal, where a number plus one bounds its digits.
--
-- Ast is the abstract syntax of crates/opencypher-parser/src/ast/cypher.rs, constructor by constructor.
-- Ast.Equality is its derived equality, and Ast.Views reads its vectors as lists.
--
-- Translator is the part of crates/polygraph/src/translator/cypher that works on the abstract syntax:
-- - Translator.Validate: `validate_semantics` of semantics.rs, which runs before either path of the
--   translation. Its loop passes a scope (Translator.Scope: the kinds of variables, the names in scope,
--   whether a MATCH was seen) through an arm for each clause (Translator.Scope.With, Return, Match,
--   Create, Update) and stops at the first error. Translator.Unions has the checks of UNION,
--   Translator.Collect the collected variables and Translator.Scans the faults that are searched for.
--   Translator.Scope.Visible states the scope rules of the language apart from the code,
--   Translator.Scope.Tracked has where the code departs from them (YIELD, the paths of CREATE, UNION), and
--   Translator.Scope.Known, Binds, Creates and Replaces follow the scope through the arms.
--   Translator.Collect.Occurs has the occurrences of variables that the collection reaches. Hash maps are association lists read
--   by look-up, and hash sets are lists read by membership.
-- - Translator.Aggregation: the tests for aggregates of mod.rs.
-- - Translator.References: the searches of util.rs, those for nulls and deleted entities in
--   Translator.References.Nulls. The names of functions are taken to be ASCII.
-- - Translator.Substitution: `substitute_var_in_expr` of util.rs. Translator.Substitution.Meaning has
--   the meanings that it keeps: any algebra of values, operators and bodies of binders.
-- - Translator.CollectUnwind: `eliminate_collect_unwind` and `collect_pattern_vars` of util.rs.
-- - Translator.Opaque: `expr_contains_rand`, `clause_expr_is_opaque` and `collect_nonempty_vars` of
--   mod.rs.
-- - Translator.Quantifiers: `strip_not_chain` and `quantifier_canonical` of mod.rs, with
--   `get_literal_int` of temporal.rs. Translator.Quantifiers.Truth counts the elements of a list for
--   which a predicate holds; a predicate is true or false there, never null.
-- All of it recurses on the syntax tree, so there is no fuel.
--
-- Not modelled: the parsers (grammars compiled by another crate), the printing of SPARQL in
-- lqa/sparql.rs, write.rs and the older translator, the RDF encodings of relationships, the parsing of
-- dates and durations, and the entry points.
pub mod Ast
pub mod Base
pub mod Lqa
pub mod Results
pub mod Temporal
pub mod Translator
