-- ===== src/Ast.antt =====
-- The abstract syntax of openCypher (crates/opencypher-parser/src/ast/cypher.rs).
-- Clauses, patterns and expressions hold one another, and vectors and options of one another, so
-- the family is one block: a struct is a constructor with the struct's fields in their order, and a
-- `Vec` of structs is a list type whose second constructor has the struct's fields. An `f64` stands
-- by its 64-bit pattern. `Expression::Map` is `map_of` and `Expression::List` is `list_of`.
pub mod Views
pub mod Equality
use rs_polygraph.Base.{ℕ, String, Bool, List, Option}
use rs_polygraph.Base.Int.{ℤ}

pub data Literal : Type 0 where
  integer : ℤ → Literal
  float : ℕ → Literal
  string : String → Literal
  boolean : Bool → Literal
  null : Literal

pub data CompOp : Type 0 where
  eq ne lt le gt ge in_list starts_with ends_with contains regex_match : CompOp

pub data QuantifierKind : Type 0 where
  all any no_one single : QuantifierKind

pub data Direction : Type 0 where
  right left both : Direction

pub record RangeQuantifier : Type 0 where
  pub lower : Option ℕ
  pub upper : Option ℕ

-- `RemoveItem::Property` and `RemoveItem::Label`
pub data RemoveItem : Type 0 where
  remove_property : String → String → RemoveItem
  remove_label : String → List String → RemoveItem

mutual
  pub data Expression : Type 0 where
    or xor and : Expression → Expression → Expression
    not : Expression → Expression
    comparison : Expression → CompOp → Expression → Expression
    is_null is_not_null : Expression → Expression
    add subtract multiply divide modulo : Expression → Expression → Expression
    negate : Expression → Expression
    power : Expression → Expression → Expression
    property : Expression → String → Expression
    variable : String → Expression
    literal : Literal → Expression
    list_of : Expressions → Expression
    map_of : MapLiteral → Expression
    aggregate : AggregateExpr → Expression
    function_call : String → Bool → Expressions → Expression
    label_check : String → List String → Expression
    pattern_predicate : Pattern → Expression
    exists_subquery : PatternList → OptExpression → Expression
    exists_full_subquery : Clauses → Expression
    case_expression : OptExpression → Whens → OptExpression → Expression
    quantifier_expr : QuantifierKind → String → Expression → OptExpression → Expression
    subscript : Expression → Expression → Expression
    list_slice : Expression → OptExpression → OptExpression → Expression
    list_comprehension : String → Expression → OptExpression → OptExpression → Expression
    pattern_comprehension : Option String → Pattern → OptExpression → Expression → Expression

  -- `Option<Box<Expression>>`, and the `Option<WhereClause>` of a clause
  pub data OptExpression : Type 0 where
    absent : OptExpression
    present : Expression → OptExpression

  -- `Vec<Expression>`
  pub data Expressions : Type 0 where
    nil : Expressions
    cons : Expression → Expressions → Expressions

  -- `MapLiteral`, `Vec<(Ident, Expression)>`
  pub data MapLiteral : Type 0 where
    no_pair : MapLiteral
    pair : String → Expression → MapLiteral → MapLiteral

  -- `Option<MapLiteral>`
  pub data OptMapLiteral : Type 0 where
    no_map : OptMapLiteral
    some_map : MapLiteral → OptMapLiteral

  -- the `WHEN … THEN …` pairs, `Vec<(Expression, Expression)>`
  pub data Whens : Type 0 where
    no_when : Whens
    when_then : Expression → Expression → Whens → Whens

  -- `distinct`, `expr`
  pub data AggregateExpr : Type 0 where
    count : Bool → OptExpression → AggregateExpr
    sum avg min max collect : Bool → Expression → AggregateExpr

  -- `variable`, `elements`
  pub data Pattern : Type 0 where
    pattern_of : Option String → PatternElements → Pattern

  -- `Vec<Pattern>`
  pub data PatternList : Type 0 where
    no_pattern : PatternList
    also : Pattern → PatternList → PatternList

  -- `PatternElement::Node` with `variable`, `labels`, `properties`;
  -- `PatternElement::Relationship` with `variable`, `direction`, `rel_types`, `properties`, `range`
  pub data PatternElement : Type 0 where
    node : Option String → List String → OptMapLiteral → PatternElement
    relationship :
        Option String
        → Direction
        → List String
        → OptMapLiteral
        → Option RangeQuantifier
        → PatternElement

  -- `Vec<PatternElement>`
  pub data PatternElements : Type 0 where
    no_element : PatternElements
    element : PatternElement → PatternElements → PatternElements

  -- `Vec<ReturnItem>`: `expression`, `alias`
  pub data ItemList : Type 0 where
    no_item : ItemList
    item : Expression → Option String → ItemList → ItemList

  -- `ReturnItems::All` and `ReturnItems::Explicit`
  pub data ReturnItems : Type 0 where
    all_items : ReturnItems
    explicit : ItemList → ReturnItems

  -- `Vec<SortItem>`: `expression`, `descending`
  pub data SortItems : Type 0 where
    no_sort : SortItems
    sort : Expression → Bool → SortItems → SortItems

  -- `Option<OrderByClause>`
  pub data OptOrderBy : Type 0 where
    unordered : OptOrderBy
    order_by : SortItems → OptOrderBy

  pub data SetItem : Type 0 where
    set_property : String → String → Expression → SetItem
    merge_map : String → MapLiteral → SetItem
    node_replace : String → Expression → SetItem
    set_label : String → List String → SetItem

  -- `Vec<SetItem>`
  pub data SetItems : Type 0 where
    no_set : SetItems
    then_set : SetItem → SetItems → SetItems

  -- `Vec<MergeAction>`: `on_create`, `items`
  pub data MergeActions : Type 0 where
    no_action : MergeActions
    action : Bool → SetItems → MergeActions → MergeActions

  pub data Clause : Type 0 where
    -- `optional`, `pattern`, `where_`
    match : Bool → PatternList → OptExpression → Clause
    -- `distinct`, `items`, `where_`, `order_by`, `skip`, `limit`
    with_items :
        Bool → ReturnItems → OptExpression → OptOrderBy → OptExpression → OptExpression → Clause
    -- `distinct`, `items`, `order_by`, `skip`, `limit`
    return : Bool → ReturnItems → OptOrderBy → OptExpression → OptExpression → Clause
    -- `expression`, `variable`
    unwind : Expression → String → Clause
    create : PatternList → Clause
    -- `pattern`, `actions`
    merge : Pattern → MergeActions → Clause
    set : SetItems → Clause
    -- `detach`, `expressions`
    delete : Bool → Expressions → Clause
    remove : List RemoveItem → Clause
    -- `procedure`, `args`, `yields`
    call : String → Expressions → List String → Clause
    -- `all`
    union : Bool → Clause

  -- `Vec<Clause>`
  pub data Clauses : Type 0 where
    no_clause : Clauses
    clause : Clause → Clauses → Clauses

pub record CypherQuery : Type 0 where
  pub clauses : List Clause
