-- ===== src/Lqa/Syntax.antt =====
-- Expressions and operators of the query algebra (crates/polygraph/src/lqa/expr.rs and op.rs).
-- `Expr` and `Op` hold one another, and lists and options of one another, so the whole family is one
-- block: a `Vec` of structs is a list type whose second constructor has the struct's fields.
-- An `f64` stands by its 64-bit pattern. `Expr::Mod` is `modulo`, `Expr::Map` is `map_of` and
-- `Expr::List` is `list_of`.
pub mod Build
use rs_polygraph.Base.{ℕ, String, Bool, true, false, List, Option, none, some}
use rs_polygraph.Base.Int.{ℤ}
use rs_polygraph.Lqa.Kind.{Kind}
use rs_polygraph.Lqa.Kind

pub data Literal : Type 0 where
  integer : ℤ → Literal
  float : ℕ → Literal
  string : String → Literal
  boolean : Bool → Literal
  null : Literal
  typed_literal : String → String → Literal
  iri : String → Literal

unfoldable pub ty : Literal → Kind
ty (integer _) = Kind.integer
ty (float _) = Kind.float
ty (string _) = Kind.string
ty (boolean _) = Kind.boolean
ty null = Kind.null
ty (typed_literal _ _) = Kind.string
ty (iri _) = Kind.string

pub data CmpOp : Type 0 where
  eq ne lt le gt ge in_list starts_with ends_with contains regex_match : CmpOp

pub data UnaryOp : Type 0 where
  neg plus not : UnaryOp

pub data SortDir : Type 0 where
  asc desc : SortDir

pub data QuantKind : Type 0 where
  all any no_one single : QuantKind

pub data AggKind : Type 0 where
  count sum avg min max collect count_star : AggKind

pub data Direction : Type 0 where
  outgoing incoming undirected : Direction

pub record PathRange : Type 0 where
  pub lower : ℕ
  pub upper : Option ℕ

pub data RemoveItem : Type 0 where
  remove_property : String → String → RemoveItem
  remove_label : String → List String → RemoveItem

mutual
  pub data Expr : Type 0 where
    variable : String → Option Kind → Expr
    literal : Literal → Expr
    parameter : String → Expr
    add sub mul div modulo pow : Expr → Expr → Expr
    unary : UnaryOp → Expr → Expr
    comparison : CmpOp → Expr → Expr → Expr
    is_null is_not_null : Expr → Expr
    and or xor : Expr → Expr → Expr
    not : Expr → Expr
    property : Expr → String → Expr
    subscript : Expr → Expr → Expr
    list_slice : Expr → OptExpr → OptExpr → Expr
    list_of : Exprs → Expr
    map_of : Bindings → Expr
    function_call : String → Bool → Exprs → Expr
    aggregate : AggKind → Bool → OptExpr → Expr
    case_searched : Branches → OptExpr → Expr
    quantifier : QuantKind → String → Expr → Expr → Expr
    list_comprehension : String → Expr → OptExpr → OptExpr → Expr
    pattern_comprehension : Option String → Op → OptExpr → Expr → Expr
    reduce : String → Expr → String → Expr → Expr → Expr
    label_check : Expr → List String → Expr
    exists : Op → Expr

  -- `Option<Box<Expr>>`
  pub data OptExpr : Type 0 where
    absent : OptExpr
    present : Expr → OptExpr

  -- `Vec<Expr>`
  pub data Exprs : Type 0 where
    nil : Exprs
    cons : Expr → Exprs → Exprs

  -- `Vec<(String, Expr)>`
  pub data Bindings : Type 0 where
    no_binding : Bindings
    binding : String → Expr → Bindings → Bindings

  -- the `WHEN … THEN …` pairs, `Vec<(Expr, Expr)>`
  pub data Branches : Type 0 where
    no_branch : Branches
    branch : Expr → Expr → Branches → Branches

  -- `Vec<ProjItem>`: `expr`, `alias`, `display_name`
  pub data ProjItems : Type 0 where
    no_item : ProjItems
    item : Expr → String → Option String → ProjItems → ProjItems

  -- `Vec<SortKey>`: `expr`, `dir`
  pub data SortKeys : Type 0 where
    no_key : SortKeys
    key : Expr → SortDir → SortKeys → SortKeys

  -- `Vec<AggItem>`: `expr`, `alias`
  pub data AggItems : Type 0 where
    no_agg : AggItems
    agg : Expr → String → AggItems → AggItems

  -- `Vec<SetItem>`
  pub data SetItems : Type 0 where
    no_set : SetItems
    set_property : String → String → Expr → SetItems → SetItems
    set_merge_map : String → Expr → SetItems → SetItems
    set_replace : String → Expr → SetItems → SetItems
    set_label : String → List String → SetItems → SetItems

  -- `Vec<CreateNode>`: `variable`, `labels`, `properties`
  pub data CreateNodes : Type 0 where
    no_node : CreateNodes
    node : Option String → List String → Bindings → CreateNodes → CreateNodes

  -- `Vec<CreateEdge>`: `variable`, `from`, `to`, `rel_type`, `direction`, `properties`
  pub data CreateEdges : Type 0 where
    no_edge : CreateEdges
    edge :
        Option String → String → String → String → Direction → Bindings → CreateEdges → CreateEdges

  -- `pattern`, `on_match`, `on_create`
  pub data MergeClause : Type 0 where
    merge_clause : Op → SetItems → SetItems → MergeClause

  pub data Op : Type 0 where
    unit : Op
    scan : String → Option String → List String → Op
    -- `inner`, `from`, `rel_var`, `to`, `rel_types`, `direction`, `range`, `path_var`
    expand :
        Op
        → String
        → Option String
        → String
        → List String
        → Direction
        → Option PathRange
        → Option String
        → Op
    values : Bindings → Op
    selection : Op → Expr → Op
    projection : Op → ProjItems → Bool → Op
    group_by : Op → List String → AggItems → Op
    order_by : Op → SortKeys → Op
    skip limit : Op → Expr → Op
    distinct : Op → Op
    unwind : Op → Expr → String → Op
    union_all union cartesian_product : Op → Op → Op
    left_outer_join : Op → Op → OptExpr → Op
    subquery : Op → Op → Op
    foreach : Op → String → Expr → Op → Op
    create : Op → CreateNodes → CreateEdges → Op
    merge : Op → MergeClause → Op
    set : Op → SetItems → Op
    delete : Op → Bool → Exprs → Op
    remove : Op → List RemoveItem → Op
    call : Op → String → Exprs → List String → Op
