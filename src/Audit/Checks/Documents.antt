-- ===== src/Audit/Checks/Documents.antt =====
-- backend/app/audit/checks.py: the documents that the checks read. What the parsers of Python, JSON,
-- TOML and YAML give is data here, as far as the checks ask for it.
use remedy_graph.Prelude.{ℕ, suc, String, Option, none, some, List, [], ◌∷◌, ◌++◌}
use remedy_graph.Audit.Contracts.{Scalar}

mutual
  -- a dictionary, a list, or a leaf
  pub data Tree : Type 0 where
    object : Fields → Tree
    array : Items → Tree
    leaf : Scalar → Tree

  pub data Fields : Type 0 where
    no_fields : Fields
    field : String → Tree → Fields → Fields

  pub data Items : Type 0 where
    no_items : Items
    item : Tree → Items → Items

-- a part of a path: a key or an index
pub data PathPart : Type 0 where
  name_part : String → PathPart
  index_part : ℕ → PathPart

abbrev pub KeyPath : Type 0
KeyPath = List PathPart

unfoldable mutual
  -- `_flatten`
  pub flatten : Tree → KeyPath → List (KeyPath × Scalar)
  flatten (object fields) path = flatten_fields fields path
  flatten (array items) path = flatten_items items 0 path
  flatten (leaf value) path = (path, value) ∷ []

  pub flatten_fields : Fields → KeyPath → List (KeyPath × Scalar)
  flatten_fields no_fields path = []
  flatten_fields (field name nested rest) path =
      flatten nested (path ++ name_part name ∷ []) ++ flatten_fields rest path

  pub flatten_items : Items → ℕ → KeyPath → List (KeyPath × Scalar)
  flatten_items no_items n path = []
  flatten_items (item nested rest) n path =
      flatten nested (path ++ index_part n ∷ []) ++ flatten_items rest (suc n) path

-- `ast.Assign` and `ast.AnnAssign`: the names among the targets, and the value if it is a constant
pub record Assignment : Type 0 where
  pub targets : List (Option String)
  pub value : Option Scalar
  pub lineno : ℕ

-- the parent of a node, as far as `_scan_python` tells parents apart
pub data Parent : Type 0 where
  statement call_function call_argument keyword other_parent : Parent

-- a node in the order of `ast.walk`, with the text that `ast.unparse` gives
pub data Node : Type 0 where
  call : String → ℕ → Node
  loaded : String → Option Parent → ℕ → Node
  other_node : Node

-- an expression that is called
pub data Callee : Type 0 where
  name : String → Callee
  attribute : Callee → Callee
  other_callee : Callee

-- `_root_name`
unfoldable pub root_name : Callee → Option String
root_name (name id) = some id
root_name (attribute expression) = root_name expression
root_name other_callee = none

-- an assignment of a call, with the text of what is called
pub record CallAssignment : Type 0 where
  pub called : String
  pub function : Callee
  pub targets : List (Option String)

-- a node of an asserted expression
pub data Expression : Type 0 where
  name_load : String → Expression
  call_of : Callee → String → Expression
  other_expression : Expression

-- `ast.With`: the texts of its contexts, and the nodes below each node of its body
pub record With : Type 0 where
  pub contexts : List String
  pub body : List (List Expression)

pub record TestFunction : Type 0 where
  pub name : String
  pub lineno : ℕ
  pub end_lineno : Option ℕ
  pub assignments : List CallAssignment
  pub assertions : List (List Expression)
  pub withs : List With

-- a module of Python: its assignments, its nodes, the names that it imports and its functions
pub record Module : Type 0 where
  pub assignments : List Assignment
  pub nodes : List Node
  pub imported : List String
  pub functions : List TestFunction
