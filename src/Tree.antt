-- ===== src/Tree.antt =====
-- src/tree.h and src/tree.c: the syntax tree. A `tree_node_t *` is a `Node`, with NULL as `null`; the
-- fields of the struct that point to no node are its `Head`. Of the union `attr`, `op` is what
-- `new_binop` and `new_unop` write and `symbol` what the others write. `lineno` and `visited` are
-- read by messages and by printing only.
pub mod Meaning
pub mod Builder
pub mod Construct
pub mod Built
pub mod Meant
use milac.Prelude.{ℕ, Bool, true, false}
use milac.Tac.{Tac}

pub data NodeClass : Type 0 where
  cl_statement cl_expression : NodeClass

pub data NodeType : Type 0 where
  unknown_t if_t while_t assign_t read_t write_t id_t const_t biop_t uop_t : NodeType

-- the tokens of the grammar that name an operator; `other_token` is any other
pub data Token : Type 0 where
  plus minus times divide eq neq lt gt lte gte other_token : Token

pub record Head : Type 0 where
  pub id : ℕ
  pub klass : NodeClass
  pub type : NodeType
  pub leaf : Bool
  pub op : Token
  pub symbol : ℕ
  pub tac : Tac

-- `child[0]`, `child[1]`, `child[2]` and `sibling`
pub data Node : Type 0 where
  null : Node
  node : Head → Node → Node → Node → Node → Node
