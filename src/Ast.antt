-- ===== src/Ast.antt =====
-- The statements that the parser hands to the engine: parser/ast.hpp. A pointer that may be null
-- is an Option. Destructors and ownership are not modelled.
use bsc_thesis.Base.{ℕ, Bool, List, Option, Text}

pub record UntypedColumnDefNode : Type 0 where
  pub name : Text
  pub modifiers : List Text

pub data LiteralType : Type 0 where
  empty string number nullval trueval falseval : LiteralType

pub record LiteralNode : Type 0 where
  pub type : LiteralType
  pub value : Text

pub data ComparatorType : Type 0 where
  is is_not like not_like eq ne lt le gt ge : ComparatorType

-- `schema_index` is a std::uint8_t, 255 until the normalizer resolves the column.
pub record ConditionNode : Type 0 where
  pub col_name : Text
  pub cmp : ComparatorType
  pub literal_value : LiteralNode
  pub schema_index : ℕ

-- A WHERE clause with its list of conditions, which the grammar never leaves empty:
-- `condition` is `conditions[0]`.
pub record WhereNode : Type 0 where
  pub condition : ConditionNode
  pub others : List ConditionNode

pub record CreateUntypedTableNode : Type 0 where
  pub table_name : Text
  pub columns : List UntypedColumnDefNode

pub record DropTableNode : Type 0 where
  pub table_name : Text

pub record DescribeNode : Type 0 where
  pub table_name : Text

pub record CsvImportNode : Type 0 where
  pub table_name : Text
  pub file_path : Text

-- One row of VALUES: after normalization a column that was not listed holds a null pointer.
pub record ValueRecordNode : Type 0 where
  pub values : List (Option LiteralNode)

pub record InsertNode : Type 0 where
  pub table_name : Text
  pub columns : Option (List Text)
  pub records : List ValueRecordNode
  pub projection_mask : List Bool
  pub is_normalized : Bool

pub record SelectNode : Type 0 where
  pub columns : Option (List Text)
  pub table_name : Text
  pub opt_where_node : Option WhereNode
  pub projection_mask : List Bool
  pub is_normalized : Bool

pub record DeleteNode : Type 0 where
  pub table_name : Text
  pub opt_where_node : Option WhereNode

pub record AssignmentNode : Type 0 where
  pub col_name : Text
  pub literal_node : LiteralNode

-- `schema_index_to_literal_map` holds a key at most once.
pub record UpdateNode : Type 0 where
  pub table_name : Text
  pub assignments : List AssignmentNode
  pub opt_where_node : Option WhereNode
  pub inverse_proj_mask : List Bool
  pub is_normalized : Bool
  pub schema_index_to_literal_map : List (ℕ × Text)

pub data Statement : Type 0 where
  create_untyped_table : CreateUntypedTableNode → Statement
  drop_table : DropTableNode → Statement
  describe : DescribeNode → Statement
  insert : InsertNode → Statement
  select : SelectNode → Statement
  csv_import : CsvImportNode → Statement
  update : UpdateNode → Statement
  delete : DeleteNode → Statement
