-- ===== src/Interpreter.antt =====
-- interpreter/interpreter_visitor.hpp: a statement is normalized, validated and handed to its handler.
-- What the handlers read outside the data directory, the CSV files, and the comparison with the
-- compaction threshold are parameters.
pub mod Rejected
mod Samples
use bsc_thesis.Base.{
  ℕ, Bool, true, false, not, ◌||◌, List, [], ◌∷◌, Option, none, some, Text, if◌then◌else◌,
}
use bsc_thesis.Status.{ErrorCode, Outcome, done, ◌>>=◌}
use bsc_thesis.Ast.{
  CreateUntypedTableNode, DropTableNode, DescribeNode, CsvImportNode, InsertNode, SelectNode,
  DeleteNode, UpdateNode, Statement,
}
use bsc_thesis.Utils.Strings.{remove_outer_quotes}
use bsc_thesis.Utils.Columns.{Schema}
use bsc_thesis.Condition.{Doubles}
use bsc_thesis.Normalizer.{normalize_insert, normalize_select, normalize_delete, normalize_update}
use bsc_thesis.Validator.{
  Check, rejected, passed, validate_describe, validate_drop, validate_insert, validate_select,
  validate_delete, validate_update,
}
use bsc_thesis.Context.{at_key}
use bsc_thesis.Select.{select_data}
use bsc_thesis.Handlers.{World, ensure_table_file_exists, table_bytes, insert_data}
use bsc_thesis.Handlers.Import.{perform_csv_import}
use bsc_thesis.Handlers.Tables.{drop_table, create_new_table, create_untyped_table}
use bsc_thesis.Update.{update_data}
use bsc_thesis.Delete.Handler.{delete_data}

-- What a statement shows: an error, a table's columns, a result set, or that it is finished.
pub data Answer : Type 0 where
  finished : Answer
  failed : ErrorCode → Answer
  described : Schema → Answer
  selected : List (List Text) → Answer

-- !validate(node, ctx) || !is_normalized
unfoldable pub is_invalid {ℓ} : {A : Type ℓ} → Check A → Bool → Bool
is_invalid (rejected e) is_normalized = true
is_invalid (passed a) is_normalized = not is_normalized

unfoldable pub then_finished : Outcome World → Outcome (Answer × World)
then_finished run = run >>= λ w'. done (finished, w')

module _ (doubles : Doubles) (is_above_threshold : ℕ → ℕ → Bool)
    (csv_files : Text → Option (List Text)) (is_silent_mode : Bool) where
  unfoldable pub visit_create : CreateUntypedTableNode → World → Outcome (Answer × World)
  visit_create node w = create_untyped_table is_silent_mode node w >>= λ (error, w').
      done (elim error as (λ _. Answer) [ none ↦ finished | some e ↦ failed e ], w')

  unfoldable pub visit_drop : DropTableNode → World → Outcome (Answer × World)
  visit_drop node w =
      let dropped = then_finished (drop_table is_silent_mode node w) in
      if is_invalid (validate_drop node w.ctx) true
      then done (failed ErrorCode.drop_generic_invalid_statement, w)
      else dropped

  unfoldable pub visit_describe : DescribeNode → World → Outcome (Answer × World)
  visit_describe node w =
      let shown =
        at_key node.table_name w.ctx.untyped_tables >>= λ schema. done (described schema, w) in
      if is_invalid (validate_describe node w.ctx) true
      then done (failed ErrorCode.describe_generic_invalid_statement, w)
      else shown

  unfoldable pub visit_insert : InsertNode → World → Outcome (Answer × World)
  visit_insert node w =
      let (is_normalized, node') = normalize_insert node w.ctx in
      validate_insert node' w.ctx >>= λ check.
      (let inserted = then_finished (insert_data is_silent_mode node' w) in
        if is_invalid check is_normalized
        then done (failed ErrorCode.insert_generic_invalid_statement, w)
        else inserted)

  unfoldable pub visit_select : SelectNode → World → Outcome (Answer × World)
  visit_select node w =
      let (is_normalized, node') = normalize_select node w.ctx in
      validate_select node' w.ctx >>= λ check.
      (let answered =
          select_data doubles is_silent_mode w.ctx node'.table_name node'.projection_mask
            node'.opt_where_node (table_bytes node'.table_name w.disk)
          >>= λ results. done (
            selected results,
            record w { disk = ensure_table_file_exists node'.table_name w.disk },
          ) in
        if is_invalid check is_normalized
        then done (failed ErrorCode.select_generic_invalid_statement, w)
        else answered)

  unfoldable pub visit_csv_import : CsvImportNode → World → Outcome (Answer × World)
  visit_csv_import node w = then_finished (
      perform_csv_import is_silent_mode node.table_name
        (csv_files (remove_outer_quotes node.file_path)) w)

  unfoldable pub visit_update : UpdateNode → World → Outcome (Answer × World)
  visit_update node w = normalize_update node w.ctx >>= λ (is_normalized, node').
      validate_update node' w.ctx >>= λ check.
      (let updated =
          then_finished (update_data doubles is_above_threshold is_silent_mode node' w) in
        if is_invalid check is_normalized
        then done (failed ErrorCode.update_generic_invalid_statement, w)
        else updated)

  unfoldable pub visit_delete : DeleteNode → World → Outcome (Answer × World)
  visit_delete node w =
      let (is_normalized, node') = normalize_delete node w.ctx in
      validate_delete node' w.ctx >>= λ check.
      (let deleted =
          then_finished (delete_data doubles is_above_threshold is_silent_mode node' w) in
        if is_invalid check is_normalized
        then done (failed ErrorCode.delete_generic_invalid_statement, w)
        else deleted)

  -- accept, which chooses the visit by the statement
  unfoldable pub visit : Statement → World → Outcome (Answer × World)
  visit (Statement.create_untyped_table node) w = visit_create node w
  visit (Statement.drop_table node) w = visit_drop node w
  visit (Statement.describe node) w = visit_describe node w
  visit (Statement.insert node) w = visit_insert node w
  visit (Statement.select node) w = visit_select node w
  visit (Statement.csv_import node) w = visit_csv_import node w
  visit (Statement.update node) w = visit_update node w
  visit (Statement.delete node) w = visit_delete node w

  -- The visit of a ProgramNode: the statements in their order.
  unfoldable pub visit_program : List Statement → World → Outcome (List Answer × World)
  visit_program [] w = done ([], w)
  visit_program (statement ∷ statements) w = visit statement w >>= λ (answer, w').
      visit_program statements w' >>= λ (answers, w''). done (answer ∷ answers, w'')
