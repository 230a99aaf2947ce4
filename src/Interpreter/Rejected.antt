-- ===== src/Interpreter/Rejected.antt =====
-- What a statement that fails leaves: the visits of interpreter/interpreter_visitor.hpp.
use bsc_thesis.Base.{
  ℕ, ◌≡◌, refl, sym, ap, ◌∙◌, Bool, true, false, List, Option, none, some, Text, if◌then◌else◌,
  lookup,
}
use bsc_thesis.Status.{ErrorCode, Outcome, done, ◌>>=◌, >>=-eq-done, done_inj}
use bsc_thesis.Ast.{CreateUntypedTableNode, Statement}
use bsc_thesis.Utils.Strings.{remove_outer_quotes}
use bsc_thesis.Utils.Columns.{Schema}
use bsc_thesis.Condition.{Doubles}
use bsc_thesis.Normalizer.{normalize_insert, normalize_select, normalize_delete, normalize_update}
use bsc_thesis.Validator.{
  validate_describe, validate_drop, validate_insert, validate_select, validate_delete,
  validate_update,
}
use bsc_thesis.Context.{at_key}
use bsc_thesis.Handlers.{World, insert_data}
use bsc_thesis.Handlers.Import.{perform_csv_import}
use bsc_thesis.Handlers.Tables.{drop_table, create_new_table, create_untyped_table}
use bsc_thesis.Update.{update_data}
use bsc_thesis.Delete.Handler.{delete_data}
use bsc_thesis.Interpreter.{
  Answer, finished, failed, described, selected, is_invalid, then_finished, visit_create,
  visit_drop, visit_describe, visit_insert, visit_select, visit_csv_import, visit_update,
  visit_delete, visit,
}

-- A run whose failures, if it has any, leave the world.
abbrev Keeps : World → Outcome (Answer × World) → Type 0
Keeps w run = (e : ErrorCode) (w' : World) → run ≡ done (failed e, w') → w' ≡ w

finished-Keeps : (w : World) (run : Outcome World) → Keeps w (then_finished run)
unfolding then_finished
finished-Keeps w run e w' h =
    let (w'', _, h') = >>=-eq-done run _ h in
    let clash : finished ≡ failed e = ap (λ p. p.0) (done_inj h') in absurd cc

guarded-Keeps :
    (w : World) (code : ErrorCode) (b : Bool) (run : Outcome (Answer × World))
    → Keeps w run
    → Keeps w (if b then done (failed code, w) else run)
guarded-Keeps w code true run keeps e w' h = sym (ap (λ p. p.1) (done_inj h))
guarded-Keeps w code false run keeps e w' h = keeps e w' h

bind-Keeps :
    {A : Type 0} (w : World) (m : Outcome A) (f : A → Outcome (Answer × World))
    → ((a : A) → Keeps w (f a))
    → Keeps w (m >>= f)
bind-Keeps w m f keeps e w' h = let (a, _, h') = >>=-eq-done m f h in keeps a e w' h'

selected-Keeps : (w w'' : World) (rows : List (List Text)) → Keeps w (done (selected rows, w''))
selected-Keeps w w'' rows e w' h =
    let clash : selected rows ≡ failed e = ap (λ p. p.0) (done_inj h) in absurd cc

module _ (doubles : Doubles) (is_above_threshold : ℕ → ℕ → Bool)
    (csv_files : Text → Option (List Text)) (is_silent_mode : Bool) where
  create-Keeps :
      (node : CreateUntypedTableNode) (w : World) (found : Option Schema)
      → lookup node.table_name w.ctx.untyped_tables ≡ found
      → Keeps w (visit_create doubles is_above_threshold csv_files is_silent_mode node w)
  unfolding visit_create create_untyped_table
  create-Keeps node w (some schema) there e w' h =
      let (answer, run, shown) = >>=-eq-done (create_untyped_table is_silent_mode node w) _ h in
      let run' : done (some ErrorCode.create_table_already_exists, w) ≡ done answer =
        rw (there, create_untyped_table) at run in
      sym (ap (λ p. p.1) (done_inj run') ∙ ap (λ p. p.1) (done_inj shown))
  create-Keeps node w none missing e w' h =
      let (answer, run, shown) = >>=-eq-done (create_untyped_table is_silent_mode node w) _ h in
      let run' : (create_new_table is_silent_mode node w >>= λ w''. done (none, w''))
          ≡ done answer =
        rw (missing, create_untyped_table) at run in
      let (w'', _, quiet) = >>=-eq-done (create_new_table is_silent_mode node w) _ run' in
      let no_error : none ≡ answer.0 = ap (λ p. p.0) (done_inj quiet) in
      let clash : finished ≡ failed e = rw (← no_error) at (ap (λ p. p.0) (done_inj shown)) in
      absurd cc

  -- A statement that shows an error leaves the context and every file as they were.
  pub failed_keeps_world :
      (statement : Statement) (w : World) (e : ErrorCode) (w' : World)
      → visit doubles is_above_threshold csv_files is_silent_mode statement w ≡ done (failed e, w')
      → w' ≡ w
  unfolding visit visit_drop visit_describe visit_insert visit_select visit_csv_import visit_update
      visit_delete
  failed_keeps_world (Statement.create_untyped_table node) w =
      create-Keeps node w (lookup node.table_name w.ctx.untyped_tables) refl
  failed_keeps_world (Statement.drop_table node) w =
      guarded-Keeps w ErrorCode.drop_generic_invalid_statement
        (is_invalid (validate_drop node w.ctx) true) _
        (finished-Keeps w (drop_table is_silent_mode node w))
  failed_keeps_world (Statement.describe node) w =
      guarded-Keeps w ErrorCode.describe_generic_invalid_statement
        (is_invalid (validate_describe node w.ctx) true) _
        (bind-Keeps w (at_key node.table_name w.ctx.untyped_tables) _ (λ schema e w' h.
          absurd (let clash : described schema ≡ failed e = ap (λ p. p.0) (done_inj h) in cc)))
  failed_keeps_world (Statement.insert node) w =
      bind-Keeps w (validate_insert (normalize_insert node w.ctx).1 w.ctx) _ (λ check.
        guarded-Keeps w ErrorCode.insert_generic_invalid_statement
          (is_invalid check (normalize_insert node w.ctx).0) _
          (finished-Keeps w (insert_data is_silent_mode (normalize_insert node w.ctx).1 w)))
  failed_keeps_world (Statement.select node) w =
      bind-Keeps w (validate_select (normalize_select node w.ctx).1 w.ctx) _ (λ check.
        guarded-Keeps w ErrorCode.select_generic_invalid_statement
          (is_invalid check (normalize_select node w.ctx).0) _
          (bind-Keeps w _ _ (λ rows. selected-Keeps w _ rows)))
  failed_keeps_world (Statement.csv_import node) w = finished-Keeps w (
      perform_csv_import is_silent_mode node.table_name
        (csv_files (remove_outer_quotes node.file_path)) w)
  failed_keeps_world (Statement.update node) w =
      bind-Keeps w (normalize_update node w.ctx) _ (λ normalized.
        bind-Keeps w (validate_update normalized.1 w.ctx) _ (λ check.
          guarded-Keeps w ErrorCode.update_generic_invalid_statement (is_invalid check normalized.0)
            _
            (finished-Keeps w
              (update_data doubles is_above_threshold is_silent_mode normalized.1 w))))
  failed_keeps_world (Statement.delete node) w =
      bind-Keeps w (validate_delete (normalize_delete node w.ctx).1 w.ctx) _ (λ check.
        guarded-Keeps w ErrorCode.delete_generic_invalid_statement
          (is_invalid check (normalize_delete node w.ctx).0) _
          (finished-Keeps w (
            delete_data doubles is_above_threshold is_silent_mode (normalize_delete node w.ctx).1
              w)))
