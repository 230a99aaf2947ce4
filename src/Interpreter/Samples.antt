-- ===== src/Interpreter/Samples.antt =====
-- DROP TABLE of a table that does not exist
use bsc_thesis.Base.{◌≡◌, refl, false, none, codes, text_eq, lookup, leb, ◌*◌}
use bsc_thesis.Status.{ErrorCode, done}
use bsc_thesis.Ast.{Statement}
use bsc_thesis.Condition.Integers.{integers}
use bsc_thesis.Validator.{check_if_table_exists, validate_drop}
use bsc_thesis.Fixtures.Session.{users_world}
use bsc_thesis.Interpreter.{failed, is_invalid, visit_drop, visit}
use bsc_thesis.Interpreter.Rejected.{failed_keeps_world}

drop_orders :
    visit integers
      (λ a b. leb (3 * b) (10 * a))
      (λ path. none)
      false
      (Statement.drop_table (record { table_name = codes "orders" }))
      users_world
    ≡ done (failed ErrorCode.drop_generic_invalid_statement, users_world)
unfolding visit visit_drop is_invalid validate_drop check_if_table_exists lookup text_eq
drop_orders = refl

failed_keeps_world_example : users_world ≡ users_world
failed_keeps_world_example =
    failed_keeps_world integers (λ a b. leb (3 * b) (10 * a)) (λ path. none) false
      (Statement.drop_table (record { table_name = codes "orders" })) users_world
      ErrorCode.drop_generic_invalid_statement users_world drop_orders
