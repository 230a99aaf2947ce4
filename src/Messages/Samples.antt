-- ===== src/Messages/Samples.antt =====
-- Messages of the validator, and a value that holds a placeholder itself.
use bsc_thesis.Base.{◌≡◌, refl, some, [], ◌∷◌, codes}
use bsc_thesis.Utils.Strings.{find, starts_with}
use bsc_thesis.Status.{insert_duplicate_primary_keys, column_does_not_exist_in_table}
use bsc_thesis.Messages.{inject_context, replace, resolve_error_message_template}
use bsc_thesis.Messages.Filled.{filled, inject_context-fills}

duplicate :
    resolve_error_message_template insert_duplicate_primary_keys
      (some (codes "7" ∷ codes "users" ∷ []))
    ≡ codes "Primary key '7' already exists in table 'users'!"
unfolding resolve_error_message_template inject_context replace find starts_with
duplicate = refl

-- A column that is called `{}` takes the name of the table in its place.
nested :
    resolve_error_message_template column_does_not_exist_in_table
      (some (codes "{}" ∷ codes "users" ∷ []))
    ≡ codes "Column 'users' does not exist in table '{}'!"
unfolding resolve_error_message_template inject_context replace find starts_with
nested = refl

inject_context-fills_example :
    inject_context (codes "k {} t {}!") (codes "7" ∷ codes "u" ∷ [])
    ≡ filled (codes "k ") (codes " t " ∷ codes "!" ∷ []) (codes "7" ∷ codes "u" ∷ [])
inject_context-fills_example =
    inject_context-fills (codes "k ") (codes " t " ∷ codes "!" ∷ []) (codes "7" ∷ codes "u" ∷ [])
      (refl, (refl, tt)) ((refl, (refl, (refl, tt))), ((refl, tt), tt))
      ((refl, tt), ((refl, tt), tt))
