-- ===== src/Status.antt =====
-- The status codes of auxiliary/types/status-codes.hpp, and how the logger ends the program:
-- DBEngine/services/logger/std_logger/error_logger.cpp.
use bsc_thesis.Base.{Bool, true, false, ap, ◌≡◌, refl, if◌then◌else◌}

-- StatusCode::ErrorCode, from 0 on.
pub data ErrorCode : Type 0 where
  table_does_not_exist column_does_not_exist_in_table create_table_already_exists : ErrorCode
  insert_duplicate_primary_keys update_tried_updating_the_same_column : ErrorCode
  update_tried_updating_the_primary_key primary_key_does_not_exist : ErrorCode
  where_empty_literal_is_not_comparable where_is_is_not_violation : ErrorCode
  where_like_not_like_violation where_eq_not_eq_violation where_math_violation : ErrorCode
  describe_generic_invalid_statement insert_generic_invalid_statement : ErrorCode
  select_generic_invalid_statement update_generic_invalid_statement : ErrorCode
  delete_generic_invalid_statement drop_generic_invalid_statement : ErrorCode
  insert_primary_key_cannot_be_empty insert_not_null_no_default_violation : ErrorCode
  insert_more_values_than_columns_in_col_list insert_more_values_than_columns_in_table : ErrorCode
  insert_column_does_not_exist_in_table insert_more_columns_in_col_list_than_in_table : ErrorCode

-- StatusCode::FatalErrorCode, from 20000 on.
pub data FatalErrorCode : Type 0 where
  generic_file_io_failure col_offset_region_has_more_cols_than_allowed : FatalErrorCode
  csv_import_cannot_open_file could_not_create_table_file : FatalErrorCode
  unknown_exception_while_creating_table_file : FatalErrorCode
  primary_key_hash_map_initialization_failure hash_index_nullptr : FatalErrorCode
  delete_column_not_found_due_to_corruption unknown_io_error_during_deserialization : FatalErrorCode
  compact_unknown_error_during_copying unknown_table_file_format : FatalErrorCode
  metadata_directory_does_not_exist could_not_create_metadata_file_for_table : FatalErrorCode
  table_metadata_directory_does_not_exist drop_unknown_file_system_error : FatalErrorCode
  colcode_table_does_not_exist compact_error_while_deleting_old_file : FatalErrorCode
  compact_error_while_renaming_new_file table_not_found_in_delete_count_map : FatalErrorCode
  csv_import_unknown_exception : FatalErrorCode

-- StatusCode::WarningCode, from 40000 on.
pub data WarningCode : Type 0 where
  file_was_made_with_different_db_version csv_import_row_has_more_columns_than_table : WarningCode

-- How a run of engine code ends: with a value, by std::exit(1) in handleFatalError, by an
-- exception (std::out_of_range of `at` or `substr`), or in behaviour that C++ leaves undefined.
-- `out_of_fuel` is no end of the code: a loop of the model was not given enough rounds.
pub data Outcome {ℓ} (A : Type ℓ) : Type ℓ where
  done : A → Outcome A
  exited : FatalErrorCode → Outcome A
  threw : Outcome A
  undefined : Outcome A
  out_of_fuel : Outcome A

infixl 5 ◌>>=◌ ◌>>◌
abbrev pub ◌>>=◌ {ℓ κ} : {A : Type ℓ} {B : Type κ} → Outcome A → (A → Outcome B) → Outcome B
done a >>= f = f a
exited e >>= f = exited e
threw >>= f = threw
undefined >>= f = undefined
out_of_fuel >>= f = out_of_fuel

abbrev pub ◌>>◌ {ℓ} : {B : Type ℓ} → Outcome (Unit {0}) → Outcome B → Outcome B
m >> k = m >>= λ _. k

-- handleFatalError: in silent mode it returns to its caller before it reaches std::exit.
unfoldable pub handle_fatal_error : Bool → FatalErrorCode → Outcome (Unit {0})
handle_fatal_error is_silent_mode error_code = if is_silent_mode then done tt else exited error_code

-- The parts of a run that ends with a value.
pub >>=-eq-done {ℓ κ} :
    {A : Type ℓ} {B : Type κ} (m : Outcome A) (f : A → Outcome B) {b : B}
    → (m >>= f) ≡ done b
    → (a : A) × (m ≡ done a) × (f a ≡ done b)
>>=-eq-done (done a) f h = (a, refl, h)
>>=-eq-done (exited e) f h = cc
>>=-eq-done threw f h = cc
>>=-eq-done undefined f h = cc
>>=-eq-done out_of_fuel f h = cc

abbrev value_or {ℓ} : {A : Type ℓ} → Outcome A → A → A
value_or (done a) b = a
value_or _ b = b

pub done_inj {ℓ} : {A : Type ℓ} {a b : A} → done a ≡ done b → a ≡ b
done_inj {a = a} h = ap (λ m. value_or m a) h

pub >>=-done {ℓ} : {A : Type ℓ} (m : Outcome A) → (m >>= λ a. done a) ≡ m
>>=-done (done a) = refl
>>=-done (exited e) = refl
>>=-done threw = refl
>>=-done undefined = refl
>>=-done out_of_fuel = refl

pub >>=-ext {ℓ κ} :
    {A : Type ℓ} {B : Type κ} (m : Outcome A) (f g : A → Outcome B)
    → ((a : A) → f a ≡ g a)
    → (m >>= f) ≡ (m >>= g)
>>=-ext (done a) f g h = h a
>>=-ext (exited e) f g h = refl
>>=-ext threw f g h = refl
>>=-ext undefined f g h = refl
>>=-ext out_of_fuel f g h = refl

pub >>=-ext_bool {κ} :
    {B : Type κ} (m : Outcome Bool) (f g : Bool → Outcome B)
    → f true ≡ g true
    → f false ≡ g false
    → (m >>= f) ≡ (m >>= g)
>>=-ext_bool m f g on_true on_false =
    >>=-ext m f g (λ b. elim b as (λ c. f c ≡ g c) [ true ↦ on_true | false ↦ on_false ])

pub >>=_assoc {ℓ κ μ} :
    {A : Type ℓ} {B : Type κ} {C : Type μ} (m : Outcome A) (f : A → Outcome B) (g : B → Outcome C)
    → (m >>= f >>= g) ≡ (m >>= λ a. f a >>= g)
>>=_assoc (done a) f g = refl
>>=_assoc (exited e) f g = refl
>>=_assoc threw f g = refl
>>=_assoc undefined f g = refl
>>=_assoc out_of_fuel f g = refl
