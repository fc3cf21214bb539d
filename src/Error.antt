-- ===== src/Error.antt =====
-- common/error.h: the 32-bit result codes, and the result of a call that has an out-parameter.
use cat_db.Prelude.{ℕ, Bool, ◌==◌, ◌≡◌, refl, ◌⊎◌, inl, inr}

abbrev pub Code : Type 0
Code = ℕ

abbrev pub success : Code
success = 0x0

abbrev pub err_col_desc : Code
err_col_desc = 0x1

abbrev pub row_id_not_found : Code
row_id_not_found = 0x2

abbrev pub err_col_index : Code
err_col_index = 0x3

abbrev pub err_row_desc : Code
err_row_desc = 0x4

abbrev pub row_data_too_long : Code
row_data_too_long = 0x5

abbrev pub no_more_page_free_space : Code
no_more_page_free_space = 0x6

abbrev pub no_more_rows : Code
no_more_rows = 0x7

abbrev pub table_file_not_exists : Code
table_file_not_exists = 0x8

abbrev pub unknown_page_offset : Code
unknown_page_offset = 0x9

abbrev pub bad_page_in_file : Code
bad_page_in_file = 0xa

abbrev pub write_page_error : Code
write_page_error = 0xb

abbrev pub end_of_table_space : Code
end_of_table_space = 0xc

abbrev pub row_id_deleted : Code
row_id_deleted = 0xd

abbrev pub empty_table_space : Code
empty_table_space = 0xe

abbrev pub operation_not_support : Code
operation_not_support = 0x11

abbrev pub devisor_is_zero : Code
devisor_is_zero = 0x12

abbrev pub row_not_found : Code
row_not_found = 0x13

abbrev pub error_operation_in_euqal_join_condition : Code
error_operation_in_euqal_join_condition = 0x14

abbrev pub err_expr_type : Code
err_expr_type = 0x15

abbrev pub err_bucket_idx : Code
err_bucket_idx = 0x16

abbrev pub expr_calc_err : Code
expr_calc_err = 0x18

abbrev pub error_column_value : Code
error_column_value = 0x1a

abbrev pub end_of_buckets : Code
end_of_buckets = 0x2b

abbrev pub cast_data_error : Code
cast_data_error = 0x2e

abbrev pub size_overflow : Code
size_overflow = 0x31

abbrev pub invalid_argument : Code
invalid_argument = 0x34

-- A call that returns `SUCCESS` has filled its out-parameter; any other code leaves it alone.
pub data Result {ℓ} (A : Type ℓ) : Type ℓ where
  ok : A → Result A
  err : Code → Result A

abbrev pub code_of {ℓ} : {A : Type ℓ} → Result A → Code
code_of (ok a) = success
code_of (err c) = c

-- What the out-parameter holds after the call, `a` before it.
abbrev pub value_or {ℓ} : {A : Type ℓ} → A → Result A → A
value_or a (ok b) = b
value_or a (err c) = a

abbrev pub is_success : Code → Bool
is_success c = c == success

pub Result-cases {ℓ} :
    {A : Type ℓ} (r : Result A) → ((a : A) × (r ≡ ok a)) ⊎ ((c : Code) × (r ≡ err c))
Result-cases (ok a) = inl (a, refl)
Result-cases (err c) = inr (c, refl)
