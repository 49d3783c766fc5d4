-- ===== src/Table/Errors.antt =====
-- The error codes of c/include/zeroipc.h, and c/src/error.c.

-- `zeroipc_error_t`
pub data Code : Type 0 where
  success error_open error_mmap error_size error_not_found error_table_full : Code
  error_name_too_long error_invalid_magic error_version_mismatch : Code
  error_already_exists error_timeout : Code

-- A call that returns ZEROIPC_OK and a value, or an error code.
pub data Result {ℓ} (A : Type ℓ) : Type ℓ where
  ok : A → Result A
  err : Code → Result A
