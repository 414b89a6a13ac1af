-- ===== src/Error.antt =====
-- infra/infra_error.h and infra/infra_error.c (in ppdb/src/internal): the codes that every
-- operation returns, their texts, and the error that a test announces beforehand.
use Prim.Native.String.{String}
use ai_ppdb.Base.{Bool, true, false, ◌&&◌}
use ai_ppdb.Base.Int.{ℤ, pos, negsuc, eqb_ℤ}

pub data InfraError : Type 0 where
  ok invalid invalid_param no_memory exists not_ready io timeout busy dependency not_found :
      InfraError
  system would_block closed not_supported already_exists invalid_operation : InfraError

-- The value of the enumerator; `negsuc n` is -(n + 1).
unfoldable pub error_code : InfraError → ℤ
error_code ok = pos 0
error_code invalid = negsuc 0
error_code invalid_param = negsuc 1
error_code no_memory = negsuc 2
error_code exists = negsuc 3
error_code not_ready = negsuc 4
error_code io = negsuc 5
error_code timeout = negsuc 6
error_code busy = negsuc 7
error_code dependency = negsuc 8
error_code not_found = negsuc 9
error_code system = negsuc 10
error_code would_block = negsuc 11
error_code closed = negsuc 12
error_code not_supported = negsuc 13
error_code already_exists = negsuc 14
error_code invalid_operation = negsuc 15

unfoldable pub infra_error_string : InfraError → String
infra_error_string ok = "Success"
infra_error_string invalid = "Invalid parameter"
infra_error_string no_memory = "No memory"
infra_error_string timeout = "Timeout"
infra_error_string busy = "Resource busy"
infra_error_string not_found = "Not found"
infra_error_string exists = "Already exists"
infra_error_string io = "I/O error"
infra_error_string _ = "Unknown error"

-- `err != INFRA_OK`
abbrev pub is_error : InfraError → Bool
is_error ok = false
is_error _ = true

-- `g_error_state`
pub record ErrorState : Type 0 where
  pub has_expected : Bool
  pub expected_error : InfraError

abbrev pub initial_error_state : ErrorState
initial_error_state = record { has_expected = false; expected_error = ok }

pub infra_set_expected_error : InfraError → ErrorState → ErrorState
infra_set_expected_error err s = record { has_expected = true; expected_error = err }

pub infra_clear_expected_error : ErrorState → ErrorState
infra_clear_expected_error s = record { has_expected = false; expected_error = ok }

pub infra_is_expected_error : InfraError → ErrorState → Bool
unfolding error_code
infra_is_expected_error err s =
    s.has_expected && eqb_ℤ (error_code s.expected_error) (error_code err)
