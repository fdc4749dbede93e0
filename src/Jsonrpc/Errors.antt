-- ===== src/Jsonrpc/Errors.antt =====
-- The error codes of jsonrpc2/types.go.
use Prim.Native.String.{◌++◌}
use vipnode.Base.{String, Bool, true, false, ◌||◌, List, [], ◌∷◌}
use vipnode.Base.Exec.{Error, rpc_error, external}
use vipnode.Int.{ℤ, negsuc, eqb_ℤ}

abbrev pub invalid_request : ℤ
invalid_request = negsuc 32599

abbrev pub server_error : ℤ
server_error = negsuc 31999

abbrev pub method_not_found : ℤ
method_not_found = negsuc 32600

abbrev pub invalid_params : ℤ
invalid_params = negsuc 32601

abbrev pub internal_error : ℤ
internal_error = negsuc 32602

abbrev pub is_one_of : ℤ → List ℤ → Bool
is_one_of code [] = false
is_one_of code (wanted ∷ rest) = eqb_ℤ code wanted || is_one_of code rest

-- `IsErrorCode`: an error with a code, of those that are given, if any are. Among the modelled errors
-- only a response to a call has one.
unfoldable pub is_error_code : Error → List ℤ → Bool
is_error_code (rpc_error code message) [] = true
is_error_code (rpc_error code message) (wanted ∷ rest) = is_one_of code (wanted ∷ rest)
is_error_code x allowed = false

-- The errors of method.go.
abbrev pub receiver_hidden : String → Error
receiver_hidden name = external ("receiver must be exported: " ++ name)

abbrev pub method_hidden : String → Error
method_hidden name = external ("method must be exported: " ++ name)

abbrev pub args_hidden : String → Error
args_hidden name = external ("method args must be exported in method: " ++ name)

abbrev pub unsupported_returns : String → Error
unsupported_returns name = external ("unsupported return values in method: " ++ name)

-- Without the two numbers of its text.
abbrev pub wrong_number_of_args : Error
wrong_number_of_args = external "invalid number of args"
