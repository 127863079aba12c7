-- ===== src/Errors.antt =====
-- Errors of the gateway. An error is the list of the sentinel errors that it wraps, which is what
-- `errors.Is` asks for; `other` stands for one from outside the repository.
use ws_gateway.Common.{ℕ, Bool, false, ◌||◌, List, [], ◌∷◌, ◌==◌}

pub data Sentinel : Type 0 where
  unknown_frontend_format unknown_command duplicated cache_failed delete_cache_failed : Sentinel
  marshal_failed decrypt_failed encrypt_failed max_retries_exceeded unknown_biz : Sentinel
  unknown_backend_format rate_limit_exceeded link_closed coordinator_stopped : Sentinel
  response_mismatch unknown_receiver other : Sentinel
  decode_token_failed invalid_token invalid_uri invalid_user_token : Sentinel

abbrev pub Error : Type 0
Error = List Sentinel

abbrev pub code_of : Sentinel → ℕ
code_of unknown_frontend_format = 0
code_of unknown_command = 1
code_of duplicated = 2
code_of cache_failed = 3
code_of delete_cache_failed = 4
code_of marshal_failed = 5
code_of decrypt_failed = 6
code_of encrypt_failed = 7
code_of max_retries_exceeded = 8
code_of unknown_biz = 9
code_of unknown_backend_format = 10
code_of rate_limit_exceeded = 11
code_of link_closed = 12
code_of coordinator_stopped = 13
code_of response_mismatch = 14
code_of other = 15
code_of unknown_receiver = 16
code_of decode_token_failed = 17
code_of invalid_token = 18
code_of invalid_uri = 19
code_of invalid_user_token = 20

-- errors.Is
abbrev pub is_error : Sentinel → Error → Bool
is_error s [] = false
is_error s (e ∷ es) = code_of e == code_of s || is_error s es

pub data Result {ℓ} (A : Type ℓ) : Type ℓ where
  ok : A → Result A
  err : Error → Result A
