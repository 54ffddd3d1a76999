-- ===== src/SubmissionApi/Errors.antt =====
-- services/submission-api/apierrors/errors.go and the tests of parameters in
-- services/submission-api/security/validator.go.
use alpha_exchange.Base.{
  ℕ, ◌==◌, ltb, if◌then◌else◌, Bool, true, not, ◌&&◌, ◌||◌, List, [], ◌∷◌, Option, none, some,
  String, str_eq,
}
use alpha_exchange.Base.Int.{ℤ, pos, negsuc}

-- `internal` is every other error. Of the details of a conflict, the value is kept.
pub data ApiError : Type 0 where
  not_found : String → ApiError
  conflict : String → String → ApiError
  validation : String → String → ApiError
  unauthorized : String → ApiError
  rate_limit : ℕ → ApiError
  internal : ApiError

-- The status and the code that `WriteError` answers with.
unfoldable pub error_status : ApiError → ℕ × String
error_status (not_found message) = (404, "NOT_FOUND")
error_status (conflict message detail) = (409, "CONFLICT")
error_status (validation field message) = (400, "VALIDATION")
error_status (unauthorized message) = (401, "UNAUTHORIZED")
error_status (rate_limit retry_after) = (429, "RATE_LIMIT")
error_status internal = (500, "INTERNAL")

unfoldable pub is_persona : String → Bool
is_persona p =
    str_eq p "market_maker"
    || (str_eq p "aggressive_taker" || (str_eq p "spammer" || str_eq p "whale"))

-- Neither 0 nor from `lo` to `hi`.
unfoldable pub out_of_range : ℕ → ℕ → ℤ → Bool
out_of_range lo hi (pos n) = not (n == 0) && (ltb n lo || ltb hi n)
out_of_range lo hi (negsuc n) = true

-- The message on an unknown persona, without its name.
unfoldable pub validate_personas : List String → Option ApiError
unfolding is_persona
validate_personas [] = none
validate_personas (p ∷ ps) =
    let later = validate_personas ps in
    if is_persona p then later else some (validation "bot_personas" "unknown persona")

unfoldable pub validate_test_params : ℤ → ℤ → List String → Option ApiError
unfolding out_of_range validate_personas
validate_test_params duration_seconds bot_count personas =
    if out_of_range 30 600 duration_seconds
    then some (validation "duration_seconds" "must be between 30 and 600")
    else if out_of_range 1 1000 bot_count
    then some (validation "bot_count" "must be between 1 and 1000")
    else validate_personas personas
