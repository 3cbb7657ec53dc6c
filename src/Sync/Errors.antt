-- ===== src/Sync/Errors.antt =====
-- What the app asks of a thrown value: the classifiers of frontend/src/api/routeRuns.ts.
use fieldpro_pilot.Base.{
  ℕ, Bool, true, false, ◌&&◌, ◌||◌, Option, none, some, leb, ltb, ◌==◌, Text, text, eq_text,
  includes,
}
use fieldpro_pilot.Queue.Replay.{Failure}

-- A thrown object, by the properties that the code reads: `status`, `response.status`,
-- `response.data.message`, `code`, the `error` of what its method `json` yields, and whether it is an
-- `Error`.
pub record Thrown : Type 0 where
  pub name : Text
  pub message : Text
  pub status : Option ℕ
  pub response_status : Option ℕ
  pub response_message : Option Text
  pub code : Option Text
  pub json_error : Option Text
  pub is_error : Bool

-- `new Error(message)`
abbrev pub plain_error : Text → Text → Thrown
plain_error name message = record {
  name = name;
  message = message;
  status = none;
  response_status = none;
  response_message = none;
  code = none;
  json_error = none;
  is_error = true;
}

-- `err?.status ?? err?.response?.status`
unfoldable pub status_of : Thrown → Option ℕ
status_of e = elim e.status [ none ↦ e.response_status | some s ↦ some s ]

abbrev pub holds_of : (ℕ → Bool) → Option ℕ → Bool
holds_of test none = false
holds_of test (some n) = test n

abbrev pub truncated : Thrown → Bool
truncated e =
    eq_text e.name (text "SyntaxError") && includes (text "Unexpected end of JSON input") e.message

unfoldable pub is_network_error : Thrown → Bool
is_network_error e = eq_text e.name (text "TypeError") || truncated e

unfoldable pub is_auth_error : Thrown → Bool
unfolding status_of
is_auth_error e = holds_of (λ s. s == 401 || s == 403) (status_of e)

unfoldable pub is_retryable_server_error : Thrown → Bool
unfolding status_of
is_retryable_server_error e = holds_of (λ s. leb 500 s && ltb s 600) (status_of e) || truncated e

unfoldable pub is_validation_error : Thrown → Bool
unfolding status_of
is_validation_error e = holds_of (λ s. s == 400 || s == 422) (status_of e)

unfoldable pub parse_api_error_code : Thrown → Option Text
parse_api_error_code e = e.json_error

-- what the replay asks of the value that it catches
unfoldable pub failure_of : Thrown → Failure
unfolding is_auth_error is_network_error parse_api_error_code
failure_of e = record {
  is_auth_error = is_auth_error e;
  is_network_error = is_network_error e;
  api_code = parse_api_error_code e;
  is_error = e.is_error;
  message = e.message;
}
