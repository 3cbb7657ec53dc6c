-- ===== src/Sync/Api.antt =====
-- The calls of frontend/src/api/routeRuns.ts that a replay makes, from the answer of `fetch` on. A
-- body that is JSON is an object whose `error` is a text or absent.
use fieldpro_pilot.Base.{
  ℕ, Bool, ◌&&◌, Option, none, some, [], ◌∷◌, leb, ltb, if◌then◌else◌, Text, text,
}
use fieldpro_pilot.Sync.Errors.{Thrown, plain_error}

pub data Body : Type 0 where
  unreadable : Text → Body
  said : Option Text → Body

-- what `fetch` yields: it rejects with a TypeError, or there is an answer
pub data Fetched : Type 0 where
  no_answer : Text → Fetched
  answered : ℕ → Body → Fetched

-- `res.ok`
abbrev pub is_ok : ℕ → Bool
is_ok status = leb 200 status && ltb status 300

-- `a || b`
abbrev pub or_else : Option Text → Text → Text
or_else none b = b
or_else (some []) b = b
or_else (some (c ∷ a)) b = c ∷ a

unfoldable pub refusal : Text → Body → Thrown
refusal fallback (unreadable message) = plain_error (text "SyntaxError") message
refusal fallback (said error) = plain_error (text "Error") (or_else error fallback)

-- reading the body of an answer that is ok
abbrev pub unread : Body → Option Thrown
unread (unreadable message) = some (plain_error (text "SyntaxError") message)
unread (said error) = none

-- none where the call returns
unfoldable pub call : Text → Fetched → Option Thrown
unfolding refusal
call fallback (no_answer message) = some (plain_error (text "TypeError") message)
call fallback (answered status body) =
    if is_ok status then unread body else some (refusal fallback body)

unfoldable pub start_route_run_stop : Fetched → Option Thrown
unfolding call
start_route_run_stop answer = call (text "Failed to start stop") answer

unfoldable pub complete_stop_call : Fetched → Option Thrown
unfolding call
complete_stop_call answer = call (text "Failed to complete stop") answer

unfoldable pub skip_route_run_stop_with_hazard : Fetched → Option Thrown
unfolding call
skip_route_run_stop_with_hazard answer = call (text "Failed to skip stop") answer

unfoldable pub upload_stop_photos_call : Fetched → Option Thrown
unfolding call
upload_stop_photos_call answer = call (text "Failed to upload photos") answer
