-- ===== src/Members/Errors.antt =====
-- auth/better-auth-error.ts, and `rethrowMemberWriteError` of the member service.
use kurultay.Base.{
  ℕ, ◌&&◌, ◌||◌, Bool, false, Option, none, some, String, ltb, leb, ◌==◌, str_eq, if◌then◌else◌,
  HttpError, bad_request, unauthorized, forbidden, not_found, conflict, unprocessable, unhandled,
}

-- What an `auth.api` call throws: an `APIError`, or anything else.
pub data PluginFailure : Type 0 where
  api_error : (status_code : ℕ) (code : Option String) → PluginFailure
  other : PluginFailure

unfoldable pub better_auth_error_code : PluginFailure → Option String
better_auth_error_code (api_error status_code code) = code
better_auth_error_code other = none

unfoldable pub to_http_exception : ℕ → String → Option HttpError
to_http_exception status_code message =
    if status_code == 401
    then some (unauthorized message)
    else if status_code == 403
    then some (forbidden message)
    else if status_code == 404
    then some (not_found message)
    else if status_code == 409
    then some (conflict message)
    else if status_code == 422
    then some (unprocessable message)
    else if leb 400 status_code && ltb status_code 500
    then some (bad_request message)
    else none

-- The entry of `statusMessages` for 404 is the last argument; a caller with one for another status
-- chooses `message` by it.
unfoldable pub rethrow_better_auth_error :
    PluginFailure → (message not_found_message : String) → HttpError
rethrow_better_auth_error (api_error status_code code) message not_found_message =
    elim (to_http_exception status_code
      (if status_code == 404 then not_found_message else message)) [
        | none ↦ unhandled
        | some exception ↦ exception
      ]
rethrow_better_auth_error other message not_found_message = unhandled

abbrev has_code : (String → Bool) → Option String → Bool
has_code p none = false
has_code p (some code) = p code

-- `LAST_OWNER_CODES`
abbrev is_last_owner_code : String → Bool
is_last_owner_code code =
    str_eq code "YOU_CANNOT_LEAVE_THE_ORGANIZATION_AS_THE_ONLY_OWNER"
    || str_eq code "YOU_CANNOT_LEAVE_THE_ORGANIZATION_WITHOUT_AN_OWNER"

-- `MEMBER_WRITE_FORBIDDEN_CODES`
abbrev is_forbidden_code : String → Bool
is_forbidden_code code =
    str_eq code "YOU_ARE_NOT_ALLOWED_TO_DELETE_THIS_MEMBER"
    || str_eq code "YOU_ARE_NOT_ALLOWED_TO_UPDATE_THIS_MEMBER"

unfoldable pub rethrow_member_write_error :
    PluginFailure → (message last_owner_message : String) → HttpError
rethrow_member_write_error failure message last_owner_message =
    let code = better_auth_error_code failure in
    if has_code is_last_owner_code code
    then conflict last_owner_message
    else if has_code is_forbidden_code code
    then forbidden message
    else if has_code (λ c. str_eq c "MEMBER_NOT_FOUND") code
    then not_found "Workspace member not found"
    else rethrow_better_auth_error failure message "Workspace member not found"
