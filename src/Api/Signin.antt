-- ===== src/Api/Signin.antt =====
-- The routes by which a session comes about, moves on and ends (mint-sniper/src/api.rs).
use seasniper.Common.{
  ℕ, String, Bool, true, false, Option, none, some, List, [], ◌∷◌, not, find, is_nil, is_some,
  is_empty, trim, if◌then◌else◌,
}
use seasniper.Common.Results.{Result, ok, err}
use seasniper.Failure.{Failure}
use seasniper.Bus.{
  info, warn, error, totp_not_marked, totp_enabled, device_registered, device_revoked,
}
use seasniper.Effect.{Effect, log_now}
use seasniper.Identity.Session.{Session, Done, get_active, mark_totp_verified}
use seasniper.Identity.Totp.{TotpRow, of_user, start_setup, verify_setup, verify_login}
use seasniper.Identity.Webauthn.{
  Devices, start_registration, finish_registration, start_authentication, finish_authentication,
}
use seasniper.Identity.Credentials.{Library, Credentials, list_devices, revoke_device}
use seasniper.Identity.Guard.{Request, Accounts, Refusal, require_session}
use seasniper.Api.{
  App, Outside, Outcome, Reply, done, shown, refused, failure, refusal, not_configured,
  incorrect_code, empty_label, no_such_device, session_body, signed_out_body, secret_body,
  challenge_body, devices_body, status_of, email_of,
}
use seasniper.Api.Google.{devices_of, with_codes, with_devices, with_sessions}

abbrev row_enabled : Option TotpRow → Bool
row_enabled none = false
row_enabled (some row) = row.enabled

-- `totp_is_enrolled(…).unwrap_or(false)`.
unfoldable pub totp_is_enrolled : Option String → (user : String) → List TotpRow → Bool
totp_is_enrolled (some e) user rows = false
totp_is_enrolled none user rows = row_enabled (find (of_user user) rows)

abbrev any_device : Result Failure Credentials → Bool
any_device (err e) = false
any_device (ok devices) = not (is_nil devices)

abbrev pub session_view : Outside → App → Result Failure (Option Session) → Reply
session_view w app (err e) = shown 200 signed_out_body
session_view w app (ok none) = shown 200 signed_out_body
session_view w app (ok (some s)) = shown 200 (
    session_body s.admin_tier (is_some s.totp_verified_at) (is_some s.webauthn_verified_at)
      (totp_is_enrolled (w.faults 1 0) s.user_id app.accounts.codes)
      (any_device (list_devices (w.faults 2 0) s.user_id app.credentials)))

abbrev pub session_by : Outside → App → (session_cookie : Option String) → Reply
session_by w app none = shown 200 signed_out_body
session_by w app (some id) = session_view w app (get_active (w.faults 0) id app.accounts.sessions)

unfoldable pub get_auth_session : Outside → Request → App → Outcome
get_auth_session w request app = (app, [], session_by w app request.session_cookie)

abbrev pub in_session :
    (Session → App → Outcome) → App → Accounts × Result Refusal Session → Outcome
in_session next app (accounts, err e) =
    (record app { accounts = accounts }, [], refused (status_of e) (refusal e))
in_session next app (accounts, ok s) = next s (record app { accounts = accounts })

-- `match require_session(…).await`, by the first two operations of the request.
unfoldable pub with_session : Outside → Request → App → (Session → App → Outcome) → Outcome
with_session w request app next =
    in_session next app (require_session (w.faults 0) (w.faults 1) w.net.now app.accounts request)

abbrev pub emailed : (String → Outcome) → App → Result Failure String → Outcome
emailed next app (err e) = (app, [], refused 500 (failure e))
emailed next app (ok email) = next email

abbrev pub with_email : Outside → Session → App → (String → Outcome) → Outcome
with_email w s app next = emailed next app (email_of w app 2 s)

abbrev pub secret_answer : App → List TotpRow × Result Failure (Unit {0}) → Outcome
secret_answer app (rows, err e) = (with_codes rows app, [], refused 500 (failure e))
secret_answer app (rows, ok x) = (with_codes rows app, [], shown 200 secret_body)

unfoldable pub setup_secret : Outside → Session → App → Outcome
setup_secret w s app = with_email w s app (λ email.
    secret_answer app
      (start_setup (w.faults 3) s.user_id w.sealed_secret w.net.now app.accounts.codes))

unfoldable pub post_totp_setup_start : Outside → Request → App → Outcome
post_totp_setup_start w request app = with_session w request app (setup_secret w)

-- The session's mark after an accepted code; its failure is only logged.
abbrev pub marked : Outside → (more : List Effect) → App → Done → Outcome
marked w more app (table, ok x) = (with_sessions table app, more, done 200)
marked w more app (table, err e) =
    (with_sessions table app, log_now w.net error totp_not_marked ∷ more, done 200)

abbrev pub judged :
    Outside → (more : List Effect) → Session → App → List TotpRow × Result Failure Bool → Outcome
judged w more s app (rows, err e) = (with_codes rows app, [], refused 500 (failure e))
judged w more s app (rows, ok false) = (with_codes rows app, [], refused 401 incorrect_code)
judged w more s app (rows, ok true) =
    marked w more (with_codes rows app)
      (mark_totp_verified (w.faults 4) s.id w.net.now app.accounts.sessions)

unfoldable pub confirm_setup : Outside → (code : String) → Session → App → Outcome
confirm_setup w code s app = with_email w s app (λ email.
    judged w (log_now w.net info totp_enabled ∷ []) s app
      (verify_setup w.codes (w.faults 3) s.user_id code w.net.now app.accounts.codes))

unfoldable pub post_totp_setup_verify : Outside → Request → (code : String) → App → Outcome
post_totp_setup_verify w request code app = with_session w request app (confirm_setup w code)

unfoldable pub confirm_code : Outside → (code : String) → Session → App → Outcome
confirm_code w code s app = with_email w s app (λ email.
    judged w [] s app
      (verify_login w.codes (w.faults 3) s.user_id code w.net.now app.accounts.codes))

unfoldable pub post_totp_verify : Outside → Request → (code : String) → App → Outcome
post_totp_verify w request code app = with_session w request app (confirm_code w code)

abbrev pub by_library : App → (Library → Outcome) → Option Library → Outcome
by_library app next none = (app, [], refused 503 not_configured)
by_library app next (some lib) = next lib

abbrev pub with_library : Outside → App → (Library → Outcome) → Outcome
with_library w app next = by_library app next w.webauthn

abbrev pub challenge_answer : App → Devices × Result Failure ℕ → Outcome
challenge_answer app (d, err e) = (with_devices d app, [], refused 400 (failure e))
challenge_answer app (d, ok challenge) =
    (with_devices d app, [], shown 200 (challenge_body challenge))

abbrev pub finished :
    (status : ℕ) → List Effect → App → Devices × Result Failure (Unit {0}) → Outcome
finished status news app (d, err e) = (with_devices d app, [], refused status (failure e))
finished status news app (d, ok x) = (with_devices d app, news, done 200)

unfoldable pub offer_registration : Outside → Session → App → Outcome
offer_registration w s app = with_library w app (λ lib. with_email w s app (λ email.
    challenge_answer app
      (start_registration lib (w.faults 3) s.id s.user_id email (devices_of app))))

unfoldable pub post_webauthn_register_start : Outside → Request → App → Outcome
post_webauthn_register_start w request app = with_session w request app (offer_registration w)

unfoldable pub register_device :
    Outside → (device_label : String) (response : ℕ) → Session → App → Outcome
register_device w label response s app = with_library w app (λ lib.
    if is_empty (trim label)
    then (app, [], refused 400 empty_label)
    else finished 400 (log_now w.net info (device_registered (trim label)) ∷ []) app (
        finish_registration lib (w.faults 2) (w.faults 3) w.new_row_id s.id s.user_id (trim label)
          response w.net.now (devices_of app)))

unfoldable pub post_webauthn_register_finish :
    Outside → Request → (device_label : String) (response : ℕ) → App → Outcome
post_webauthn_register_finish w request label response app =
    with_session w request app (register_device w label response)

unfoldable pub offer_authentication : Outside → Session → App → Outcome
offer_authentication w s app = with_library w app (λ lib.
    challenge_answer app (start_authentication lib (w.faults 2 0) s.id s.user_id (devices_of app)))

unfoldable pub post_webauthn_authenticate_start : Outside → Request → App → Outcome
post_webauthn_authenticate_start w request app = with_session w request app (offer_authentication w)

unfoldable pub check_assertion : Outside → (response : ℕ) → Session → App → Outcome
check_assertion w response s app = with_library w app (λ lib.
    finished 401 [] app (
      finish_authentication lib (w.faults 2) (w.faults 3) s.id response w.net.now (devices_of app)))

unfoldable pub post_webauthn_authenticate_finish :
    Outside → Request → (response : ℕ) → App → Outcome
post_webauthn_authenticate_finish w request response app =
    with_session w request app (check_assertion w response)

abbrev pub devices_answer : App → Result Failure Credentials → Outcome
devices_answer app (err e) = (app, [], refused 500 (failure e))
devices_answer app (ok devices) = (app, [], shown 200 (devices_body devices))

unfoldable pub get_webauthn_devices : Outside → Request → App → Outcome
get_webauthn_devices w request app =
    with_session w request app
      (λ s next. devices_answer next (list_devices (w.faults 2 0) s.user_id next.credentials))

abbrev pub revoke_answer :
    Outside → (id : String) → App → Credentials × Result Failure Bool → Outcome
revoke_answer w id app (rows, err e) =
    (record app { credentials = rows }, [], refused 500 (failure e))
revoke_answer w id app (rows, ok false) =
    (record app { credentials = rows }, [], refused 404 no_such_device)
revoke_answer w id app (rows, ok true) =
    (record app { credentials = rows }, log_now w.net warn (device_revoked id) ∷ [], done 200)

unfoldable pub post_webauthn_device_revoke :
    Outside → Request → (device_id : String) → App → Outcome
post_webauthn_device_revoke w request id app =
    with_session w request app (λ s next.
      revoke_answer w id next (revoke_device (w.faults 2 0) s.user_id id next.credentials))
