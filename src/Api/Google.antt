-- ===== src/Api/Google.antt =====
-- The routes of the sign-in with Google and of the logout (mint-sniper/src/api.rs).
use seasniper.Common.{String, Option, none, some, List, [], ◌∷◌}
use seasniper.Common.Results.{Result, ok, err}
use seasniper.Failure.{Failure}
use seasniper.Bus.{info, warn, error, sign_in_failed, sign_in_succeeded, logout_failed}
use seasniper.Effect.{log_now}
use seasniper.Identity.Session.{Table, Done, create_google_verified_session, revoke}
use seasniper.Identity.Users.{User, find_or_create_user}
use seasniper.Identity.Totp.{TotpRow}
use seasniper.Identity.Oidc.{Provider, Flows, GoogleClaims, begin_login, complete_login}
use seasniper.Identity.Webauthn.{Devices}
use seasniper.Identity.Guard.{Request}
use seasniper.Api.{
  App, Outside, Outcome, Reply, done, refused, redirect, with_cookies, set_session, set_flow,
  clear_session, clear_flow, failure, not_configured, not_completed, missing_params,
  missing_flow_cookie,
}

abbrev pub with_sessions : Table → App → App
with_sessions table app = record app { accounts = record app.accounts { sessions = table } }

abbrev pub with_codes : List TotpRow → App → App
with_codes rows app = record app { accounts = record app.accounts { codes = rows } }

abbrev pub devices_of : App → Devices
devices_of app = record {
  credentials = app.credentials;
  registrations = app.registrations;
  authentications = app.authentications;
  sessions = app.accounts.sessions;
}

abbrev pub with_devices : Devices → App → App
with_devices d app = record app {
  credentials = d.credentials;
  registrations = d.registrations;
  authentications = d.authentications;
  accounts = record app.accounts { sessions = d.sessions };
}

abbrev pub login_by : Outside → App → Option Provider → Outcome
login_by w app none = (app, [], refused 503 not_configured)
login_by w app (some provider) =
    let (flows, start) = begin_login provider w.login w.net.now app.flows in
    (
      record app { flows = flows },
      [],
      with_cookies (set_flow start.flow_id ∷ []) (redirect start.auth_url),
    )

unfoldable pub get_auth_google_login : Outside → App → Outcome
get_auth_google_login w app = login_by w app w.google_oidc

-- The query of Google's redirect, and the flow cookie.
pub record Callback : Type 0 where
  pub code : Option String
  pub state : Option String
  pub error : Option String
  pub flow_cookie : Option String

abbrev pub cleared : Reply → Reply
cleared = with_cookies (clear_flow ∷ [])

abbrev pub signed_in : Outside → (email : String) → App → Done → Outcome
signed_in w email app (table, err e) =
    (with_sessions table app, [], cleared (refused 500 (failure e)))
signed_in w email app (table, ok x) = (
  with_sessions table app,
  log_now w.net info (sign_in_succeeded email) ∷ [],
  with_cookies (clear_flow ∷ set_session w.new_session_id ∷ []) (redirect "/"),
)

-- With the user: a new session.
abbrev pub user_found : Outside → GoogleClaims → App → List User × Result Failure String → Outcome
user_found w claims app (users, err e) =
    (record app { users = users }, [], cleared (refused 500 (failure e)))
user_found w claims app (users, ok user) =
    signed_in w claims.email (record app { users = users })
      (create_google_verified_session (w.faults 1) w.new_session_id user w.net.now
        app.accounts.sessions)

unfoldable pub open_session : Outside → GoogleClaims → App → Outcome
open_session w claims app = user_found w claims app (
    find_or_create_user (w.faults 0) w.new_user_id claims.google_sub claims.email w.net.now
      app.users)

abbrev pub login_completed : Outside → App → Flows × Result Failure GoogleClaims → Outcome
login_completed w app (flows, err e) = (
  record app { flows = flows },
  log_now w.net warn (sign_in_failed e) ∷ [],
  cleared (refused 401 (failure e)),
)
login_completed w app (flows, ok claims) = open_session w claims (record app { flows = flows })

-- The query's error, code and state, and the flow cookie, in the order of the checks.
unfoldable pub callback_with :
    Outside → Provider → App → (error code state flow_cookie : Option String) → Outcome
callback_with w provider app (some e) code state flow = (app, [], refused 400 (not_completed e))
callback_with w provider app none none state flow = (app, [], refused 400 missing_params)
callback_with w provider app none (some code) none flow = (app, [], refused 400 missing_params)
callback_with w provider app none (some code) (some state) none =
    (app, [], refused 400 missing_flow_cookie)
callback_with w provider app none (some code) (some state) (some flow_id) =
    login_completed w app (complete_login provider flow_id code state w.net.now app.flows)

abbrev pub callback_by : Outside → Callback → App → Option Provider → Outcome
callback_by w q app none = (app, [], refused 503 not_configured)
callback_by w q app (some provider) =
    callback_with w provider app q.error q.code q.state q.flow_cookie

unfoldable pub get_auth_google_callback : Outside → Callback → App → Outcome
get_auth_google_callback w q app = callback_by w q app w.google_oidc

abbrev pub logged_out : Outside → App → Done → Outcome
logged_out w app (table, ok x) =
    (with_sessions table app, [], with_cookies (clear_session ∷ []) (done 200))
logged_out w app (table, err e) = (
  with_sessions table app,
  log_now w.net error (logout_failed e) ∷ [],
  with_cookies (clear_session ∷ []) (done 200),
)

abbrev pub logout_by : Outside → App → (session_cookie : Option String) → Outcome
logout_by w app none = (app, [], with_cookies (clear_session ∷ []) (done 200))
logout_by w app (some id) =
    logged_out w app (revoke (w.faults 0) id w.net.now app.accounts.sessions)

unfoldable pub post_auth_logout : Outside → Request → App → Outcome
post_auth_logout w request app = logout_by w app request.session_cookie
