-- ===== src/Api/Router.antt =====
-- `router` (mint-sniper/src/api.rs): the routes behind `require_token_or_session`, and the public ones. The static
-- files change nothing and are left out.
use seasniper.Common.{ℕ, String, List, [], ◌∷◌}
use seasniper.Config.{Config}
use seasniper.Identity.Guard.{
  Request, Decision, next_run, unauthorized, forbidden, server_error, require_token_or_session,
}
use seasniper.Api.{
  App, Outside, Outcome, done, shown, refused, guarded, token_body, identity_configured,
}
use seasniper.Api.Orders.{
  get_config, get_status, put_config, post_arm, post_abort, post_trigger, post_copymint_fire,
  post_copymint_eligibility, post_target_resolve, post_target_set, post_target_search,
  post_delegated_fire,
}
use seasniper.Api.Delegation.{get_delegated_status, post_delegated_preflight}
use seasniper.Api.Signin.{
  get_auth_session, post_totp_setup_start, post_totp_setup_verify, post_totp_verify,
  post_webauthn_register_start, post_webauthn_register_finish, post_webauthn_authenticate_start,
  post_webauthn_authenticate_finish, get_webauthn_devices, post_webauthn_device_revoke,
}
use seasniper.Api.Google.{
  Callback, get_auth_google_login, get_auth_google_callback, post_auth_logout,
}

-- The protected routes.
pub data Call : Type 0 where
  read_config read_status : Call
  write_config : Config → Call
  arm abort trigger : Call
  copymint_fire : (nft_contract fee_recipient : String) → Call
  copymint_eligibility : (nft_contract : String) → Call
  target_resolve : (input : String) → Call
  -- With the configuration that the request reads at its start.
  target_set : (seen : Config) (nft_contract : String) → Call
  target_search : (query : String) → Call
  delegated_status delegated_preflight delegated_fire : Call
  events : Call

pub data Visit : Type 0 where
  token google_login : Visit
  google_callback : Callback → Visit
  logout session_state : Visit
  totp_setup_start : Visit
  totp_setup_verify totp_verify : (code : String) → Visit
  register_start : Visit
  register_finish : (device_label : String) (response : ℕ) → Visit
  authenticate_start : Visit
  authenticate_finish : (response : ℕ) → Visit
  devices : Visit
  device_revoke : (device_id : String) → Visit

pub data Route : Type 0 where
  protected : Call → Route
  public : Visit → Route

unfoldable pub handle : Outside → Request → Call → App → Outcome
handle w request read_config app = get_config app
handle w request read_status app = get_status app
handle w request (write_config cfg) app = put_config w request cfg app
handle w request arm app = post_arm w request app
handle w request abort app = post_abort app
handle w request trigger app = post_trigger w request app
handle w request (copymint_fire nft fee) app = post_copymint_fire w request nft fee app
handle w request (copymint_eligibility nft) app = post_copymint_eligibility w nft app
handle w request (target_resolve input) app = post_target_resolve w input app
handle w request (target_set seen nft) app = post_target_set w request seen nft app
handle w request (target_search query) app = post_target_search w query app
handle w request delegated_status app = get_delegated_status w app
handle w request delegated_preflight app = post_delegated_preflight w app
handle w request delegated_fire app = post_delegated_fire w request app
-- `ws_handler`: the connection is taken over by `stream_events`.
handle w request events app = (app, [], done 101)

unfoldable pub visit : Outside → Request → Visit → App → Outcome
visit w request token app = (app, [], shown 200 (token_body w.api_token))
visit w request google_login app = get_auth_google_login w app
visit w request (google_callback q) app = get_auth_google_callback w q app
visit w request logout app = post_auth_logout w request app
visit w request session_state app = get_auth_session w request app
visit w request totp_setup_start app = post_totp_setup_start w request app
visit w request (totp_setup_verify code) app = post_totp_setup_verify w request code app
visit w request (totp_verify code) app = post_totp_verify w request code app
visit w request register_start app = post_webauthn_register_start w request app
visit w request (register_finish label response) app =
    post_webauthn_register_finish w request label response app
visit w request authenticate_start app = post_webauthn_authenticate_start w request app
visit w request (authenticate_finish response) app =
    post_webauthn_authenticate_finish w request response app
visit w request devices app = get_webauthn_devices w request app
visit w request (device_revoke id) app = post_webauthn_device_revoke w request id app

-- What the guard decides: the handler, or an answer without it.
abbrev pub guarded_by : Decision → (App → Outcome) → App → Outcome
guarded_by next_run next app = next app
guarded_by unauthorized next app = (app, [], refused 401 (guarded unauthorized))
guarded_by forbidden next app = (app, [], refused 403 (guarded forbidden))
guarded_by (server_error e) next app = (app, [], refused 500 (guarded (server_error e)))

abbrev pub decision : Outside → Request → App → Decision
decision w request app =
    require_token_or_session w.guard_faults (identity_configured w) w.api_token
      app.accounts.sessions request

unfoldable pub serve : Outside → Request → Route → App → Outcome
serve w request (protected call) app =
    guarded_by (decision w request app) (handle w request call) app
serve w request (public v) app = visit w request v app

-- The requests that the process serves one after the other, each in a world of its own.
abbrev pub serve_all : List (Outside × Request × Route) → App → App
serve_all [] app = app
serve_all ((w, request, route) ∷ rest) app = serve_all rest (serve w request route app).0
