-- ===== src/Examples/Requests.antt =====
-- The theorems on the API, on sign-in, on passkeys and on the audit log, at small inputs.
use seasniper.Common.{true, false, none, some, List, [], ◌∷◌, ◌≡◌, ◌⊎◌, refl}
use seasniper.Common.Results.{ok, err}
use seasniper.Bus.{ServerEvent}
use seasniper.Identity.Session.{Session}
use seasniper.Identity.Totp.{Codes}
use seasniper.Identity.Guard.{next_run, Request}
use seasniper.Api.Access.{Acceptable, authenticate_finish-Admitted}
use seasniper.Api.{whole, done, identity_configured, App, Outside, stepped_up}
use seasniper.Api.Router.{
  authenticate_finish, decision, Visit, Route, protected, public, google_login, google_callback,
  totp_setup_start, trigger, serve, serve_all,
}
use seasniper.Api.Quiet.{Quiet}
use seasniper.Api.Authority.{Authorised, serve-serve_all}
use seasniper.Audit.{Turn, written, got, lagged, closed, run_audit_writer}
use seasniper.Audit.Trail.{Delivered, ended, event, dropped, Told, run_audit_writer-Accounts}
use seasniper.Examples.World.{net, node, sound_cfg}
use seasniper.Examples.Signins.{credential, google, no_faults, passkeys}

abbrev codes : Codes
codes = record { open_secret = λ sealed. ok sealed; check = λ secret code now. some now }

abbrev outside : Outside
outside = record {
  net = net;
  api_token = "t";
  google_oidc = some google;
  webauthn = some passkeys;
  codes = codes;
  faults = λ n. no_faults;
  guard_faults = no_faults;
  serializes = λ c. true;
  disk_write = λ c. whole;
  hex = λ address. "0x28";
  get_collection = λ key slug. err "404";
  search = λ key query limit. ok [];
  get_balance = λ url address. some 1;
  new_user_id = "u";
  new_session_id = "s1";
  new_row_id = "d";
  login = record { flow_id = "f"; csrf_token = "c"; nonce = "n"; pkce_verifier = "p" };
  sealed_secret = ok 9;
}

abbrev boot : App
boot = record {
  config = sound_cfg;
  on_disk = none;
  armed = false;
  wallet_addresses = "0x0b" ∷ [];
  ranked_http_rpc_urls = node ∷ [];
  accounts = record { sessions = []; codes = [] };
  users = [];
  flows = [];
  credentials = [];
  registrations = [];
  authentications = [];
}

abbrev anyone : Request
anyone = record { authorization = none; token = none; session_cookie = none; step_up_totp = none }

abbrev signed_in : Request
signed_in = record anyone { session_cookie = some "s1"; step_up_totp = some "123456" }

-- A sign-in with Google, an enrolment of both factors, and then a trigger.
abbrev history : List (Outside × Request × Route)
history =
    (outside, anyone, public google_login)
    ∷ (
      outside,
      anyone,
      public (
          google_callback (record {
            code = some "code";
            state = some "c";
            error = none;
            flow_cookie = some "f";
          })),
    )
    ∷ (outside, signed_in, public totp_setup_start)
    ∷ (outside, signed_in, public (Visit.totp_setup_verify "123456"))
    ∷ (outside, signed_in, public Visit.register_start)
    ∷ (outside, signed_in, public (Visit.register_finish "key" 7))
    ∷ []

serve-serve_all_example :
    Quiet
      (serve_all history boot).config
      (serve outside signed_in (protected trigger) (serve_all history boot))
    ⊎ Authorised outside signed_in
        (serve_all history boot).accounts
        (stepped_up outside (serve_all history boot) signed_in).0
serve-serve_all_example = serve-serve_all boot history outside signed_in (protected trigger) refl

-- An arm, a change of the configuration, two events that the channel dropped, and the end.
abbrev turns : List Turn
turns =
    (record { received = got (ServerEvent.armed_state true); now = 10; append = written })
    ∷ (record { received = got ServerEvent.config_changed; now = 11; append = written })
    ∷ (record { received = lagged 2; now = 12; append = written })
    ∷ (record { received = closed; now = 13; append = written })
    ∷ []

abbrev sent : List ServerEvent
sent =
    ServerEvent.armed_state true
    ∷ ServerEvent.config_changed
    ∷ ServerEvent.trigger_fired false
    ∷ ServerEvent.armed_state false
    ∷ []

delivered : Delivered sent turns
delivered = event _ _ refl (
    event _ _ refl (
      dropped (ServerEvent.trigger_fired false ∷ ServerEvent.armed_state false ∷ []) _ refl
        (ended _ [] refl)))

run_audit_writer-Accounts_example : Told sent [] (run_audit_writer turns [])
run_audit_writer-Accounts_example =
    run_audit_writer-Accounts [] delivered (refl, (refl, (refl, (refl, tt))))

-- A session that has passed Google and TOTP, and a challenge that waits for its passkey.
abbrev half : Session
half = record {
  id = "s1";
  user_id = "u";
  admin_tier = false;
  device_label = none;
  created_at = 10;
  last_seen_at = 20;
  revoked_at = none;
  totp_verified_at = some 12;
  webauthn_verified_at = none;
  webauthn_credential_id = none;
}

abbrev waiting_app : App
waiting_app = record boot {
  accounts = record { sessions = half ∷ []; codes = [] };
  credentials = credential ∷ [];
  authentications = ("s1", 6) ∷ [];
}

acceptable : Acceptable passkeys "s1" 7 waiting_app
acceptable = record {
  ceremony = 6;
  result = 8;
  row = credential;
  passkey = 8;
  issued = refl;
  accepted = refl;
  stored = refl;
  readable = refl;
  writable = refl;
}

authenticate_finish-Admitted_example :
    ((serve outside signed_in (public (authenticate_finish 7)) waiting_app).2 ≡ done 200)
    × ((v : Outside)
        → identity_configured v ≡ true
        → v.guard_faults 0 ≡ none
        → decision v signed_in
            (serve outside signed_in (public (authenticate_finish 7)) waiting_app).0
          ≡ next_run)
authenticate_finish-Admitted_example =
    authenticate_finish-Admitted outside passkeys signed_in 7 half waiting_app refl (λ n k. refl)
      refl refl refl acceptable
