-- ===== src/Api.antt =====
-- The HTTP API (mint-sniper/src/api.rs): what a request does to the shared state, what it sends to the control loop
-- and to the bus, and what it answers. A request is one step, but for `set_target`, whose configuration may be an
-- older one. The log line of a session whose touch failed is left out. A database
-- operation of a request has faults of its own, `Outside.faults`, in the order of the calls.
pub mod Logins
pub mod Earned
pub mod Google
pub mod Target
pub mod Keeps
pub mod Orders
pub mod Delegation
pub mod Signin
pub mod Router
pub mod Reads
pub mod Authority
pub mod Quiet
pub mod Stages
pub mod Settings
pub mod Access
pub mod Stream
use seasniper.Common.{ℕ, String, Bool, Option, none, some, List, first, is_some}
use seasniper.Common.Results.{Result, ok, err}
use seasniper.Failure.{Failure}
use seasniper.Config.{Config}
use seasniper.Config.Validate.{ConfigError}
use seasniper.Net.{Net}
use seasniper.Effect.{Effect}
use seasniper.Opensea.{GetCollectionResponse, SearchHit, SearchResultEntry}
use seasniper.Copymint.Eligibility.{CopymintEligibilityReport}
use seasniper.Target.{ResolvedTarget}
use seasniper.Delegated.Run.{PreflightOutcome}
use seasniper.Identity.Session.{Session, Faults}
use seasniper.Identity.Users.{User, get_user_email}
use seasniper.Identity.Totp.{Codes}
use seasniper.Identity.Oidc.{Provider, Flows, Sample}
use seasniper.Identity.Webauthn.{Pending}
use seasniper.Identity.Credentials.{Library, Credentials}
use seasniper.Identity.Guard.{
  Request, Accounts, Refusal, Decision, not_signed_in, not_admin, code_required, code_refused,
  broken, require_step_up,
}

-- `AppState`, as far as a request reads or writes it. `on_disk` is the configuration that
-- the file at `config_path` holds; `none` where it may hold no whole one.
pub record App : Type 0 where
  pub config : Config
  pub on_disk : Option Config
  pub armed : Bool
  pub wallet_addresses : List String
  pub ranked_http_rpc_urls : List String
  pub accounts : Accounts
  pub users : List User
  pub flows : Flows
  pub credentials : Credentials
  pub registrations : Pending
  pub authentications : Pending

-- How `tokio::fs::write` ends, which creates or empties the file before it writes.
pub data DiskWrite : Type 0 where
  whole unopened cut_short : DiskWrite

abbrev pub is_whole : DiskWrite → Bool
is_whole whole = Bool.true
is_whole unopened = Bool.false
is_whole cut_short = Bool.false

-- What is in the file after a write of the configuration.
abbrev pub left_on_disk : DiskWrite → Config → Option Config → Option Config
left_on_disk whole cfg before = some cfg
left_on_disk unopened cfg before = before
left_on_disk cut_short cfg before = none

-- The rest of `AppState`, which does not change, and the world as the request finds it.
pub record Outside : Type 0 where
  pub net : Net
  pub api_token : String
  pub google_oidc : Option Provider
  pub webauthn : Option Library
  pub codes : Codes
  pub faults : ℕ → Faults
  pub guard_faults : Faults
  -- `toml::to_string_pretty`, and the write of the file.
  pub serializes : Config → Bool
  pub disk_write : Config → DiskWrite
  -- `format!("{:#x}")`.
  pub hex : ℕ → String
  pub get_collection : (api_key slug : String) → Result String GetCollectionResponse
  pub search : (api_key query : String) (limit : ℕ) → Result String (List SearchResultEntry)
  pub get_balance : (url : String) (address : ℕ) → Option ℕ
  -- What is sampled.
  pub new_user_id : String
  pub new_session_id : String
  pub new_row_id : String
  pub login : Sample
  pub sealed_secret : Result Failure ℕ

-- What a body that is not empty shows.
pub data Body : Type 0 where
  config_body : Config → Body
  status_body : Bool → List String → Body
  value_body : ℕ → Body
  token_body : String → Body
  report_body : CopymintEligibilityReport → Body
  target_body : ResolvedTarget → (is_live settable : Bool) → Body
  hits_body : List SearchHit → Body
  delegated_body : (operator : ℕ) (balance : Option ℕ) (receivers : List ℕ) → Body
  preflight_body : PreflightOutcome → Body
  session_body :
      (admin_tier totp_verified webauthn_verified totp_enrolled webauthn_enrolled : Bool) → Body
  signed_out_body : Body
  secret_body : Body
  challenge_body : ℕ → Body
  devices_body : Credentials → Body

pub data Complaint : Type 0 where
  refusal : Refusal → Complaint
  guarded : Decision → Complaint
  failure : Failure → Complaint
  invalid_config : ConfigError → Complaint
  serialize_failed disk_write_failed : Complaint
  only_seadrop : Complaint
  bad_address : Complaint
  drop_not_live fee_recipient_not_accepted : Complaint
  needs_key : Complaint
  not_delegated mnemonic_not_set no_rpc no_receivers : Complaint
  not_configured : Complaint
  not_completed : String → Complaint
  missing_params missing_flow_cookie : Complaint
  incorrect_code : Complaint
  empty_label : Complaint
  no_such_device : Complaint

-- A cookie that the answer sets or removes.
pub data CookieChange : Type 0 where
  set_session set_flow : String → CookieChange
  clear_session clear_flow : CookieChange

-- A status, with a body or a complaint; a redirect; or no answer, where the handler panics.
pub data Reply : Type 0 where
  done : (status : ℕ) → Reply
  shown : (status : ℕ) → Body → Reply
  refused : (status : ℕ) → Complaint → Reply
  redirect : String → Reply
  panicked : Reply
  with_cookies : List CookieChange → Reply → Reply

abbrev pub Outcome : Type 0
Outcome = App × List Effect × Reply

abbrev pub identity_configured : Outside → Bool
identity_configured w = is_some w.google_oidc

abbrev pub best_rpc : App → Option String
best_rpc app = first app.ranked_http_rpc_urls

abbrev pub status_of : Refusal → ℕ
status_of not_signed_in = 401
status_of not_admin = 403
status_of code_required = 428
status_of code_refused = 412
status_of (broken e) = 500

-- The email of a session's user, by the n-th operation of the request.
abbrev pub email_of : Outside → App → (n : ℕ) → Session → Result Failure String
email_of w app n s = get_user_email (w.faults n 0) s.user_id app.users

-- The step-up of a request: its first four operations.
abbrev pub stepped_up : Outside → App → Request → Accounts × Result Refusal (Unit {0})
stepped_up w app request =
    require_step_up w.codes (w.faults 0) (w.faults 1) (w.faults 3) (email_of w app 2)
      (identity_configured w) w.net.now app.accounts request

abbrev pub confirmed : (App → Outcome) → App → Accounts × Result Refusal (Unit {0}) → Outcome
confirmed next app (accounts, err e) =
    (record app { accounts = accounts }, List.[], refused (status_of e) (refusal e))
confirmed next app (accounts, ok x) = next (record app { accounts = accounts })

-- `if let Err(…) = require_step_up(…).await { return … }`, and what comes after it.
unfoldable pub with_step_up : Outside → Request → App → (App → Outcome) → Outcome
with_step_up w request app next = confirmed next app (stepped_up w app request)
