-- ===== src/Identity/Guard.antt =====
-- The guards of the API's routes: `require_token_or_session` of mint-sniper/src/auth.rs, and
-- `require_session` and `require_step_up` of mint-sniper/src/api.rs.
use text.Mathlib.Text.{starts_with}
use Prim.Native.String.{slice, len}
use seasniper.Common.{
  ℕ, List, is_empty, trim, String, Bool, true, false, Option, none, some, ◌||◌, str_eq,
  if◌then◌else◌,
}
use seasniper.Common.Results.{Result, ok, err}
use seasniper.Failure.{Failure}
use seasniper.Identity.Session.{touch, Session, Table, Faults, get_active}
use seasniper.Identity.Totp.{Codes, TotpRow, verify_login}

-- What the guard reads of a request: the header as text, the query parameter, the decrypted cookie.
pub record Request : Type 0 where
  pub authorization : Option String
  pub token : Option String
  pub session_cookie : Option String
  pub step_up_totp : Option String

pub data Decision : Type 0 where
  next_run unauthorized forbidden : Decision
  server_error : Failure → Decision

-- `strip_prefix("Bearer ")`, compared with the token.
abbrev pub header_ok : (api_token : String) → Option String → Bool
header_ok api_token none = false
header_ok api_token (some v) =
    if starts_with v "Bearer " then str_eq (slice v 7 (len v)) api_token else false

abbrev pub query_ok : (api_token : String) → Option String → Bool
query_ok api_token none = false
query_ok api_token (some t) = str_eq t api_token

unfoldable pub bearer_token_matches : (api_token : String) → Request → Bool
bearer_token_matches api_token request =
    header_ok api_token request.authorization || query_ok api_token request.token

abbrev pub tier_decision : Result Failure (Option Session) → Decision
tier_decision (err e) = server_error e
tier_decision (ok none) = unauthorized
tier_decision (ok (some s)) = if s.admin_tier then next_run else forbidden

unfoldable pub require_token_or_session :
    Faults → (google_configured : Bool) (api_token : String) → Table → Request → Decision
require_token_or_session faults false api_token table request =
    if bearer_token_matches api_token request then next_run else unauthorized
require_token_or_session faults true api_token table request = elim request.session_cookie [
  | none ↦ unauthorized
  | some id ↦ tier_decision (get_active faults id table)
]

-- A route's answer to a request that it does not serve.
pub data Refusal : Type 0 where
  not_signed_in not_admin code_required code_refused : Refusal
  broken : Failure → Refusal

-- The two tables.
pub record Accounts : Type 0 where
  pub sessions : Table
  pub codes : List TotpRow

abbrev pub session_of : Result Failure (Option Session) → Result Refusal Session
session_of (err e) = err (broken e)
session_of (ok none) = err not_signed_in
session_of (ok (some s)) = ok s

-- `require_session`: the session is touched, and a failure of that is only logged.
unfoldable pub require_session :
    Faults → Faults → (now : ℕ) → Accounts → Request → Accounts × Result Refusal Session
require_session faults touch_faults now accounts request = elim request.session_cookie [
  | none ↦ (accounts, err not_signed_in)
  | some id ↦ elim (session_of (get_active faults id accounts.sessions)) [
    | err e ↦ (accounts, err e)
    | ok s ↦
        (record accounts { sessions = (touch touch_faults s.id now accounts.sessions).0 }, ok s)
  ]
]

-- The header `x-step-up-totp`, trimmed, where it is not empty.
abbrev pub step_up_code : Option String → Option String
step_up_code none = none
step_up_code (some v) = if is_empty (trim v) then none else some (trim v)

abbrev pub step_up_answer : Result Failure Bool → Result Refusal (Unit {0})
step_up_answer (ok true) = ok tt
step_up_answer (ok false) = err code_refused
step_up_answer (err e) = err (broken e)

-- With the code at hand: the user's email is read, and the code is verified as at a login.
unfoldable pub step_up_with :
    Codes
    → Faults
    → (email : Result Failure String) → (now : ℕ) → Accounts
    → Session
    → (code : String) → Accounts × Result Refusal (Unit {0})
step_up_with totp faults (err e) now accounts s code = (accounts, err (broken e))
step_up_with totp faults (ok email) now accounts s code =
    let (rows, answer) = verify_login totp faults s.user_id code now accounts.codes in
    (record accounts { codes = rows }, step_up_answer answer)

-- For a session that was found.
unfoldable pub step_up_session :
    Codes
    → Faults
    → (Session → Result Failure String)
    → (now : ℕ) → Accounts
    → Session
    → Request
    → Accounts × Result Refusal (Unit {0})
step_up_session totp faults email now accounts s request = elim s.admin_tier [
  | false ↦ (accounts, err not_admin)
  | true ↦ elim (step_up_code request.step_up_totp) [
    | none ↦ (accounts, err code_required)
    | some code ↦ step_up_with totp faults (email s) now accounts s code
  ]
]

abbrev pub after_session :
    (Accounts → Session → Accounts × Result Refusal (Unit {0}))
    → Accounts × Result Refusal Session
    → Accounts × Result Refusal (Unit {0})
after_session next (accounts, err e) = (accounts, err e)
after_session next (accounts, ok s) = next accounts s

unfoldable pub require_step_up :
    Codes
    → (read_faults touch_faults code_faults : Faults) → (Session → Result Failure String)
    → (google_configured : Bool) → (now : ℕ) → Accounts
    → Request
    → Accounts × Result Refusal (Unit {0})
require_step_up totp read_faults touch_faults code_faults email false now accounts request =
    (accounts, ok tt)
require_step_up totp read_faults touch_faults code_faults email true now accounts request =
    after_session (λ found s. step_up_session totp code_faults email now found s request)
      (require_session read_faults touch_faults now accounts request)
