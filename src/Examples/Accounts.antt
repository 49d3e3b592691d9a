-- ===== src/Examples/Accounts.antt =====
-- The theorems on targets, sessions and codes, at small inputs.
use seasniper.Common.{
  zero, suc, length, ◌==◌, str_eq, if◌then◌else◌, trim, trim_start, trim_end, ℕ, ◌*◌, Bool, true,
  none, some, List, [], ◌∷◌, ◌≡◌, ◌≢◌, refl, arith, leb, All,
}
use seasniper.Common.Results.{ok}
use seasniper.Identity.Session.{
  Session, Table, Faults, Op, webauthn_verified, totp_verified, exec_all, create, touched,
  get_active, revoke,
}
use seasniper.Identity.Lifetime.{Earned}
use seasniper.Identity.Revocation.{get_active-exec_all}
use seasniper.Identity.Totp.{Codes, TotpRow, verify_login, judge_login, conclude}
use seasniper.Identity.Logins.{Attempt, Passes, Ordered, after, after_all, verify_login-Ordered}
use seasniper.Identity.Guard.{
  require_session, require_step_up, step_up_session, step_up_with, Request,
  require_token_or_session, next_run,
}
use seasniper.Identity.Admission.{Admitted, require_token_or_session-Admitted}
use seasniper.Identity.Keys.{Crypto}
use seasniper.Identity.Keys.Restart.{Promises, Restarted, load_or_create-Restarted}
use seasniper.Target.{estimate_contract_age_secs, age_of}
use seasniper.Target.Age.{
  KeepsCode, FirstBlock, Found, search-FirstBlock, estimate_contract_age_secs-FirstBlock,
}
use seasniper.Examples.World.{net, node}

abbrev has_code : ℕ → Bool
has_code = leb 3

has_code-KeepsCode : KeepsCode (net.has_code_at node 40) has_code
has_code-KeepsCode = record { answers = λ block. refl; keeps = λ block h. ground (arith, h) }

search-FirstBlock_example : Found (net.has_code_at node 40) has_code has_code-KeepsCode 5 0 5
search-FirstBlock_example =
    search-FirstBlock (net.has_code_at node 40) has_code has_code-KeepsCode 5 0 5 (ground arith)
      (ground arith) refl (λ earlier h. ground (arith, h))

estimate_contract_age_secs-FirstBlock_example :
    (block : ℕ) × FirstBlock has_code block
    × (estimate_contract_age_secs net node 40 ≡ age_of 1000 (some (block * 100)))
estimate_contract_age_secs-FirstBlock_example =
    estimate_contract_age_secs-FirstBlock net node 40 5 has_code has_code-KeepsCode refl refl refl

abbrev no_faults : Faults
no_faults n = none

abbrev admin : Session
admin = record {
  id = "s1";
  user_id = "u";
  admin_tier = true;
  device_label = none;
  created_at = 10;
  last_seen_at = 20;
  revoked_at = none;
  totp_verified_at = some 12;
  webauthn_verified_at = some 14;
  webauthn_credential_id = some (1 ∷ []);
}

abbrev table : Table
table = admin ∷ []

table-Earned : All Earned table
table-Earned = ((λ e. refl), tt)

abbrev sign_in : List (Faults × Op)
sign_in =
    (no_faults, create "s1" "u" 10)
    ∷ (no_faults, totp_verified "s1" 12)
    ∷ (no_faults, webauthn_verified "s1" (1 ∷ []) 14)
    ∷ []

abbrev history : List (Faults × Op)
history = (no_faults, touched "s1" 40) ∷ (no_faults, webauthn_verified "s1" (1 ∷ []) 41) ∷ []

get_active-exec_all_example :
    get_active no_faults "s1" (exec_all history (revoke no_faults "s1" 25 table).0)
    ≢ ok (some admin)
get_active-exec_all_example =
    get_active-exec_all "s1" no_faults 25 table history no_faults admin refl refl

abbrev request : Request
request = record {
  authorization = none;
  token = some "t";
  session_cookie = some "s1";
  step_up_totp = some "123456";
}

request-passes : require_token_or_session no_faults true "t" table request ≡ next_run
unfolding require_token_or_session get_active
request-passes = refl

require_token_or_session-Admitted_example : Admitted table request
require_token_or_session-Admitted_example =
    require_token_or_session-Admitted no_faults "t" table request table-Earned request-passes

-- Every code is right for the step of its moment.
abbrev codes : Codes
codes = record { open_secret = λ sealed. ok sealed; check = λ secret code now. some now }

abbrev rows : List TotpRow
rows =
    (record { user_id = "u"; secret = 9; enabled = true; created_at = 1; last_used_step = some 50 })
    ∷ []

login-passes : (verify_login codes no_faults "u" "123456" 51 rows).1 ≡ ok true
unfolding verify_login judge_login conclude
login-passes = refl

abbrev attempt : ℕ → Attempt
attempt now = record { faults = no_faults; user = "u"; code = "123456"; now = now }

login-Passes_later :
    Passes codes (attempt 52) (after_all codes (attempt 51 ∷ []) (after codes (attempt 51) rows))
unfolding verify_login judge_login conclude after_all
login-Passes_later = refl

verify_login-Ordered_example :
    Ordered codes
      (attempt 51)
      (attempt 52)
      rows
      (after_all codes (attempt 51 ∷ []) (after codes (attempt 51) rows))
verify_login-Ordered_example =
    verify_login-Ordered codes (attempt 51) (attempt 52) (attempt 51 ∷ []) rows refl login-passes
      login-Passes_later

login-refused : (verify_login codes no_faults "u" "123456" 50 rows).1 ≢ ok true
unfolding verify_login judge_login conclude
login-refused e = ground (arith, e)

step_up-passes :
    (require_step_up codes no_faults no_faults no_faults
      (λ s. ok "u@example")
      true
      51
      (record { sessions = table; codes = rows })
      request).1
    ≡ ok tt
unfolding require_step_up require_session get_active step_up_session step_up_with verify_login
    judge_login conclude trim trim_start trim_end
step_up-passes = refl

-- Hexadecimal in name only: one text for each of two lengths.
abbrev zeros : ℕ → List ℕ
zeros zero = []
zeros (suc n) = 0 ∷ zeros n

abbrev crypto : Crypto
crypto = record {
  hex_encode = λ bytes. if length bytes == 96 then "00" else "01";
  hex_decode = λ text. if str_eq text "00" then some (zeros 96) else some (zeros 32);
  encrypt = λ key nonce plaintext. some plaintext;
  decrypt = λ key nonce ciphertext. some ciphertext;
}

key-Promises : Promises crypto (zeros 96)
unfolding trim trim_start trim_end
key-Promises = record { digits = refl; nonempty = refl; decodes = refl }

token-Promises : Promises crypto (zeros 32)
unfolding trim trim_start trim_end
token-Promises = record { digits = refl; nonempty = refl; decodes = refl }

load_or_create-Restarted_example : Restarted crypto (zeros 96) (zeros 32)
load_or_create-Restarted_example =
    load_or_create-Restarted crypto (zeros 96) (zeros 32) key-Promises token-Promises refl
