-- ===== src/Identity/Webauthn.antt =====
-- WebAuthn passkeys (mint-sniper/src/identity/webauthn.rs): the credentials table, with the trigger of
-- mint-sniper/migrations/0001_identity.sql, and the ceremonies, whose state is kept by session id. The crate
-- `webauthn_rs` is a parameter; its passkeys, challenges and ceremony states are opaque numbers.
pub mod Cap
pub mod Ceremonies
pub mod Stages
use seasniper.Common.{
  ℕ, suc, ◌+◌, String, Bool, true, false, Option, none, some, List, [], ◌∷◌, ◌++◌, ◌&&◌, ◌||◌, not,
  any, find, map, select, count_if, leb, ltb, is_nil, length, bytes_eq, str_eq, if◌then◌else◌,
}
use seasniper.Common.Results.{Result, ok, err, or_fail, bail_if, ◌>>=◌, ◌>>◌}
use seasniper.Failure.{
  Failure, database, admin_cap_reached, bad_user_id, webauthn_failed, no_registration,
  no_authentication, no_devices, bad_passkey, device_gone,
}
use seasniper.Identity.Session.{Table, Faults, mark_webauthn_verified}
use seasniper.Identity.Credentials.{
  Credentials, Library, Written, admin_credential_count, existing_credential_ids, find_credential,
  insert_credential, load_passkeys, reached_cap, touch_credential_last_used,
  update_credential_passkey,
}

-- A `HashMap` from session ids to ceremonies.
abbrev pub Pending : Type 0
Pending = List (String × ℕ)

abbrev pub lookup : String → Pending → Option ℕ
lookup key [] = none
lookup key ((k, v) ∷ rest) = let later = lookup key rest in if str_eq k key then some v else later

abbrev pub remove : String → Pending → Pending
remove key [] = []
remove key ((k, v) ∷ rest) =
    let later = remove key rest in if str_eq k key then later else (k, v) ∷ later

abbrev pub insert : String → ℕ → Pending → Pending
insert key v pending = (key, v) ∷ remove key pending

-- What the ceremonies work on.
pub record Devices : Type 0 where
  pub credentials : Credentials
  pub registrations : Pending
  pub authentications : Pending
  pub sessions : Table

abbrev stored : Result Failure (ℕ × ℕ) → (ℕ → Devices) → Devices → Devices × Result Failure ℕ
stored (err e) next d = (d, err e)
stored (ok (challenge, ceremony)) next d = (next ceremony, ok challenge)

abbrev pub library_answer {ℓ} : {A : Type ℓ} → Result String A → Result Failure A
library_answer (ok a) = ok a
library_answer (err e) = err (webauthn_failed e)

-- The challenge of a registration, and the state that is kept for its end.
unfoldable pub begin_registration :
    Library → Faults → (user email : String) → Credentials → Result Failure (ℕ × ℕ)
begin_registration lib faults user email rows = do
  count ← admin_credential_count (faults 0) user rows
  bail_if (reached_cap count) admin_cap_reached
  uuid ← or_fail (lib.parse_uuid user) bad_user_id
  exclude ← existing_credential_ids (faults 1) user rows
  library_answer (lib.start_registration uuid email exclude)

unfoldable pub start_registration :
    Library → Faults → (session user email : String) → Devices → Devices × Result Failure ℕ
start_registration lib faults session user email d =
    stored (begin_registration lib faults user email d.credentials)
      (λ ceremony. record d { registrations = insert session ceremony d.registrations }) d

-- The session's stage, after a write of the credentials.
abbrev pub mark_session :
    Faults
    → (session : String) (bytes : List ℕ) (now : ℕ) → Written
    → Devices
    → Devices × Result Failure (Unit {0})
mark_session faults session bytes now (rows, err e) d = (record d { credentials = rows }, err e)
mark_session faults session bytes now (rows, ok x) d =
    let (table, answer) = mark_webauthn_verified faults session bytes now d.sessions in
    (record d { credentials = rows; sessions = table }, answer)

-- The passkey of the response, where the library accepts it and the cap is not reached.
unfoldable pub accept_passkey :
    Library
    → Option String
    → (user : String) (response ceremony : ℕ) → Credentials
    → Result Failure ℕ
accept_passkey lib fault user response ceremony rows = do
  passkey ← library_answer (lib.finish_registration response ceremony)
  count ← admin_credential_count fault user rows
  bail_if (reached_cap count) admin_cap_reached
  ok passkey

unfoldable pub store_passkey :
    Library
    → (insert_fault : Option String) → Faults
    → (row_id session user label : String) (now : ℕ) → Result Failure ℕ
    → Devices
    → Devices × Result Failure (Unit {0})
store_passkey lib fault faults row_id session user label now (err e) d = (d, err e)
store_passkey lib fault faults row_id session user label now (ok passkey) d =
    mark_session faults session (lib.cred_id passkey) now
      (insert_credential lib fault row_id user passkey label now d.credentials) d

-- The ceremony's state is taken out first, whatever comes of it.
unfoldable pub finish_registration :
    Library
    → Faults
    → (session_faults : Faults) → (row_id session user label : String) (response now : ℕ) → Devices
    → Devices × Result Failure (Unit {0})
finish_registration lib faults session_faults row_id session user label response now d =
    elim (lookup session d.registrations) [
      | none ↦ (d, err no_registration)
      | some ceremony ↦
          store_passkey lib (faults 1) session_faults row_id session user label now
            (accept_passkey lib (faults 0) user response ceremony d.credentials)
            (record d { registrations = remove session d.registrations })
    ]

unfoldable pub begin_authentication :
    Library → Option String → (user : String) → Credentials → Result Failure (ℕ × ℕ)
begin_authentication lib fault user rows = do
  passkeys ← load_passkeys lib fault user rows
  bail_if (is_nil passkeys) no_devices
  library_answer (lib.start_authentication passkeys)

unfoldable pub start_authentication :
    Library → Option String → (session user : String) → Devices → Devices × Result Failure ℕ
start_authentication lib fault session user d =
    stored (begin_authentication lib fault user d.credentials)
      (λ ceremony. record d { authentications = insert session ceremony d.authentications }) d

-- The credential of the assertion, and what the library accepted.
pub record Assertion : Type 0 where
  pub result : ℕ
  pub row_id : String
  pub passkey : ℕ

unfoldable pub accept_assertion :
    Library → Option String → (response ceremony : ℕ) → Credentials → Result Failure Assertion
accept_assertion lib fault response ceremony rows = do
  result ← library_answer (lib.finish_authentication response ceremony)
  found ← find_credential lib fault (lib.result_cred_id result) rows
  row ← or_fail found device_gone
  ok (record { result = result; row_id = row.0; passkey = row.1 })

abbrev wants_update : Option Bool → Bool
wants_update none = false
wants_update (some b) = b

unfoldable pub record_use : Library → Option String → (now : ℕ) → Assertion → Credentials → Written
record_use lib fault now a rows =
    let (changed, passkey) = lib.update_credential a.passkey a.result in
    if wants_update changed
    then update_credential_passkey lib fault a.row_id passkey now rows
    else touch_credential_last_used fault a.row_id now rows

unfoldable pub complete_assertion :
    Library
    → Option String
    → Faults
    → (session : String) (now : ℕ) → Result Failure Assertion
    → Devices
    → Devices × Result Failure (Unit {0})
complete_assertion lib fault faults session now (err e) d = (d, err e)
complete_assertion lib fault faults session now (ok a) d =
    mark_session faults session (lib.result_cred_id a.result) now
      (record_use lib fault now a d.credentials) d

unfoldable pub finish_authentication :
    Library
    → Faults
    → (session_faults : Faults) → (session : String) (response now : ℕ) → Devices
    → Devices × Result Failure (Unit {0})
finish_authentication lib faults session_faults session response now d =
    elim (lookup session d.authentications) [
      | none ↦ (d, err no_authentication)
      | some ceremony ↦
          complete_assertion lib (faults 1) session_faults session now
            (accept_assertion lib (faults 0) response ceremony d.credentials)
            (record d { authentications = remove session d.authentications })
    ]
