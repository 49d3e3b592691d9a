-- ===== src/Examples/Signins.antt =====
-- The theorems on users, passkeys and the Google flow, at small tables.
use seasniper.Common.{true, none, some, List, [], ◌∷◌, ◌≡◌, ◌⊎◌, refl}
use seasniper.Common.Results.{ok}
use seasniper.Identity.Session.{Faults}
use seasniper.Identity.Users.{User, find_or_create_user, sync_email}
use seasniper.Identity.Users.Subjects.{Identified, find_or_create_user-Identified}
use seasniper.Identity.Oidc.{Provider, Flows, GoogleClaims, flow_of, complete_login}
use seasniper.Identity.Oidc.Flows.{Bound, complete_login-Bound}
use seasniper.Identity.Webauthn.{Devices, lookup, finish_authentication, finish_registration}
use seasniper.Identity.Credentials.{Library, Credential}
use seasniper.Identity.Webauthn.Cap.{Write, insert, Capped, write_all, write_all-Capped}
use seasniper.Identity.Webauthn.Ceremonies.{
  Asserted, Enrolled, finish_authentication-Asserted, finish_registration-Enrolled,
}

abbrev pub no_faults : Faults
no_faults n = none

-- Google answers every code with the token 3, which stands for the user `g`.
abbrev pub google : Provider
google = record {
  authorize_url = λ csrf nonce verifier. "https://accounts.example";
  exchange_code = λ code verifier. ok (some 3);
  claims = λ token nonce. ok (record { subject = "g"; email = some "u@example" });
}

abbrev pub flows : Flows
flows = ("f", record { csrf_token = "c"; nonce = "n"; pkce_verifier = "p"; created_at = 900 }) ∷ []

complete_login-Bound_example :
    (flow_of "f" (complete_login google "f" "code" "c" 1000 flows).0 ≡ none)
    × ((claims : GoogleClaims)
        → (complete_login google "f" "code" "c" 1000 flows).1 ≡ ok claims
        → Bound google "f" "code" "c" 1000 flows claims)
complete_login-Bound_example = complete_login-Bound google "f" "code" "c" 1000 flows

abbrev pub users : List User
users = (record { id = "u"; google_sub = "g"; email = "old@example"; created_at = 1 }) ∷ []

found : (find_or_create_user no_faults "v" "g" "u@example" 1000 users).1 ≡ ok "u"
unfolding find_or_create_user sync_email
found = refl

find_or_create_user-Identified_example :
    Identified "g" "u" users (find_or_create_user no_faults "v" "g" "u@example" 1000 users).0
find_or_create_user-Identified_example =
    find_or_create_user-Identified no_faults "v" "g" "u@example" "u" 1000 users found

-- A library that accepts every response, by the passkey 8 or for the credential 8.
abbrev pub passkeys : Library
passkeys = record {
  parse_uuid = λ user. some 1;
  to_json = λ passkey. some passkey;
  from_json = λ json. some json;
  cred_id = λ passkey. passkey ∷ [];
  start_registration = λ uuid email exclude. ok (5, 6);
  finish_registration = λ response ceremony. ok 8;
  start_authentication = λ keys. ok (5, 6);
  finish_authentication = λ response ceremony. ok 8;
  result_cred_id = λ result. result ∷ [];
  update_credential = λ passkey result. (some true, passkey);
}

abbrev pub credential : Credential
credential = record {
  id = "d";
  user_id = "u";
  credential_id = 8 ∷ [];
  passkey_json = 8;
  admin_tier = true;
  device_label = "key";
  created_at = 1;
  last_used_at = none;
}

abbrev devices : Devices
devices = record {
  credentials = credential ∷ [];
  registrations = ("s1", 6) ∷ [];
  authentications = ("s1", 6) ∷ [];
  sessions = [];
}

abbrev writes : List Write
writes =
    insert none "d" "u" 8 "key" 1
    ∷ insert none "e" "u" 9 "phone" 2
    ∷ insert none "f" "u" 10 "spare" 3
    ∷ []

write_all-Capped_example : Capped (write_all passkeys writes [])
write_all-Capped_example = write_all-Capped passkeys writes

finish_authentication-Asserted_example :
    (lookup "s1"
        (finish_authentication passkeys no_faults no_faults "s1" 7 1000 devices).0.authentications
      ≡ none)
    × (((finish_authentication passkeys no_faults no_faults "s1" 7 1000 devices).0.sessions
          ≡ devices.sessions)
        ⊎ Asserted passkeys "s1" 7 devices)
finish_authentication-Asserted_example =
    finish_authentication-Asserted passkeys no_faults no_faults "s1" 7 1000 devices

finish_registration-Enrolled_example :
    (lookup "s1"
        (finish_registration passkeys no_faults no_faults "e" "s1" "u" "phone" 7 1000
          devices).0.registrations
      ≡ none)
    × ((((finish_registration passkeys no_faults no_faults "e" "s1" "u" "phone" 7 1000
              devices).0.sessions
            ≡ devices.sessions)
          × ((finish_registration passkeys no_faults no_faults "e" "s1" "u" "phone" 7 1000
                devices).0.credentials
              ≡ devices.credentials))
        ⊎ Enrolled passkeys "s1" "u" 7 devices)
finish_registration-Enrolled_example =
    finish_registration-Enrolled passkeys no_faults no_faults "e" "s1" "u" "phone" 7 1000 devices
