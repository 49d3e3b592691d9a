-- ===== src/Identity/Credentials.antt =====
-- The table of passkeys (mint-sniper/src/identity/webauthn.rs), with the trigger of
-- mint-sniper/migrations/0001_identity.sql. The crate `webauthn_rs` is a parameter; its passkeys, challenges and
-- ceremony states are opaque numbers.
use seasniper.Common.{
  ℕ, String, Bool, true, Option, none, some, List, [], ◌∷◌, ◌&&◌, ◌||◌, not, any, find, map, select,
  count_if, leb, bytes_eq, str_eq, if◌then◌else◌,
}
use seasniper.Common.Results.{Result, ok, err, or_fail, ◌>>=◌}
use seasniper.Failure.{Failure, database, bad_passkey}

-- What the code calls of `webauthn_rs`, of `uuid` and of `serde_json`.
pub record Library : Type 0 where
  pub parse_uuid : String → Option ℕ
  pub to_json : (passkey : ℕ) → Option ℕ
  pub from_json : (json : ℕ) → Option ℕ
  pub cred_id : (passkey : ℕ) → List ℕ
  -- The challenge for the browser, and the state of the ceremony.
  pub start_registration :
      (uuid : ℕ) (email : String) (exclude : List (List ℕ)) → Result String (ℕ × ℕ)
  pub finish_registration : (response ceremony : ℕ) → Result String ℕ
  pub start_authentication : (passkeys : List ℕ) → Result String (ℕ × ℕ)
  pub finish_authentication : (response ceremony : ℕ) → Result String ℕ
  pub result_cred_id : (result : ℕ) → List ℕ
  -- `Passkey::update_credential`: its answer, and the passkey after it.
  pub update_credential : (passkey result : ℕ) → Option Bool × ℕ

pub record Credential : Type 0 where
  pub id : String
  pub user_id : String
  pub credential_id : List ℕ
  pub passkey_json : ℕ
  pub admin_tier : Bool
  pub device_label : String
  pub created_at : ℕ
  pub last_used_at : Option ℕ

abbrev pub Credentials : Type 0
Credentials = List Credential

abbrev pub is_owned : String → Credential → Bool
is_owned user c = str_eq c.user_id user

abbrev pub is_admin_of : String → Credential → Bool
is_admin_of user c = is_owned user c && c.admin_tier

abbrev pub is_row : String → Credential → Bool
is_row id c = str_eq c.id id

abbrev pub has_credential_id : List ℕ → Credential → Bool
has_credential_id bytes c = bytes_eq c.credential_id bytes

abbrev pub admin_credential_cap : ℕ
admin_credential_cap = 2

-- A query that reads, or the error of it.
abbrev pub read_query {ℓ} : {A : Type ℓ} → Option String → A → Result Failure A
read_query none a = ok a
read_query (some e) a = err (database e)

unfoldable pub admin_credential_count : Option String → String → Credentials → Result Failure ℕ
admin_credential_count fault user rows = read_query fault (count_if (is_admin_of user) rows)

abbrev pub reached_cap : ℕ → Bool
reached_cap count = leb admin_credential_cap count

unfoldable pub existing_credential_ids :
    Option String → String → Credentials → Result Failure (List (List ℕ))
existing_credential_ids fault user rows =
    read_query fault (map (λ c. c.credential_id) (select (is_owned user) rows))

-- The trigger `trg_webauthn_admin_cap`, and the keys of the table.
abbrev pub trigger_aborts : Credential → Credentials → Bool
trigger_aborts c rows = c.admin_tier && leb 2 (count_if (is_admin_of c.user_id) rows)

abbrev pub breaks_key : Credential → Credentials → Bool
breaks_key c rows = any (is_row c.id) rows || any (has_credential_id c.credential_id) rows

abbrev pub Written : Type 0
Written = Credentials × Result Failure (Unit {0})

-- `INSERT`: the trigger comes before the row.
unfoldable pub insert_row : Option String → Credential → Credentials → Written
insert_row (some e) c rows = (rows, err (database e))
insert_row none c rows =
    if trigger_aborts c rows
    then (rows, err (database "admin-tier WebAuthn credential cap (2) reached for this user"))
    else (if breaks_key c rows
        then (rows, err (database "UNIQUE constraint failed: webauthn_credentials"))
        else (c ∷ rows, ok tt))

unfoldable pub insert_credential :
    Library
    → Option String
    → (id user : String) (passkey : ℕ) (device_label : String) (now : ℕ) → Credentials
    → Written
insert_credential lib fault id user passkey label now rows = elim (lib.to_json passkey) [
  | none ↦ (rows, err bad_passkey)
  | some json ↦
      insert_row fault
        (record {
          id = id;
          user_id = user;
          credential_id = lib.cred_id passkey;
          passkey_json = json;
          admin_tier = true;
          device_label = label;
          created_at = now;
          last_used_at = none;
        })
        rows
]

abbrev parse_all : Library → Credentials → Result Failure (List ℕ)
parse_all lib [] = ok []
parse_all lib (c ∷ rows) = do
  passkey ← or_fail (lib.from_json c.passkey_json) bad_passkey
  rest ← parse_all lib rows
  ok (passkey ∷ rest)

unfoldable pub load_passkeys :
    Library → Option String → String → Credentials → Result Failure (List ℕ)
load_passkeys lib (some e) user rows = err (database e)
load_passkeys lib none user rows = parse_all lib (select (is_owned user) rows)

abbrev found_row : Library → Option Credential → Result Failure (Option (String × ℕ))
found_row lib none = ok none
found_row lib (some c) = do
  passkey ← or_fail (lib.from_json c.passkey_json) bad_passkey
  ok (some (c.id, passkey))

unfoldable pub find_credential :
    Library → Option String → List ℕ → Credentials → Result Failure (Option (String × ℕ))
find_credential lib (some e) bytes rows = err (database e)
find_credential lib none bytes rows = found_row lib (find (has_credential_id bytes) rows)

abbrev pub update_row : String → (Credential → Credential) → Credentials → Credentials
update_row id f = map (λ c. if is_row id c then f c else c)

abbrev pub write_query : Option String → Credentials → Credentials → Written
write_query (some e) before after = (before, err (database e))
write_query none before after = (after, ok tt)

unfoldable pub update_credential_passkey :
    Library → Option String → (id : String) (passkey now : ℕ) → Credentials → Written
update_credential_passkey lib fault id passkey now rows = elim (lib.to_json passkey) [
  | none ↦ (rows, err bad_passkey)
  | some json ↦
      write_query fault rows
        (update_row id (λ c. record c { passkey_json = json; last_used_at = some now }) rows)
]

unfoldable pub touch_credential_last_used :
    Option String → (id : String) (now : ℕ) → Credentials → Written
touch_credential_last_used fault id now rows =
    write_query fault rows (update_row id (λ c. record c { last_used_at = some now }) rows)

-- `ORDER BY created_at`, by insertion.
abbrev pub insert_by_age : Credential → Credentials → Credentials
insert_by_age c [] = c ∷ []
insert_by_age c (d ∷ rows) =
    let rest = insert_by_age c rows in
    if leb c.created_at d.created_at then c ∷ d ∷ rows else d ∷ rest

abbrev pub sort_by_age : Credentials → Credentials
sort_by_age [] = []
sort_by_age (c ∷ rows) = insert_by_age c (sort_by_age rows)

unfoldable pub list_devices : Option String → String → Credentials → Result Failure Credentials
list_devices fault user rows = read_query fault (sort_by_age (select (is_owned user) rows))

abbrev pub is_device : (user id : String) → Credential → Bool
is_device user id c = is_row id c && is_owned user c

-- `DELETE … WHERE id = ? AND user_id = ?`, with whether a row went.
unfoldable pub revoke_device :
    Option String → (user id : String) → Credentials → Credentials × Result Failure Bool
revoke_device (some e) user id rows = (rows, err (database e))
revoke_device none user id rows =
    (select (λ c. not (is_device user id c)) rows, ok (any (is_device user id) rows))
