-- ===== src/Identity/Session.antt =====
-- The sessions table (mint-sniper/src/identity/session.rs). A failed query changes nothing and ends the
-- operation; what earlier queries of it did stays.
use seasniper.Common.{
  ℕ, String, Bool, true, false, Option, none, some, List, [], ◌∷◌, ◌&&◌, any, find, map, is_some,
  is_none, str_eq, if◌then◌else◌,
}
use seasniper.Common.Results.{Result, ok, err}
use seasniper.Failure.{Failure, database}

pub record Session : Type 0 where
  pub id : String
  pub user_id : String
  pub admin_tier : Bool
  pub device_label : Option String
  pub created_at : ℕ
  pub last_seen_at : ℕ
  pub revoked_at : Option ℕ
  pub totp_verified_at : Option ℕ
  pub webauthn_verified_at : Option ℕ
  pub webauthn_credential_id : Option (List ℕ)

abbrev pub Table : Type 0
Table = List Session

-- The error of the n-th query of an operation, where it fails.
abbrev pub Faults : Type 0
Faults = ℕ → Option String

abbrev pub Done : Type 0
Done = Table × Result Failure (Unit {0})

abbrev pub has_id : String → Session → Bool
has_id id s = str_eq s.id id

-- `UPDATE … SET … WHERE id = ? AND …`.
abbrev pub update_where : (Session → Bool) → (Session → Session) → Table → Table
update_where p f = map (λ s. if p s then f s else s)

-- A query that changes the table, unless it fails.
abbrev pub run_query : Option String → Table → Table → Done
run_query (some e) before after = (before, err (database e))
run_query none before after = (after, ok tt)

-- `a.await?; b.await`.
abbrev pub and_then : Done → (Table → Done) → Done
and_then (table, ok x) next = next table
and_then (table, err e) next = (table, err e)

-- The new row, with an id that the caller sampled; the primary key refuses one that is there.
unfoldable pub new_session : (id user_id : String) (now : ℕ) → Session
new_session id user_id now = record {
  id = id;
  user_id = user_id;
  admin_tier = false;
  device_label = none;
  created_at = now;
  last_seen_at = now;
  revoked_at = none;
  totp_verified_at = none;
  webauthn_verified_at = none;
  webauthn_credential_id = none;
}

unfoldable pub create_google_verified_session :
    Faults → (id user_id : String) (now : ℕ) → Table → Done
create_google_verified_session faults id user_id now table =
    if any (has_id id) table
    then (table, err (database "UNIQUE constraint failed: sessions.id"))
    else run_query (faults 0) table (new_session id user_id now ∷ table)

abbrev pub is_active : String → Session → Bool
is_active id s = has_id id s && is_none s.revoked_at

abbrev pub answer_query : Option String → Option Session → Result Failure (Option Session)
answer_query (some e) row = err (database e)
answer_query none row = ok row

unfoldable pub get_active : Faults → String → Table → Result Failure (Option Session)
get_active faults id table = answer_query (faults 0) (find (is_active id) table)

unfoldable pub touch : Faults → String → (now : ℕ) → Table → Done
touch faults id now table =
    run_query (faults 0) table
      (update_where (has_id id) (λ s. record s { last_seen_at = now }) table)

abbrev pub is_complete : Session → Bool
is_complete s = is_some s.totp_verified_at && is_some s.webauthn_verified_at

unfoldable pub promote_if_complete : Option String → String → Table → Done
promote_if_complete fault id table =
    run_query fault table
      (update_where (λ s. has_id id s && is_complete s) (λ s. record s { admin_tier = true }) table)

unfoldable pub mark_totp_verified : Faults → String → (now : ℕ) → Table → Done
mark_totp_verified faults id now table =
    and_then
      (run_query (faults 0) table
        (update_where (has_id id) (λ s. record s { totp_verified_at = some now }) table))
      (promote_if_complete (faults 1) id)

unfoldable pub mark_webauthn_verified :
    Faults → String → (credential : List ℕ) (now : ℕ) → Table → Done
mark_webauthn_verified faults id credential now table =
    and_then
      (run_query (faults 0) table (
        update_where (has_id id)
          (λ s. record s {
            webauthn_verified_at = some now;
            webauthn_credential_id = some credential;
          })
          table))
      (promote_if_complete (faults 1) id)

unfoldable pub revoke : Faults → String → (now : ℕ) → Table → Done
revoke faults id now table =
    run_query (faults 0) table
      (update_where (is_active id) (λ s. record s { revoked_at = some now }) table)

-- The operations, as one step.
pub data Op : Type 0 where
  create : (id user_id : String) (now : ℕ) → Op
  touched : (id : String) (now : ℕ) → Op
  totp_verified : (id : String) (now : ℕ) → Op
  webauthn_verified : (id : String) (credential : List ℕ) (now : ℕ) → Op
  revoked : (id : String) (now : ℕ) → Op

unfoldable pub exec : Faults → Op → Table → Done
exec faults (create id user_id now) = create_google_verified_session faults id user_id now
exec faults (touched id now) = touch faults id now
exec faults (totp_verified id now) = mark_totp_verified faults id now
exec faults (webauthn_verified id credential now) = mark_webauthn_verified faults id credential now
exec faults (revoked id now) = revoke faults id now

-- A history of operations, each with the faults that its queries met; a failed one leaves its table.
abbrev pub exec_all : List (Faults × Op) → Table → Table
exec_all [] table = table
exec_all ((faults, op) ∷ ops) table = exec_all ops (exec faults op table).0
