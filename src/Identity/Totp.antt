-- ===== src/Identity/Totp.antt =====
-- TOTP secrets and codes (mint-sniper/src/identity/totp.rs). The crate `totp_rs` and the cipher are
-- parameters: opening a stored secret, and the time step that a code is right for.
use seasniper.Common.{
  ℕ, String, Bool, true, false, Option, none, some, List, [], ◌∷◌, find, map, leb, not, str_eq,
  if◌then◌else◌,
}
use seasniper.Common.Results.{Result, ok, err}
use seasniper.Failure.{Failure, database, no_secret_generated}
use seasniper.Identity.Session.{Faults}

pub record Codes : Type 0 where
  -- `decrypt_totp_secret` and `build_totp`, of the stored bytes.
  pub open_secret : ℕ → Result Failure ℕ
  -- `Totp::check`.
  pub check : (secret : ℕ) (code : String) (now : ℕ) → Option ℕ

pub record TotpRow : Type 0 where
  pub user_id : String
  pub secret : ℕ
  pub enabled : Bool
  pub created_at : ℕ
  pub last_used_step : Option ℕ

abbrev pub of_user : String → TotpRow → Bool
of_user user row = str_eq row.user_id user

abbrev pub fresh_row : (user : String) (sealed now : ℕ) → TotpRow
fresh_row user sealed now = record {
  user_id = user;
  secret = sealed;
  enabled = false;
  created_at = now;
  last_used_step = none;
}

-- `INSERT … ON CONFLICT(user_id) DO UPDATE`.
abbrev pub upsert : TotpRow → List TotpRow → List TotpRow
upsert row [] = row ∷ []
upsert row (r ∷ rows) =
    let rest = upsert row rows in if of_user row.user_id r then row ∷ rows else r ∷ rest

-- A fresh secret replaces the old one and switches TOTP off until it is verified.
unfoldable pub start_setup :
    Faults
    → (user : String) (sealed : Result Failure ℕ) (now : ℕ) → List TotpRow
    → List TotpRow × Result Failure (Unit {0})
start_setup faults user (err e) now rows = (rows, err e)
start_setup faults user (ok sealed) now rows = elim (faults 0) [
  | some e ↦ (rows, err (database e))
  | none ↦ (upsert (fresh_row user sealed now) rows, ok tt)
]

-- `last_used_step` lets this step pass.
abbrev pub is_later : Option ℕ → ℕ → Bool
is_later none step = true
is_later (some last) step = not (leb step last)

-- The answer of a verification, and the step that it records.
pub data Verdict : Type 0 where
  refused : Verdict
  accepted : (step : ℕ) → Verdict
  failed : Failure → Verdict

abbrev accept_later : Option ℕ → Option ℕ → Verdict
accept_later last none = refused
accept_later last (some step) = if is_later last step then accepted step else refused

abbrev accept_any : Option ℕ → Verdict
accept_any none = refused
accept_any (some step) = accepted step

unfoldable pub judge_login : Codes → (code : String) (now : ℕ) → TotpRow → Verdict
judge_login codes code now row = elim (codes.open_secret row.secret) [
  | err e ↦ failed e
  | ok secret ↦
      if row.enabled then accept_later row.last_used_step (codes.check secret code now) else refused
]

unfoldable pub judge_setup : Codes → (code : String) (now : ℕ) → TotpRow → Verdict
judge_setup codes code now row = elim (codes.open_secret row.secret) [
  | err e ↦ failed e
  | ok secret ↦ accept_any (codes.check secret code now)
]

-- `UPDATE … WHERE user_id = ?` with the step.
abbrev pub update_user : String → (TotpRow → TotpRow) → List TotpRow → List TotpRow
update_user user f = map (λ r. if of_user user r then f r else r)

abbrev pub record_step : ℕ → TotpRow → TotpRow
record_step step row = record row { last_used_step = some step }

abbrev pub enable_at : ℕ → TotpRow → TotpRow
enable_at step row = record row { enabled = true; last_used_step = some step }

-- The second query, and the answer.
unfoldable pub conclude :
    Option String
    → (user : String) → (ℕ → TotpRow → TotpRow)
    → List TotpRow
    → Verdict
    → List TotpRow × Result Failure Bool
conclude fault user f rows refused = (rows, ok false)
conclude fault user f rows (failed e) = (rows, err e)
conclude (some e) user f rows (accepted step) = (rows, err (database e))
conclude none user f rows (accepted step) = (update_user user (f step) rows, ok true)

-- One step here; the code's SELECT and UPDATE are two queries, in no transaction.
unfoldable pub verify_login :
    Codes
    → Faults
    → (user code : String) (now : ℕ) → List TotpRow
    → List TotpRow × Result Failure Bool
verify_login codes faults user code now rows = elim (faults 0) [
  | some e ↦ (rows, err (database e))
  | none ↦ elim (find (of_user user) rows) [
    | none ↦ (rows, ok false)
    | some row ↦ conclude (faults 1) user record_step rows (judge_login codes code now row)
  ]
]

unfoldable pub verify_setup :
    Codes
    → Faults
    → (user code : String) (now : ℕ) → List TotpRow
    → List TotpRow × Result Failure Bool
verify_setup codes faults user code now rows = elim (faults 0) [
  | some e ↦ (rows, err (database e))
  | none ↦ elim (find (of_user user) rows) [
    | none ↦ (rows, err no_secret_generated)
    | some row ↦ conclude (faults 1) user enable_at rows (judge_setup codes code now row)
  ]
]
