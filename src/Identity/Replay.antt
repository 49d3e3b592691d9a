-- ===== src/Identity/Replay.antt =====
-- What an accepted TOTP code leaves (`verify_login` of mint-sniper/src/identity/totp.rs).
use seasniper.Common.{
  ◌<◌, ◌≢◌, refl, ℕ, String, Bool, true, false, Option, none, some, List, [], ◌∷◌, ◌≡◌, arith, find,
  leb, Bool-cases, Option-cases, inl, inr,
}
use seasniper.Common.Results.{ok, Result-cases}
use seasniper.Identity.Session.{Faults}
use seasniper.Identity.Totp.{
  Verdict, refused, failed, conclude, verify_login, Codes, TotpRow, accepted, of_user, is_later,
  judge_login, update_user, record_step,
}

-- The last step of a user is at least this.
abbrev step_from : ℕ → Option ℕ → Bool
step_from step none = false
step_from step (some last) = leb step last

abbrev row_from : ℕ → Option TotpRow → Bool
row_from step none = false
row_from step (some row) = step_from step row.last_used_step

abbrev pub UsedUpTo : (user : String) (step : ℕ) → List TotpRow → Type 0
UsedUpTo user step rows = row_from step (find (of_user user) rows) ≡ true

-- What an accepted code proves: the user has a row, the code is right for a step, and the step is later than
-- the last one that was used.
pub record Fresh (codes : Codes) (user code : String) (now : ℕ) (rows : List TotpRow) (step : ℕ)
    : Type 0 where
  pub row : TotpRow
  pub secret : ℕ
  pub found : find (of_user user) rows ≡ some row
  pub enabled : row.enabled ≡ true
  pub opened : codes.open_secret row.secret ≡ ok secret
  pub right : codes.check secret code now ≡ some step
  pub later : is_later row.last_used_step step ≡ true

find-update_user :
    (user : String) (step : ℕ) (rows : List TotpRow) (row : TotpRow)
    → find (of_user user) rows ≡ some row
    → find (of_user user) (update_user user (record_step step) rows) ≡ some (record_step step row)
find-update_user user step [] row e = ground arith
find-update_user user step (r ∷ rows) row e = elim (Bool-cases (of_user user r)) [
  | inl hit ↦ ground (arith, hit, e)
  | inr miss ↦ ground (arith, miss, find-update_user user step rows row (ground arith))
]

judge_login-Fresh :
    (codes : Codes) (user code : String) (now : ℕ) (rows : List TotpRow) (row : TotpRow) (step : ℕ)
    → find (of_user user) rows ≡ some row
    → judge_login codes code now row ≡ accepted step
    → Fresh codes user code now rows step
unfolding judge_login
judge_login-Fresh codes user code now rows row step found e =
    elim (Result-cases (codes.open_secret row.secret)) [
      | inr (failure, shut) ↦ ground arith
      | inl (secret, opened) ↦ elim (Option-cases (codes.check secret code now)) [
        | inl wrong ↦ ground arith
        | inr (right_step, right) ↦ record {
          row = row;
          secret = secret;
          found = found;
          enabled = ground arith;
          opened = opened;
          right = ground arith;
          later = ground arith;
        }
      ]
    ]

-- An accepted login: its step, which is later than every step up to `used`, and is then used itself.
pub record Advanced (codes : Codes) (user code : String) (now used : ℕ) (rows after : List TotpRow)
    : Type 0 where
  pub step : ℕ
  pub fresh : Fresh codes user code now rows step
  pub beyond : used < step
  pub recorded : UsedUpTo user step after

conclude-accepts :
    (fault : Option String) (user : String) (rows : List TotpRow) (v : Verdict)
    → (conclude fault user record_step rows v).1 ≡ ok true
    → (step : ℕ) × (v ≡ accepted step)
      × ((conclude fault user record_step rows v).0 ≡ update_user user (record_step step) rows)
unfolding conclude
conclude-accepts fault user rows refused e = ground arith
conclude-accepts fault user rows (failed failure) e = ground arith
conclude-accepts (some failure) user rows (accepted step) e = ground arith
conclude-accepts none user rows (accepted step) e = (step, refl, refl)

recorded_step :
    (user : String) (step : ℕ) (rows : List TotpRow) (row : TotpRow) (after : List TotpRow)
    → find (of_user user) rows ≡ some row
    → after ≡ update_user user (record_step step) rows
    → UsedUpTo user step after
recorded_step user step rows row after found same =
    rw (same, find-update_user user step rows row found) (ground arith)

-- An accepted login: its step is fresh, and is then recorded as used.
pub record Accepted (codes : Codes) (user code : String) (now : ℕ) (rows after : List TotpRow)
    : Type 0 where
  pub step : ℕ
  pub fresh : Fresh codes user code now rows step
  pub recorded : UsedUpTo user step after
  pub updated : after ≡ update_user user (record_step step) rows

pub verify_login-Accepted :
    (codes : Codes) (faults : Faults) (user code : String) (now : ℕ) (rows : List TotpRow)
    → (verify_login codes faults user code now rows).1 ≡ ok true
    → Accepted codes user code now rows (verify_login codes faults user code now rows).0
unfolding verify_login
verify_login-Accepted codes faults user code now rows e = elim (Option-cases (faults 0)) [
  | inr (failure, down) ↦ ground arith
  | inl fine ↦ elim (Option-cases (find (of_user user) rows)) [
    | inl absent ↦ ground arith
    | inr (row, found) ↦
        let (step, verdict, after) =
          conclude-accepts (faults 1) user rows (judge_login codes code now row) (ground arith) in
        record {
          step = step;
          fresh = judge_login-Fresh codes user code now rows row step found verdict;
          recorded =
              recorded_step user step rows row (verify_login codes faults user code now rows).0
                found (ground (arith, fine, found, after));
          updated = ground (arith, fine, found, after);
        }
  ]
]

-- A login is accepted only at a later step than every one that was used, and uses up its own.
pub verify_login-Advanced :
    (codes : Codes) (faults : Faults) (user code : String) (now used : ℕ) (rows : List TotpRow)
    → UsedUpTo user used rows
    → (verify_login codes faults user code now rows).1 ≡ ok true
    → Advanced codes user code now used rows (verify_login codes faults user code now rows).0
verify_login-Advanced codes faults user code now used rows up_to e =
    let a : Accepted codes user code now rows (verify_login codes faults user code now rows).0 =
      verify_login-Accepted codes faults user code now rows e in
    let fresh : Fresh codes user code now rows a.step = a.fresh in
    record {
      step = a.step;
      fresh = fresh;
      beyond = ground (arith, fresh.later, fresh.found, up_to);
      recorded = a.recorded;
    }

-- A login that is not accepted, or that fails, changes nothing.
pub verify_login-unchanged :
    (codes : Codes) (faults : Faults) (user code : String) (now : ℕ) (rows : List TotpRow)
    → (verify_login codes faults user code now rows).1 ≢ ok true
    → (verify_login codes faults user code now rows).0 ≡ rows
unfolding verify_login conclude judge_login
verify_login-unchanged codes faults user code now rows h = ground (arith, h)
