-- ===== src/Identity/Logins.antt =====
-- TOTP logins one after the other (`verify_login` of mint-sniper/src/identity/totp.rs).
use seasniper.Common.{
  ℕ, ◌<◌, ◌≤◌, String, true, List, [], ◌∷◌, ◌≡◌, ◌≢◌, sym, ◌∙◌, arith, Bool-cases, inl, inr, eq_iff,
}
use seasniper.Common.Results.{ok, Result-cases}
use seasniper.Identity.Session.{Faults}
use seasniper.Identity.Totp.{Codes, TotpRow, verify_login, of_user, update_user, record_step}
use seasniper.Identity.Replay.{
  UsedUpTo, Fresh, verify_login-Accepted, verify_login-Advanced, verify_login-unchanged,
}

-- A call of `verify_login`, with the failures of its queries and the moment of it.
pub record Attempt : Type 0 where
  pub faults : Faults
  pub user : String
  pub code : String
  pub now : ℕ

abbrev pub after : Codes → Attempt → List TotpRow → List TotpRow
after codes a rows = (verify_login codes a.faults a.user a.code a.now rows).0

abbrev pub Passes : Codes → Attempt → List TotpRow → Type 0
Passes codes a rows = (verify_login codes a.faults a.user a.code a.now rows).1 ≡ ok true

unfoldable pub after_all : Codes → List Attempt → List TotpRow → List TotpRow
after_all codes [] rows = rows
after_all codes (a ∷ attempts) rows = after_all codes attempts (after codes a rows)

same_user :
    (user other : String) (r : TotpRow)
    → of_user user r ≡ true
    → of_user other r ≡ true
    → user ≡ other
same_user user other r hit both =
    sym ((eq_iff r.user_id user).0 hit) ∙ (eq_iff r.user_id other).0 both

update_user-UsedUpTo :
    (user other : String) (used step : ℕ) (rows : List TotpRow)
    → (user ≡ other → used ≤ step)
    → UsedUpTo user used rows
    → UsedUpTo user used (update_user other (record_step step) rows)
update_user-UsedUpTo user other used step [] later u = u
update_user-UsedUpTo user other used step (r ∷ rows) later u = elim (Bool-cases (of_user user r)) [
  | inl hit ↦ elim (Bool-cases (of_user other r)) [
    | inl both ↦ ground (arith, hit, both, u, later (same_user user other r hit both))
    | inr only ↦ ground (arith, hit, only, u)
  ]
  | inr miss ↦
      let rest = update_user-UsedUpTo user other used step rows later (ground (arith, miss, u)) in
      elim (Bool-cases (of_user other r)) [
        | inl hit ↦ ground (arith, miss, hit, rest)
        | inr neither ↦ ground (arith, miss, neither, rest)
      ]
]

Passes-UsedUpTo :
    (codes : Codes) (user : String) (used : ℕ) (a : Attempt) (rows : List TotpRow)
    → UsedUpTo user used rows
    → Passes codes a rows
    → UsedUpTo user used (after codes a rows)
Passes-UsedUpTo codes user used a rows u e =
    let accepted = verify_login-Accepted codes a.faults a.user a.code a.now rows e in
    rw accepted.updated (
      update_user-UsedUpTo user a.user used accepted.step rows
        (λ same. ground (arith, same, u, accepted.fresh)) u)

-- A login of any user, passed or refused, keeps what a user has used.
after-UsedUpTo :
    (codes : Codes) (user : String) (used : ℕ) (a : Attempt) (rows : List TotpRow)
    → UsedUpTo user used rows
    → UsedUpTo user used (after codes a rows)
after-UsedUpTo codes user used a rows u =
    elim (Result-cases (verify_login codes a.faults a.user a.code a.now rows).1) [
      | inr (failure, failed) ↦ kept (λ e. ground (arith, failed, e))
      | inl (answer, answered) ↦ elim (Bool-cases answer) [
        | inl passed ↦ Passes-UsedUpTo codes user used a rows u (ground (arith, passed, answered))
        | inr denied ↦ kept (λ e. ground (arith, denied, answered, e))
      ]
    ]
  where
    kept :
        (verify_login codes a.faults a.user a.code a.now rows).1 ≢ ok true
        → UsedUpTo user used (after codes a rows)
    kept refused = rw (verify_login-unchanged codes a.faults a.user a.code a.now rows refused) u

after_all-UsedUpTo :
    (codes : Codes) (user : String) (used : ℕ) (attempts : List Attempt) (rows : List TotpRow)
    → UsedUpTo user used rows
    → UsedUpTo user used (after_all codes attempts rows)
unfolding after_all
after_all-UsedUpTo codes user used [] rows u = u
after_all-UsedUpTo codes user used (a ∷ attempts) rows u =
    after_all-UsedUpTo codes user used attempts (after codes a rows)
      (after-UsedUpTo codes user used a rows u)

-- Two logins that passed, the second on `later` rows: each with a code that is right for a step, the second's later.
pub record Ordered (codes : Codes) (a b : Attempt) (rows later : List TotpRow) : Type 0 where
  pub first_step : ℕ
  pub second_step : ℕ
  pub first_fresh : Fresh codes a.user a.code a.now rows first_step
  pub second_fresh : Fresh codes b.user b.code b.now later second_step
  pub later_step : first_step < second_step

-- When a user's login passes, and after any logins, passed or not, of any users, another of the same user passes, none of
-- them overlapping another and no setup between them, then the second's code is right for a later time step than the
-- first's: a step that was used, or an earlier one, is not accepted again.
pub verify_login-Ordered :
    (codes : Codes) (a b : Attempt) (between : List Attempt) (rows : List TotpRow)
    → a.user ≡ b.user
    → Passes codes a rows
    → Passes codes b (after_all codes between (after codes a rows))
    → Ordered codes a b rows (after_all codes between (after codes a rows))
verify_login-Ordered codes a b between rows same first second =
    let accepted = verify_login-Accepted codes a.faults a.user a.code a.now rows first in
    let later = after_all codes between (after codes a rows) in
    let used : UsedUpTo b.user accepted.step later = rw (← same) (
      after_all-UsedUpTo codes a.user accepted.step between (after codes a rows)
        accepted.recorded) in
    let advanced =
      verify_login-Advanced codes b.faults b.user b.code b.now accepted.step later used second in
    record {
      first_step = accepted.step;
      second_step = advanced.step;
      first_fresh = accepted.fresh;
      second_fresh = advanced.fresh;
      later_step = advanced.beyond;
    }
