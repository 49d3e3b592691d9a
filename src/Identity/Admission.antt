-- ===== src/Identity/Admission.antt =====
-- Who passes the guards of the API (mint-sniper/src/auth.rs and mint-sniper/src/api.rs).

use seasniper.Common.{
  ℕ, String, Bool, true, some, ◌≡◌, refl, sym, inl, inr, arith, find, All, [], ◌∷◌, Bool-cases,
  Option-cases,
}
use seasniper.Common.Results.{Result, ok, err}
use seasniper.Failure.{Failure}
use seasniper.Identity.Session.{touch, Session, Table, Faults, get_active, is_active, is_complete}
use seasniper.Identity.Totp.{Codes}
use seasniper.Identity.Lifetime.{Earned}
use seasniper.Identity.Guard.{
  Request, next_run, require_token_or_session, Refusal, Accounts, require_session, require_step_up,
  step_up_code, step_up_with, step_up_session,
}
use seasniper.Identity.Replay.{Accepted, verify_login-Accepted}

find-All :
    (P : Session → Type 0) (p : Session → Bool) (table : Table) (s : Session)
    → All P table
    → find p table ≡ some s
    → P s × (p s ≡ true)
find-All P p [] s h e = ground arith
find-All P p (x ∷ table) s h e = elim (Bool-cases (p x)) [
  | inl hit ↦ let same : s ≡ x = ground arith in rw same (h.0, hit)
  | inr miss ↦ find-All P p table s h.1 (ground arith)
]

-- The session that lets a request through.
pub record Admitted (table : Table) (request : Request) : Type 0 where
  pub id : String
  pub session : Session
  pub cookie : request.session_cookie ≡ some id
  pub found : find (is_active id) table ≡ some session
  pub active : is_active id session ≡ true
  pub complete : is_complete session ≡ true

-- With Google sign-in configured and a table in which the admin tier is earned, a request passes only
-- with the cookie of a session that is not revoked and has passed TOTP and WebAuthn; the token is of no
-- use.
pub require_token_or_session-Admitted :
    (faults : Faults) (api_token : String) (table : Table) (request : Request)
    → All Earned table
    → require_token_or_session faults true api_token table request ≡ next_run
    → Admitted table request
unfolding require_token_or_session get_active
require_token_or_session-Admitted faults api_token table request earned e =
    elim (Option-cases request.session_cookie) [
      | inl missing ↦ ground arith
      | inr (id, cookie) ↦ elim (Option-cases (find (is_active id) table)) [
        | inl gone ↦ ground arith
        | inr (s, found) ↦
            let (admin_earned, active) = find-All Earned (is_active id) table s earned found in
            record {
              id = id;
              session = s;
              cookie = cookie;
              found = found;
              active = active;
              complete = admin_earned (ground arith);
            }
      ]
    ]

-- Whoever passes the step-up: an admitted session, and a code on this request that is fresh for its user.
pub record Confirmed (totp : Codes) (now : ℕ) (request : Request) (before after : Accounts)
    : Type 0 where
  pub admitted : Admitted before.sessions request
  pub code : String
  pub given : step_up_code request.step_up_totp ≡ some code
  pub accepted : Accepted totp admitted.session.user_id code now before.codes after.codes

step_up_with-Accepted :
    (totp : Codes) (faults : Faults) (email : Result Failure String) (now : ℕ) (accounts : Accounts)
    (s : Session) (code : String)
    → (step_up_with totp faults email now accounts s code).1 ≡ ok tt
    → Accepted totp s.user_id code now accounts.codes
        (step_up_with totp faults email now accounts s code).0.codes
unfolding step_up_with
step_up_with-Accepted totp faults (err failure) now accounts s code e = ground arith
step_up_with-Accepted totp faults (ok address) now accounts s code e =
    verify_login-Accepted totp faults s.user_id code now accounts.codes (ground arith)

module _ (totp : Codes) (faults : Faults) (email : Session → Result Failure String) (now : ℕ)
    (before touched : Accounts) (request : Request) where
  code_Accepted :
      (s : Session) (code : String) (x : Accounts × Result Refusal (Unit {0}))
      → touched.codes ≡ before.codes
      → x ≡ step_up_with totp faults (email s) now touched s code
      → x.1 ≡ ok tt
      → Accepted totp s.user_id code now before.codes x.0.codes
  code_Accepted s code x same whole e =
      rw (whole, sym same)
        (step_up_with-Accepted totp faults (email s) now touched s code (ground (arith, whole, e)))

  step_up_session-Confirmed :
      (id : String) (s : Session)
      → All Earned before.sessions
      → request.session_cookie ≡ some id
      → find (is_active id) before.sessions ≡ some s
      → touched.codes ≡ before.codes
      → (step_up_session totp faults email now touched s request).1 ≡ ok tt
      → Confirmed totp now request before
          (step_up_session totp faults email now touched s request).0
  unfolding step_up_session
  step_up_session-Confirmed id s earned cookie found same e = elim (Bool-cases s.admin_tier) [
    | inr visitor ↦ ground arith
    | inl admin ↦ elim (Option-cases (step_up_code request.step_up_totp)) [
      | inl missing ↦ ground arith
      | inr (code, given) ↦
          let (earned_admin, active) =
            find-All Earned (is_active id) before.sessions s earned found in
          record {
            admitted = record {
              id = id;
              session = s;
              cookie = cookie;
              found = found;
              active = active;
              complete = earned_admin admin;
            };
            code = code;
            given = given;
            accepted =
                code_Accepted s code (step_up_session totp faults email now touched s request) same
                  (unfold step_up_session in ground (arith, admin, given)) e;
          }
    ]
  ]

-- With Google sign-in configured and an earned admin tier, a request passes the step-up only with the cookie of
-- a session that is active and has passed TOTP and WebAuthn, and with a code of its own whose time step
-- no accepted code of that user has reached; the step is then used.
pub require_step_up-Confirmed :
    (totp : Codes) (read_faults touch_faults code_faults : Faults)
    (email : Session → Result Failure String) (now : ℕ) (accounts : Accounts) (request : Request)
    → All Earned accounts.sessions
    → (require_step_up totp read_faults touch_faults code_faults email true now accounts request).1
      ≡ ok tt
    → Confirmed totp now request accounts
        (require_step_up totp read_faults touch_faults code_faults email true now accounts
          request).0
unfolding require_step_up require_session get_active
require_step_up-Confirmed totp read_faults touch_faults code_faults email now accounts request
      earned e =
    elim (Option-cases request.session_cookie) [
      | inl missing ↦ ground arith
      | inr (id, cookie) ↦ elim (Option-cases (read_faults 0)) [
        | inr (failure, down) ↦ ground arith
        | inl fine ↦ elim (Option-cases (find (is_active id) accounts.sessions)) [
          | inl gone ↦ ground arith
          | inr (s, found) ↦
              let touched : Accounts = record accounts {
                sessions = (touch touch_faults s.id now accounts.sessions).0;
              } in
              let whole : require_step_up totp read_faults touch_faults code_faults email true now
                    accounts request
                  ≡ step_up_session totp code_faults email now touched s request =
                ground (arith, cookie, fine, found) in
              rw whole (
                step_up_session-Confirmed totp code_faults email now accounts touched request id s
                  earned cookie found refl (ground (arith, whole, e)))
        ]
      ]
    ]
