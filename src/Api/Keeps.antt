-- ===== src/Api/Keeps.antt =====
-- What the step-up and the routes leave of the accounts (mint-sniper/src/api.rs).
use seasniper.Common.{
  either, ℕ, String, Bool, true, false, Option, none, some, List, ◌≡◌, refl, sym, subst, arith, All,
  Bool-cases, Option-cases, inl, inr, not, str_eq,
}
use seasniper.Common.Results.{Result, ok, err}
use seasniper.Failure.{Failure}
use seasniper.Config.{Config}
use seasniper.Config.Validate.{ConfigError, validate}
use seasniper.Effect.{Effect}
use seasniper.Copymint.{verify_and_fire}
use seasniper.Target.{ResolvedTarget, resolve_address, target_is_live, mint_calldata}
use seasniper.Identity.Session.{Session, Faults}
use seasniper.Identity.Lifetime.{Earned}
use seasniper.Identity.Totp.{Codes}
use seasniper.Identity.Guard.{
  Request, Accounts, Refusal, Decision, next_run, unauthorized, forbidden, server_error,
  require_session, require_step_up, step_up_session, step_up_with, step_up_code,
  bearer_token_matches, require_token_or_session,
}
use seasniper.Identity.Guard
use seasniper.Identity.Admission.{Confirmed, require_step_up-Confirmed}
use seasniper.Api.{best_rpc, App, Outside, Outcome}
use seasniper.Api.Orders.{
  accept_verdict, approve_target, aimed, order_for, target_for, save_config, fire_answer,
  choose_target, check_target, checked, commit_target, delegated_order,
}
use seasniper.Api.Quiet.{require_session-Earned}

step_up_with-sessions :
    (totp : Codes) (faults : Faults) (email : Result Failure String) (now : ℕ) (accounts : Accounts)
    (s : Session) (code : String)
    → (step_up_with totp faults email now accounts s code).0.sessions ≡ accounts.sessions
unfolding step_up_with
step_up_with-sessions totp faults (err e) now accounts s code = refl
step_up_with-sessions totp faults (ok email) now accounts s code = refl

step_up_session-sessions :
    (totp : Codes) (faults : Faults) (email : Session → Result Failure String) (now : ℕ)
    (accounts : Accounts) (s : Session) (request : Request)
    → (step_up_session totp faults email now accounts s request).0.sessions ≡ accounts.sessions
unfolding step_up_session
step_up_session-sessions totp faults email now accounts s request = elim (Bool-cases s.admin_tier) [
  | inr visitor ↦ ground arith
  | inl admin ↦ elim (Option-cases (step_up_code request.step_up_totp)) [
    | inl missing ↦ ground arith
    | inr (code, given) ↦
        ground (arith, step_up_with-sessions totp faults (email s) now accounts s code)
  ]
]

after_session-sessions :
    (next : Accounts → Session → Accounts × Result Refusal (Unit {0}))
    (x : Accounts × Result Refusal Session)
    → ((accounts : Accounts) (s : Session) → (next accounts s).0.sessions ≡ accounts.sessions)
    → (Guard.after_session next x).0.sessions ≡ x.0.sessions
after_session-sessions next (accounts, err e) keeps = refl
after_session-sessions next (accounts, ok s) keeps = keeps accounts s

pub require_step_up-Earned :
    (totp : Codes) (read_faults touch_faults code_faults : Faults)
    (email : Session → Result Failure String) (google : Bool) (now : ℕ) (accounts : Accounts)
    (request : Request)
    → All Earned accounts.sessions
    → All Earned
        (require_step_up totp read_faults touch_faults code_faults email google now accounts
          request).0.sessions
unfolding require_step_up
require_step_up-Earned totp rf tf cf email false now accounts request h = h
require_step_up-Earned totp rf tf cf email true now accounts request h =
    subst (All Earned)
      (sym (
        after_session-sessions (λ found s. step_up_session totp cf email now found s request)
          (require_session rf tf now accounts request)
          (λ found s. step_up_session-sessions totp cf email now found s request)))
      (require_session-Earned rf tf now accounts request h)

pub step_up-Confirmed :
    (totp : Codes) (read_faults touch_faults code_faults : Faults)
    (email : Session → Result Failure String) (google : Bool) (now : ℕ) (accounts : Accounts)
    (request : Request)
    → google ≡ true
    → All Earned accounts.sessions
    → (require_step_up totp read_faults touch_faults code_faults email google now accounts
        request).1
      ≡ ok tt
    → Confirmed totp now request accounts
        (require_step_up totp read_faults touch_faults code_faults email google now accounts
          request).0
step_up-Confirmed totp rf tf cf email false now accounts request google h e = ground arith
step_up-Confirmed totp rf tf cf email true now accounts request google h e =
    require_step_up-Confirmed totp rf tf cf email now accounts request h e

-- What changes no account.
abbrev pub KeepsAccounts : (App → Outcome) → Type 0
KeepsAccounts next = (app : App) → (next app).0.accounts ≡ app.accounts

module _ (w : Outside) where
  save_config-accounts : (cfg : Config) → KeepsAccounts (save_config w cfg)
  unfolding save_config
  save_config-accounts cfg app = ground arith

  pub accept_verdict-accounts :
      (cfg : Config) (app : App) (r : Result ConfigError (Unit {0}))
      → (accept_verdict w cfg app r).0.accounts ≡ app.accounts
  accept_verdict-accounts cfg app (err e) = refl
  accept_verdict-accounts cfg app (ok x) = save_config-accounts cfg (record app { config = cfg })

  fire_answer-accounts :
      (app : App) (x : Option (Result Failure (List Effect × ℕ)))
      → (fire_answer app x).0.accounts ≡ app.accounts
  fire_answer-accounts app none = refl
  fire_answer-accounts app (some (err e)) = refl
  fire_answer-accounts app (some (ok (effects, value))) = refl

  pub order_for-accounts :
      (app : App) (nft fee : Option ℕ) → (order_for w app nft fee).0.accounts ≡ app.accounts
  order_for-accounts app none fee = refl
  order_for-accounts app (some contract) none = refl
  order_for-accounts app (some contract) (some recipient) =
      fire_answer-accounts app (verify_and_fire w.net app.config (best_rpc app) contract recipient)

  approve_target-accounts :
      (seen : Config) (nft : ℕ) (target : ResolvedTarget) (app : App)
      (calldata : Result Failure (List ℕ)) (verdict : Result ConfigError (Unit {0}))
      → (approve_target w seen nft target app calldata verdict).0.accounts ≡ app.accounts
  unfolding commit_target
  approve_target-accounts seen nft target app (err e) verdict = refl
  approve_target-accounts seen nft target app (ok calldata) (err e) = refl
  approve_target-accounts seen nft target app (ok calldata) (ok x) = ground arith

  checked-accounts :
      (seen : Config) (nft : ℕ) (app : App) (x : Option (Result Failure ResolvedTarget))
      → (checked w seen nft app x).0.accounts ≡ app.accounts
  unfolding check_target
  checked-accounts seen nft app none = refl
  checked-accounts seen nft app (some (err e)) = refl
  checked-accounts seen nft app (some (ok target)) =
      either (λ (o : Outcome). o.0.accounts ≡ app.accounts) (not (target_is_live target w.net.now))
        _ _ refl
        (either (λ (o : Outcome). o.0.accounts ≡ app.accounts) (not target.fee_recipient_ok) _ _
          refl
          (approve_target-accounts seen nft target app (mint_calldata w.net target)
            (validate w.net (aimed seen (w.hex nft)))))

  target_for-accounts :
      (seen : Config) (app : App) (nft : Option ℕ)
      → (target_for w seen app nft).0.accounts ≡ app.accounts
  target_for-accounts seen app none = refl
  target_for-accounts seen app (some nft) =
      checked-accounts seen nft app (resolve_address w.net seen nft (best_rpc app))

  pub choose_target-accounts :
      (seen : Config) (nft : String) → KeepsAccounts (choose_target w seen nft)
  unfolding choose_target
  choose_target-accounts seen nft app =
      either (λ (o : Outcome). o.0.accounts ≡ app.accounts) (not (str_eq seen.mint_mode "seadrop"))
        _ _ refl (target_for-accounts seen app (w.net.parse_address nft))

pub delegated_order-accounts : KeepsAccounts delegated_order
unfolding delegated_order
delegated_order-accounts app = ground arith
