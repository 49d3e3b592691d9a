-- ===== src/Api/Authority.antt =====
-- Who can order the bot, or change its configuration, through the API (mint-sniper/src/api.rs and
-- mint-sniper/src/auth.rs).
use seasniper.Common.{
  Option, none, true, is_some, Bool-cases, some, List, [], ◌≡◌, ◌⊎◌, refl, arith, All, inl, inr,
}
use seasniper.Common.Results.{Result, ok, err, Result-cases}
use seasniper.Config.{resolve_opensea_api_key}
use seasniper.Target.{resolve}
use seasniper.Identity.Lifetime.{Earned}
use seasniper.Identity.Oidc.{Provider}
use seasniper.Identity.Session.{Faults}
use seasniper.Identity.Guard.{
  require_token_or_session, bearer_token_matches, Request, Accounts, Refusal, Decision, next_run,
  unauthorized, forbidden, server_error,
}
use seasniper.Identity.Admission.{Confirmed}
use seasniper.Api.{
  email_of, best_rpc, App, Outside, Outcome, stepped_up, confirmed, with_step_up,
  identity_configured,
}
use seasniper.Api.Orders.{
  accept_config, copymint_order, choose_target, delegated_order, put_config, post_arm, post_trigger,
  post_copymint_fire, post_target_set, post_delegated_fire, post_copymint_eligibility,
  post_target_resolve, post_target_search, get_config, get_status, post_abort,
}
use seasniper.Api.Delegation.{get_delegated_status, post_delegated_preflight}
use seasniper.Api.Router.{
  Call, Route, protected, public, handle, serve, serve_all, guarded_by, decision, read_config,
  read_status, write_config, trigger, copymint_fire, copymint_eligibility, target_resolve,
  target_set, target_search, delegated_status, delegated_preflight, delegated_fire, events,
}
use seasniper.Api.Quiet.{Quiet}
use seasniper.Api.Reads.{reads-Quiet, report_for-Quiet, resolve_answer-Quiet, search_with-Quiet}
use seasniper.Api.Stages.{visit-Quiet}
use seasniper.Api.Keeps.{require_step_up-Earned, step_up-Confirmed}
use seasniper.Api.Earned.{serve_all-Earned}

-- What a request that orders the bot has shown, in either mode, with the accounts before and after the step-up.
pub data Authorised (w : Outside) (request : Request) (before after : Accounts) : Type 0 where
  by_session :
      (provider : Provider)
      → w.google_oidc ≡ some provider
      → Confirmed w.codes w.net.now request before after
      → Authorised w request before after
  by_token :
      w.google_oidc ≡ none
      → bearer_token_matches w.api_token request ≡ true
      → Authorised w request before after

module _ (w : Outside) (request : Request) where
  -- What the step-up refuses, orders nothing.
  confirmed-Quiet :
      (next : App → Outcome) (app : App) (x : Accounts × Result Refusal (Unit {0})) (e : Refusal)
      → x.1 ≡ err e
      → All Earned x.0.sessions
      → Quiet app.config (confirmed next app x)
  confirmed-Quiet next app (accounts, err r) e refused h = record {
    silent = refl;
    kept = refl;
    earned = h;
  }
  confirmed-Quiet next app (accounts, ok x) e refused h = ground arith

  abbrev Allowed : App → Type 0
  Allowed app = Confirmed w.codes w.net.now request app.accounts (stepped_up w app request).0

  with_step_up-Allowed :
      (provider : Provider) (next : App → Outcome) (app : App)
      → w.google_oidc ≡ some provider
      → All Earned app.accounts.sessions
      → Quiet app.config (with_step_up w request app next) ⊎ Allowed app
  unfolding with_step_up
  with_step_up-Allowed provider next app google h =
      elim (Result-cases (stepped_up w app request).1) [
        | inr (e, refused) ↦ inl (
            confirmed-Quiet next app (stepped_up w app request) e refused (
              require_step_up-Earned w.codes (w.faults 0) (w.faults 1) (w.faults 3)
                (email_of w app 2) (identity_configured w) w.net.now app.accounts request h))
        | inl (x, passed) ↦ inr (
            step_up-Confirmed w.codes (w.faults 0) (w.faults 1) (w.faults 3) (email_of w app 2)
              (identity_configured w) w.net.now app.accounts request (ground (arith, google)) h
              passed)
      ]

  handle-Allowed :
      (provider : Provider) (call : Call) (app : App)
      → w.google_oidc ≡ some provider
      → All Earned app.accounts.sessions
      → Quiet app.config (handle w request call app) ⊎ Allowed app
  unfolding handle get_config get_status put_config post_arm post_abort post_trigger
      post_copymint_fire post_copymint_eligibility post_target_resolve post_target_set
      post_target_search get_delegated_status post_delegated_preflight post_delegated_fire
  handle-Allowed provider read_config app google h = inl (reads-Quiet app _ h)
  handle-Allowed provider events app google h = inl (reads-Quiet app _ h)
  handle-Allowed provider read_status app google h = inl (reads-Quiet app _ h)
  handle-Allowed provider (write_config cfg) app google h =
      with_step_up-Allowed provider (accept_config w cfg) app google h
  handle-Allowed provider Call.arm app google h = with_step_up-Allowed provider _ app google h
  handle-Allowed provider Call.abort app google h =
      inl (record { silent = refl; kept = refl; earned = h })
  handle-Allowed provider trigger app google h = with_step_up-Allowed provider _ app google h
  handle-Allowed provider (copymint_fire nft fee) app google h =
      with_step_up-Allowed provider (copymint_order w nft fee) app google h
  handle-Allowed provider (copymint_eligibility nft) app google h =
      inl (report_for-Quiet w app (w.net.parse_address nft) h)
  handle-Allowed provider (target_resolve input) app google h = inl (
      resolve_answer-Quiet w app (resolve w.net w.get_collection app.config (best_rpc app) input) h)
  handle-Allowed provider (target_set seen nft) app google h =
      with_step_up-Allowed provider (choose_target w seen nft) app google h
  handle-Allowed provider (target_search query) app google h =
      inl (search_with-Quiet w query app (resolve_opensea_api_key w.net.env_var app.config) h)
  handle-Allowed provider delegated_status app google h = inl (reads-Quiet app _ h)
  handle-Allowed provider delegated_preflight app google h = inl (reads-Quiet app _ h)
  handle-Allowed provider delegated_fire app google h =
      with_step_up-Allowed provider delegated_order app google h

  guarded_by-Allowed :
      (provider : Provider) (d : Decision) (call : Call) (app : App)
      → w.google_oidc ≡ some provider
      → All Earned app.accounts.sessions
      → Quiet app.config (guarded_by d (handle w request call) app) ⊎ Allowed app
  guarded_by-Allowed provider next_run call app google h = handle-Allowed provider call app google h
  guarded_by-Allowed provider unauthorized call app google h = inl (reads-Quiet app _ h)
  guarded_by-Allowed provider forbidden call app google h = inl (reads-Quiet app _ h)
  guarded_by-Allowed provider (server_error e) call app google h = inl (reads-Quiet app _ h)

  -- Without Google sign-in the token is asked for.
  token_Allowed :
      (faults : Faults) (google : Option Provider) (app : App) (call : Call)
      → google ≡ none
      → All Earned app.accounts.sessions
      → Quiet app.config (
          guarded_by
            (require_token_or_session faults
              (is_some google)
              w.api_token
              app.accounts.sessions
              request)
            (handle w request call)
            app)
        ⊎ (bearer_token_matches w.api_token request ≡ true)
  unfolding require_token_or_session
  token_Allowed faults (some provider) app call google h = ground arith
  token_Allowed faults none app call google h =
      elim (Bool-cases (bearer_token_matches w.api_token request)) [
        | inl matches ↦ inr matches
        | inr differs ↦ inl (rw differs (reads-Quiet app _ h))
      ]

  guarded-Authorised :
      (mode : Option Provider) (call : Call) (app : App)
      → w.google_oidc ≡ mode
      → All Earned app.accounts.sessions
      → Quiet app.config (guarded_by (decision w request app) (handle w request call) app)
        ⊎ Authorised w request app.accounts (stepped_up w app request).0
  guarded-Authorised none call app mode h =
      elim (token_Allowed w.guard_faults w.google_oidc app call mode h) [
        | inl quiet ↦ inl quiet
        | inr matches ↦ inr (by_token mode matches)
      ]
  guarded-Authorised (some provider) call app mode h =
      elim (guarded_by-Allowed provider (decision w request app) call app mode h) [
        | inl quiet ↦ inl quiet
        | inr confirmed ↦ inr (by_session provider mode confirmed)
      ]

  serve-Authorised :
      (route : Route) (app : App)
      → All Earned app.accounts.sessions
      → Quiet app.config (serve w request route app)
        ⊎ Authorised w request app.accounts (stepped_up w app request).0
  unfolding serve
  serve-Authorised (protected call) app h = guarded-Authorised w.google_oidc call app refl h
  serve-Authorised (public v) app h =
      inl (visit-Quiet app.config w request v app (record { same = refl; earned = h }))

-- Whatever requests were served since there was no session: a request orders the bot (anything but a disarm) or
-- changes its configuration only if, with Google sign-in configured, it has the cookie of an active session that has
-- passed TOTP and WebAuthn, and a fresh code of its own for that session's user, which is then used up; and without
-- Google sign-in, the API token.
pub serve-serve_all :
    (boot : App) (history : List (Outside × Request × Route)) (w : Outside) (request : Request)
    (route : Route)
    → boot.accounts.sessions ≡ []
    → Quiet (serve_all history boot).config (serve w request route (serve_all history boot))
      ⊎ Authorised w request
          (serve_all history boot).accounts
          (stepped_up w (serve_all history boot) request).0
serve-serve_all boot history w request route empty =
    serve-Authorised w request route (serve_all history boot)
      (serve_all-Earned history boot (rw empty tt))
