-- ===== src/Api/Earned.antt =====
-- No request of the API (mint-sniper/src/api.rs) makes a session an admin unearned.
use seasniper.Common.{List, [], ◌∷◌, refl, sym, subst, All}
use seasniper.Common.Results.{Result, ok, err}
use seasniper.Config.{resolve_opensea_api_key}
use seasniper.Config.Validate.{validate}
use seasniper.Target.{resolve}
use seasniper.Identity.Lifetime.{Earned}
use seasniper.Identity.Guard.{
  Request, Accounts, Refusal, Decision, next_run, unauthorized, forbidden, server_error,
}
use seasniper.Api.{
  email_of, best_rpc, App, Outside, Outcome, stepped_up, confirmed, with_step_up,
  identity_configured,
}
use seasniper.Api.Orders.{
  accept_config, copymint_order, choose_target, delegated_order, put_config, post_arm, post_trigger,
  post_copymint_fire, post_target_set, post_delegated_fire, post_copymint_eligibility,
  post_target_resolve, post_target_search, get_config, get_status, post_abort,
}
use seasniper.Api.Delegation.{get_delegated_status, post_delegated_preflight}
use seasniper.Api.Router.{
  Call, Route, protected, public, handle, serve, serve_all, guarded_by, decision, read_config,
  read_status, write_config, trigger, copymint_fire, copymint_eligibility, target_resolve,
  target_set, target_search, delegated_status, delegated_preflight, delegated_fire, events,
}
use seasniper.Api.Reads.{report_for-Quiet, resolve_answer-Quiet, search_with-Quiet}
use seasniper.Api.Stages.{visit-Quiet}
use seasniper.Api.Keeps.{
  KeepsAccounts, accept_verdict-accounts, choose_target-accounts, delegated_order-accounts,
  order_for-accounts, require_step_up-Earned,
}

module _ (w : Outside) (request : Request) where
  pub confirmed-Earned :
      (next : App → Outcome) (app : App) (x : Accounts × Result Refusal (Unit {0}))
      → KeepsAccounts next
      → All Earned x.0.sessions
      → All Earned (confirmed next app x).0.accounts.sessions
  confirmed-Earned next app (accounts, err e) keeps h = h
  confirmed-Earned next app (accounts, ok x) keeps h =
      subst (λ a. All Earned (Accounts.sessions a))
        (sym (keeps (record app { accounts = accounts }))) h

  pub with_step_up-Earned :
      (next : App → Outcome) (app : App)
      → KeepsAccounts next
      → All Earned app.accounts.sessions
      → All Earned (with_step_up w request app next).0.accounts.sessions
  unfolding with_step_up
  with_step_up-Earned next app keeps h =
      confirmed-Earned next app (stepped_up w app request) keeps (
        require_step_up-Earned w.codes (w.faults 0) (w.faults 1) (w.faults 3) (email_of w app 2)
          (identity_configured w) w.net.now app.accounts request h)

  pub handle-Earned :
      (call : Call) (app : App)
      → All Earned app.accounts.sessions
      → All Earned (handle w request call app).0.accounts.sessions
  unfolding handle get_config get_status put_config post_arm post_abort post_trigger
      post_copymint_fire post_copymint_eligibility post_target_resolve post_target_set
      post_target_search get_delegated_status post_delegated_preflight post_delegated_fire
      accept_config copymint_order
  handle-Earned read_config app h = h
  handle-Earned events app h = h
  handle-Earned read_status app h = h
  handle-Earned (write_config cfg) app h =
      with_step_up-Earned (accept_config w cfg) app
        (λ a. accept_verdict-accounts w cfg a (validate w.net cfg)) h
  handle-Earned Call.arm app h = with_step_up-Earned _ app (λ a. refl) h
  handle-Earned Call.abort app h = h
  handle-Earned trigger app h = with_step_up-Earned _ app (λ a. refl) h
  handle-Earned (copymint_fire nft fee) app h =
      with_step_up-Earned (copymint_order w nft fee) app
        (λ a. order_for-accounts w a (w.net.parse_address nft) (w.net.parse_address fee)) h
  handle-Earned (copymint_eligibility nft) app h =
      (report_for-Quiet w app (w.net.parse_address nft) h).earned
  handle-Earned (target_resolve input) app h =
      (resolve_answer-Quiet w app (resolve w.net w.get_collection app.config (best_rpc app) input)
        h).earned
  handle-Earned (target_set seen nft) app h =
      with_step_up-Earned (choose_target w seen nft) app (choose_target-accounts w seen nft) h
  handle-Earned (target_search query) app h =
      (search_with-Quiet w query app (resolve_opensea_api_key w.net.env_var app.config) h).earned
  handle-Earned delegated_status app h = h
  handle-Earned delegated_preflight app h = h
  handle-Earned delegated_fire app h =
      with_step_up-Earned delegated_order app delegated_order-accounts h

  pub guarded_by-Earned :
      (d : Decision) (call : Call) (app : App)
      → All Earned app.accounts.sessions
      → All Earned (guarded_by d (handle w request call) app).0.accounts.sessions
  guarded_by-Earned next_run call app h = handle-Earned call app h
  guarded_by-Earned unauthorized call app h = h
  guarded_by-Earned forbidden call app h = h
  guarded_by-Earned (server_error e) call app h = h

  pub serve-Earned :
      (route : Route) (app : App)
      → All Earned app.accounts.sessions
      → All Earned (serve w request route app).0.accounts.sessions
  unfolding serve
  serve-Earned (protected call) app h = guarded_by-Earned (decision w request app) call app h
  serve-Earned (public v) app h =
      (visit-Quiet app.config w request v app (record { same = refl; earned = h })).earned

pub serve_all-Earned :
    (history : List (Outside × Request × Route)) (app : App)
    → All Earned app.accounts.sessions
    → All Earned (serve_all history app).accounts.sessions
serve_all-Earned [] app h = h
serve_all-Earned ((w, request, route) ∷ history) app h =
    serve_all-Earned history (serve w request route app).0 (serve-Earned w request route app h)
