-- ===== src/Api/Delegation.antt =====
-- The routes that show a delegated run before it starts (mint-sniper/src/api.rs).
use seasniper.Common.{ℕ, String, Option, none, some, List, [], first, is_empty, if◌then◌else◌}
use seasniper.Common.Results.{Result, ok, err}
use seasniper.Failure.{is_panic}
use seasniper.Failure.{Failure}
use seasniper.Config.{Config, is_delegated}
use seasniper.Wallet.{ManagedWallet}
use seasniper.Seadrop.{resolve_seadrop_address}
use seasniper.Delegated.Run.{PreflightOutcome, derive_operator_and_receivers, run_preflight}
use seasniper.Api.{
  App, Outside, Outcome, Reply, shown, refused, panicked, failure, bad_address, not_delegated,
  mnemonic_not_set, no_rpc, no_receivers, delegated_body, preflight_body,
}

-- The operator and the receivers of the configuration, or the answer without them.
unfoldable pub derived : Outside → Config → (ManagedWallet → List ℕ → Reply) → Reply
derived w cfg next =
    if is_delegated cfg.mint_execution
    then (elim (w.net.env_var cfg.delegate_mnemonic_env) [
      | none ↦ refused 400 mnemonic_not_set
      | some mnemonic ↦ elim (derive_operator_and_receivers w.net mnemonic cfg.delegate_count) [
        | err e ↦ refused 400 (failure e)
        | ok (operator, receivers) ↦ next operator receivers
      ]
    ])
    else refused 400 not_delegated

abbrev balance_at : Outside → (url : String) → ManagedWallet → Option ℕ
balance_at w url operator = elim (w.net.parse_url url) [
  | none ↦ none
  | some _ ↦ w.get_balance url operator.address
]

abbrev status_reply : Outside → Config → ManagedWallet → List ℕ → Reply
status_reply w cfg operator receivers = elim (first cfg.http_rpc_urls) [
  | none ↦ refused 400 no_rpc
  | some url ↦ shown 200 (delegated_body operator.address (balance_at w url operator) receivers)
]

unfoldable pub get_delegated_status : Outside → App → Outcome
get_delegated_status w app = (app, [], derived w app.config (status_reply w app.config))

abbrev preflight_answer : Result Failure PreflightOutcome → Reply
preflight_answer (err e) = if is_panic e then panicked else refused 502 (failure e)
preflight_answer (ok outcome) = shown 200 (preflight_body outcome)

-- The addresses of the call, in the order of the checks; the address of the main network is unwrapped.
unfoldable pub preflight_call : Outside → Config → ManagedWallet → (first_receiver : ℕ) → Reply
preflight_call w cfg operator receiver = elim (resolve_seadrop_address w.net cfg.seadrop_address) [
  | err e ↦ if is_empty cfg.seadrop_address then panicked else refused 400 bad_address
  | ok seadrop ↦ elim (w.net.parse_address cfg.nft_contract) [
    | none ↦ refused 400 bad_address
    | some nft ↦ elim (w.net.parse_address cfg.fee_recipient) [
      | none ↦ refused 400 bad_address
      | some fee ↦ elim (first cfg.http_rpc_urls) [
        | none ↦ refused 400 no_rpc
        | some url ↦ preflight_answer (
            run_preflight w.net url seadrop nft fee operator.address receiver
              cfg.quantity_per_wallet cfg.delegate_count)
      ]
    ]
  ]
]

abbrev preflight_reply : Outside → Config → ManagedWallet → List ℕ → Reply
preflight_reply w cfg operator receivers = elim (first receivers) [
  | none ↦ refused 400 no_receivers
  | some receiver ↦ preflight_call w cfg operator receiver
]

unfoldable pub post_delegated_preflight : Outside → App → Outcome
post_delegated_preflight w app = (app, [], derived w app.config (preflight_reply w app.config))
