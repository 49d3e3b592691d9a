-- ===== src/Api/Orders.antt =====
-- The routes that change what the bot does, and those that read it (mint-sniper/src/api.rs).
use seasniper.Common.{
  ℕ, Bool, String, Option, none, some, List, [], ◌∷◌, ◌++◌, ◌&&◌, not, str_eq, if◌then◌else◌,
}
use seasniper.Common.Results.{Result, ok, err}
use seasniper.Failure.{Failure}
use seasniper.Bus.{
  config_changed, info, warn, error, config_rejected, config_not_written, config_updated,
  manual_fire, target_not_written,
}
use seasniper.Config.{Config, is_delegated, resolve_opensea_api_key}
use seasniper.Config.Validate.{ConfigError, validate}
use seasniper.Effect.{
  Effect, emit, send, log_now, arm, disarm, fire_now, set_target, fire_delegated,
}
use seasniper.Opensea.{SearchHit, search_collections}
use seasniper.Copymint.{verify_and_fire}
use seasniper.Copymint.Eligibility.{CopymintEligibilityReport, check_eligibility}
use seasniper.Target.{
  ResolvedTarget, resolve, resolve_address, target_is_live, total_value_wei, mint_calldata,
}
use seasniper.Identity.Guard.{Request}
use seasniper.Api.{
  App, Outside, Outcome, is_whole, left_on_disk, Reply, done, shown, refused, panicked, failure,
  invalid_config, serialize_failed, disk_write_failed, only_seadrop, bad_address, drop_not_live,
  fee_recipient_not_accepted, needs_key, not_delegated, config_body, status_body, value_body,
  report_body, target_body, hits_body, best_rpc, with_step_up,
}

unfoldable pub get_config : App → Outcome
get_config app = (app, [], shown 200 (config_body app.config))

unfoldable pub get_status : App → Outcome
get_status app = (app, [], shown 200 (status_body app.armed app.wallet_addresses))

abbrev pub saved : Outside → (is_written : Bool) → App → Outcome
saved w Bool.true app =
    (app, log_now w.net info config_updated ∷ emit config_changed ∷ [], done 200)
saved w Bool.false app =
    (app, log_now w.net error config_not_written ∷ [], refused 500 disk_write_failed)

-- After the write of the memory: the file, and the news of it.
unfoldable pub save_config : Outside → Config → App → Outcome
save_config w cfg app =
    if w.serializes cfg
    then saved w (is_whole (w.disk_write cfg))
        (record app { on_disk = left_on_disk (w.disk_write cfg) cfg app.on_disk })
    else (app, [], refused 500 serialize_failed)

abbrev pub accept_verdict : Outside → Config → App → Result ConfigError (Unit {0}) → Outcome
accept_verdict w cfg app (err e) =
    (app, log_now w.net error config_rejected ∷ [], refused 400 (invalid_config e))
accept_verdict w cfg app (ok x) = save_config w cfg (record app { config = cfg })

unfoldable pub accept_config : Outside → Config → App → Outcome
accept_config w cfg app = accept_verdict w cfg app (validate w.net cfg)

unfoldable pub put_config : Outside → Request → Config → App → Outcome
put_config w request cfg app = with_step_up w request app (accept_config w cfg)

unfoldable pub post_arm : Outside → Request → App → Outcome
post_arm w request app = with_step_up w request app (λ next. (next, send arm ∷ [], done 202))

unfoldable pub post_abort : App → Outcome
post_abort app = (app, send disarm ∷ [], done 202)

unfoldable pub post_trigger : Outside → Request → App → Outcome
post_trigger w request app =
    with_step_up w request app
      (λ next. (next, log_now w.net warn manual_fire ∷ send fire_now ∷ [], done 202))

abbrev pub fire_answer : App → Option (Result Failure (List Effect × ℕ)) → Outcome
fire_answer app none = (app, [], panicked)
fire_answer app (some (err e)) = (app, [], refused 400 (failure e))
fire_answer app (some (ok (effects, value))) = (app, effects, shown 202 (value_body value))

-- With the two addresses as they parse.
abbrev pub order_for : Outside → App → (nft_contract fee_recipient : Option ℕ) → Outcome
order_for w app none recipient = (app, [], refused 400 bad_address)
order_for w app (some contract) none = (app, [], refused 400 bad_address)
order_for w app (some contract) (some recipient) =
    fire_answer app (verify_and_fire w.net app.config (best_rpc app) contract recipient)

unfoldable pub copymint_order : Outside → (nft_contract fee_recipient : String) → App → Outcome
copymint_order w nft fee app = order_for w app (w.net.parse_address nft) (w.net.parse_address fee)

unfoldable pub post_copymint_fire :
    Outside → Request → (nft_contract fee_recipient : String) → App → Outcome
post_copymint_fire w request nft fee app = with_step_up w request app (copymint_order w nft fee)

abbrev pub report_answer : App → Option (Result Failure CopymintEligibilityReport) → Outcome
report_answer app none = (app, [], panicked)
report_answer app (some (err e)) = (app, [], refused 502 (failure e))
report_answer app (some (ok report)) = (app, [], shown 200 (report_body report))

abbrev pub report_for : Outside → App → (nft_contract : Option ℕ) → Outcome
report_for w app none = (app, [], refused 400 bad_address)
report_for w app (some contract) =
    report_answer app
      (check_eligibility w.net app.config (best_rpc app) app.wallet_addresses contract)

unfoldable pub post_copymint_eligibility : Outside → (nft_contract : String) → App → Outcome
post_copymint_eligibility w nft app = report_for w app (w.net.parse_address nft)

-- `resolved_target_json`.
unfoldable pub resolved_target_json : ResolvedTarget → (now : ℕ) → Reply
resolved_target_json target now = shown 200 (
    target_body target (target_is_live target now)
      (target_is_live target now && target.fee_recipient_ok))

abbrev pub resolve_answer : App → (now : ℕ) → Option (Result Failure ResolvedTarget) → Outcome
resolve_answer app now none = (app, [], panicked)
resolve_answer app now (some (err e)) = (app, [], refused 400 (failure e))
resolve_answer app now (some (ok target)) = (app, [], resolved_target_json target now)

unfoldable pub post_target_resolve : Outside → (input : String) → App → Outcome
post_target_resolve w input app =
    resolve_answer app w.net.now (resolve w.net w.get_collection app.config (best_rpc app) input)

-- The last part of `set_target`: the memory, the file, whose failure is only logged, and the message.
unfoldable pub commit_target :
    Outside
    → (cfg : Config) → ResolvedTarget
    → (nft_contract : ℕ) (calldata : List ℕ) → App
    → Outcome
commit_target w cfg target nft calldata app = (
  record app {
    config = cfg;
    on_disk =
        if w.serializes cfg then left_on_disk (w.disk_write cfg) cfg app.on_disk else app.on_disk;
  },
  (if w.serializes cfg && is_whole (w.disk_write cfg)
        then []
        else log_now w.net error target_not_written ∷ [])
      ++ emit config_changed ∷ send (set_target nft calldata (total_value_wei target)) ∷ [],
  resolved_target_json target w.net.now,
)

abbrev pub aimed : Config → (nft_contract : String) → Config
aimed seen nft = record seen { nft_contract = nft }

-- With the calldata and the verdict on the new configuration, in the order of the checks.
abbrev pub approve_target :
    Outside
    → (seen : Config) → (nft_contract : ℕ) → ResolvedTarget
    → App
    → Result Failure (List ℕ)
    → Result ConfigError (Unit {0})
    → Outcome
approve_target w seen nft target app (err e) verdict = (app, [], refused 500 (failure e))
approve_target w seen nft target app (ok calldata) (err e) =
    (app, [], refused 500 (invalid_config e))
approve_target w seen nft target app (ok calldata) (ok x) =
    commit_target w (aimed seen (w.hex nft)) target nft calldata app

unfoldable pub check_target :
    Outside → (seen : Config) → (nft_contract : ℕ) → ResolvedTarget → App → Outcome
check_target w seen nft target app =
    if not (target_is_live target w.net.now)
    then (app, [], refused 400 drop_not_live)
    else (if not target.fee_recipient_ok
        then (app, [], refused 400 fee_recipient_not_accepted)
        else approve_target w seen nft target app (mint_calldata w.net target)
            (validate w.net (aimed seen (w.hex nft))))

abbrev pub checked :
    Outside
    → (seen : Config) → (nft_contract : ℕ) → App
    → Option (Result Failure ResolvedTarget)
    → Outcome
checked w seen nft app none = (app, [], panicked)
checked w seen nft app (some (err e)) = (app, [], refused 400 (failure e))
checked w seen nft app (some (ok target)) = check_target w seen nft target app

abbrev pub target_for : Outside → (seen : Config) → App → (nft_contract : Option ℕ) → Outcome
target_for w seen app none = (app, [], refused 400 bad_address)
target_for w seen app (some nft) =
    checked w seen nft app (resolve_address w.net seen nft (best_rpc app))

-- `seen` is the configuration that the request reads at its start; `app` is the state when it writes.
unfoldable pub choose_target : Outside → (seen : Config) → (nft_contract : String) → App → Outcome
choose_target w seen nft app =
    if not (str_eq seen.mint_mode "seadrop")
    then (app, [], refused 400 only_seadrop)
    else target_for w seen app (w.net.parse_address nft)

unfoldable pub post_target_set :
    Outside → Request → (seen : Config) → (nft_contract : String) → App → Outcome
post_target_set w request seen nft_text app =
    with_step_up w request app (choose_target w seen nft_text)

abbrev pub hits_answer : App → Result Failure (List SearchHit) → Outcome
hits_answer app (err e) = (app, [], refused 502 (failure e))
hits_answer app (ok hits) = (app, [], shown 200 (hits_body hits))

abbrev pub search_with : Outside → (query : String) → App → (api_key : Option String) → Outcome
search_with w query app none = (app, [], refused 400 needs_key)
search_with w query app (some key) = hits_answer app (search_collections (w.search key query 8))

unfoldable pub post_target_search : Outside → (query : String) → App → Outcome
post_target_search w query app =
    search_with w query app (resolve_opensea_api_key w.net.env_var app.config)

unfoldable pub delegated_order : App → Outcome
delegated_order app =
    if is_delegated app.config.mint_execution
    then (app, send fire_delegated ∷ [], done 202)
    else (app, [], refused 400 not_delegated)

unfoldable pub post_delegated_fire : Outside → Request → App → Outcome
post_delegated_fire w request app = with_step_up w request app delegated_order
