-- ===== src/Examples/Start.antt =====
-- The theorem on the start of the process, at a small machine.
use seasniper.Common.{Bool, none, some, [], ◌∷◌, ◌≡◌, ◌⊎◌, refl}
use seasniper.Common.Results.{ok}
use seasniper.Bus.{info, drop_found, trigger_set, listening}
use seasniper.Config.{Config}
use seasniper.Config.Validate.{
  validate, check_rpc_urls, rpc_urls_to_validate, check_rpc_url, check_sequencer,
  check_wallets_and_fees, check_times, check_race, chain_profile, check_chain, check_trigger,
  check_google, check_delegated, looks_like_robinhood_chain,
}
use seasniper.Effect.{log_now}
use seasniper.Startup.{Started, main}
use seasniper.Startup.Opening.{Machine, load, choose_mint, seadrop_addresses}
use seasniper.Startup.Wide.{WideDrop}
use seasniper.Startup.Panics.{main-none}
use seasniper.Startup.Ready.{Ready}
use seasniper.Seadrop.{resolve_seadrop_address}
use seasniper.Examples.World.{net, sound_cfg, node, idle}

abbrev machine : Machine
machine = record {
  net = net;
  read_config = ok sound_cfg;
  parse_function = λ signature. none;
  coerce = λ param_type arg. none;
  abi_encode = λ func values. none;
  signer_of = λ key. some (1, 11);
  api_token = ok "t";
  open_db = ok tt;
  session_key = ok tt;
  discover = λ id secret url. ok (record {
    authorize_url = λ csrf nonce verifier. "https://accounts.example";
    exchange_code = λ code verifier. ok none;
    claims = λ token nonce. ok (record { subject = "g"; email = none });
  });
  site = record {
    bare = λ url. url;
    as_str = λ url. "https://sniper.example/";
    build = λ rp_id origin. ok (record {
      parse_uuid = λ user. none;
      to_json = λ passkey. none;
      from_json = λ json. none;
      cred_id = λ passkey. [];
      start_registration = λ uuid email exclude. ok (0, 0);
      finish_registration = λ response ceremony. ok 0;
      start_authentication = λ keys. ok (0, 0);
      finish_authentication = λ response ceremony. ok 0;
      result_cred_id = λ result. [];
      update_credential = λ passkey result. (none, passkey);
    });
    is_header_value = λ text. Bool.true;
  };
  bind = ok tt;
}

abbrev started : Started
started = record {
  config = record sound_cfg { trigger_mode = "timestamp"; trigger_timestamp_unix = 900 };
  api_token = "t";
  google_oidc = none;
  webauthn = none;
  cors_origins = "http://localhost:5173" ∷ "http://127.0.0.1:4117" ∷ "http://localhost:4117" ∷ [];
  ranked_http_rpc_urls = node ∷ [];
  control = record idle {
    contract = 0x00005EA00Ac477B1030CE78506496e8C2dE24bf5;
    mint_state_selector = [];
    admin_watch_target = 7;
    mint_calldata = 22 ∷ 26 ∷ 180 ∷ 89 ∷ [];
  };
  notes =
      log_now net info (drop_found 50 900 2)
      ∷ log_now net info (trigger_set 900)
      ∷ log_now net info listening
      ∷ [];
}

abbrev no_rpc : Config
no_rpc = record sound_cfg { http_rpc_urls = [] }

abbrev no_rpc_machine : Machine
no_rpc_machine = record machine { read_config = ok no_rpc }

no_rpc_panics : main no_rpc_machine ≡ none
unfolding main load choose_mint seadrop_addresses resolve_seadrop_address validate check_rpc_urls
    rpc_urls_to_validate check_rpc_url check_sequencer check_wallets_and_fees check_times check_race
    chain_profile check_chain check_trigger check_google check_delegated looks_like_robinhood_chain
no_rpc_panics = refl

main-none_example :
    (cfg : Config) × ((load no_rpc_machine ≡ ok cfg)
      × ((cfg.http_rpc_urls ≡ []) ⊎ WideDrop no_rpc_machine.net cfg))
main-none_example = main-none no_rpc_machine (λ origin. refl) no_rpc_panics
