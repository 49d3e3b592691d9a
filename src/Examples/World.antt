-- ===== src/Examples/World.antt =====
-- The world, the configuration and the loop states that the examples use.
use seasniper.Common.{◌+◌, leb, ◌*◌, String, true, false, none, some, [], ◌∷◌, ◌*◌}
use seasniper.Common.Int.{pos}
use seasniper.Common.Results.{ok}
use seasniper.Config.{Config, parallel}
use seasniper.Wallet.{ManagedWallet, Envelope}
use seasniper.Inclusion.{Wake, subscribed}
use seasniper.Net.{Net, SendAttempt, SequencerAnswer, address, uint}
use seasniper.Effect.{timestamp, plain_watcher}
use seasniper.Executor.Prepare.{PreparedWallet, PreparedFire, MintCall}
use seasniper.Executor.Fire.{FireContext}
use seasniper.Control.State.{Loop}

abbrev pub node : String
node = "https://node.example"

-- A node that answers every read, takes every transaction and shows its success at the second look.
abbrev pub net : Net
net = record {
  now = 1000;
  parse_url = λ s. some (record {
    scheme = "https";
    username = "";
    password = none;
    host_str = some "node.example";
    port = none;
  });
  parse_address = λ s. some 7;
  get_block_number = λ url. ok 5;
  sequencer_chain_id = λ url. SequencerAnswer.answered;
  get_chain_id = λ url. ok 1;
  get_gas_price = λ url. ok 100;
  estimate_gas = λ url tx. ok 21000;
  fee_times = λ fee bits. fee * 2;
  gwei_to_wei = λ bits. 1000000000;
  sample_gas_jitter = λ pct address. pos 3;
  sign = λ w tx. ok 99;
  hash = λ envelope. 1234;
  send_raw_transaction = λ url tx. SendAttempt.acked;
  looks = λ ticker url hash.
      (record { answer = ok none; wake = Wake.changed })
      ∷ (record {
        answer = ok (
            some (record {
              transaction_hash = 1234;
              status = true;
              block_number = some 6;
              gas_used = 21000;
            }));
        wake = Wake.changed;
      })
      ∷ [];
  trigger_to_dispatch_ms = λ tx. 3;
  prepare_age_ms = λ tx. 4;
  ack_ms = λ url tx. 10;
  inclusion_ms = λ url tx. 250;
  rpc_label = λ i. "rpc";
  subscribe_blocks = λ url. subscribed;
  head = λ url. some (record {
    rtt = some 40;
    date = some "Sun, 06 Nov 1994 08:49:37 GMT";
    sent_at = some 784111777;
  });
  drift_ms = λ sent_at rtt server_unix. pos 12;
  get_public_drop = λ url seadrop nft. ok (
      some (record {
        mint_price = 50;
        start_time = 900;
        end_time = 2000;
        max_total_mintable_by_wallet = 2;
        fee_bps = 500;
        restrict_fee_recipients = false;
      }));
  fee_recipient_allowed = λ url seadrop nft recipient. ok true;
  mint_public_selector = 22 ∷ 26 ∷ 180 ∷ 89 ∷ [];
  abi_encode_input = λ values. some (22 ∷ 26 ∷ 180 ∷ 89 ∷ []);
  abi_decode_input = λ bytes. some (address 40 ∷ address 41 ∷ address 0 ∷ uint 1 256 ∷ []);
  get_mint_stats = λ url nft minter.
      ok (record { minter_num_minted = 1; current_total_supply = 90; max_supply = 100 });
  has_code_at = λ url address block. some (leb 3 block);
  block_timestamp = λ url block. some (block * 100);
  goplus_answer = λ chain address. none;
  call = λ url tx. ok tt;
  get_transaction_count = λ url address. ok 5;
  env_var = λ name. some "mnemonic";
  parent_key = λ phrase. some 77;
  child_key =
      λ parent index. some (record { signer = index; address = 20 + index; next_nonce = 0 });
}

abbrev pub cfg : Config
cfg = record {
  ws_rpc_url = "wss://node.example";
  http_rpc_urls = node ∷ [];
  sequencer_http_url = "";
  inclusion_ws_url = "";
  block_time_ms = 250;
  inclusion_timeout_ms = 4000;
  mint_mode = "seadrop";
  mint_execution = parallel;
  delegate_mnemonic_env = "";
  delegate_count = 0;
  contract_address = "";
  mint_fn_signature = "";
  mint_fn_args_template = [];
  mint_state_fn_signature = "";
  trigger_mode = "poll_state";
  trigger_timestamp_unix = 0;
  mint_enable_admin = "";
  seadrop_address = "";
  nft_contract = "0x28";
  fee_recipient = "0x29";
  quantity_per_wallet = 1;
  priority_fee_multiplier = 0;
  max_priority_fee_gwei_cap = 0;
  gas_limit_headroom_pct = 20;
  jitter_ms_min = 0;
  jitter_ms_max = 0;
  gas_jitter_pct = 5;
  race_mode = true;
  wallets = "KEY" ∷ [];
  tracked_wallets = [];
  copymint_auto_fire_free = true;
  copymint_auto_fire_paid = false;
  max_copymint_price_wei = 100;
  opensea_api_key_env = "";
  google_oauth_client_id = "";
  google_oauth_client_secret_env = "";
  google_oauth_redirect_url = "";
  clock_check_url = "";
  clock_drift_warn_ms = 250;
  clock_drift_refuse_arm_ms = 0;
}

-- The same, as `validate` wants it.
abbrev pub sound_cfg : Config
sound_cfg = record cfg { race_mode = false }

abbrev pub wallet : ManagedWallet
wallet = record { signer = 1; address = 11; next_nonce = 5 }

-- The transaction that the wallet signed for the loop's mint.
abbrev pub signed_tx : Envelope
signed_tx = record {
  key = 1;
  request = record {
    to = 30;
    input = 22 ∷ [];
    nonce = 5;
    gas_limit = 25200;
    max_fee_per_gas = 406;
    max_priority_fee_per_gas = 206;
    value = 50;
    chain_id = 1;
  };
  signature = 99;
}

abbrev pub prepared_wallet : PreparedWallet
prepared_wallet = record { address = 11; raw_tx = signed_tx; tx_hash = 1234 }

abbrev pub batch : PreparedFire
batch = record { wallets = prepared_wallet ∷ []; providers = node ∷ []; sequencer = none }

abbrev pub call : MintCall
call = record { contract = 30; calldata = 22 ∷ []; value = 50 }

abbrev pub context : FireContext
context = record {
  cfg = cfg;
  providers = node ∷ [];
  sequencer = none;
  block_ticker = some (record { ws_url = "wss://node.example" });
}

-- The loop as it starts, and the loop armed with a signed batch.
abbrev pub idle : Loop
idle = record {
  armed = false;
  contract = 30;
  mint_state_selector = 1 ∷ [];
  admin_watch_target = 40;
  mint_calldata = 22 ∷ [];
  mint_value = 50;
  watcher_handle = none;
  prepare_timer_handle = none;
  reprepare_handle = none;
  warmed_providers = [];
  warmed_sequencer = none;
  prepared_fire = none;
  block_ticker = none;
  wallets = wallet ∷ [];
}

abbrev pub armed_loop : Loop
armed_loop = record idle {
  armed = true;
  watcher_handle = some (plain_watcher (timestamp 1200));
  warmed_providers = node ∷ [];
  prepared_fire = some batch;
  block_ticker = some (record { ws_url = "wss://node.example" });
}
