-- ===== src/Examples/Copies.antt =====
-- The theorems on copymint in the example world, with drops that are live and cost 50 or nothing.
use seasniper.Common.{
  unwrap_or, All, ℕ, ◌%◌, Bool, true, none, some, List, [], ◌∷◌, ◌≡◌, refl, length, count_if, arith,
  Pointwise,
}
use seasniper.Common.Results.{ok}
use seasniper.Net.{address, uint}
use seasniper.Seadrop.{
  PublicDropInfo, fetch_public_drop, encode_mint_public, resolve_seadrop_address, fetch_mint_stats,
  seadrop_1_0_mainnet,
}
use seasniper.Bus.{warn, manual_copymint}
use seasniper.Effect.{Effect, send, fire_copymint, log_now}
use seasniper.Copymint.{
  handle_candidate, handle_drop, handle_live, rpc_for_reads, fire_verified, is_live, is_fireable,
  total_value,
}
use seasniper.Copymint.Decisions.{Verified, messages, fire_verified-Verified}
use seasniper.Copymint.{auto_fire, should_auto_fire}
use seasniper.Copymint.Loop.{Turn, watch_turn, watch_with, tracked_of}
use seasniper.Copymint.Traced.{Traced, watch_turn-Traced}
use seasniper.Copymint.Watch.{
  Pending, watch_once, watch_tx, matches, on_decoded, decode_mint_public_call,
}
use seasniper.Copymint.Decoding.{decode_mint_public_call-encode}
use seasniper.Copymint.Eligibility.{
  compute_wallet_eligibility, CopymintEligibilityReport, WalletEligibility, check_drop,
  check_wallets,
}
use seasniper.Copymint.Verdicts.{JudgedBy, check_drop-JudgedBy}
use seasniper.Examples.World.{net, cfg, node}
use seasniper.Examples.Codec.{free_net, free_net-AbiRoundTrips, encode_all}

abbrev drop_at : ℕ → PublicDropInfo
drop_at price = record {
  mint_price_wei = price;
  start_time = 900;
  end_time = 2000;
  max_per_wallet = 2;
  restrict_fee_recipients = Bool.false;
}

abbrev candidate : List Effect
candidate = handle_live free_net cfg seadrop_1_0_mainnet 8 40 41 (drop_at 0)

candidate-handled : handle_candidate free_net cfg none 8 40 41 ≡ some candidate
unfolding handle_candidate handle_drop resolve_seadrop_address rpc_for_reads fetch_public_drop
    is_live
candidate-handled = refl

abbrev our_calldata : List ℕ
our_calldata =
    22 ∷ 26 ∷ 180 ∷ 89 ∷ encode_all (address 40 ∷ address 41 ∷ address 0 ∷ uint 1 256 ∷ [])

abbrev fired : List Effect
fired = log_now free_net warn (manual_copymint 40 50) ∷ send (fire_copymint 7 our_calldata 50) ∷ []

drop-fires : fire_verified free_net cfg 7 40 41 (drop_at 50) ≡ ok (fired, 50)
unfolding fire_verified is_live is_fireable total_value encode_mint_public
drop-fires = refl

fire_verified-Verified_example : Verified free_net cfg 7 40 41 (drop_at 50) fired 50
fire_verified-Verified_example =
    fire_verified-Verified free_net cfg 7 40 41 (drop_at 50) fired 50 drop-fires

decode_mint_public_call-encode_example : decode_mint_public_call free_net our_calldata ≡ ok (40, 41)
decode_mint_public_call-encode_example =
    decode_mint_public_call-encode free_net 40 41 0 1 our_calldata free_net-AbiRoundTrips refl

abbrev small_report : CopymintEligibilityReport
small_report = record {
  nft_contract = 40;
  max_per_wallet = 2;
  current_total_supply = 90;
  max_supply = 100;
  remaining_supply = 10;
  eligible_count = 1;
  total_count = 1;
  wallets = (record { address = "0x0b"; already_minted = 1; eligible = true }) ∷ [];
}

wallets-checked :
    check_drop net cfg node 40 ("0x0b" ∷ []) (ok (drop_at 50)) ≡ some (ok small_report)
unfolding check_drop check_wallets fetch_mint_stats compute_wallet_eligibility
wallets-checked = refl

check_drop-JudgedBy_example :
    Pointwise (JudgedBy net cfg node 40 (drop_at 50)) ("0x0b" ∷ []) small_report.wallets
    × (1 ≡ count_if (λ (w : WalletEligibility). w.eligible) small_report.wallets % 4294967296)
    × (1 ≡ length small_report.wallets % 4294967296)
check_drop-JudgedBy_example =
    check_drop-JudgedBy net cfg node 40 (drop_at 50) ("0x0b" ∷ []) small_report (ground arith)
      wallets-checked

-- A tracked wallet's mint of the free drop, seen pending.
abbrev seen : Pending
seen = record {
  net = free_net;
  cfg = cfg;
  best = none;
  tx = record { signer = 7; to = some seadrop_1_0_mainnet; input = our_calldata };
}

abbrev turn : Turn
turn = record {
  net = free_net;
  cfg = record cfg { tracked_wallets = "0x07" ∷ [] };
  subscription = ok (seen ∷ []);
}

abbrev copied : List Effect
copied = unwrap_or (watch_turn turn) []

turn-watched : watch_turn turn ≡ some copied
unfolding watch_turn watch_with watch_once watch_tx matches on_decoded decode_mint_public_call
    handle_candidate handle_drop resolve_seadrop_address rpc_for_reads fetch_public_drop is_live
    tracked_of
turn-watched = refl

one-sent : length (messages copied) ≡ 1
unfolding watch_turn watch_with watch_once watch_tx matches on_decoded decode_mint_public_call
    handle_candidate handle_drop resolve_seadrop_address rpc_for_reads fetch_public_drop is_live
    tracked_of handle_live auto_fire should_auto_fire encode_mint_public total_value is_fireable
one-sent = refl

watch_turn-Traced_example : All (Traced turn) (messages copied)
watch_turn-Traced_example = watch_turn-Traced turn copied turn-watched
