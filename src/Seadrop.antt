-- ===== src/Seadrop.antt =====
-- SeaDrop's public stage (mint-sniper/src/seadrop.rs): the read of `getPublicDrop` and the calldata of
-- `mintPublic`. ABI encoding
-- and the call itself are those of the crate `alloy`, parameters of `Net`.
pub mod Words
use seasniper.Common.{
  ℕ, ◌%◌, ltb, not, ◌&&◌, u64_mod, String, Bool, Option, none, some, List, [], ◌∷◌, ◌==◌, u16_mod,
  is_empty, if◌then◌else◌,
}
use seasniper.Common.Results.{Result, ok, err, bail_if, or_fail, ◌>>=◌, ◌>>◌}
use seasniper.Failure.{
  word_panic, Failure, ReadError, bad_rpc_url, get_public_drop_failed, bad_public_drop,
  no_public_stage, bad_seadrop_address, encoding_failed, fee_recipient_check_failed,
  mint_stats_failed,
}
use seasniper.Net.{Net, PublicDropWords, MintStatsWords, address, uint}

pub record PublicDropInfo : Type 0 where
  pub mint_price_wei : ℕ
  pub start_time : ℕ
  pub end_time : ℕ
  pub max_per_wallet : ℕ
  pub restrict_fee_recipients : Bool

-- 0x00005EA00Ac477B1030CE78506496e8C2dE24bf5.
abbrev pub seadrop_1_0_mainnet : ℕ
seadrop_1_0_mainnet = 0x00005EA00Ac477B1030CE78506496e8C2dE24bf5

-- `v.to::<u64>() as u16` for the last number.
abbrev drop_info : PublicDropWords → PublicDropInfo
drop_info w = record {
  mint_price_wei = w.mint_price;
  start_time = w.start_time;
  end_time = w.end_time;
  max_per_wallet = w.max_total_mintable_by_wallet % u16_mod;
  restrict_fee_recipients = w.restrict_fee_recipients;
}

abbrev read_call : Result ReadError (Option PublicDropWords) → Result Failure PublicDropWords
read_call (ok (some w)) = ok w
read_call (ok none) = err bad_public_drop
read_call (err e) = err (get_public_drop_failed e)

-- `v.to::<u64>()` of three of the words panics on one that does not fit.
abbrev pub drop_fits : PublicDropWords → Bool
drop_fits w =
    ltb w.start_time u64_mod
    && (ltb w.end_time u64_mod && ltb w.max_total_mintable_by_wallet u64_mod)

unfoldable pub fetch_public_drop : Net → String → ℕ → ℕ → Result Failure PublicDropInfo
fetch_public_drop net http_rpc seadrop nft_contract = do
  _ ← or_fail (net.parse_url http_rpc) (bad_rpc_url http_rpc)
  decoded ← read_call (net.get_public_drop http_rpc seadrop nft_contract)
  bail_if (not (drop_fits decoded)) word_panic
  bail_if (decoded.start_time == 0) no_public_stage
  ok (drop_info decoded)

-- `seadrop::is_fee_recipient_allowed`.
abbrev fee_recipient_answer : Result String Bool → Result Failure Bool
fee_recipient_answer (ok b) = ok b
fee_recipient_answer (err e) = err (fee_recipient_check_failed e)

unfoldable pub is_fee_recipient_allowed : Net → String → ℕ → ℕ → ℕ → Result Failure Bool
is_fee_recipient_allowed net http_rpc seadrop nft_contract fee_recipient = do
  _ ← or_fail (net.parse_url http_rpc) (bad_rpc_url http_rpc)
  fee_recipient_answer (net.fee_recipient_allowed http_rpc seadrop nft_contract fee_recipient)

-- The minter argument is the zero address: the mint goes to the payer.
unfoldable pub encode_mint_public : Net → ℕ → ℕ → ℕ → Result Failure (List ℕ)
encode_mint_public net nft_contract fee_recipient quantity =
    or_fail
      (net.abi_encode_input
        (address nft_contract ∷ address fee_recipient ∷ address 0 ∷ uint quantity 256 ∷ []))
      encoding_failed

-- The singleton that the configuration names, or the default one.
unfoldable pub resolve_seadrop_address : Net → String → Result Failure ℕ
resolve_seadrop_address net seadrop_address =
    if is_empty seadrop_address
    then ok seadrop_1_0_mainnet
    else or_fail (net.parse_address seadrop_address) bad_seadrop_address

pub record MintStats : Type 0 where
  pub minter_num_minted : ℕ
  pub current_total_supply : ℕ
  pub max_supply : ℕ

-- `v.to::<u64>()` of each word: it panics on a word that does not fit, which `none` stands for.
abbrev fits_u64 : MintStatsWords → Bool
fits_u64 w =
    ltb w.minter_num_minted u64_mod
    && (ltb w.current_total_supply u64_mod && ltb w.max_supply u64_mod)

abbrev mint_stats : MintStatsWords → MintStats
mint_stats w = record {
  minter_num_minted = w.minter_num_minted;
  current_total_supply = w.current_total_supply;
  max_supply = w.max_supply;
}

abbrev read_stats : Result String MintStatsWords → Option (Result Failure MintStats)
read_stats (ok w) = if fits_u64 w then some (ok (mint_stats w)) else none
read_stats (err e) = some (err (mint_stats_failed e))

unfoldable pub fetch_mint_stats : Net → String → ℕ → ℕ → Option (Result Failure MintStats)
fetch_mint_stats net http_rpc nft_contract minter = elim (net.parse_url http_rpc) [
  | none ↦ some (err (bad_rpc_url http_rpc))
  | some _ ↦ read_stats (net.get_mint_stats http_rpc nft_contract minter)
]
