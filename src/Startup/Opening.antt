-- ===== src/Startup/Opening.antt =====
-- The mint that the process starts with (`main` of mint-sniper/src/main.rs).
use seasniper.Common.{
  ℕ, ◌*◌, String, Bool, Option, none, some, List, [], ◌∷◌, ◌++◌, ltb, str_eq, wrap_u256,
  if◌then◌else◌, ◌==◌,
}
use seasniper.Common.Results.{Result, ok, err, or_fail, ◌>>=◌, ◌>>◌}
use seasniper.Failure.{
  Failure, bad_nft_contract, bad_fee_recipient, bad_contract_address, bad_signature, bad_argument,
  encoding_failed, fee_recipient_not_allowed,
}
use seasniper.Bus.{info, warn, drop_found, quantity_too_high, trigger_set}
use seasniper.Config.{Config}
use seasniper.Config.Validate.{ConfigError, validate}
use seasniper.Net.{Net}
use seasniper.Effect.{Effect, log_now}
use seasniper.Seadrop.{
  PublicDropInfo, fetch_public_drop, is_fee_recipient_allowed, encode_mint_public,
  resolve_seadrop_address,
}
use seasniper.Identity.Oidc.{Provider}
use seasniper.Identity.Origin.{Site}

-- A function that a signature parses to. Its inputs are their types, as texts.
pub record AbiFunction : Type 0 where
  pub inputs : List String
  pub selector : List ℕ

-- What `main` calls of other crates, of the file system and of Google; an ABI value is an opaque number.
pub record Machine : Type 0 where
  pub net : Net
  pub read_config : Result Failure Config
  pub parse_function : String → Option AbiFunction
  pub coerce : (param_type arg : String) → Option ℕ
  pub abi_encode : AbiFunction → List ℕ → Option (List ℕ)
  pub signer_of : (private_key : String) → Option (ℕ × ℕ)
  pub api_token : Result Failure String
  pub open_db : Result Failure (Unit {0})
  pub session_key : Result Failure (Unit {0})
  pub discover : (client_id secret redirect_url : String) → Result Failure Provider
  pub site : Site
  pub bind : Result Failure (Unit {0})

-- `Config::load`.
pub data StartError : Type 0 where
  failure : Failure → StartError
  invalid : ConfigError → StartError

abbrev pub as_start {ℓ} : {A : Type ℓ} → Result Failure A → Result StartError A
as_start (ok a) = ok a
as_start (err e) = err (failure e)

abbrev pub as_valid : Config → Result ConfigError (Unit {0}) → Result StartError Config
as_valid cfg (ok x) = ok cfg
as_valid cfg (err e) = err (invalid e)

unfoldable pub load : Machine → Result StartError Config
load m = do cfg ← as_start m.read_config; as_valid cfg (validate m.net cfg)

abbrev pub coerce_args : Machine → (inputs args : List String) → Result Failure (List ℕ)
coerce_args m [] args = ok []
coerce_args m (input ∷ inputs) [] = ok []
coerce_args m (input ∷ inputs) (arg ∷ args) = do
  value ← or_fail (m.coerce input arg) bad_argument
  rest ← coerce_args m inputs args
  ok (value ∷ rest)

unfoldable pub encode_mint_calldata :
    Machine → (signature : String) (args : List String) → Result Failure (List ℕ)
encode_mint_calldata m signature args = do
  func ← or_fail (m.parse_function signature) bad_signature
  values ← coerce_args m func.inputs args
  or_fail (m.abi_encode func values) encoding_failed

abbrev selector_of : Option AbiFunction → List ℕ
selector_of none = []
selector_of (some f) = f.selector

-- `encode_selector_only(…).unwrap_or_default()`.
unfoldable pub encode_selector_only : Machine → (signature : String) → List ℕ
encode_selector_only m signature = selector_of (m.parse_function signature)

-- The mint that the loop starts with, the configuration after it, and what was logged.
pub record Mint : Type 0 where
  pub config : Config
  pub contract : ℕ
  pub calldata : List ℕ
  pub value : ℕ
  pub admin_watch_target : ℕ
  pub notes : List Effect

abbrev pub sets_trigger : Config → Bool
sets_trigger cfg = cfg.trigger_timestamp_unix == 0

-- The drop's own start, where the configuration has no timestamp.
unfoldable pub timed : Config → PublicDropInfo → Config
timed cfg drop =
    if sets_trigger cfg
    then record cfg { trigger_mode = "timestamp"; trigger_timestamp_unix = drop.start_time }
    else cfg

abbrev drop_notes : Net → Config → PublicDropInfo → List Effect
drop_notes net cfg drop =
    log_now net info (drop_found drop.mint_price_wei drop.start_time drop.max_per_wallet)
      ∷ (if ltb drop.max_per_wallet cfg.quantity_per_wallet
          then log_now net warn (quantity_too_high cfg.quantity_per_wallet drop.max_per_wallet) ∷ []
          else [])
    ++ (if sets_trigger cfg then log_now net info (trigger_set drop.start_time) ∷ [] else [])

-- The refusal of a fee recipient that the drop does not take.
unfoldable pub check_fee_recipient :
    Net
    → (url : String) (seadrop nft_contract fee_recipient : ℕ) → PublicDropInfo
    → Result Failure (Unit {0})
check_fee_recipient net url seadrop nft fee drop = elim drop.restrict_fee_recipients [
  | Bool.false ↦ ok tt
  | Bool.true ↦ (do
    allowed ← is_fee_recipient_allowed net url seadrop nft fee
    if allowed then ok tt else err (fee_recipient_not_allowed fee))
]

-- With the addresses, the drop is read at the first RPC.
unfoldable pub mint_of_drop :
    Net → Config → (url : String) (seadrop nft_contract fee_recipient : ℕ) → Result Failure Mint
mint_of_drop net cfg url seadrop nft fee = do
  drop ← fetch_public_drop net url seadrop nft
  check_fee_recipient net url seadrop nft fee drop
  calldata ← encode_mint_public net nft fee cfg.quantity_per_wallet
  ok (record {
    config = timed cfg drop;
    contract = seadrop;
    calldata = calldata;
    value = wrap_u256 (drop.mint_price_wei * cfg.quantity_per_wallet);
    admin_watch_target = nft;
    notes = drop_notes net cfg drop;
  })

-- The addresses of a `seadrop` configuration, in the order in which they are parsed.
unfoldable pub seadrop_addresses : Net → Config → Result Failure (ℕ × ℕ × ℕ)
seadrop_addresses net cfg = do
  seadrop ← resolve_seadrop_address net cfg.seadrop_address
  nft ← or_fail (net.parse_address cfg.nft_contract) bad_nft_contract
  fee ← or_fail (net.parse_address cfg.fee_recipient) bad_fee_recipient
  ok (seadrop, nft, fee)

-- `none` is a panic: `cfg.http_rpc_urls[0]` of an empty list.
abbrev pub at_first {ℓ} :
    {A : Type ℓ} → List String → (String → Result Failure A) → Option (Result Failure A)
at_first [] next = none
at_first (url ∷ urls) next = some (next url)

abbrev pub drop_mint : Net → Config → Result Failure (ℕ × ℕ × ℕ) → Option (Result Failure Mint)
drop_mint net cfg (err e) = some (err e)
drop_mint net cfg (ok (seadrop, nft, fee)) =
    at_first cfg.http_rpc_urls (λ url. mint_of_drop net cfg url seadrop nft fee)

unfoldable pub custom_mint : Machine → Config → Result Failure Mint
custom_mint m cfg = do
  contract ← or_fail (m.net.parse_address cfg.contract_address) bad_contract_address
  calldata ← encode_mint_calldata m cfg.mint_fn_signature cfg.mint_fn_args_template
  ok (record {
    config = cfg;
    contract = contract;
    calldata = calldata;
    value = 0;
    admin_watch_target = contract;
    notes = [];
  })

unfoldable pub choose_mint : Machine → Config → Option (Result Failure Mint)
choose_mint m cfg =
    if str_eq cfg.mint_mode "seadrop"
    then drop_mint m.net cfg (seadrop_addresses m.net cfg)
    else some (custom_mint m cfg)
