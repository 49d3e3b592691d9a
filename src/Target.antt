-- ===== src/Target.antt =====
-- Resolving a target (mint-sniper/src/target.rs, with the GoPlus check of mint-sniper/src/goplus.rs).
-- `none` as an answer of `resolve_address` is a panic: without a preferred RPC it reads
-- `cfg.http_rpc_urls[0]`.
pub mod Age
use seasniper.Common.{
  first, unwrap_or, ℕ, zero, suc, ◌+◌, ◌-◌, ◌*◌, ◌/◌, String, Bool, true, false, Option, none, some,
  List, ◌&&◌, not, ltb, leb, ◌==◌, wrap_u256, if◌then◌else◌,
}
use seasniper.Common.Int.{ℤ, pos, negsuc}
use seasniper.Common.Results.{Result, ok, err, or_fail, to_option, ◌>>=◌}
use seasniper.Failure.{unless_panic}
use seasniper.Failure.{Failure, bad_fee_recipient, unrecognised_input}
use seasniper.Config.{Config, resolve_opensea_api_key}
use seasniper.Net.{Net, ApiResult, ApiResponse}
use seasniper.Seadrop.{
  PublicDropInfo, fetch_public_drop, is_fee_recipient_allowed, resolve_seadrop_address,
  encode_mint_public,
}
use seasniper.Opensea.{
  OfficialLinks, no_links, ResolvedCollection, GetCollectionResponse, given_address, open_sea_slug,
  parse_input, resolve_slug,
}

pub record NftSecurityCheck : Type 0 where
  pub malicious_nft_contract : Option Bool
  pub create_block_number : Option ℕ

abbrev pub unchecked : NftSecurityCheck
unchecked = record { malicious_nft_contract = none; create_block_number = none }

abbrev is_set : Option ℤ → Option Bool
is_set none = none
is_set (some (pos n)) = some (not (n == 0))
is_set (some (negsuc n)) = some true

abbrev check_of : Option ApiResult → NftSecurityCheck
check_of none = unchecked
check_of (some r) = record {
  malicious_nft_contract = is_set r.malicious_nft_contract;
  create_block_number = r.create_block_number;
}

abbrev is_one : ℤ → Bool
is_one (pos n) = n == 1
is_one (negsuc n) = false

-- Fails open.
unfoldable pub goplus_check : Net → (chain_id address : ℕ) → NftSecurityCheck
goplus_check net chain_id address = elim (net.goplus_answer chain_id address) [
  | none ↦ unchecked
  | some response ↦ if is_one response.code then check_of response.result else unchecked
]

-- `malicious_nft_contract == Some(true)`.
abbrev says_true : Option Bool → Bool
says_true none = false
says_true (some b) = b

unfoldable pub is_concerning : NftSecurityCheck → Bool
is_concerning check = says_true check.malicious_nft_contract

-- The loop `while lo < hi`, over the answers of `get_code_at`. Its range shrinks at every turn, so
-- `hi - lo` turns are enough (`Age`); none are left only where the range is empty.
unfoldable pub search : (code : ℕ → Option Bool) (fuel lo hi : ℕ) → Option ℕ
search code zero lo hi = some lo
search code (suc fuel) lo hi =
    let mid = lo + (hi - lo) / 2 in
    if ltb lo hi
    then (elim (code mid) [
      | none ↦ none
      | some true ↦ search code fuel lo mid
      | some false ↦ search code fuel (mid + 1) hi
    ])
    else some lo

abbrev pub age_of : ℕ → Option ℕ → Option ℕ
age_of now none = none
age_of now (some deployed_at) = some (now - deployed_at)

abbrev deployed : Net → String → Option ℕ → Option ℕ
deployed net url none = none
deployed net url (some block) = age_of net.now (net.block_timestamp url block)

-- With the latest block known: no code there is no age.
unfoldable pub age_at : Net → String → ℕ → ℕ → Option Bool → Option ℕ
age_at net url address latest (some true) =
    deployed net url (search (net.has_code_at url address) latest 0 latest)
age_at net url address latest (some false) = none
age_at net url address latest none = none

unfoldable pub estimate_contract_age_secs : Net → String → ℕ → Option ℕ
estimate_contract_age_secs net url address = elim (net.parse_url url) [
  | none ↦ none
  | some _ ↦ elim (to_option (net.get_block_number url)) [
    | none ↦ none
    | some latest ↦ age_at net url address latest (net.has_code_at url address latest)
  ]
]

pub record ResolvedTarget : Type 0 where
  pub nft_contract : ℕ
  pub name : Option String
  pub links : OfficialLinks
  pub mint_price_wei : ℕ
  pub start_time : ℕ
  pub end_time : ℕ
  pub max_per_wallet : ℕ
  pub restrict_fee_recipients : Bool
  pub fee_recipient : ℕ
  pub fee_recipient_ok : Bool
  pub quantity_per_wallet : ℕ
  pub contract_age_secs : Option ℕ
  pub goplus : NftSecurityCheck

abbrev ok_or_false : Result Failure Bool → Bool
ok_or_false (ok b) = b
ok_or_false (err e) = false

abbrev goplus_of : Net → String → ℕ → NftSecurityCheck
goplus_of net url nft = elim (to_option (net.get_chain_id url)) [
  | none ↦ unchecked
  | some chain_id ↦ goplus_check net chain_id nft
]

unfoldable pub target_of :
    Net
    → Config
    → (url : String) (seadrop nft_contract fee_recipient : ℕ) → PublicDropInfo
    → ResolvedTarget
target_of net cfg url seadrop nft fee_recipient drop = record {
  nft_contract = nft;
  name = none;
  links = no_links;
  mint_price_wei = drop.mint_price_wei;
  start_time = drop.start_time;
  end_time = drop.end_time;
  max_per_wallet = drop.max_per_wallet;
  restrict_fee_recipients = drop.restrict_fee_recipients;
  fee_recipient = fee_recipient;
  fee_recipient_ok =
      if drop.restrict_fee_recipients
      then ok_or_false (is_fee_recipient_allowed net url seadrop nft fee_recipient)
      else true;
  quantity_per_wallet = cfg.quantity_per_wallet;
  contract_age_secs = estimate_contract_age_secs net url nft;
  goplus = goplus_of net url nft;
}

unfoldable pub resolve_with :
    Net → Config → (url : String) (nft_contract : ℕ) → Result Failure ResolvedTarget
resolve_with net cfg url nft = do
  seadrop ← resolve_seadrop_address net cfg.seadrop_address
  drop ← fetch_public_drop net url seadrop nft
  fee_recipient ← or_fail (net.parse_address cfg.fee_recipient) bad_fee_recipient
  ok (target_of net cfg url seadrop nft fee_recipient drop)

unfoldable pub resolve_address :
    Net
    → Config
    → (nft_contract : ℕ) → (preferred : Option String) → Option (Result Failure ResolvedTarget)
resolve_address net cfg nft preferred = elim (first cfg.http_rpc_urls) [
  | none ↦ none
  | some url ↦ let r = resolve_with net cfg (unwrap_or preferred url) nft in unless_panic r r
]

unfoldable pub target_is_live : ResolvedTarget → ℕ → Bool
target_is_live target now = leb target.start_time now && leb now target.end_time

unfoldable pub total_value_wei : ResolvedTarget → ℕ
total_value_wei target = wrap_u256 (target.mint_price_wei * target.quantity_per_wallet)

unfoldable pub mint_calldata : Net → ResolvedTarget → Result Failure (List ℕ)
mint_calldata net target =
    encode_mint_public net target.nft_contract target.fee_recipient target.quantity_per_wallet

abbrev named :
    Option (Result Failure ResolvedTarget)
    → ResolvedCollection
    → Option (Result Failure ResolvedTarget)
named none collection = none
named (some (err e)) collection = some (err e)
named (some (ok target)) collection =
    some (ok (record target { name = some collection.name; links = collection.links }))

-- A slug's collection gives the address, the name and the links; everything else is read from the chain.
unfoldable pub resolve_collection :
    Net
    → Config
    → (preferred : Option String) → Result Failure ResolvedCollection
    → Option (Result Failure ResolvedTarget)
resolve_collection net cfg preferred (err e) = some (err e)
resolve_collection net cfg preferred (ok collection) =
    named (resolve_address net cfg collection.nft_contract preferred) collection

unfoldable pub resolve :
    Net
    → (get_collection : (api_key slug : String) → Result String GetCollectionResponse) → Config
    → (preferred : Option String) (input : String) → Option (Result Failure ResolvedTarget)
resolve net get_collection cfg preferred input = elim (parse_input net.parse_address input) [
  | none ↦ some (err unrecognised_input)
  | some (given_address nft) ↦ resolve_address net cfg nft preferred
  | some (open_sea_slug slug) ↦
      resolve_collection net cfg preferred (
        resolve_slug net.parse_address get_collection (resolve_opensea_api_key net.env_var cfg)
          slug)
]
