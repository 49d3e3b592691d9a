-- ===== src/Copymint/Eligibility.antt =====
-- The eligibility report (`compute_wallet_eligibility` and `check_eligibility` of
-- mint-sniper/src/copymint.rs).
use seasniper.Common.{
  ℕ, ◌+◌, ◌-◌, ◌%◌, String, Bool, Option, none, some, List, [], ◌∷◌, ◌&&◌, leb, length, count_if,
  is_nil, saturate_u64, if◌then◌else◌,
}
use seasniper.Common.Results.{Result, ok, err}
use seasniper.Failure.{word_panic}
use seasniper.Failure.{Failure, bad_wallet_address, no_wallets_configured}
use seasniper.Config.{Config}
use seasniper.Net.{Net}
use seasniper.Seadrop.{
  PublicDropInfo, MintStats, fetch_public_drop, fetch_mint_stats, resolve_seadrop_address,
}
use seasniper.Copymint.{rpc_for_reads}

-- `saturating_add`; the cap is a `u16`.
unfoldable pub compute_wallet_eligibility :
    (already_minted quantity_per_wallet max_per_wallet remaining_supply : ℕ) → Bool
compute_wallet_eligibility already_minted quantity max_per_wallet remaining =
    leb (saturate_u64 (already_minted + quantity)) max_per_wallet && leb quantity remaining

pub record WalletEligibility : Type 0 where
  pub address : String
  pub already_minted : ℕ
  pub eligible : Bool

pub record CopymintEligibilityReport : Type 0 where
  pub nft_contract : ℕ
  pub max_per_wallet : ℕ
  pub current_total_supply : ℕ
  pub max_supply : ℕ
  pub remaining_supply : ℕ
  pub eligible_count : ℕ
  pub total_count : ℕ
  pub wallets : List WalletEligibility

-- The loop's variables: the supply as it was last read, and the wallets so far.
pub record Checked : Type 0 where
  pub current_total_supply : ℕ
  pub max_supply : ℕ
  pub wallets : List WalletEligibility

abbrev pub judge : Config → PublicDropInfo → String → MintStats → WalletEligibility
judge cfg drop address stats = record {
  address = address;
  already_minted = stats.minter_num_minted;
  eligible =
      compute_wallet_eligibility stats.minter_num_minted cfg.quantity_per_wallet drop.max_per_wallet
        (stats.max_supply - stats.current_total_supply);
}

abbrev pub then_check :
    WalletEligibility → Option (Result Failure Checked) → Option (Result Failure Checked)
then_check w none = none
then_check w (some (err e)) = some (err e)
then_check w (some (ok rest)) = some (ok (record rest { wallets = w ∷ rest.wallets }))

-- One wallet after the other; the first failure ends the loop, and a panic of the read is `none`.
unfoldable pub check_wallets :
    Net
    → Config
    → (url : String) (nft_contract : ℕ) → PublicDropInfo
    → (supply max_supply : ℕ) → List String
    → Option (Result Failure Checked)
check_wallets net cfg url nft drop supply max_supply [] =
    some (ok (record { current_total_supply = supply; max_supply = max_supply; wallets = [] }))
check_wallets net cfg url nft drop supply max_supply (a ∷ rest) = elim (net.parse_address a) [
  | none ↦ some (err bad_wallet_address)
  | some minter ↦ elim (fetch_mint_stats net url nft minter) [
    | none ↦ none
    | some (err e) ↦ some (err e)
    | some (ok stats) ↦
        then_check (judge cfg drop a stats)
          (check_wallets net cfg url nft drop stats.current_total_supply stats.max_supply rest)
  ]
]

-- The counts are `u32`.
abbrev pub report_of : ℕ → PublicDropInfo → Checked → CopymintEligibilityReport
report_of nft_contract drop c = record {
  nft_contract = nft_contract;
  max_per_wallet = drop.max_per_wallet;
  current_total_supply = c.current_total_supply;
  max_supply = c.max_supply;
  remaining_supply = c.max_supply - c.current_total_supply;
  eligible_count = count_if (λ (w : WalletEligibility). w.eligible) c.wallets % 4294967296;
  total_count = length c.wallets % 4294967296;
  wallets = c.wallets;
}

abbrev pub reported :
    ℕ
    → PublicDropInfo
    → Option (Result Failure Checked)
    → Option (Result Failure CopymintEligibilityReport)
reported nft drop none = none
reported nft drop (some (err e)) = some (err e)
reported nft drop (some (ok c)) = some (ok (report_of nft drop c))

unfoldable pub check_drop :
    Net
    → Config
    → (url : String) (nft_contract : ℕ) (wallet_addresses : List String)
    → Result Failure PublicDropInfo
    → Option (Result Failure CopymintEligibilityReport)
check_drop net cfg url nft addresses (err e) = some (err e)
check_drop net cfg url nft addresses (ok drop) =
    if is_nil addresses
    then some (err no_wallets_configured)
    else reported nft drop (check_wallets net cfg url nft drop 0 0 addresses)

abbrev after_panic :
    Result Failure PublicDropInfo
    → Option (Result Failure CopymintEligibilityReport)
    → Option (Result Failure CopymintEligibilityReport)
after_panic (err word_panic) r = none
after_panic _ r = r

unfoldable pub check_eligibility :
    Net
    → Config
    → Option String
    → (wallet_addresses : List String) (nft_contract : ℕ)
    → Option (Result Failure CopymintEligibilityReport)
check_eligibility net cfg best addresses nft =
    elim (resolve_seadrop_address net cfg.seadrop_address) [
      | err e ↦ some (err e)
      | ok seadrop ↦ elim (rpc_for_reads best cfg) [
        | none ↦ none
        | some url ↦
            let r = fetch_public_drop net url seadrop nft in
            after_panic r (check_drop net cfg url nft addresses r)
      ]
    ]
