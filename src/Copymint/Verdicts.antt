-- ===== src/Copymint/Verdicts.antt =====
-- What the eligibility report says (mint-sniper/src/copymint.rs).
use seasniper.Common.{
  ℕ, ◌+◌, ◌-◌, ◌%◌, ◌≤◌, ◌<◌, String, true, Option, none, some, List, [], ◌∷◌, ◌≡◌, ◌↔◌, refl,
  arith, length, count_if, Pointwise, Option-cases, inl, inr,
}
use seasniper.Common.Results.{Result, ok, err, Result-cases}
use seasniper.Failure.{Failure}
use seasniper.Config.{Config}
use seasniper.Net.{Net}
use seasniper.Seadrop.{PublicDropInfo, MintStats, fetch_mint_stats}
use seasniper.Copymint.Eligibility.{
  compute_wallet_eligibility, check_wallets, Checked, WalletEligibility, check_drop, judge,
  then_check, report_of, CopymintEligibilityReport,
}

-- A wallet is eligible exactly when the mint keeps it within the per-wallet cap and the supply that is
-- left covers it; the saturating sum changes no answer, as the cap is a `u16`.
pub compute_wallet_eligibility_iff :
    (already quantity cap remaining : ℕ)
    → cap < 65536
    → (compute_wallet_eligibility already quantity cap remaining ≡ true)
      ↔ ((already + quantity ≤ cap) × (quantity ≤ remaining))
unfolding compute_wallet_eligibility
compute_wallet_eligibility_iff already quantity cap remaining small = ground arith

-- A report's wallet is the configured address, with the verdict for what the chain says it has minted.
pub record JudgedBy (net : Net) (cfg : Config) (url : String) (nft : ℕ) (drop : PublicDropInfo)
    (a : String) (w : WalletEligibility) : Type 0 where
  pub minter : ℕ
  pub stats : MintStats
  pub parsed : net.parse_address a ≡ some minter
  pub read : fetch_mint_stats net url nft minter ≡ some (ok stats)
  pub address_of : w.address ≡ a
  pub minted : w.already_minted ≡ stats.minter_num_minted
  pub eligible_iff : (w.eligible ≡ true) ↔ (
      (stats.minter_num_minted + cfg.quantity_per_wallet ≤ drop.max_per_wallet)
      × (cfg.quantity_per_wallet ≤ stats.max_supply - stats.current_total_supply))

abbrev Extends : WalletEligibility → Checked → Option (Result Failure Checked) → Type 0
Extends w c rest = (c' : Checked) × (rest ≡ some (ok c')) × (c.wallets ≡ w ∷ c'.wallets)

then_check-Extends :
    (w : WalletEligibility) (rest : Option (Result Failure Checked)) (c : Checked)
    → then_check w rest ≡ some (ok c)
    → Extends w c rest
then_check-Extends w none c e = ground arith
then_check-Extends w (some (err failure)) c e = ground arith
then_check-Extends w (some (ok c')) c e = (c', refl, ground arith)

abbrev StatsRead : Option (Result Failure MintStats) → Type 0
StatsRead answer = (stats : MintStats) × (answer ≡ some (ok stats))

module _ (net : Net) (cfg : Config) (url : String) (nft : ℕ) (drop : PublicDropInfo) where
  check_wallets-minter :
      (supply max_supply : ℕ) (a : String) (rest : List String) (c : Checked)
      → check_wallets net cfg url nft drop supply max_supply (a ∷ rest) ≡ some (ok c)
      → (minter : ℕ) × (net.parse_address a ≡ some minter)
  unfolding check_wallets
  check_wallets-minter supply max_supply a rest c e = elim (Option-cases (net.parse_address a)) [
    | inl bad ↦ ground arith
    | inr found ↦ found
  ]

  check_wallets-stats :
      (supply max_supply minter : ℕ) (a : String) (rest : List String) (c : Checked)
      → net.parse_address a ≡ some minter
      → check_wallets net cfg url nft drop supply max_supply (a ∷ rest) ≡ some (ok c)
      → StatsRead (fetch_mint_stats net url nft minter)
  unfolding check_wallets
  check_wallets-stats supply max_supply minter a rest c parsed e =
      elim (Option-cases (fetch_mint_stats net url nft minter)) [
        | inl gone ↦ ground arith
        | inr (answer, asked) ↦ elim (Result-cases answer) [
          | inr (failure, failed) ↦ ground arith
          | inl (stats, read) ↦ (stats, ground arith)
        ]
      ]

  judge-JudgedBy :
      (a : String) (minter : ℕ) (stats : MintStats)
      → drop.max_per_wallet < 65536
      → net.parse_address a ≡ some minter
      → fetch_mint_stats net url nft minter ≡ some (ok stats)
      → JudgedBy net cfg url nft drop a (judge cfg drop a stats)
  judge-JudgedBy a minter stats small parsed read = record {
    minter = minter;
    stats = stats;
    parsed = parsed;
    read = read;
    address_of = refl;
    minted = refl;
    eligible_iff =
        compute_wallet_eligibility_iff stats.minter_num_minted cfg.quantity_per_wallet
          drop.max_per_wallet (stats.max_supply - stats.current_total_supply) small;
  }

  check_wallets-JudgedBy :
      (supply max_supply : ℕ) (addresses : List String) (c : Checked)
      → drop.max_per_wallet < 65536
      → check_wallets net cfg url nft drop supply max_supply addresses ≡ some (ok c)
      → Pointwise (JudgedBy net cfg url nft drop) addresses c.wallets
  unfolding check_wallets
  check_wallets-JudgedBy supply max_supply [] c small e =
      let h : c.wallets ≡ [] = ground arith in rw h tt
  check_wallets-JudgedBy supply max_supply (a ∷ rest) c small e =
      let (minter, parsed) = check_wallets-minter supply max_supply a rest c e in
      let (stats, read) = check_wallets-stats supply max_supply minter a rest c parsed e in
      let (c', done, same) =
        then_check-Extends (judge cfg drop a stats)
          (check_wallets net cfg url nft drop stats.current_total_supply stats.max_supply rest) c
          (ground arith) in
      rw same (
        judge-JudgedBy a minter stats small parsed read,
        check_wallets-JudgedBy stats.current_total_supply stats.max_supply rest c' small done,
      )

  -- A report that is given lists every configured wallet, in order and by a read of its own; a wallet is eligible exactly
  -- when the mint keeps it within the drop's cap, a `u16`, and the supply that is left covers it; and the counts are
  -- those of the wallets listed, as `u32`.
  pub check_drop-JudgedBy :
      (addresses : List String) (report : CopymintEligibilityReport)
      → drop.max_per_wallet < 65536
      → check_drop net cfg url nft addresses (ok drop) ≡ some (ok report)
      → Pointwise (JudgedBy net cfg url nft drop) addresses report.wallets
        × (report.eligible_count
            ≡ count_if (λ (w : WalletEligibility). w.eligible) report.wallets % 4294967296)
        × (report.total_count ≡ length report.wallets % 4294967296)
  unfolding check_drop
  check_drop-JudgedBy addresses report small e =
      elim (Option-cases (check_wallets net cfg url nft drop 0 0 addresses)) [
        | inl gone ↦ ground arith
        | inr (answer, asked) ↦ elim (Result-cases answer) [
          | inr (failure, failed) ↦ ground arith
          | inl (c, done) ↦
              let same : report ≡ report_of nft drop c = ground arith in
              rw same (check_wallets-JudgedBy 0 0 addresses c small (ground arith), refl, refl)
        ]
      ]
