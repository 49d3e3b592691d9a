-- ===== src/Startup/Drop.antt =====
-- What the mint of a start in `seadrop` mode rests on (`main` of mint-sniper/src/main.rs).
use seasniper.Common.{
  ℕ, ◌*◌, refl, String, true, false, some, List, [], ◌∷◌, ◌≡◌, ◌⊎◌, arith, str_eq, Bool-cases,
  eq_iff, inl, inr, wrap_u256,
}
use seasniper.Common.Results.{Result, ok, err, Result-cases}
use seasniper.Failure.{Failure}
use seasniper.Config.{Config}
use seasniper.Net.{Net}
use seasniper.Seadrop.{
  PublicDropInfo, fetch_public_drop, is_fee_recipient_allowed, encode_mint_public,
  resolve_seadrop_address,
}
use seasniper.Startup.Opening.{
  Machine, Mint, timed, check_fee_recipient, mint_of_drop, at_first, drop_mint, seadrop_addresses,
  choose_mint,
}

-- The mint of a drop that the first RPC showed: of the configured contract, at the configured SeaDrop, and taking the
-- configured fee recipient.
pub record DropMint (net : Net) (cfg : Config) (mint : Mint) : Type 0 where
  pub url : String
  pub nft : ℕ
  pub fee : ℕ
  pub drop : PublicDropInfo
  pub others : List String
  pub listed : cfg.http_rpc_urls ≡ url ∷ others
  pub singleton : resolve_seadrop_address net cfg.seadrop_address ≡ ok mint.contract
  pub nft_named : net.parse_address cfg.nft_contract ≡ some nft
  pub fee_named : net.parse_address cfg.fee_recipient ≡ some fee
  pub fetched : fetch_public_drop net url mint.contract nft ≡ ok drop
  pub fee_taken :
      (drop.restrict_fee_recipients ≡ false)
      ⊎ (is_fee_recipient_allowed net url mint.contract nft fee ≡ ok true)
  pub encoded : encode_mint_public net nft fee cfg.quantity_per_wallet ≡ ok mint.calldata
  pub priced : mint.value ≡ wrap_u256 (drop.mint_price_wei * cfg.quantity_per_wallet)
  pub trigger : mint.config ≡ timed cfg drop
  pub watched : mint.admin_watch_target ≡ nft

check_fee_recipient-taken :
    (net : Net) (url : String) (seadrop nft fee : ℕ) (drop : PublicDropInfo)
    → check_fee_recipient net url seadrop nft fee drop ≡ ok tt
    → (drop.restrict_fee_recipients ≡ false)
      ⊎ (is_fee_recipient_allowed net url seadrop nft fee ≡ ok true)
unfolding check_fee_recipient
check_fee_recipient-taken net url seadrop nft fee drop h =
    elim (Bool-cases drop.restrict_fee_recipients) [
      | inr unrestricted ↦ inl unrestricted
      | inl restricted ↦ elim (Result-cases (is_fee_recipient_allowed net url seadrop nft fee)) [
        | inr (e, failed) ↦ ground arith
        | inl (allowed, answered) ↦ elim (Bool-cases allowed) [
          | inl given ↦ inr (rw (← given) answered)
          | inr withheld ↦ ground arith
        ]
      ]
    ]

pub seadrop_addresses-parsed :
    (net : Net) (cfg : Config) (seadrop nft fee : ℕ)
    → seadrop_addresses net cfg ≡ ok (seadrop, nft, fee)
    → (resolve_seadrop_address net cfg.seadrop_address ≡ ok seadrop)
      × (net.parse_address cfg.nft_contract ≡ some nft)
      × (net.parse_address cfg.fee_recipient ≡ some fee)
unfolding seadrop_addresses
seadrop_addresses-parsed net cfg seadrop nft fee h = ground arith

mint_of_drop-DropMint :
    (net : Net) (cfg : Config) (url : String) (others : List String) (seadrop nft fee : ℕ)
    (mint : Mint)
    → cfg.http_rpc_urls ≡ url ∷ others
    → seadrop_addresses net cfg ≡ ok (seadrop, nft, fee)
    → mint_of_drop net cfg url seadrop nft fee ≡ ok mint
    → DropMint net cfg mint
unfolding mint_of_drop
mint_of_drop-DropMint net cfg url others seadrop nft fee mint listed named h =
    elim (Result-cases (fetch_public_drop net url seadrop nft)) [
      | inr (e, failed) ↦ ground arith
      | inl (drop, fetched) ↦
          elim (Result-cases (check_fee_recipient net url seadrop nft fee drop)) [
            | inr (e, refused) ↦ ground arith
            | inl (x, taken) ↦
                elim (Result-cases (encode_mint_public net nft fee cfg.quantity_per_wallet)) [
                  | inr (e, bad) ↦ ground arith
                  | inl (calldata, encoded) ↦
                      let contract : mint.contract ≡ seadrop = ground arith in
                      let (singleton, nft_named, fee_named) =
                        seadrop_addresses-parsed net cfg seadrop nft fee named in
                      record {
                        url = url;
                        nft = nft;
                        fee = fee;
                        drop = drop;
                        others = others;
                        listed = listed;
                        singleton = rw contract singleton;
                        nft_named = nft_named;
                        fee_named = fee_named;
                        fetched = rw contract fetched;
                        fee_taken =
                            rw contract
                              (check_fee_recipient-taken net url seadrop nft fee drop taken);
                        encoded = ground arith;
                        priced = ground arith;
                        trigger = ground arith;
                        watched = ground arith;
                      }
                ]
          ]
    ]

module _ (m : Machine) (cfg : Config) (mint : Mint) where
  at_first-DropMint :
      (urls : List String) (seadrop nft fee : ℕ)
      → cfg.http_rpc_urls ≡ urls
      → seadrop_addresses m.net cfg ≡ ok (seadrop, nft, fee)
      → at_first urls (λ url. mint_of_drop m.net cfg url seadrop nft fee) ≡ some (ok mint)
      → DropMint m.net cfg mint
  at_first-DropMint [] seadrop nft fee listed named h = ground arith
  at_first-DropMint (url ∷ urls) seadrop nft fee listed named h =
      mint_of_drop-DropMint m.net cfg url urls seadrop nft fee mint listed named (ground (arith, h))

  drop_mint-DropMint :
      (r : Result Failure (ℕ × ℕ × ℕ))
      → seadrop_addresses m.net cfg ≡ r
      → drop_mint m.net cfg r ≡ some (ok mint)
      → DropMint m.net cfg mint
  drop_mint-DropMint (err e) named h = ground arith
  drop_mint-DropMint (ok (seadrop, nft, fee)) named h =
      at_first-DropMint cfg.http_rpc_urls seadrop nft fee refl named h

  pub choose_mint-DropMint :
      cfg.mint_mode ≡ "seadrop" → choose_mint m cfg ≡ some (ok mint) → DropMint m.net cfg mint
  unfolding choose_mint
  choose_mint-DropMint mode h =
      let same : str_eq cfg.mint_mode "seadrop" ≡ true = (eq_iff cfg.mint_mode "seadrop").1 mode in
      drop_mint-DropMint (seadrop_addresses m.net cfg) refl (ground (arith, same, h))
