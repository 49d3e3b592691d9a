-- ===== src/Startup/Wide.antt =====
-- A start on a drop with a word beyond 64 bits (`main` of mint-sniper/src/main.rs).
use seasniper.Common.{
  ℕ, true, String, false, some, List, [], ◌∷◌, ◌≡◌, refl, arith, str_eq, Bool-cases, Option-cases,
  inl, inr,
}
use seasniper.Common.Results.{ok, err, Result-cases}
use seasniper.Failure.{Failure, is_panic}
use seasniper.Net.{Net}
use seasniper.Seadrop.{
  PublicDropInfo, fetch_public_drop, is_fee_recipient_allowed, encode_mint_public,
  resolve_seadrop_address,
}
use seasniper.Config.{Config}
use seasniper.Startup.Opening.{
  Machine, at_first, seadrop_addresses, custom_mint, choose_mint, mint_of_drop,
  encode_mint_calldata, check_fee_recipient, coerce_args,
}
use seasniper.Startup.Drop.{seadrop_addresses-parsed}
use seasniper.Seadrop.Words.{Wide, fetch_public_drop-Wide}

-- The drop that the first RPC reports has a word beyond 64 bits.
pub record WideDrop (net : Net) (cfg : Config) : Type 0 where
  pub url : String
  pub others : List String
  pub seadrop : ℕ
  pub nft : ℕ
  pub listed : cfg.http_rpc_urls ≡ url ∷ others
  pub singleton : resolve_seadrop_address net cfg.seadrop_address ≡ ok seadrop
  pub parsed : net.parse_address cfg.nft_contract ≡ some nft
  pub answer : Wide net url seadrop nft

check_fee_recipient-fails :
    (net : Net) (url : String) (seadrop nft fee : ℕ) (drop : PublicDropInfo) (e : Failure)
    → check_fee_recipient net url seadrop nft fee drop ≡ err e
    → is_panic e ≡ false
unfolding check_fee_recipient is_fee_recipient_allowed
check_fee_recipient-fails net url seadrop nft fee drop e h =
    elim (Bool-cases drop.restrict_fee_recipients) [
      | inr unrestricted ↦ ground arith
      | inl restricted ↦ elim (Option-cases (net.parse_url url)) [
        | inl bad ↦ ground arith
        | inr (u, parsed) ↦ elim (Result-cases (net.fee_recipient_allowed url seadrop nft fee)) [
          | inr (f, failed) ↦ ground arith
          | inl (allowed, answered) ↦ elim (Bool-cases allowed) [
            | inl given ↦ ground arith
            | inr withheld ↦ ground arith
          ]
        ]
      ]
    ]

mint_of_drop-panic :
    (net : Net) (cfg : Config) (url : String) (seadrop nft fee : ℕ) (e : Failure)
    → mint_of_drop net cfg url seadrop nft fee ≡ err e
    → is_panic e ≡ true
    → fetch_public_drop net url seadrop nft ≡ err e
unfolding mint_of_drop encode_mint_public
mint_of_drop-panic net cfg url seadrop nft fee e h panic =
    elim (Result-cases (fetch_public_drop net url seadrop nft)) [
      | inr (f, failed) ↦ ground arith
      | inl (drop, fetched) ↦
          elim (Result-cases (check_fee_recipient net url seadrop nft fee drop)) [
            | inr (f, refused) ↦
                ground (arith, check_fee_recipient-fails net url seadrop nft fee drop f refused)
            | inl (x, taken) ↦ ground arith
          ]
    ]

seadrop_addresses-fails :
    (net : Net) (cfg : Config) (e : Failure)
    → seadrop_addresses net cfg ≡ err e
    → is_panic e ≡ false
unfolding seadrop_addresses resolve_seadrop_address
seadrop_addresses-fails net cfg e h = ground arith

coerce_args-fails :
    (m : Machine) (inputs args : List String) (e : Failure)
    → coerce_args m inputs args ≡ err e
    → is_panic e ≡ false
coerce_args-fails m [] args e h = ground arith
coerce_args-fails m (input ∷ inputs) [] e h = ground arith
coerce_args-fails m (input ∷ inputs) (arg ∷ args) e h = elim (Option-cases (m.coerce input arg)) [
  | inl bad ↦ ground arith
  | inr (value, coerced) ↦ elim (Result-cases (coerce_args m inputs args)) [
    | inr (f, failed) ↦ ground (arith, coerce_args-fails m inputs args f failed)
    | inl (rest, done) ↦ ground arith
  ]
]

custom_mint-fails :
    (m : Machine) (cfg : Config) (e : Failure) → custom_mint m cfg ≡ err e → is_panic e ≡ false
unfolding custom_mint encode_mint_calldata
custom_mint-fails m cfg e h = elim (Option-cases (m.net.parse_address cfg.contract_address)) [
  | inl bad ↦ ground arith
  | inr (contract, parsed) ↦ elim (Option-cases (m.parse_function cfg.mint_fn_signature)) [
    | inl unparsed ↦ ground arith
    | inr (func, found) ↦
        elim (Result-cases (coerce_args m func.inputs cfg.mint_fn_args_template)) [
          | inr (f, bad) ↦
              ground (arith, coerce_args-fails m func.inputs cfg.mint_fn_args_template f bad)
          | inl (values, coerced) ↦ ground arith
        ]
  ]
]

drop_mint-WideDrop :
    (net : Net) (cfg : Config) (urls : List String) (seadrop nft fee : ℕ) (e : Failure)
    → cfg.http_rpc_urls ≡ urls
    → seadrop_addresses net cfg ≡ ok (seadrop, nft, fee)
    → at_first urls (λ url. mint_of_drop net cfg url seadrop nft fee) ≡ some (err e)
    → is_panic e ≡ true
    → WideDrop net cfg
drop_mint-WideDrop net cfg [] seadrop nft fee e listed parsed h panic = ground arith
drop_mint-WideDrop net cfg (url ∷ urls) seadrop nft fee e listed parsed h panic =
    let fetched = mint_of_drop-panic net cfg url seadrop nft fee e (ground (arith, h)) panic in
    let answer = fetch_public_drop-Wide net url seadrop nft e fetched panic in
    let (singleton, contract, recipient) =
      seadrop_addresses-parsed net cfg seadrop nft fee parsed in
    record {
      url = url;
      others = urls;
      seadrop = seadrop;
      nft = nft;
      listed = listed;
      singleton = singleton;
      parsed = contract;
      answer = answer;
    }

pub choose_mint-WideDrop :
    (m : Machine) (cfg : Config) (e : Failure)
    → choose_mint m cfg ≡ some (err e)
    → is_panic e ≡ true
    → WideDrop m.net cfg
unfolding choose_mint
choose_mint-WideDrop m cfg e h panic = elim (Bool-cases (str_eq cfg.mint_mode "seadrop")) [
  | inr custom ↦ ground (arith, custom, h, panic, custom_mint-fails m cfg e)
  | inl mode ↦ elim (Result-cases (seadrop_addresses m.net cfg)) [
    | inr (f, bad) ↦ ground (arith, mode, h, panic, seadrop_addresses-fails m.net cfg f bad)
    | inl ((seadrop, nft, fee), parsed) ↦
        drop_mint-WideDrop m.net cfg cfg.http_rpc_urls seadrop nft fee e refl parsed
          (ground (arith, mode, parsed, h)) panic
  ]
]
