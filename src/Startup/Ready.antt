-- ===== src/Startup/Ready.antt =====
-- What a start that succeeds has established (`main` of mint-sniper/src/main.rs).
use seasniper.Common.{
  String, Option, none, some, List, [], ◌∷◌, ◌≡◌, refl, sym, ap, ◌∙◌, arith, Pointwise,
  Option-cases, inl, inr,
}
use seasniper.Common.Results.{Result, ok, err, Result-cases}
use seasniper.Failure.{Failure}
use seasniper.Config.{Config, resolve_private_keys}
use seasniper.Config.Validate.{ConfigError, validate}
use seasniper.Wallet.{ManagedWallet}
use seasniper.Net.{Net}
use seasniper.Control.State.{Loop}
use seasniper.Control.Lifecycle.{Inv}
use seasniper.Effect.{Effect}
use seasniper.Startup.{
  Started, load_wallet, load_each, load_wallets, webauthn_of, first_loop, launch_at, with_keys,
  with_mint,
}
use seasniper.Startup.Opening.{Machine, Mint, as_valid, load, at_first, choose_mint}
use seasniper.Startup.Drop.{DropMint, choose_mint-DropMint}
use seasniper.Startup.Gate.{Gated, launch-Gated}

as_valid-valid :
    (net : Net) (cfg loaded : Config) (r : Result ConfigError (Unit {0}))
    → validate net cfg ≡ r
    → as_valid cfg r ≡ ok loaded
    → validate net loaded ≡ ok tt
as_valid-valid net cfg loaded (err e) came h = ground arith
as_valid-valid net cfg loaded (ok x) came h = ground (arith, came, h)

pub load-valid :
    (m : Machine) (loaded : Config) → load m ≡ ok loaded → validate m.net loaded ≡ ok tt
unfolding load
load-valid m loaded h = elim (Result-cases m.read_config) [
  | inr (e, unread) ↦ ground arith
  | inl (cfg, read) ↦
      as_valid-valid m.net cfg loaded (validate m.net cfg) refl (ground (arith, read, h))
]

-- A key's wallet: its signer, and the nonce that the node told for it.
pub record LoadedFrom (m : Machine) (url key : String) (w : ManagedWallet) : Type 0 where
  pub signer : m.signer_of key ≡ some (w.signer, w.address)
  pub nonce : m.net.get_transaction_count url w.address ≡ ok w.next_nonce

load_wallet-LoadedFrom :
    (m : Machine) (url key : String) (w : ManagedWallet)
    → load_wallet m url key ≡ ok w
    → LoadedFrom m url key w
unfolding load_wallet
load_wallet-LoadedFrom m url key w h = elim (Option-cases (m.signer_of key)) [
  | inl bad ↦ ground arith
  | inr ((signer, address), known) ↦ elim (Result-cases (m.net.get_transaction_count url address)) [
    | inr (e, failed) ↦ ground arith
    | inl (nonce, told) ↦
        let same : w ≡ record { signer = signer; address = address; next_nonce = nonce } =
          ground (arith, known, told, h) in
        rw same (record { signer = known; nonce = told })
  ]
]

-- The wallets stand for the keys, each with its signer and the nonce that the node told.
load_each-Pointwise :
    (m : Machine) (url : String) (keys : List String) (wallets : List ManagedWallet)
    → load_each m url keys ≡ ok wallets
    → Pointwise (LoadedFrom m url) keys wallets
unfolding load_each
load_each-Pointwise m url [] [] h = tt
load_each-Pointwise m url [] (w ∷ wallets) h = ground arith
load_each-Pointwise m url (key ∷ keys) wallets h = elim (Result-cases (load_wallet m url key)) [
  | inr (e, failed) ↦ ground arith
  | inl (wallet, loaded) ↦ elim (Result-cases (load_each m url keys)) [
    | inr (e, failed) ↦ ground arith
    | inl (others, rest) ↦
        let whole : wallets ≡ wallet ∷ others = ground arith in
        rw whole (
          load_wallet-LoadedFrom m url key wallet loaded,
          load_each-Pointwise m url keys others rest,
        )
  ]
]

load_wallets-Pointwise :
    (m : Machine) (url : String) (keys : List String) (wallets : List ManagedWallet)
    → load_wallets m keys url ≡ ok wallets
    → Pointwise (LoadedFrom m url) keys wallets
unfolding load_wallets
load_wallets-Pointwise m url keys wallets h =
    load_each-Pointwise m url keys wallets (elim (Option-cases (m.net.parse_url url)) [
      | inl bad ↦ ground arith
      | inr (u, parsed) ↦ ground (arith, parsed, h)
    ])

-- What a start has established, from the configuration that it loaded on.
pub record Ready (m : Machine) (s : Started) : Type 0 where
  pub loaded : Config
  pub mint : Mint
  pub url : String
  pub others : List String
  pub keys : List String
  pub valid : validate m.net loaded ≡ ok tt
  pub chosen : choose_mint m loaded ≡ some (ok mint)
  pub drop : loaded.mint_mode ≡ "seadrop" → DropMint m.net loaded mint
  pub config : s.config ≡ mint.config
  pub gated : Gated s.config s
  pub passkeys : webauthn_of m s.config ≡ ok s.webauthn
  pub listed : s.config.http_rpc_urls ≡ url ∷ others
  pub named : resolve_private_keys m.net.env_var s.config.wallets ≡ ok keys
  pub wallets : Pointwise (LoadedFrom m url) keys s.control.wallets
  pub control : s.control ≡ first_loop m mint s.control.wallets
  pub unarmed : Inv s.control

first_loop-Inv :
    (m : Machine) (mint : Mint) (wallets : List ManagedWallet) → Inv (first_loop m mint wallets)
first_loop-Inv m mint wallets = ground arith

launch_at-Ready :
    (m : Machine) (loaded : Config) (mint : Mint) (keys : List String) (url : String)
    (others : List String) (s : Started)
    → mint.config.http_rpc_urls ≡ url ∷ others
    → validate m.net loaded ≡ ok tt
    → choose_mint m loaded ≡ some (ok mint)
    → resolve_private_keys m.net.env_var mint.config.wallets ≡ ok keys
    → launch_at m mint keys url ≡ ok s
    → Ready m s
unfolding launch_at
launch_at-Ready m loaded mint keys url others s listed valid chosen named h =
    elim (Result-cases (load_wallets m keys url)) [
      | inr (e, failed) ↦ ground arith
      | inl (wallets, got) ↦
          let (gated, config, control, passkeys) =
            launch-Gated m mint wallets s (ground (arith, got, h)) in
          record {
            loaded = loaded;
            mint = mint;
            url = url;
            others = others;
            keys = keys;
            valid = valid;
            chosen = chosen;
            drop = λ mode. choose_mint-DropMint m loaded mint mode chosen;
            config = config;
            gated = rw config gated;
            passkeys = rw config passkeys;
            listed = rw config listed;
            named = rw config named;
            wallets = rw control (load_wallets-Pointwise m url keys wallets got);
            control = control ∙ ap (first_loop m mint) (sym (ap Loop.wallets control));
            unarmed = rw control (first_loop-Inv m mint wallets);
          }
    ]

module _ (m : Machine) (loaded : Config) (valid : validate m.net loaded ≡ ok tt) where
  with_keys-Ready :
      (mint : Mint) (s : Started) (r : Result Failure (List String))
      → choose_mint m loaded ≡ some (ok mint)
      → resolve_private_keys m.net.env_var mint.config.wallets ≡ r
      → with_keys m mint r ≡ some (ok s)
      → Ready m s
  with_keys-Ready mint s (err e) chosen named h = ground arith
  with_keys-Ready mint s (ok keys) chosen named h = go mint.config.http_rpc_urls refl h
    where
      go :
          (urls : List String)
          → mint.config.http_rpc_urls ≡ urls
          → at_first urls (launch_at m mint keys) ≡ some (ok s)
          → Ready m s
      go [] listed e = ground arith
      go (url ∷ urls) listed e =
          launch_at-Ready m loaded mint keys url urls s listed valid chosen named
            (ground (arith, e))

  pub with_mint-Ready :
      (s : Started) (r : Option (Result Failure Mint))
      → choose_mint m loaded ≡ r
      → with_mint m r ≡ some (ok s)
      → Ready m s
  with_mint-Ready s none chosen h = ground arith
  with_mint-Ready s (some (err e)) chosen h = ground arith
  with_mint-Ready s (some (ok mint)) chosen h =
      with_keys-Ready mint s (resolve_private_keys m.net.env_var mint.config.wallets) chosen refl h
