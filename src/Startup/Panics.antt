-- ===== src/Startup/Panics.antt =====
-- When the start panics (`main` of mint-sniper/src/main.rs): `cfg.http_rpc_urls[0]`, and the `expect` on the
-- origin in `router` of mint-sniper/src/api.rs.
use seasniper.Common.{
  ◌⊎◌, true, String, false, Option, none, some, List, [], ◌∷◌, ◌≡◌, refl, arith, is_empty, str_eq,
  eq_iff, Bool-cases, Option-cases, inl, inr,
}
use seasniper.Common.Results.{Result, ok, err, Result-cases}
use seasniper.Failure.{Failure}
use seasniper.Config.{Config, resolve_private_keys}
use seasniper.Config.Validate.{validate}
use seasniper.Config.Validity.{Valid, validate_iff}
use seasniper.Url.{Url}
use seasniper.Identity.Origin.{Site, derive_origin, new_webauthn, allowed_origins, trim_slashes}
use seasniper.Startup.{
  Started, webauthn_of, launch_at, with_keys, with_mint, reported, routed, main,
}
use seasniper.Startup.Opening.{
  Machine, Mint, load, timed, at_first, seadrop_addresses, custom_mint, choose_mint, mint_of_drop,
  encode_mint_calldata,
}
use seasniper.Startup.Drop.{choose_mint-DropMint}
use seasniper.Startup.Ready.{Ready, load-valid, with_mint-Ready}
use seasniper.Startup.Wide.{WideDrop, choose_mint-WideDrop}

-- What choosing a mint leaves of a configuration.
record Kept (cfg : Config) (kept : Config) : Type 0 where
  urls : kept.http_rpc_urls ≡ cfg.http_rpc_urls
  client : kept.google_oauth_client_id ≡ cfg.google_oauth_client_id
  secret : kept.google_oauth_client_secret_env ≡ cfg.google_oauth_client_secret_env
  redirect : kept.google_oauth_redirect_url ≡ cfg.google_oauth_redirect_url

custom_mint-Kept :
    (m : Machine) (cfg : Config) (mint : Mint) → custom_mint m cfg ≡ ok mint → Kept cfg mint.config
unfolding custom_mint
custom_mint-Kept m cfg mint h = elim (Option-cases (m.net.parse_address cfg.contract_address)) [
  | inl bad ↦ ground arith
  | inr (contract, parsed) ↦
      elim (Result-cases (encode_mint_calldata m cfg.mint_fn_signature cfg.mint_fn_args_template)) [
        | inr (e, failed) ↦ ground arith
        | inl (calldata, encoded) ↦ ground arith
      ]
]

choose_mint-Kept :
    (m : Machine) (cfg : Config) (mint : Mint)
    → choose_mint m cfg ≡ some (ok mint)
    → Kept cfg mint.config
choose_mint-Kept m cfg mint h = elim (Bool-cases (str_eq cfg.mint_mode "seadrop")) [
  | inl mode ↦
      let d = choose_mint-DropMint m cfg mint ((eq_iff cfg.mint_mode "seadrop").0 mode) h in
      rw d.trigger (unfold timed in ground arith)
  | inr custom ↦ custom_mint-Kept m cfg mint (unfold choose_mint in ground (arith, custom, h))
]

-- The URLs of a site print as header values.
abbrev pub Printable : Site → Type 0
Printable site = (origin : Url) → site.is_header_value (trim_slashes (site.as_str origin)) ≡ true

new_webauthn-origin :
    (parse_url : String → Option Url) (site : Site) (redirect : String)
    → Printable site
    → allowed_origins parse_url site redirect ≡ none
    → (is_empty redirect ≡ false) × ((e : Failure) × (new_webauthn parse_url site redirect ≡ err e))
unfolding allowed_origins new_webauthn
new_webauthn-origin parse_url site redirect printable h =
    elim (Result-cases (derive_origin parse_url site redirect)) [
      | inl (origin, derived) ↦ ground (arith, derived, h, printable origin)
      | inr (e, failed) ↦ (ground arith, (e, ground arith))
    ]

webauthn_of-new :
    (m : Machine) (cfg : Config) (s : Started) (e : Failure)
    → is_empty cfg.google_oauth_client_id ≡ false
    → new_webauthn m.net.parse_url m.site cfg.google_oauth_redirect_url ≡ err e
    → ¬ (webauthn_of m cfg ≡ ok s.webauthn)
unfolding webauthn_of
webauthn_of-new m cfg s e configured failed h = ground arith

-- A start that came as far as the router has an origin for it.
routed-some :
    (m : Machine) (s : Started) → Printable m.site → Ready m s → ¬ (routed m (ok s) ≡ none)
routed-some m s printable r panic =
    elim (Option-cases
      (allowed_origins m.net.parse_url m.site s.config.google_oauth_redirect_url)) [
        | inr (origins, made) ↦ ground (arith, made, panic)
        | inl missing ↦
            let (set, (e, failed)) =
              new_webauthn-origin m.net.parse_url m.site s.config.google_oauth_redirect_url
                printable missing in
            let valid : Valid m.net r.loaded = (validate_iff m.net r.loaded).0 r.valid in
            let kept = choose_mint-Kept m r.loaded r.mint r.chosen in
            webauthn_of-new m s.config s e (ground (arith, valid.google, r.config, kept)) failed
              r.passkeys
      ]

module _ {ℓ} {A : Type ℓ} where
  at_first-none :
      (urls : List String) (next : String → Result Failure A)
      → at_first urls next ≡ none
      → urls ≡ []
  at_first-none [] next h = refl
  at_first-none (url ∷ urls) next h = ground arith

choose_mint-none : (m : Machine) (cfg : Config) → choose_mint m cfg ≡ none → cfg.http_rpc_urls ≡ []
unfolding choose_mint
choose_mint-none m cfg h = elim (Bool-cases (str_eq cfg.mint_mode "seadrop")) [
  | inr custom ↦ ground arith
  | inl mode ↦ elim (Result-cases (seadrop_addresses m.net cfg)) [
    | inr (e, bad) ↦ ground arith
    | inl ((seadrop, nft, fee), parsed) ↦
        at_first-none cfg.http_rpc_urls (λ url. mint_of_drop m.net cfg url seadrop nft fee)
          (ground (arith, mode, parsed, h))
  ]
]

with_keys-none :
    (m : Machine) (mint : Mint) (r : Result Failure (List String))
    → with_keys m mint r ≡ none
    → mint.config.http_rpc_urls ≡ []
with_keys-none m mint (err e) h = ground arith
with_keys-none m mint (ok keys) h =
    at_first-none mint.config.http_rpc_urls (launch_at m mint keys) h

with_mint-none :
    (m : Machine) (cfg : Config) (r : Option (Result Failure Mint))
    → choose_mint m cfg ≡ r
    → with_mint m r ≡ none
    → (cfg.http_rpc_urls ≡ []) ⊎ WideDrop m.net cfg
with_mint-none m cfg none chosen h = inl (choose_mint-none m cfg chosen)
with_mint-none m cfg (some (err e)) chosen h =
    inr (choose_mint-WideDrop m cfg e chosen (ground (arith, h)))
with_mint-none m cfg (some (ok mint)) chosen h =
    let kept = choose_mint-Kept m cfg mint chosen in
    inl (
      ground (
        arith,
        kept,
        with_keys-none m mint (resolve_private_keys m.net.env_var mint.config.wallets) h,
      ))

-- The clock check's events change nothing that the router reads.
routed-reported :
    (m : Machine) (cfg : Config) (r : Result Failure Started)
    → Printable m.site
    → validate m.net cfg ≡ ok tt
    → with_mint m (choose_mint m cfg) ≡ some r
    → ¬ (routed m (reported cfg m r) ≡ none)
routed-reported m cfg (err e) printable valid came panic = ground arith
routed-reported m cfg (ok s) printable valid came panic =
    routed-some m s printable (with_mint-Ready m cfg valid s (choose_mint m cfg) refl came)
      (ground arith)

-- Where the URLs of the site print as header values, the start panics only when it has loaded a configuration that
-- names no HTTP RPC, or whose drop, as the first RPC reports it, has a word beyond 64 bits; so the origin that the router
-- expects is always there.
pub main-none :
    (m : Machine)
    → Printable m.site
    → main m ≡ none
    → (cfg : Config) × ((load m ≡ ok cfg) × ((cfg.http_rpc_urls ≡ []) ⊎ WideDrop m.net cfg))
unfolding main
main-none m printable h = elim (Result-cases (load m)) [
  | inr (e, failed) ↦ ground arith
  | inl (cfg, loaded) ↦ elim (Option-cases (with_mint m (choose_mint m cfg))) [
    | inl panic ↦ (cfg, (loaded, with_mint-none m cfg (choose_mint m cfg) refl panic))
    | inr (r, came) ↦ absurd (
        routed-reported m cfg r printable (load-valid m cfg loaded) came
          (ground (arith, loaded, came, h)))
  ]
]
