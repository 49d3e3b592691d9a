-- ===== src/Config/Accepted.antt =====
-- The configurations that `validate` accepts (mint-sniper/src/config.rs).
use text.Mathlib.Text.{find?}
use seasniper.Common.{
  ℕ, String, Bool, true, false, Option, none, some, List, [], ◌∷◌, ◌++◌, ◌≡◌, ◌↔◌, ◌⊎◌, inl, inr,
  refl, arith, All, all, any, is_empty, str_eq, Bool-cases, Option-cases, ◌&&◌, ◌==◌,
}
use seasniper.Common.Results.{ok}
use seasniper.Url.{Url}
use seasniper.Config.{Config, MintExecution, is_delegated, parallel, delegated}
use seasniper.Net.{Net}
use seasniper.Config.Validate.{
  validate, rpc_urls_to_validate, is_feed_host, host_is_rh, looks_like_robinhood_chain,
  host_matches, host_of, optional_url,
}
use seasniper.Config.Validity.{
  Valid, RaceAllowed, InstantAllowed, DelegationAllowed, waits_for_instant, plain, submits_to,
  sequencer_allowed, unset_or_parsed, all_or_none, validate_iff,
}
use seasniper.Config.Conditions.{
  Plain, NoFeed, Submits, Race, named_by, Elsewhere, OtherChain, Awaited, no_google, Google,
  Delegating, Parses, Accepted,
}

plain_iff : (net : Net) (text : String) → (plain (net.parse_url text) ≡ true) ↔ Plain net text
plain_iff net text = elim (Option-cases (net.parse_url text)) [
  | inl bad ↦ (λ h. ground arith, λ p. ground (arith, p.parsed))
  | inr (url, parsed) ↦ (
    λ h. record { url = url; parsed = parsed; no_user = ground arith; no_password = ground arith },
    λ p. ground (arith, p.parsed, p.no_user, p.no_password),
  )
]

all-plain_iff :
    (net : Net) (urls : List String)
    → (all (λ url. plain (net.parse_url url)) urls ≡ true) ↔ All (Plain net) urls
all-plain_iff net [] = (λ h. tt, λ h. refl)
all-plain_iff net (url ∷ urls) = ground (arith, plain_iff net url, all-plain_iff net urls)

NoFeed-iff : (host : Option String) → (is_feed_host host ≡ false) ↔ NoFeed host
NoFeed-iff none = (λ h. tt, λ h. refl)
NoFeed-iff (some host) = (λ h. h, λ h. h)

Submits-iff :
    (net : Net) (text : String) → (submits_to (net.parse_url text) ≡ true) ↔ Submits net text
Submits-iff net text = elim (Option-cases (net.parse_url text)) [
  | inl bad ↦ (λ h. ground arith, λ p. ground (arith, p.parsed))
  | inr (url, parsed) ↦ (
    λ h. record {
      url = url;
      parsed = parsed;
      http = ground arith;
      no_feed = (NoFeed-iff url.host_str).0 (ground arith);
    },
    λ p. ground (arith, p.parsed, p.http, (NoFeed-iff p.url.host_str).1 p.no_feed),
  )
]

Elsewhere-iff : (net : Net) (text : String) → (host_is_rh net text ≡ false) ↔ Elsewhere net text
Elsewhere-iff net text = by_url (net.parse_url text)
  where
    by_url :
        (parsed : Option Url)
        → (host_matches text (host_of parsed) ≡ false)
          ↔ (find? (named_by text parsed) "chain.robinhood.com" ≡ none)
    by_url none = ground arith
    by_url (some url) = by_host url.host_str
      where
        by_host :
            (host : Option String)
            → (host_matches text host ≡ false)
              ↔ (find? (elim host [ none ↦ text | some h ↦ h ]) "chain.robinhood.com" ≡ none)
        by_host none = ground arith
        by_host (some h) = ground arith

any-Elsewhere_iff :
    (net : Net) (urls : List String)
    → (any (host_is_rh net) urls ≡ false) ↔ All (Elsewhere net) urls
any-Elsewhere_iff net [] = (λ h. tt, λ h. refl)
any-Elsewhere_iff net (url ∷ urls) =
    ground (arith, Elsewhere-iff net url, any-Elsewhere_iff net urls)

other_chain_iff :
    (net : Net) (cfg : Config) → (looks_like_robinhood_chain net cfg ≡ false) ↔ OtherChain net cfg
unfolding looks_like_robinhood_chain
other_chain_iff net cfg = (
  λ h. record {
    no_sequencer = ground arith;
    at_sequencer = (Elsewhere-iff net cfg.sequencer_http_url).0 (ground arith);
    at_websocket = (Elsewhere-iff net cfg.ws_rpc_url).0 (ground arith);
    at_inclusion = (Elsewhere-iff net cfg.inclusion_ws_url).0 (ground arith);
    at_http = (any-Elsewhere_iff net cfg.http_rpc_urls).0 (ground arith);
  },
  λ o. ground (
    arith,
    o.no_sequencer,
    (Elsewhere-iff net cfg.sequencer_http_url).1 o.at_sequencer,
    (Elsewhere-iff net cfg.ws_rpc_url).1 o.at_websocket,
    (Elsewhere-iff net cfg.inclusion_ws_url).1 o.at_inclusion,
    (any-Elsewhere_iff net cfg.http_rpc_urls).1 o.at_http,
  ),
)

all_append_iff :
    (net : Net) (xs ys : List String)
    → All (Plain net) (xs ++ ys) ↔ (All (Plain net) xs × All (Plain net) ys)
all_append_iff net [] ys = ground arith
all_append_iff net (x ∷ xs) ys = ground (arith, all_append_iff net xs ys)

Race-iff : (race : Bool) (cfg : Config) → RaceAllowed race cfg ↔ Race race cfg
Race-iff false cfg = (λ h. tt, λ h. tt)
Race-iff true cfg = ground arith

instant_iff :
    (now : ℕ) (cfg : Config)
    → InstantAllowed (waits_for_instant cfg) now cfg ↔ (
        (str_eq cfg.trigger_mode "timestamp" ≡ false)
        ⊎ ((cfg.trigger_timestamp_unix ≡ 0) ⊎ Awaited now cfg))
instant_iff now cfg = elim (Bool-cases (str_eq cfg.trigger_mode "timestamp")) [
  | inr other ↦ ground arith
  | inl timestamp ↦ elim (Bool-cases (cfg.trigger_timestamp_unix == 0)) [
    | inl unset ↦ ground arith
    | inr set ↦ ground arith
  ]
]

delegation_iff :
    (execution : MintExecution) (cfg : Config)
    → DelegationAllowed (is_delegated execution) cfg ↔ ((execution ≡ parallel) ⊎ Delegating cfg)
delegation_iff parallel cfg = (λ h. inl refl, λ h. tt)
delegation_iff delegated cfg = ground arith

clock_iff :
    (net : Net) (text : String)
    → (unset_or_parsed net text ≡ true) ↔ ((is_empty text ≡ true) ⊎ Parses net text)
clock_iff net text = elim (Option-cases (net.parse_url text)) [
  | inl bad ↦ ground arith
  | inr (url, parsed) ↦ ground arith
]

google_iff :
    (net : Net) (cfg : Config)
    → (all_or_none cfg && unset_or_parsed net cfg.google_oauth_redirect_url ≡ true)
      ↔ ((no_google cfg ≡ true) ⊎ Google net cfg)
google_iff net cfg = elim (Option-cases (net.parse_url cfg.google_oauth_redirect_url)) [
  | inl bad ↦ ground arith
  | inr (url, parsed) ↦ elim (Bool-cases (is_empty cfg.google_oauth_client_id)) [
    | inl unset ↦ ground arith
    | inr set ↦ ground arith
  ]
]

sequencer_iff :
    (net : Net) (text : String)
    → (All (Plain net) (optional_url text) × (sequencer_allowed net text ≡ true))
      ↔ ((is_empty text ≡ true) ⊎ (Plain net text × Submits net text))
sequencer_iff net text = elim (Bool-cases (is_empty text)) [
  | inl unset ↦ ground arith
  | inr set ↦ ground (arith, set, Submits-iff net text)
]

inclusion_iff :
    (net : Net) (text : String)
    → All (Plain net) (optional_url text) ↔ ((is_empty text ≡ true) ⊎ Plain net text)
inclusion_iff net text = elim (Bool-cases (is_empty text)) [
  | inl unset ↦ ground arith
  | inr set ↦ ground (arith, set)
]

-- The URLs that are checked, one by one.
urls_iff :
    (net : Net) (cfg : Config)
    → (all (λ url. plain (net.parse_url url)) (rpc_urls_to_validate cfg) ≡ true) ↔ (
        Plain net cfg.ws_rpc_url
        × All (Plain net) cfg.http_rpc_urls
        × All (Plain net) (optional_url cfg.sequencer_http_url)
        × All (Plain net) (optional_url cfg.inclusion_ws_url))
unfolding rpc_urls_to_validate
urls_iff net cfg =
    let sequencer = optional_url cfg.sequencer_http_url in
    let inclusion = optional_url cfg.inclusion_ws_url in
    let listed = all-plain_iff net (rpc_urls_to_validate cfg) in
    let outer = all_append_iff net (cfg.http_rpc_urls ++ sequencer) inclusion in
    let inner = all_append_iff net cfg.http_rpc_urls sequencer in
    (
      λ h.
          let (websocket, rest) = listed.0 h in
          let (others, included) = outer.0 rest in
          let (http, submitted) = inner.0 others in (websocket, http, submitted, included),
      λ h.
          let (websocket, http, submitted, included) = h in
          listed.1 (websocket, outer.1 (inner.1 (http, submitted), included)),
    )

Valid-Accepted : (net : Net) (cfg : Config) → Valid net cfg → Accepted net cfg
Valid-Accepted net cfg v =
    let (websocket, http, sequencer, inclusion) = (urls_iff net cfg).0 v.urls in
    record {
      websocket = websocket;
      http = http;
      sequencer = (sequencer_iff net cfg.sequencer_http_url).0 (sequencer, v.sequencer);
      inclusion = (inclusion_iff net cfg.inclusion_ws_url).0 inclusion;
      some_wallet = v.some_wallet;
      multiplier = ground (arith, v.multiplier);
      cap = ground (arith, v.cap);
      times = ground (arith, v.times);
      race = (Race-iff cfg.race_mode cfg).0 v.race;
      chain = ground (arith, v.chain, other_chain_iff net cfg);
      instant = (instant_iff net.now cfg).0 v.instant;
      google = (google_iff net cfg).0 v.google;
      delegation = (delegation_iff cfg.mint_execution cfg).0 v.delegation;
      clock = (clock_iff net cfg.clock_check_url).0 v.clock;
    }

Accepted-Valid : (net : Net) (cfg : Config) → Accepted net cfg → Valid net cfg
Accepted-Valid net cfg a =
    let (sequencer, allowed) = (sequencer_iff net cfg.sequencer_http_url).1 a.sequencer in
    record {
      urls =
          (urls_iff net cfg).1 (
            a.websocket,
            a.http,
            sequencer,
            (inclusion_iff net cfg.inclusion_ws_url).1 a.inclusion,
          );
      sequencer = allowed;
      some_wallet = a.some_wallet;
      multiplier = ground (arith, a.multiplier);
      cap = ground (arith, a.cap);
      times = ground (arith, a.times);
      race = (Race-iff cfg.race_mode cfg).1 a.race;
      chain = ground (arith, a.chain, other_chain_iff net cfg);
      instant = (instant_iff net.now cfg).1 a.instant;
      google = (google_iff net cfg).1 a.google;
      delegation = (delegation_iff cfg.mint_execution cfg).1 a.delegation;
      clock = (clock_iff net cfg.clock_check_url).1 a.clock;
    }

-- `validate` accepts exactly the configurations whose RPC URLs, with those of the sequencer and the inclusion socket
-- where they are set, parse without credentials; whose sequencer speaks HTTP and is no feed; that have a wallet, fees
-- that are not negative, plausible times, and not Ethereum's block time on the chain `chain.robinhood.com`; whose race
-- has no jitter and a target; whose trigger time, where one is set, is to come within twenty years; whose Google sign-in
-- is whole, with a redirect URL that parses, or absent; whose delegation is complete, for at most 200 delegates; and
-- whose clock URL parses where it is set.
pub validate-Accepted : (net : Net) (cfg : Config) → (validate net cfg ≡ ok tt) ↔ Accepted net cfg
validate-Accepted net cfg = (
  λ h. Valid-Accepted net cfg ((validate_iff net cfg).0 h),
  λ a. (validate_iff net cfg).1 (Accepted-Valid net cfg a),
)
