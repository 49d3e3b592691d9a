-- ===== src/Copymint/Decisions.antt =====
-- What leads to a copymint fire, and what a refused one reports (mint-sniper/src/copymint.rs).
use seasniper.Common.{
  ◌*◌, ◌%◌, u256_mod, ℕ, String, Bool, true, Option, none, some, List, [], ◌∷◌, ◌≡◌, arith, ◌≤◌,
  ◌==◌, filter_map, Bool-cases, Option-cases, inl, inr, ◌⊎◌, refl, ◌&&◌, if◌then◌else◌,
}
use seasniper.Common.Results.{Result, ok, err, is_ok, Result-cases}
use seasniper.Failure.{Failure}
use seasniper.Config.{Config}
use seasniper.Net.{Net}
use seasniper.Seadrop.{
  PublicDropInfo, fetch_public_drop, encode_mint_public, resolve_seadrop_address,
}
use seasniper.Effect.{Effect, ControlMsg, fire_copymint, emit, send, spawn, abort, broadcast}
use seasniper.Copymint.{
  handle_candidate, handle_drop, handle_live, auto_fire, rpc_for_reads, is_live, total_value,
  is_fireable, should_auto_fire, emit_skip, fire_verified,
}

abbrev as_message : Effect → Option ControlMsg
as_message (send m) = some m
as_message (emit e) = none
as_message (spawn t) = none
as_message (abort t) = none
as_message (broadcast u t) = none

-- The control messages among the effects.
abbrev pub messages : List Effect → List ControlMsg
messages = filter_map as_message

-- The messages that a candidate's drop calls for: one fire at price zero, to SeaDrop itself, when the drop
-- is live, free, and free auto-fire is on.
unfoldable pub auto_fires : Config → PublicDropInfo → (now : ℕ) → Bool
auto_fires cfg drop now =
    is_live drop now && ((drop.mint_price_wei == 0) && cfg.copymint_auto_fire_free)

abbrev pub fire_message : ℕ → ℕ → Result Failure (List ℕ) → List ControlMsg
fire_message seadrop value (ok calldata) = fire_copymint seadrop calldata value ∷ []
fire_message seadrop value (err e) = []

module _ (net : Net) (cfg : Config) (seadrop wallet nft recipient : ℕ) where
  auto_fire-messages :
      (value : ℕ) (r : Result Failure (List ℕ))
      → messages (auto_fire net wallet nft seadrop value r) ≡ fire_message seadrop value r
  unfolding auto_fire emit_skip
  auto_fire-messages value (ok calldata) = refl
  auto_fire-messages value (err e) = refl

  free-value :
      (drop : PublicDropInfo) → (drop.mint_price_wei == 0) ≡ true → total_value cfg drop ≡ 0
  unfolding total_value
  free-value drop h = ground arith

  handle_drop-messages :
      (drop : PublicDropInfo)
      → messages (handle_drop net cfg seadrop wallet nft recipient (ok drop)) ≡ (
          if auto_fires cfg drop net.now
          then fire_message seadrop 0 (encode_mint_public net nft recipient cfg.quantity_per_wallet)
          else [])
  unfolding handle_drop handle_live auto_fires should_auto_fire emit_skip
  handle_drop-messages drop = ground (
    arith,
    auto_fire-messages 0 (encode_mint_public net nft recipient cfg.quantity_per_wallet),
    free-value drop,
  )

-- What has been read when a candidate is fired on: the drop is live, free and allowed.
pub record AutoFired (net : Net) (cfg : Config) (best : Option String) (nft recipient : ℕ)
    (sent : List ControlMsg) : Type 0 where
  pub seadrop : ℕ
  pub url : String
  pub drop : PublicDropInfo
  pub calldata : List ℕ
  pub resolved : resolve_seadrop_address net cfg.seadrop_address ≡ ok seadrop
  pub asked : rpc_for_reads best cfg ≡ some url
  pub fetched : fetch_public_drop net url seadrop nft ≡ ok drop
  pub live : (drop.start_time ≤ net.now) × (net.now ≤ drop.end_time)
  pub free : drop.mint_price_wei ≡ 0
  pub allowed : cfg.copymint_auto_fire_free ≡ true
  pub encoded : encode_mint_public net nft recipient cfg.quantity_per_wallet ≡ ok calldata
  pub fire : sent ≡ fire_copymint seadrop calldata 0 ∷ []

module _ (net : Net) (cfg : Config) (best : Option String) (wallet nft recipient seadrop : ℕ)
    (url : String) (resolved : resolve_seadrop_address net cfg.seadrop_address ≡ ok seadrop)
    (asked : rpc_for_reads best cfg ≡ some url) where
  live_drop-AutoFired :
      (drop : PublicDropInfo) (sent : List ControlMsg)
      → fetch_public_drop net url seadrop nft ≡ ok drop
      → auto_fires cfg drop net.now ≡ true
      → sent ≡ fire_message seadrop 0 (encode_mint_public net nft recipient cfg.quantity_per_wallet)
      → (sent ≡ []) ⊎ AutoFired net cfg best nft recipient sent
  unfolding auto_fires is_live
  live_drop-AutoFired drop sent fetched fires e =
      elim (Result-cases (encode_mint_public net nft recipient cfg.quantity_per_wallet)) [
        | inl (calldata, encoded) ↦ inr (record {
          seadrop = seadrop;
          url = url;
          drop = drop;
          calldata = calldata;
          resolved = resolved;
          asked = asked;
          fetched = fetched;
          live = ground arith;
          free = ground arith;
          allowed = ground arith;
          encoded = encoded;
          fire = ground arith;
        })
        | inr (failure, refused) ↦ inl (ground arith)
      ]

  handle_drop-AutoFired :
      (sent : List ControlMsg)
      → sent
        ≡ messages (
            handle_drop net cfg seadrop wallet nft recipient
              (fetch_public_drop net url seadrop nft))
      → (sent ≡ []) ⊎ AutoFired net cfg best nft recipient sent
  handle_drop-AutoFired sent e = elim (Result-cases (fetch_public_drop net url seadrop nft)) [
    | inr (failure, failed) ↦ inl (unfold handle_drop emit_skip in ground arith)
    | inl (drop, fetched) ↦ elim (Bool-cases (auto_fires cfg drop net.now)) [
      | inl fires ↦
          live_drop-AutoFired drop sent fetched fires
            (ground (arith, handle_drop-messages net cfg seadrop wallet nft recipient drop))
      | inr quiet ↦
          inl (ground (arith, handle_drop-messages net cfg seadrop wallet nft recipient drop))
    ]
  ]

-- A tracked wallet's mint leads to at most one control message, and to one only when a fresh read shows
-- the drop live and free and free auto-fire is on: then it is a fire at value zero, with calldata of our
-- own. A paid drop is never fired on.
pub handle_candidate-AutoFired :
    (net : Net) (cfg : Config) (best : Option String) (wallet nft recipient : ℕ)
    (effects : List Effect)
    → handle_candidate net cfg best wallet nft recipient ≡ some effects
    → (messages effects ≡ []) ⊎ AutoFired net cfg best nft recipient (messages effects)
unfolding handle_candidate
handle_candidate-AutoFired net cfg best wallet nft recipient effects e =
    elim (Result-cases (resolve_seadrop_address net cfg.seadrop_address)) [
      | inr (failure, failed) ↦ inl (ground arith)
      | inl (seadrop, resolved) ↦ elim (Option-cases (rpc_for_reads best cfg)) [
        | inl gone ↦ ground arith
        | inr (url, asked) ↦
            handle_drop-AutoFired net cfg best wallet nft recipient seadrop url resolved asked
              (messages effects) (ground arith)
      ]
    ]

-- A manual fire that answers a value: the drop is live, and free or within the ceiling.
pub record Verified (net : Net) (cfg : Config) (seadrop nft recipient : ℕ) (drop : PublicDropInfo)
    (effects : List Effect) (value : ℕ) : Type 0 where
  pub calldata : List ℕ
  pub live : (drop.start_time ≤ net.now) × (net.now ≤ drop.end_time)
  pub value_of : value ≡ (drop.mint_price_wei * cfg.quantity_per_wallet) % u256_mod
  pub allowed : (drop.mint_price_wei ≡ 0) ⊎ (value ≤ cfg.max_copymint_price_wei)
  pub encoded : encode_mint_public net nft recipient cfg.quantity_per_wallet ≡ ok calldata
  pub fire : messages effects ≡ fire_copymint seadrop calldata value ∷ []

-- A manual fire that succeeds after the drop is read: the time is within the drop's, the value answered is the price
-- by the quantity, and is zero by the price or at most the ceiling; and exactly one message is sent, the fire at
-- SeaDrop of the calldata that was encoded and of that value.
pub fire_verified-Verified :
    (net : Net) (cfg : Config) (seadrop nft recipient : ℕ) (drop : PublicDropInfo)
    (effects : List Effect) (value : ℕ)
    → fire_verified net cfg seadrop nft recipient drop ≡ ok (effects, value)
    → Verified net cfg seadrop nft recipient drop effects value
unfolding fire_verified is_fireable is_live total_value
fire_verified-Verified net cfg seadrop nft recipient drop effects value e =
    elim (Result-cases (encode_mint_public net nft recipient cfg.quantity_per_wallet)) [
      | inl (calldata, encoded) ↦ record {
        calldata = calldata;
        live = ground arith;
        value_of = ground arith;
        allowed = ground arith;
        encoded = encoded;
        fire = ground arith;
      }
      | inr (failure, refused) ↦ ground arith
    ]

-- A manual fire succeeds after the drop is read exactly when the drop is live and fireable and its
-- calldata can be built.
pub fire_verified-is_ok :
    (net : Net) (cfg : Config) (seadrop nft recipient : ℕ) (drop : PublicDropInfo)
    → is_ok (fire_verified net cfg seadrop nft recipient drop) ≡ (
        is_live drop net.now
        && (is_fireable cfg drop
            && is_ok (encode_mint_public net nft recipient cfg.quantity_per_wallet)))
unfolding fire_verified
fire_verified-is_ok net cfg seadrop nft recipient drop = ground arith
