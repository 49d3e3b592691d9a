-- ===== src/Failure.antt =====
-- The errors that travel in `anyhow::Result` (mint-sniper/src): one constructor for each message that
-- the code writes itself, carrying what it prints, and one for the error of a call to other code.
use seasniper.Common.{
  ℕ, String, Bool, true, false, Option, none, some, ◌≡◌, refl, arith, Bool-cases, inl, inr,
  if◌then◌else◌,
}
use seasniper.Common.Results.{Result, ok, err}
use seasniper.Url.{Redacted}

-- How a read that is bounded by `tokio::time::timeout` fails.
pub data ReadError : Type 0 where
  rpc_error : String → ReadError
  timed_out : ReadError

pub data Failure : Type 0 where
  -- No errors but panics: of `to::<u64>()` on a word that does not fit, and of `gen_range` on an empty range. They
  -- pass each `?` as an error does, and go on where an error is handled.
  word_panic range_panic : Failure
  -- executor.rs
  no_warmed_providers : Failure
  nothing_to_broadcast_to : Failure
  send_failed : String → Failure
  send_timed_out : Redacted → Failure
  read_failed : String → ReadError → Failure
  signing_failed : ℕ → String → Failure
  -- seadrop.rs
  bad_rpc_url : String → Failure
  get_public_drop_failed : ReadError → Failure
  bad_public_drop : Failure
  no_public_stage : Failure
  encoding_failed : Failure
  fee_recipient_check_failed : String → Failure
  mint_stats_failed : String → Failure
  -- copymint.rs, target.rs
  bad_seadrop_address : Failure
  bad_fee_recipient : Failure
  bad_nft_contract : Failure
  short_calldata : Failure
  bad_calldata : Failure
  no_wallets_configured : Failure
  bad_wallet_address : Failure
  not_live : ℕ → ℕ → ℕ → Failure
  over_ceiling : ℕ → ℕ → Failure
  unrecognised_input : Failure
  open_sea_failed : String → Failure
  no_open_sea_key : Failure
  no_contracts : Failure
  -- delegated/
  no_mnemonic_env : Failure
  mnemonic_unset : Failure
  no_delegates : Failure
  bad_mnemonic : Failure
  derivation_failed : ℕ → Failure
  no_http_rpc : Failure
  preflight_failed : Failure → Failure
  minter_mismatch : String → Failure
  preflight_refused : String → Failure
  call_failed : String → Failure
  -- identity/
  database : String → Failure
  cipher : String → Failure
  totp_library : String → Failure
  no_secret_generated : Failure
  admin_cap_reached : Failure
  bad_user_id : Failure
  webauthn_failed : String → Failure
  no_registration no_authentication : Failure
  bad_redirect_url no_redirect_host no_rp_id : Failure
  no_devices : Failure
  bad_passkey : Failure
  device_gone : Failure
  unknown_flow flow_expired csrf_mismatch : Failure
  token_exchange : String → Failure
  no_id_token no_email : Failure
  bad_claims : String → Failure
  -- main.rs, wallet.rs, at the start
  bad_contract_address bad_signature bad_argument : Failure
  fee_recipient_not_allowed : ℕ → Failure
  env_not_set : String → Failure
  bad_private_key : Failure
  no_client_secret : Failure
  unreadable : String → Failure
  -- the key files
  bad_key_file key_file_not_written token_not_written bad_nonce : Failure

abbrev pub is_panic : Failure → Bool
is_panic word_panic = true
is_panic range_panic = true
is_panic (preflight_failed e) = is_panic e
is_panic _ = false

-- What handles a result is not reached by a panic.
abbrev pub unless_panic {ℓ κ} : {A : Type ℓ} {B : Type κ} → Result Failure A → B → Option B
unless_panic (ok a) b = some b
unless_panic (err e) b = if is_panic e then none else some b

pub unless_panic-some {ℓ κ} :
    {A : Type ℓ} {B : Type κ} (r : Result Failure A) (b c : B) → unless_panic r b ≡ some c → b ≡ c
unless_panic-some (ok a) b c h = ground arith
unless_panic-some (err e) b c h = elim (Bool-cases (is_panic e)) [
  | inl panic ↦ ground (arith, panic, h)
  | inr failed ↦ ground (arith, failed, h)
]

-- A panic that ended what handles a result.
pub unless_panic-none {ℓ κ} :
    {A : Type ℓ} {B : Type κ} (r : Result Failure A) (b : B)
    → unless_panic r b ≡ none
    → (e : Failure) × ((r ≡ err e) × (is_panic e ≡ true))
unless_panic-none (ok a) b h = ground arith
unless_panic-none (err e) b h = elim (Bool-cases (is_panic e)) [
  | inl panic ↦ (e, (refl, panic))
  | inr failed ↦ ground (arith, failed, h)
]
