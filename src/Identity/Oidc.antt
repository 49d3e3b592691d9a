-- ===== src/Identity/Oidc.antt =====
-- Google sign-in (mint-sniper/src/identity/oidc.rs): the flows in progress, by flow id. The crate `openidconnect` and
-- Google's answers are a parameter; what is sampled is an argument.
pub mod Flows
use seasniper.Common.{
  ℕ, String, Bool, Option, none, some, List, [], ◌∷◌, ◌+◌, ltb, leb, not, select, str_eq,
  if◌then◌else◌,
}
use seasniper.Common.Results.{Result, ok, err, or_fail, bail_if, ◌>>=◌, ◌>>◌}
use seasniper.Failure.{
  Failure, unknown_flow, flow_expired, csrf_mismatch, token_exchange, no_id_token, no_email,
  bad_claims,
}

abbrev pub flow_ttl_secs : ℕ
flow_ttl_secs = 600

pub record PendingFlow : Type 0 where
  pub csrf_token : String
  pub nonce : String
  pub pkce_verifier : String
  pub created_at : ℕ

pub record GoogleClaims : Type 0 where
  pub google_sub : String
  pub email : String

-- The claims that the library has validated.
pub record IdClaims : Type 0 where
  pub subject : String
  pub email : Option String

pub record Provider : Type 0 where
  pub authorize_url : (csrf_token nonce pkce_verifier : String) → String
  -- The exchange of a code, with the verifier of its flow: the ID token, where the answer has one.
  pub exchange_code : (code pkce_verifier : String) → Result String (Option ℕ)
  -- The claims of a token, validated for a nonce.
  pub claims : (id_token : ℕ) (nonce : String) → Result String IdClaims

abbrev pub Flows : Type 0
Flows = List (String × PendingFlow)

-- `now - created_at < FLOW_TTL_SECS`.
abbrev pub is_fresh : ℕ → PendingFlow → Bool
is_fresh now f = ltb now (f.created_at + flow_ttl_secs)

abbrev pub flow_of : String → Flows → Option PendingFlow
flow_of id [] = none
flow_of id ((k, f) ∷ flows) = let rest = flow_of id flows in if str_eq k id then some f else rest

abbrev pub without : String → Flows → Flows
without id [] = []
without id ((k, f) ∷ flows) =
    let rest = without id flows in if str_eq k id then rest else (k, f) ∷ rest

-- What a login samples.
pub record Sample : Type 0 where
  pub flow_id : String
  pub csrf_token : String
  pub nonce : String
  pub pkce_verifier : String

pub record LoginStart : Type 0 where
  pub auth_url : String
  pub flow_id : String

unfoldable pub begin_login : Provider → Sample → (now : ℕ) → Flows → Flows × LoginStart
begin_login provider s now flows = (
  (
    s.flow_id,
    record {
      csrf_token = s.csrf_token;
      nonce = s.nonce;
      pkce_verifier = s.pkce_verifier;
      created_at = now;
    },
  )
      ∷ without s.flow_id (select (λ x. is_fresh now x.1) flows),
  record {
    auth_url = provider.authorize_url s.csrf_token s.nonce s.pkce_verifier;
    flow_id = s.flow_id;
  },
)

abbrev pub exchanged : Result String (Option ℕ) → Result Failure (Option ℕ)
exchanged (ok a) = ok a
exchanged (err e) = err (token_exchange e)

abbrev pub validated : Result String IdClaims → Result Failure IdClaims
validated (ok a) = ok a
validated (err e) = err (bad_claims e)

-- The checks of a flow that was found, and the exchange.
unfoldable pub redeem :
    Provider → (code state : String) (now : ℕ) → PendingFlow → Result Failure GoogleClaims
redeem provider code state now f = do
  bail_if (not (is_fresh now f)) flow_expired
  bail_if (not (str_eq f.csrf_token state)) csrf_mismatch
  answer ← exchanged (provider.exchange_code code f.pkce_verifier)
  id_token ← or_fail answer no_id_token
  claims ← validated (provider.claims id_token f.nonce)
  email ← or_fail claims.email no_email
  ok (record { google_sub = claims.subject; email = email })

-- The flow is taken out first, whatever comes of it.
unfoldable pub complete_login :
    Provider → (flow_id code state : String) (now : ℕ) → Flows → Flows × Result Failure GoogleClaims
complete_login provider flow_id code state now flows = elim (flow_of flow_id flows) [
  | none ↦ (flows, err unknown_flow)
  | some f ↦ (without flow_id flows, redeem provider code state now f)
]
