-- ===== src/Identity/Oidc/Flows.antt =====
-- What a sign-in proves (mint-sniper/src/identity/oidc.rs).
use seasniper.Common.{
  ℕ, ◌+◌, ◌<◌, String, none, some, [], ◌∷◌, ◌≡◌, refl, arith, Option-cases, inl, inr, eq_iff,
}
use seasniper.Common.Results.{ok, Result-cases}
use seasniper.Identity.Oidc.{
  Provider, PendingFlow, Flows, IdClaims, GoogleClaims, flow_of, without, redeem, complete_login,
}

flow_of-without : (id : String) (flows : Flows) → flow_of id (without id flows) ≡ none
flow_of-without id [] = refl
flow_of-without id ((k, f) ∷ flows) = ground (arith, flow_of-without id flows)

-- The answers that a successful sign-in rests on: those for the verifier and the nonce of a flow that is pending,
-- not older than its time to live, and whose token came back.
pub record Bound (provider : Provider) (flow_id code state : String) (now : ℕ) (flows : Flows)
    (claims : GoogleClaims) : Type 0 where
  pub flow : PendingFlow
  pub id_token : ℕ
  pub answer : IdClaims
  pub pending : flow_of flow_id flows ≡ some flow
  pub in_time : now < flow.created_at + 600
  pub same_browser : flow.csrf_token ≡ state
  pub exchanged : provider.exchange_code code flow.pkce_verifier ≡ ok (some id_token)
  pub validated : provider.claims id_token flow.nonce ≡ ok answer
  pub subject : claims.google_sub ≡ answer.subject
  pub email : answer.email ≡ some claims.email

redeem-Bound :
    (provider : Provider) (flow_id code state : String) (now : ℕ) (flows : Flows) (f : PendingFlow)
    (claims : GoogleClaims)
    → flow_of flow_id flows ≡ some f
    → redeem provider code state now f ≡ ok claims
    → Bound provider flow_id code state now flows claims
unfolding redeem
redeem-Bound provider flow_id code state now flows f claims pending e =
    elim (Result-cases (provider.exchange_code code f.pkce_verifier)) [
      | inr (failure, down) ↦ ground arith
      | inl (answer, exchanged) ↦ elim (Option-cases answer) [
        | inl missing ↦ ground arith
        | inr (id_token, given) ↦ elim (Result-cases (provider.claims id_token f.nonce)) [
          | inr (failure, refused) ↦ ground arith
          | inl (told, validated) ↦ elim (Option-cases told.email) [
            | inl anonymous ↦ ground arith
            | inr (email, named) ↦ record {
              flow = f;
              id_token = id_token;
              answer = told;
              pending = pending;
              in_time = ground arith;
              same_browser = (eq_iff f.csrf_token state).0 (ground arith);
              exchanged = ground arith;
              validated = validated;
              subject = ground arith;
              email = ground arith;
            }
          ]
        ]
      ]
    ]

-- However a sign-in ends, its flow is used up; and it succeeds only where that flow was pending for less than
-- ten minutes, the `state` is the flow's own, Google gave an ID token for the code and the flow's verifier, and the
-- token's claims are valid for the flow's nonce: the answer is their subject and email.
pub complete_login-Bound :
    (provider : Provider) (flow_id code state : String) (now : ℕ) (flows : Flows)
    → (flow_of flow_id (complete_login provider flow_id code state now flows).0 ≡ none)
      × ((claims : GoogleClaims)
          → (complete_login provider flow_id code state now flows).1 ≡ ok claims
          → Bound provider flow_id code state now flows claims)
unfolding complete_login
complete_login-Bound provider flow_id code state now flows =
    elim (Option-cases (flow_of flow_id flows)) [
      | inl missing ↦ (ground arith, λ claims e. ground arith)
      | inr (f, pending) ↦ (
        ground (arith, flow_of-without flow_id flows),
        λ claims e.
            redeem-Bound provider flow_id code state now flows f claims pending
              (ground (arith, pending, e)),
      )
    ]
