-- ===== src/Startup/Gate.antt =====
-- What `main` of mint-sniper/src/main.rs has set up once it serves.
use seasniper.Common.{
  true, false, Option, List, ◌≡◌, arith, is_some, is_empty, Option-cases, inl, inr,
}
use seasniper.Common.Results.{ok, Result-cases}
use seasniper.Identity.Oidc.{Provider}
use seasniper.Identity.Credentials.{Library}
use seasniper.Identity.Origin.{new_webauthn}
use seasniper.Config.{resolve_google_oauth_client_secret, Config}
use seasniper.Wallet.{ManagedWallet}
use seasniper.Startup.{Started, sign_in_of, webauthn_of, first_loop, launch}
use seasniper.Startup.Opening.{Machine, Mint}

-- Where a Google client id is configured, sign-in and WebAuthn run.
abbrev pub Gated : Config → Started → Type 0
Gated cfg s =
    is_empty cfg.google_oauth_client_id ≡ false
    → (is_some s.google_oidc ≡ true) × (is_some s.webauthn ≡ true)

sign_in_of-is_some :
    (m : Machine) (cfg : Config) (oidc : Option Provider)
    → sign_in_of m cfg ≡ ok oidc
    → is_empty cfg.google_oauth_client_id ≡ false
    → is_some oidc ≡ true
unfolding sign_in_of
sign_in_of-is_some m cfg oidc h configured =
    elim (Option-cases (resolve_google_oauth_client_secret m.net.env_var cfg)) [
      | inl missing ↦ ground arith
      | inr (secret, present) ↦
          elim (Result-cases
            (m.discover cfg.google_oauth_client_id secret cfg.google_oauth_redirect_url)) [
              | inr (e, failed) ↦ ground arith
              | inl (provider, found) ↦ ground arith
            ]
    ]

webauthn_of-is_some :
    (m : Machine) (cfg : Config) (library : Option Library)
    → webauthn_of m cfg ≡ ok library
    → is_empty cfg.google_oauth_client_id ≡ false
    → is_some library ≡ true
unfolding webauthn_of
webauthn_of-is_some m cfg library h configured =
    elim (Result-cases (new_webauthn m.net.parse_url m.site cfg.google_oauth_redirect_url)) [
      | inr (e, failed) ↦ ground arith
      | inl (l, made) ↦ ground arith
    ]

pub launch-Gated :
    (m : Machine) (mint : Mint) (wallets : List ManagedWallet) (s : Started)
    → launch m mint wallets ≡ ok s
    → Gated mint.config s
      × (s.config ≡ mint.config)
      × (s.control ≡ first_loop m mint wallets)
      × (webauthn_of m mint.config ≡ ok s.webauthn)
unfolding launch
launch-Gated m mint wallets s h = elim (Result-cases m.api_token) [
  | inr (e, failed) ↦ ground arith
  | inl (token, given) ↦ elim (Result-cases m.open_db) [
    | inr (e, failed) ↦ ground arith
    | inl (x, opened) ↦ elim (Result-cases m.session_key) [
      | inr (e, failed) ↦ ground arith
      | inl (y, keyed) ↦ elim (Result-cases (sign_in_of m mint.config)) [
        | inr (e, failed) ↦ ground arith
        | inl (oidc, gate) ↦ elim (Result-cases (webauthn_of m mint.config)) [
          | inr (e, failed) ↦ ground arith
          | inl (library, lock) ↦ elim (Result-cases m.bind) [
            | inr (e, failed) ↦ ground arith
            | inl (z, bound) ↦
                let google : s.google_oidc ≡ oidc = ground arith in
                let passkeys : s.webauthn ≡ library = ground arith in
                (
                  λ configured. (
                    rw google (sign_in_of-is_some m mint.config oidc gate configured),
                    rw passkeys (webauthn_of-is_some m mint.config library lock configured),
                  ),
                  ground arith,
                  ground arith,
                  rw passkeys lock,
                )
          ]
        ]
      ]
    ]
  ]
]
