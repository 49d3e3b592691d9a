-- ===== src/Identity/Origin.antt =====
-- The origin of the redirect URL: `derive_origin` and `WebauthnState::new` of mint-sniper/src/identity/webauthn.rs, and
-- the CORS allow-list that `router` of mint-sniper/src/api.rs makes of it.
use Prim.Native.Char.{code}
use Prim.Native.String.{String}
use seasniper.Common.{
  Bool, Option, none, some, List, [], ◌∷◌, ◌++◌, ◌&&◌, ◌==◌, is_empty, if◌then◌else◌,
}
use seasniper.Common.Results.{Result, ok, err, or_fail, ◌>>=◌}
use seasniper.Failure.{Failure, bad_redirect_url, no_redirect_host, no_rp_id}
use seasniper.Url.{Url}
use seasniper.Identity.Credentials.{Library}

-- What the crates `url` and `webauthn_rs` do with a URL: drop its path, query and fragment, print it, and build the
-- library for a relying party; and the texts that `HeaderValue::from_str` of `http` takes.
pub record Site : Type 0 where
  pub bare : Url → Url
  pub as_str : Url → String
  pub build : (rp_id : String) → (rp_origin : Url) → Result Failure Library
  pub is_header_value : String → Bool

unfoldable pub derive_origin :
    (String → Option Url) → Site → (redirect_url : String) → Result Failure Url
derive_origin parse_url site redirect_url = do
  parsed ← or_fail (parse_url redirect_url) bad_redirect_url
  _ ← or_fail parsed.host_str no_redirect_host
  ok (site.bare parsed)

-- `WebauthnState::new`, with nothing pending.
unfoldable pub new_webauthn :
    (String → Option Url) → Site → (redirect_url : String) → Result Failure Library
new_webauthn parse_url site redirect_url = do
  origin ← derive_origin parse_url site redirect_url
  rp_id ← or_fail origin.host_str no_rp_id
  site.build rp_id origin

-- `trim_end_matches('/')`.
unfoldable pub trim_slashes : String → String
trim_slashes String.[] = String.[]
trim_slashes (String.◌∷◌ c s) =
    let rest = trim_slashes s in
    if is_empty rest && (code c == b'/') then String.[] else String.◌∷◌ c rest

abbrev local_origins : List String
local_origins = "http://localhost:5173" ∷ "http://127.0.0.1:4117" ∷ "http://localhost:4117" ∷ []

-- `none` is a panic, of either `expect`.
abbrev with_origin : Site → Result Failure Url → Option (List String)
with_origin site (err e) = none
with_origin site (ok origin) =
    let text = trim_slashes (site.as_str origin) in
    if site.is_header_value text then some (local_origins ++ text ∷ []) else none

unfoldable pub allowed_origins :
    (String → Option Url) → Site → (redirect_url : String) → Option (List String)
allowed_origins parse_url site redirect_url =
    if is_empty redirect_url
    then some local_origins
    else with_origin site (derive_origin parse_url site redirect_url)
