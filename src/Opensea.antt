-- ===== src/Opensea.antt =====
-- OpenSea (mint-sniper/src/opensea.rs): what a pasted text is, the collection that a slug names, and the search.
-- The answers of the service are parameters; nothing here is trusted before `resolve_address` has read the chain.
pub mod Slugs
pub mod Contracts
use text.Mathlib.Text.{find?}
use Prim.Native.String.{slice, len, [], ◌∷◌}
use Prim.Native.Char.{code}
use seasniper.Common.{
  ℕ, String, Bool, true, false, Option, none, some, List, ◌+◌, ◌&&◌, ◌||◌, ◌==◌, leb, trim,
  is_empty, find, first, filter_map, or_else, str_eq, if◌then◌else◌,
}
use seasniper.Common.Results.{Result, ok, err, or_fail, ◌>>=◌}
use seasniper.Failure.{Failure, open_sea_failed, no_open_sea_key, no_contracts, bad_nft_contract}

pub data ResolvedInput : Type 0 where
  given_address : ℕ → ResolvedInput
  open_sea_slug : String → ResolvedInput

abbrev pub is_separator : ℕ → Bool
is_separator n = (n == 47) || ((n == 63) || (n == 35))

-- `split(['/', '?', '#']).next()`.
unfoldable pub before_separator : String → String
before_separator [] = []
before_separator (c ∷ s) =
    let rest = before_separator s in if is_separator (code c) then [] else c ∷ rest

abbrev pub slug_if_any : String → Option ResolvedInput
slug_if_any slug = if is_empty slug then none else some (open_sea_slug slug)

-- The path segment after "/collection/".
unfoldable pub slug_of : String → Option ResolvedInput
slug_of text = elim (find? text "/collection/") [
  | none ↦ none
  | some idx ↦ slug_if_any (trim (before_separator (slice text (idx + 12) (len text))))
]

-- `parse_address` is `str::parse::<Address>`.
unfoldable pub parse_input : (parse_address : String → Option ℕ) → String → Option ResolvedInput
parse_input parse_address input =
    let trimmed = trim input in
    if is_empty trimmed
    then none
    else (elim (parse_address trimmed) [ some a ↦ some (given_address a) | none ↦ slug_of trimmed ])

pub record OfficialLinks : Type 0 where
  pub twitter_username : Option String
  pub discord_url : Option String
  pub instagram_username : Option String
  pub telegram_url : Option String
  pub project_url : Option String

-- `OfficialLinks::default()`.
abbrev pub no_links : OfficialLinks
no_links = record {
  twitter_username = none;
  discord_url = none;
  instagram_username = none;
  telegram_url = none;
  project_url = none;
}

pub record ContractEntry : Type 0 where
  pub address : String
  pub chain : String

pub record GetCollectionResponse : Type 0 where
  pub name : String
  pub contracts : List ContractEntry
  pub links : OfficialLinks

pub record ResolvedCollection : Type 0 where
  pub nft_contract : ℕ
  pub name : String
  pub links : OfficialLinks

abbrev lower : ℕ → ℕ
lower n = if leb 65 n && leb n 90 then n + 32 else n

unfoldable pub eq_ignore_ascii_case : String → String → Bool
eq_ignore_ascii_case [] [] = true
eq_ignore_ascii_case [] (d ∷ t) = false
eq_ignore_ascii_case (c ∷ s) [] = false
eq_ignore_ascii_case (c ∷ s) (d ∷ t) =
    (lower (code c) == lower (code d)) && eq_ignore_ascii_case s t

abbrev pub is_ethereum : ContractEntry → Bool
is_ethereum c = eq_ignore_ascii_case c.chain "ethereum"

-- The entry of Ethereum's main network, or else the first.
unfoldable pub contract_entry : List ContractEntry → Option ContractEntry
contract_entry contracts = or_else (find is_ethereum contracts) (first contracts)

-- The request is made only with a key; `get_collection` answers it.
unfoldable pub resolve_slug :
    (parse_address : String → Option ℕ)
    → (get_collection : (api_key slug : String) → Result String GetCollectionResponse)
    → (api_key : Option String) (slug : String) → Result Failure ResolvedCollection
resolve_slug parse_address get_collection none slug = err no_open_sea_key
resolve_slug parse_address get_collection (some key) slug = elim (get_collection key slug) [
  | err e ↦ err (open_sea_failed e)
  | ok parsed ↦ (do
    entry ← or_fail (contract_entry parsed.contracts) no_contracts
    a ← or_fail (parse_address entry.address) bad_nft_contract
    ok (record { nft_contract = a; name = parsed.name; links = parsed.links }))
]

pub record SearchHit : Type 0 where
  pub slug : String
  pub name : String
  pub image_url : Option String
  pub opensea_url : Option String

pub record SearchResultEntry : Type 0 where
  pub kind : String
  pub collection : Option SearchHit

abbrev hit_of : SearchResultEntry → Option SearchHit
hit_of r = if str_eq r.kind "collection" then r.collection else none

-- `answer` is that of the request for the query: the hits stay in the service's order.
unfoldable pub search_collections :
    (answer : Result String (List SearchResultEntry)) → Result Failure (List SearchHit)
search_collections (err e) = err (open_sea_failed e)
search_collections (ok results) = ok (filter_map hit_of results)
