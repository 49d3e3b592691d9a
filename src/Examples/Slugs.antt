-- ===== src/Examples/Slugs.antt =====
-- The theorems on pasted texts and on OpenSea's collections, at small inputs.

use seasniper.Common.{
  ℕ, String, Option, none, some, List, [], ◌∷◌, ◌≡◌, refl, trim, trim_start, trim_end,
}
use seasniper.Common.Results.{Result, ok}
use seasniper.Opensea.{
  open_sea_slug, before_separator, slug_of, parse_input, ContractEntry, GetCollectionResponse,
  ResolvedCollection, no_links, eq_ignore_ascii_case, contract_entry, resolve_slug,
}
use seasniper.Opensea.Slugs.{IsSegment, parse_input-IsSegment}

abbrev no_address : String → Option ℕ
no_address text = none

abbrev pasted : String
pasted = " https://opensea.io/collection/cool-cats?tab=items "

pasted_slug : parse_input no_address pasted ≡ some (open_sea_slug "cool-cats")
unfolding parse_input slug_of before_separator trim trim_start trim_end
pasted_slug = refl

parse_input-IsSegment_example : IsSegment "cool-cats"
parse_input-IsSegment_example = parse_input-IsSegment no_address pasted "cool-cats" pasted_slug

abbrev address : String → Option ℕ
address text = some 7

abbrev entries : List ContractEntry
entries =
    (record { address = "0x1"; chain = "base" })
    ∷ (record { address = "0x7"; chain = "Ethereum" })
    ∷ []

abbrev service : String → String → Result String GetCollectionResponse
service key slug = ok (record { name = "Cats"; contracts = entries; links = no_links })

abbrev cats : ResolvedCollection
cats = record { nft_contract = 7; name = "Cats"; links = no_links }

cats_resolve : resolve_slug address service (some "key") "cool-cats" ≡ ok cats
unfolding resolve_slug contract_entry eq_ignore_ascii_case
cats_resolve = refl
