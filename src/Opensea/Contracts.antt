-- ===== src/Opensea/Contracts.antt =====
-- Which contract a slug resolves to (mint-sniper/src/opensea.rs).
use seasniper.Common.{
  ℕ, String, true, false, Option, none, some, List, [], ◌∷◌, ◌++◌, ◌≡◌, ◌⊎◌, inl, inr, refl, ap,
  arith, All, find, first, Bool-cases, Option-cases,
}
use seasniper.Common.Results.{Result, ok, Result-cases}
use seasniper.Opensea.{
  ContractEntry, GetCollectionResponse, ResolvedCollection, is_ethereum, contract_entry,
  resolve_slug,
}

abbrev pub NotEthereum : ContractEntry → Type 0
NotEthereum c = is_ethereum c ≡ false

-- The first entry of Ethereum, with what stands around it.
pub record FirstEthereum (contracts : List ContractEntry) (entry : ContractEntry) : Type 0 where
  pub before : List ContractEntry
  pub after : List ContractEntry
  pub split : contracts ≡ before ++ entry ∷ after
  pub none_before : All NotEthereum before
  pub here : is_ethereum entry ≡ true

-- No entry is of Ethereum, and this one is the first.
pub record FallsBack (contracts : List ContractEntry) (entry : ContractEntry) : Type 0 where
  pub none_at_all : All NotEthereum contracts
  pub leads : first contracts ≡ some entry

abbrev pub Chosen : List ContractEntry → ContractEntry → Type 0
Chosen contracts entry = FirstEthereum contracts entry ⊎ FallsBack contracts entry

find-FirstEthereum :
    (contracts : List ContractEntry) (entry : ContractEntry)
    → find is_ethereum contracts ≡ some entry
    → FirstEthereum contracts entry
find-FirstEthereum [] entry e = ground arith
find-FirstEthereum (c ∷ cs) entry e = elim (Bool-cases (is_ethereum c)) [
  | inl hit ↦ record {
    before = [];
    after = cs;
    split = ground arith;
    none_before = tt;
    here = ground arith;
  }
  | inr miss ↦
      let found = find-FirstEthereum cs entry (ground arith) in
      record {
        before = c ∷ found.before;
        after = found.after;
        split = ap (λ xs. c ∷ xs) found.split;
        none_before = (miss, found.none_before);
        here = found.here;
      }
]

find-NotEthereum :
    (contracts : List ContractEntry) → find is_ethereum contracts ≡ none → All NotEthereum contracts
find-NotEthereum [] e = tt
find-NotEthereum (c ∷ cs) e = elim (Bool-cases (is_ethereum c)) [
  | inl hit ↦ ground arith
  | inr miss ↦ (miss, find-NotEthereum cs (ground arith))
]

contract_entry-Chosen :
    (contracts : List ContractEntry) (entry : ContractEntry)
    → contract_entry contracts ≡ some entry
    → Chosen contracts entry
unfolding contract_entry
contract_entry-Chosen contracts entry e = elim (Option-cases (find is_ethereum contracts)) [
  | inl missing ↦
      inr (record { none_at_all = find-NotEthereum contracts missing; leads = ground arith })
  | inr (c, hit) ↦ inl (find-FirstEthereum contracts entry (ground arith))
]

-- What stands behind a collection that was resolved.
pub record Resolved (parse_address : String → Option ℕ)
    (get_collection : String → String → Result String GetCollectionResponse)
    (api_key : Option String) (slug : String) (c : ResolvedCollection) : Type 0 where
  pub key : String
  pub response : GetCollectionResponse
  pub entry : ContractEntry
  pub keyed : api_key ≡ some key
  pub answered : get_collection key slug ≡ ok response
  pub chosen : Chosen response.contracts entry
  pub parsed : parse_address entry.address ≡ some c.nft_contract
  pub same_name : c.name ≡ response.name

-- A slug resolves only with a key and an answer of the service: to the address of the first entry of
-- Ethereum in it, or, where it has none, of its first entry, and with the answer's name.
pub resolve_slug-Resolved :
    (parse_address : String → Option ℕ)
    (get_collection : String → String → Result String GetCollectionResponse)
    (api_key : Option String) (slug : String) (c : ResolvedCollection)
    → resolve_slug parse_address get_collection api_key slug ≡ ok c
    → Resolved parse_address get_collection api_key slug c
unfolding resolve_slug
resolve_slug-Resolved parse_address get_collection none slug c e = ground arith
resolve_slug-Resolved parse_address get_collection (some key) slug c e =
    elim (Result-cases (get_collection key slug)) [
      | inr (failure, answered) ↦ ground arith
      | inl (response, answered) ↦ elim (Option-cases (contract_entry response.contracts)) [
        | inl missing ↦ ground arith
        | inr (entry, listed) ↦ elim (Option-cases (parse_address entry.address)) [
          | inl bad ↦ ground arith
          | inr (a, parsed) ↦ record {
            key = key;
            response = response;
            entry = entry;
            keyed = refl;
            answered = answered;
            chosen = contract_entry-Chosen response.contracts entry listed;
            parsed = ground arith;
            same_name = ground arith;
          }
        ]
      ]
    ]
