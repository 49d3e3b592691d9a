-- ===== src/Copymint/Decoding.antt =====
-- Which calls `decode_mint_public_call` reads, and what it reads of them (mint-sniper/src/copymint.rs).
use seasniper.Common.{ℕ, some, List, [], ◌∷◌, ◌≡◌, refl, arith}
use seasniper.Common.Results.{ok}
use seasniper.Net.{Net, DynSolValue, address, uint}
use seasniper.Seadrop.{encode_mint_public}
use seasniper.Copymint.Watch.{decode_mint_public_call, get_from}

-- ABI coding as the crate documents it: the input of a call is the four bytes of its selector and the
-- encoded values, and decoding what follows the selector gives the values back.
abbrev pub DecodesAs : Net → List DynSolValue → List ℕ → Type 0
DecodesAs net values calldata =
    (args : List ℕ) × (get_from 4 calldata ≡ some args) × (net.abi_decode_input args ≡ some values)

pub record AbiRoundTrips (net : Net) : Type 0 where
  pub round_trip :
      (values : List DynSolValue) (calldata : List ℕ)
      → net.abi_encode_input values ≡ some calldata
      → DecodesAs net values calldata

-- Whatever the minter argument and the quantity of a `mintPublic` call are, decoding its calldata gives
-- its collection and fee recipient, and nothing else of it.
pub decode_mint_public_call-encode :
    (net : Net) (nft recipient minter quantity : ℕ) (calldata : List ℕ)
    → AbiRoundTrips net
    → net.abi_encode_input
        (address nft ∷ address recipient ∷ address minter ∷ uint quantity 256 ∷ [])
      ≡ some calldata
    → decode_mint_public_call net calldata ≡ ok (nft, recipient)
unfolding decode_mint_public_call
decode_mint_public_call-encode net nft recipient minter quantity calldata laws encoded =
    let values : List DynSolValue =
      address nft ∷ address recipient ∷ address minter ∷ uint quantity 256 ∷ [] in
    let (args, cut, decoded) = laws.round_trip values calldata encoded in rw (cut, decoded) refl

-- What our own encoder builds decodes to the collection and the fee recipient that it was built for.
pub decode_mint_public_call-encode_mint_public :
    (net : Net) (nft recipient quantity : ℕ) (calldata : List ℕ)
    → AbiRoundTrips net
    → encode_mint_public net nft recipient quantity ≡ ok calldata
    → decode_mint_public_call net calldata ≡ ok (nft, recipient)
unfolding encode_mint_public
decode_mint_public_call-encode_mint_public net nft recipient quantity calldata laws encoded =
    decode_mint_public_call-encode net nft recipient 0 quantity calldata laws (ground arith)
