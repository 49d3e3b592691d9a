-- ===== src/Examples/Codec.antt =====
-- A codec that satisfies the laws of ABI coding: three numbers a value, after four of a selector.
use seasniper.Common.{ℕ, zero, suc, false, Option, none, some, List, [], ◌∷◌, ◌≡◌, refl, arith}
use seasniper.Common.Results.{ok}
use seasniper.Net.{Net, DynSolValue, address, uint, other}
use seasniper.Copymint.Decoding.{AbiRoundTrips, DecodesAs}
use seasniper.Examples.World.{net}

abbrev pub encode_all : List DynSolValue → List ℕ
encode_all [] = []
encode_all (address a ∷ vs) = 0 ∷ a ∷ 0 ∷ encode_all vs
encode_all (uint v bits ∷ vs) = 1 ∷ v ∷ bits ∷ encode_all vs
encode_all (other ∷ vs) = 2 ∷ 0 ∷ 0 ∷ encode_all vs

abbrev decode_one : ℕ → ℕ → ℕ → DynSolValue
decode_one zero a b = address a
decode_one (suc zero) a b = uint a b
decode_one (suc (suc n)) a b = other

abbrev decode_push : DynSolValue → Option (List DynSolValue) → Option (List DynSolValue)
decode_push v none = none
decode_push v (some vs) = some (v ∷ vs)

abbrev pub decode_all : List ℕ → Option (List DynSolValue)
decode_all [] = some []
decode_all (x ∷ []) = none
decode_all (x ∷ y ∷ []) = none
decode_all (x ∷ y ∷ z ∷ rest) = decode_push (decode_one x y z) (decode_all rest)

decode-encode : (vs : List DynSolValue) → decode_all (encode_all vs) ≡ some vs
decode-encode [] = refl
decode-encode (address a ∷ vs) = ground (arith, decode-encode vs)
decode-encode (uint v bits ∷ vs) = ground (arith, decode-encode vs)
decode-encode (other ∷ vs) = ground (arith, decode-encode vs)

-- The example world with that codec and a drop that costs nothing.
abbrev pub free_net : Net
free_net = record net {
  get_public_drop = λ url seadrop nft. ok (
      some (record {
        mint_price = 0;
        start_time = 900;
        end_time = 2000;
        max_total_mintable_by_wallet = 2;
        fee_bps = 500;
        restrict_fee_recipients = false;
      }));
  abi_encode_input = λ values. some (22 ∷ 26 ∷ 180 ∷ 89 ∷ encode_all values);
  abi_decode_input = decode_all;
}

decodes_as :
    (values : List DynSolValue) (calldata : List ℕ)
    → some (22 ∷ 26 ∷ 180 ∷ 89 ∷ encode_all values) ≡ some calldata
    → DecodesAs free_net values calldata
decodes_as values calldata e = (encode_all values, ground arith, decode-encode values)

pub free_net-AbiRoundTrips : AbiRoundTrips free_net
free_net-AbiRoundTrips = record { round_trip = decodes_as }
