-- ===== src/Seadrop/Words.antt =====
-- When the read of a drop panics (mint-sniper/src/seadrop.rs).
use seasniper.Common.{
  ℕ, ◌^◌, ◌≤◌, ◌⊎◌, String, none, some, ◌≡◌, arith, true, Option-cases, inl, inr,
}
use seasniper.Common.Results.{ok, err, Result-cases}
use seasniper.Failure.{Failure, is_panic}
use seasniper.Net.{Net, PublicDropWords}
use seasniper.Seadrop.{fetch_public_drop}

-- The node's drop has a word that is read as a `u64` and does not fit.
pub record Wide (net : Net) (url : String) (seadrop nft : ℕ) : Type 0 where
  pub words : PublicDropWords
  pub answered : net.get_public_drop url seadrop nft ≡ ok (some words)
  pub wide :
      (2 ^ 64 ≤ words.start_time)
      ⊎ ((2 ^ 64 ≤ words.end_time) ⊎ (2 ^ 64 ≤ words.max_total_mintable_by_wallet))

pub fetch_public_drop-Wide :
    (net : Net) (url : String) (seadrop nft : ℕ) (e : Failure)
    → fetch_public_drop net url seadrop nft ≡ err e
    → is_panic e ≡ true
    → Wide net url seadrop nft
unfolding fetch_public_drop
fetch_public_drop-Wide net url seadrop nft e h panic = elim (Option-cases (net.parse_url url)) [
  | inl bad ↦ ground arith
  | inr (u, parsed) ↦ elim (Result-cases (net.get_public_drop url seadrop nft)) [
    | inr (failure, failed) ↦ ground arith
    | inl (none, nothing) ↦ ground arith
    | inl (some w, read) ↦ record { words = w; answered = read; wide = ground arith }
  ]
]
