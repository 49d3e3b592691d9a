-- ===== src/Executor/Prepare/Batch.antt =====
-- What a signed batch holds: for each wallet, in order, a transaction that its key signed, to the asked contract.
use seasniper.Common.{ℕ, String, List, [], ◌∷◌, ◌≡◌, arith, All, Pointwise, inl, inr}
use seasniper.Common.Results.{ok, Result-cases}
use seasniper.Config.{Config}
use seasniper.Wallet.{ManagedWallet}
use seasniper.Net.{Net}
use seasniper.Executor.Fees.{gas_jitter_pct}
use seasniper.Executor.Prepare.{
  PreparedWallet, MintCall, Quote, quote, tx_for, prepare_wallet, prepare_wallets, prepare_fire,
}

-- The transaction is signed by the wallet's key, at its next nonce, for this contract and calldata.
pub record SignedFor (contract : ℕ) (calldata : List ℕ) (w : ManagedWallet) (pw : PreparedWallet)
    : Type 0 where
  pub address_of : pw.address ≡ w.address
  pub key_of : pw.raw_tx.key ≡ w.signer
  pub nonce_of : pw.raw_tx.request.nonce ≡ w.next_nonce
  pub to_of : pw.raw_tx.request.to ≡ contract
  pub input_of : pw.raw_tx.request.input ≡ calldata

abbrev pub BatchFor : ℕ → List ℕ → List ManagedWallet → List PreparedWallet → Type 0
BatchFor contract calldata = Pointwise (SignedFor contract calldata)

abbrev pub PaysValue : ℕ → PreparedWallet → Type 0
PaysValue value pw = pw.raw_tx.request.value ≡ value

module _ (net : Net) (cfg : Config) (call : MintCall) where
  prepare_wallet-SignedFor :
      (q : Quote) (w : ManagedWallet) (pw : PreparedWallet)
      → prepare_wallet net cfg call q w ≡ ok pw
      → SignedFor call.contract call.calldata w pw × PaysValue call.value pw
  unfolding prepare_wallet tx_for
  prepare_wallet-SignedFor q w pw e = elim (Result-cases (gas_jitter_pct net cfg w.address)) [
    | inr (failure, refused) ↦ ground arith
    | inl (pct, sampled) ↦ elim (Result-cases (net.sign w.signer (tx_for net cfg call q w pct))) [
      | inl (signature, signed) ↦ ground arith
      | inr (failure, refused) ↦ ground arith
    ]
  ]

  prepare_wallets-BatchFor :
      (q : Quote) (ws : List ManagedWallet) (batch : List PreparedWallet)
      → (prepare_wallets net cfg call q ws).1 ≡ ok batch
      → BatchFor call.contract call.calldata ws batch × All (PaysValue call.value) batch
  unfolding prepare_wallets
  prepare_wallets-BatchFor q [] batch e = let same : batch ≡ [] = ground arith in rw same (tt, tt)
  prepare_wallets-BatchFor q (w ∷ ws) batch e =
      elim (Result-cases (prepare_wallet net cfg call q w)) [
        | inr (failure, refused) ↦ ground arith
        | inl (pw, signed) ↦ elim (Result-cases (prepare_wallets net cfg call q ws).1) [
          | inr (failure, refused) ↦ ground arith
          | inl (rest, all_signed) ↦
              let head = prepare_wallet-SignedFor q w pw signed in
              let tail = prepare_wallets-BatchFor q ws rest all_signed in
              let same : batch ≡ pw ∷ rest = ground arith in
              rw same ((head.0, tail.0), (head.1, tail.1))
        ]
      ]

  -- A successful `prepare_fire` holds one transaction for each wallet, in order: signed by that wallet's
  -- key, at its next nonce, to the asked contract with the asked calldata and value.
  pub prepare_fire-BatchFor :
      (ws : List ManagedWallet) (providers : List String) (batch : List PreparedWallet)
      → (prepare_fire net cfg ws call providers).1 ≡ ok batch
      → BatchFor call.contract call.calldata ws batch × All (PaysValue call.value) batch
  unfolding prepare_fire
  prepare_fire-BatchFor ws providers batch e =
      elim (Result-cases (quote net cfg ws call providers)) [
        | inl (q, quoted) ↦ prepare_wallets-BatchFor q ws batch (ground arith)
        | inr (failure, refused) ↦ ground arith
      ]
