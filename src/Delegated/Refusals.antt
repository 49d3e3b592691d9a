-- ===== src/Delegated/Refusals.antt =====
-- What a delegated run has checked when it starts (mint-sniper/src/delegated).
use seasniper.Common.{
  ℕ, suc, zero, String, List, ◌≡◌, refl, arith, length, true, Option-cases, inl, inr,
}
use seasniper.Common.Results.{Result, ok, err, is_ok, Result-cases}
use seasniper.Net.{Net}
use seasniper.Wallet.{ProbeTx}
use seasniper.Delegated.Run.{receivers_from, compare_calls, pre_ok, estimate_spend}

-- The preflight lets a run start only when the call that mints to the receiver goes through, and the one
-- that mints to the payer as well.
pub compare_calls-passes :
    (net : Net) (url : String) (tx : ProbeTx) (value count spend : ℕ)
    (zero_result delegated_result : Result String (Unit {0}))
    → compare_calls net url tx value count zero_result delegated_result ≡ ok (pre_ok spend)
    → (is_ok zero_result ≡ true)
      × (is_ok delegated_result ≡ true)
      × (estimate_spend net url tx value count ≡ ok (pre_ok spend))
unfolding compare_calls
compare_calls-passes net url tx value count spend (ok _) (ok _) e = (refl, refl, e)
compare_calls-passes net url tx value count spend (ok _) (err x) e = ground (arith, e)
compare_calls-passes net url tx value count spend (err x) (ok _) e = ground (arith, e)
compare_calls-passes net url tx value count spend (err x) (err y) e = ground (arith, e)

-- As many receivers are derived as the configuration asks for.
pub receivers_from-length :
    (net : Net) (parent index count : ℕ) (receivers : List ℕ)
    → receivers_from net parent index count ≡ ok receivers
    → length receivers ≡ count
unfolding receivers_from
receivers_from-length net parent index zero receivers e = ground (arith, e)
receivers_from-length net parent index (suc count) receivers e =
    elim (Option-cases (net.child_key parent index)) [
      | inl bad ↦ ground arith
      | inr (key, derived) ↦ elim (Result-cases (receivers_from net parent (suc index) count)) [
        | inr (failure, failed) ↦ ground arith
        | inl (rest, more) ↦
            ground (arith, receivers_from-length net parent (suc index) count rest more)
      ]
    ]
