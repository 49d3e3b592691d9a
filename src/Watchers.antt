-- ===== src/Watchers.antt =====
-- The watchers (mint-sniper/src/watcher.rs): when each trips the trigger. A stream is the list of what it
-- delivers; an answer of `false` is a stream that ended without a trigger.
pub mod Triggers
use seasniper.Common.{
  ℕ, Bool, true, false, Option, none, some, List, [], ◌∷◌, ◌&&◌, ◌==◌, leb, if◌then◌else◌,
}
use seasniper.Common.Results.{Result, ok, err}
use seasniper.Copymint.Watch.{PendingTx, is_to}

-- `result.last().map(|b| *b == 1)`.
abbrev pub last_is_one : List ℕ → Bool
last_is_one [] = false
last_is_one (b ∷ []) = b == 1
last_is_one (b ∷ c ∷ bs) = last_is_one (c ∷ bs)

abbrev pub shows_active : {E : Type 0} → Result E (List ℕ) → Bool
shows_active (ok bytes) = last_is_one bytes
shows_active (err e) = false

-- One call of the mint state for each block; a call that fails is tried again at the next block.
unfoldable pub state_poll : {E : Type 0} → List (Result E (List ℕ)) → Bool
state_poll [] = false
state_poll (answer ∷ answers) =
    let rest = state_poll answers in if shows_active answer then true else rest

abbrev pub is_admin_call : (admin watch_target : ℕ) → PendingTx → Bool
is_admin_call admin watch_target tx = (tx.signer == admin) && is_to watch_target tx.to

unfoldable pub mempool : (admin watch_target : ℕ) → List PendingTx → Bool
mempool admin watch_target [] = false
mempool admin watch_target (tx ∷ txs) =
    let rest = mempool admin watch_target txs in
    if is_admin_call admin watch_target tx then true else rest

-- The loop over the clock's readings: the reading that trips it.
unfoldable pub timestamp : (target_unix : ℕ) → (clock : List ℕ) → Option ℕ
timestamp target_unix [] = none
timestamp target_unix (now ∷ clock) =
    let rest = timestamp target_unix clock in if leb target_unix now then some now else rest
