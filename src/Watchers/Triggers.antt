-- ===== src/Watchers/Triggers.antt =====
-- Each watcher trips exactly on what it waits for (mint-sniper/src/watcher.rs).
use seasniper.Common.{ℕ, List, [], ◌∷◌, ◌≡◌, refl, arith, any, leb, find}
use seasniper.Common.Results.{Result}
use seasniper.Copymint.Watch.{PendingTx}
use seasniper.Watchers.{state_poll, shows_active, mempool, is_admin_call, timestamp}

state_poll-any :
    {E : Type 0} (answers : List (Result E (List ℕ)))
    → state_poll answers ≡ any shows_active answers
unfolding state_poll
state_poll-any [] = refl
state_poll-any (answer ∷ answers) = ground (arith, state_poll-any answers)

mempool-any :
    (admin watch_target : ℕ) (txs : List PendingTx)
    → mempool admin watch_target txs ≡ any (is_admin_call admin watch_target) txs
unfolding mempool
mempool-any admin watch_target [] = refl
mempool-any admin watch_target (tx ∷ txs) = ground (arith, mempool-any admin watch_target txs)

timestamp-find : (target : ℕ) (clock : List ℕ) → timestamp target clock ≡ find (leb target) clock
unfolding timestamp
timestamp-find target [] = refl
timestamp-find target (now ∷ clock) = ground (arith, timestamp-find target clock)

-- The state watcher trips exactly when some block's call shows the mint active, the mempool watcher exactly
-- when the admin's call to the target is seen, and the clock at its first reading that reaches the target.
pub watchers-trip :
    {E : Type 0} (answers : List (Result E (List ℕ))) (admin watch_target target : ℕ)
    (txs : List PendingTx) (clock : List ℕ)
    → (state_poll answers ≡ any shows_active answers)
      × (mempool admin watch_target txs ≡ any (is_admin_call admin watch_target) txs)
      × (timestamp target clock ≡ find (leb target) clock)
watchers-trip answers admin watch_target target txs clock =
    (state_poll-any answers, mempool-any admin watch_target txs, timestamp-find target clock)
