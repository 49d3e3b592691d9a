-- ===== src/Copymint/Loop.antt =====
-- The copymint watcher's loop over its connections (`run_copymint_watcher` of mint-sniper/src/copymint.rs); the
-- sleeps between the turns are left out.
use seasniper.Common.{
  ℕ, String, Option, none, some, List, [], ◌∷◌, ◌++◌, filter_map, length, is_nil, if◌then◌else◌,
}
use seasniper.Common.Results.{Result, ok, err}
use seasniper.Failure.{Failure}
use seasniper.Bus.{
  info, warn, error, skipping_tracked, none_tracked, not_watching, reconnecting, watching,
}
use seasniper.Config.{Config}
use seasniper.Net.{Net}
use seasniper.Seadrop.{resolve_seadrop_address}
use seasniper.Effect.{Effect, log_now}
use seasniper.Copymint.Watch.{Pending, watch_once}

-- A turn: the world and the configuration at its start, and what the subscription delivers until it ends.
pub record Turn : Type 0 where
  pub net : Net
  pub cfg : Config
  pub subscription : Result Failure (List Pending)

unfoldable pub tracked_of : Net → List String → List ℕ
tracked_of net entries = filter_map net.parse_address entries

abbrev note_if_bad : Net → String → Option ℕ → Option Effect
note_if_bad net entry none = some (log_now net warn (skipping_tracked entry))
note_if_bad net entry (some a) = none

abbrev pub tracking_notes : Net → List String → List Effect
tracking_notes net = filter_map (λ entry. note_if_bad net entry (net.parse_address entry))

abbrev pub then_effects : List Effect → Option (List Effect) → Option (List Effect)
then_effects first none = none
then_effects first (some more) = some (first ++ more)

-- With the addresses: the connection, and the stream on it.
unfoldable pub watch_with :
    Net → (tracked : List ℕ) (seadrop : ℕ) → Result Failure (List Pending) → Option (List Effect)
watch_with net tracked seadrop (err e) = some (log_now net error (reconnecting e) ∷ [])
watch_with net tracked seadrop (ok stream) =
    then_effects (log_now net info (watching (length tracked)) ∷ [])
      (watch_once tracked seadrop stream)

abbrev pub watch_at : Turn → (tracked : List ℕ) → Result Failure ℕ → Option (List Effect)
watch_at t tracked (err e) = some (log_now t.net error (not_watching e) ∷ [])
watch_at t tracked (ok seadrop) = watch_with t.net tracked seadrop t.subscription

abbrev pub watch_tracked : Turn → (tracked : List ℕ) → Option (List Effect)
watch_tracked t tracked =
    if is_nil tracked
    then some (log_now t.net error none_tracked ∷ [])
    else watch_at t tracked (resolve_seadrop_address t.net t.cfg.seadrop_address)

unfoldable pub watch_turn : Turn → Option (List Effect)
watch_turn t =
    if is_nil t.cfg.tracked_wallets
    then some []
    else then_effects (tracking_notes t.net t.cfg.tracked_wallets)
        (watch_tracked t (tracked_of t.net t.cfg.tracked_wallets))

-- The loop. `none` is a panic, which ends the task.
unfoldable pub run_copymint_watcher : List Turn → Option (List Effect)
run_copymint_watcher [] = some []
run_copymint_watcher (t ∷ turns) = elim (watch_turn t) [
  | none ↦ none
  | some effects ↦ then_effects effects (run_copymint_watcher turns)
]
