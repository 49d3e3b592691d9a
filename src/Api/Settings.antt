-- ===== src/Api/Settings.antt =====
-- What the routes that write the configuration leave in the memory and on the disk (mint-sniper/src/api.rs).
use seasniper.Common.{none, some, ◌≡◌, ◌⊎◌}
use seasniper.Common.Results.{ok}
use seasniper.Failure.{Failure}
use seasniper.Config.{Config}
use seasniper.Config.Validate.{validate}
use seasniper.Effect.{Effect}
use seasniper.Api.{App, Outside, Outcome}

-- What a request leaves of the configuration, in the memory and on the disk.
pub record Kept (w : Outside) (before : App) (o : Outcome) : Type 0 where
  pub memory : (o.0.config ≡ before.config) ⊎ (validate w.net o.0.config ≡ ok tt)
  pub disk :
      (o.0.on_disk ≡ before.on_disk)
      ⊎ ((o.0.on_disk ≡ none)
          ⊎ ((o.0.on_disk ≡ some o.0.config) × (validate w.net o.0.config ≡ ok tt)))
