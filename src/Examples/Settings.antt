-- ===== src/Examples/Settings.antt =====
-- The theorems on the configuration, the ranking and the calendar, at small inputs.
use seasniper.Common.{refl, map, String, Bool, true, false, List, [], ◌∷◌, ◌≡◌, ◌↔◌, str_eq}
use seasniper.Common.Results.{ok}
use seasniper.Config.{Config}
use seasniper.Config.Validate.{validate}
use seasniper.Config.Conditions.{Accepted}
use seasniper.Config.Accepted.{validate-Accepted}
use seasniper.Health.{Probe}
use seasniper.Health.Polls.{probe, rpc_health_round}
use seasniper.Health.Best.{BestFirst, rpc_health_round-BestFirst}
use seasniper.Examples.World.{net, cfg, node}

abbrev racing : Config
racing = record cfg { gas_jitter_pct = 0 }

validate-Accepted_example : (validate net racing ≡ ok tt) ↔ Accepted net racing
validate-Accepted_example = validate-Accepted net racing

abbrev round : List Probe
round =
    (record { url = "a"; healthy = true; latency_ms = 80 })
    ∷ (record { url = "b"; healthy = false; latency_ms = 5 })
    ∷ (record { url = "c"; healthy = true; latency_ms = 20 })
    ∷ []

abbrev is_a : String → Bool
is_a url = str_eq url "a"

rpc_health_round-BestFirst_example :
    BestFirst
      (map (probe net (λ url. 30)) (node ∷ []))
      (rpc_health_round net (λ url. 30) (node ∷ []) []).0
rpc_health_round-BestFirst_example = rpc_health_round-BestFirst net (λ url. 30) (node ∷ []) [] refl
