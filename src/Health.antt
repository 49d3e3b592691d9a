-- ===== src/Health.antt =====
-- Ranking the RPC nodes by a round of health probes (`rank_by_latency` of mint-sniper/src/main.rs) and
-- `AppState::best_http_rpc_url` of mint-sniper/src/state.rs.
pub mod Ranking
pub mod Polls
pub mod Best
use seasniper.Common.{
  ℕ, String, Bool, Option, List, [], ◌∷◌, ◌++◌, map, not, leb, first, select, if◌then◌else◌,
}

-- One row of a round.
pub record Probe : Type 0 where
  pub url : String
  pub healthy : Bool
  pub latency_ms : ℕ

-- `sort_by_key`, a stable sort: an item goes before the first one whose key is at least its own.
unfoldable pub insert : Probe → List Probe → List Probe
insert p [] = p ∷ []
insert p (q ∷ qs) =
    let rest = insert p qs in if leb p.latency_ms q.latency_ms then p ∷ q ∷ qs else q ∷ rest

unfoldable pub sort_by_latency : List Probe → List Probe
sort_by_latency [] = []
sort_by_latency (p ∷ ps) = insert p (sort_by_latency ps)

abbrev pub url_of : Probe → String
url_of p = p.url

abbrev pub is_healthy : Probe → Bool
is_healthy p = p.healthy

abbrev pub is_unhealthy : Probe → Bool
is_unhealthy p = not p.healthy

unfoldable pub rank_by_latency : List Probe → List String
rank_by_latency round =
    map url_of (sort_by_latency (select is_healthy round)) ++ map url_of (select is_unhealthy round)

unfoldable pub best_http_rpc_url : List String → Option String
best_http_rpc_url ranked = first ranked
