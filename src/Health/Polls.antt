-- ===== src/Health/Polls.antt =====
-- The background loops of mint-sniper/src/main.rs, one round each (`balance_poll_loop`, `rpc_health_poll_loop`), and
-- `spawn_supervised_watcher`.
use seasniper.Common.{
  ℕ, String, Bool, true, Option, none, some, List, [], ◌∷◌, map, not, select, is_some, is_nil,
  str_eq, if◌then◌else◌,
}
use seasniper.Common.Results.{Result, ok, err, is_ok}
use seasniper.Failure.{Failure}
use seasniper.Bus.{wallet_update, rpc_health, error, watcher_failed}
use seasniper.Net.{Net}
use seasniper.Effect.{Effect, emit, send, log_now, disarm}
use seasniper.Health.{Probe, rank_by_latency}

abbrev pub parses : Net → String → Bool
parses net url = is_some (net.parse_url url)

-- The nodes that are probed: a URL that does not parse is left out.
unfoldable pub health_providers : Net → List String → List String
health_providers net urls = select (parses net) urls

-- `elapsed` is how long the node's answer took.
unfoldable pub probe : Net → (elapsed : String → ℕ) → String → Probe
probe net elapsed url = record {
  url = url;
  healthy = is_ok (net.get_block_number url);
  latency_ms = elapsed url;
}

abbrev health_event : Probe → Effect
health_event p = emit (rpc_health p.url p.healthy p.latency_ms)

-- A ranking that is not empty replaces the last one.
abbrev pub ranked_or : (last : List String) → List String → List String
ranked_or last ranked = if not (is_nil ranked) then ranked else last

unfoldable pub rpc_health_round :
    Net → (elapsed : String → ℕ) (providers last : List String) → List String × List Effect
rpc_health_round net elapsed providers last =
    let round = map (probe net elapsed) providers in
    (ranked_or last (rank_by_latency round), map health_event round)

pub record WalletStatus : Type 0 where
  pub address : String
  pub balance_eth : String
  pub nonce : ℕ
  pub healthy : Bool

-- The first entry of the address, where there is one.
unfoldable pub set_balance : (address balance_eth : String) → List WalletStatus → List WalletStatus
set_balance address balance [] = []
set_balance address balance (s ∷ rest) =
    let later = set_balance address balance rest in
    if str_eq s.address address then (record s { balance_eth = balance }) ∷ rest else s ∷ later

-- What the balance loop reads: the nodes' answers, and how amounts and addresses are printed.
pub record Reads : Type 0 where
  pub net : Net
  pub get_balance : (url : String) (address : ℕ) → Option ℕ
  pub format_ether : ℕ → String
  pub hex : ℕ → String

-- The node of the round: the best one, where it is another and parses.
abbrev pub switched : Net → (current : String) → (best : Option String) → String
switched net current none = current
switched net current (some best) =
    if str_eq best current then current else (if parses net best then best else current)

unfoldable pub read_balances :
    Reads
    → (url : String) (addresses : List ℕ) → List WalletStatus
    → List WalletStatus × List Effect
read_balances r url [] status = (status, [])
read_balances r url (a ∷ addresses) status = elim (r.get_balance url a) [
  | none ↦ read_balances r url addresses status
  | some balance ↦
      let (later, effects) =
        read_balances r url addresses (set_balance (r.hex a) (r.format_ether balance) status) in
      (later, emit (wallet_update a (r.format_ether balance) 0 true) ∷ effects)
]

-- A round, from the node of the last one.
unfoldable pub balance_round :
    Reads
    → (current : String) (best : Option String) (addresses : List ℕ) → List WalletStatus
    → String × List WalletStatus × List Effect
balance_round r current best addresses status =
    let url = switched r.net current best in
    let (later, effects) = read_balances r url addresses status in (url, later, effects)

-- What the supervising task does when the watcher ends.
unfoldable pub supervised : Net → Result Failure (Unit {0}) → List Effect
supervised net (ok x) = []
supervised net (err e) = log_now net error (watcher_failed e) ∷ send disarm ∷ []
