-- ===== src/Audit.antt =====
-- The audit log (mint-sniper/src/audit.rs): the writer's loop over what it receives from the bus. The file is the
-- list of its lines; a JSON value stands as what it prints.
pub mod Trail
use seasniper.Common.{ℕ, String, Bool, Option, none, some, List, [], ◌∷◌, ◌++◌}
use seasniper.Bus.{
  ServerEvent, AckSource, Detail, CopymintSkipReason, Hint, log, armed_state, wallet_update,
  rpc_health, trigger_fired, mint_result, config_changed, copy_opportunity, copymint_skipped,
  delegated_run_started, delegated_mint_result, delegated_run_complete,
}
use seasniper.Url.{Redacted}

pub data Json : Type 0 where
  null : Json
  boolean : Bool → Json
  number : ℕ → Json
  detail_text : Detail → Json
  source_text : AckSource → Json
  url_text : Redacted → Json
  reason_text : CopymintSkipReason → Json
  hint_text : Hint → Json

abbrev pub Fields : Type 0
Fields = List (String × Json)

-- `AuditRecord`, with its detail flattened.
pub record AuditRecord : Type 0 where
  pub ts : ℕ
  pub event : String
  pub detail : Fields

-- A line of the file, or the part of one that a write which failed left.
pub data Line : Type 0 where
  full torn : AuditRecord → Line

-- What `recv` gives: an event, the count of those that the channel dropped, or its end.
pub data Received : Type 0 where
  got : ServerEvent → Received
  lagged : (missed : ℕ) → Received
  closed : Received

-- How an append ends.
pub data Append : Type 0 where
  written not_opened not_written : Append

-- A turn of the loop: what it receives, when, and how its append ends, where there is one.
pub record Turn : Type 0 where
  pub received : Received
  pub now : ℕ
  pub append : Append

unfoldable pub append : Turn → (event : String) → Fields → List Line → List Line
append turn event detail file = elim turn.append [
  | written ↦ file ++ full (record { ts = turn.now; event = event; detail = detail }) ∷ []
  | not_opened ↦ file
  | not_written ↦ file ++ torn (record { ts = turn.now; event = event; detail = detail }) ∷ []
]

abbrev pub optional {ℓ} : {A : Type ℓ} → (A → Json) → Option A → Json
optional f none = null
optional f (some a) = f a

abbrev pub arm_name : Bool → String
arm_name Bool.true = "arm"
arm_name Bool.false = "disarm"

-- The name and the detail of an event that is persisted.
unfoldable pub entry_of : ServerEvent → Option (String × Fields)
entry_of (armed_state armed) = some (arm_name armed, [])
entry_of (trigger_fired manual) = some ("fire", ("manual", boolean manual) ∷ [])
entry_of (mint_result r) = some (
  "mint_result",
  ("address", number r.address)
      ∷ ("success", boolean r.success)
      ∷ ("detail", detail_text r.detail)
      ∷ ("trigger_to_dispatch_ms", optional number r.trigger_to_dispatch_ms)
      ∷ ("send_to_ack_ms", optional number r.send_to_ack_ms)
      ∷ ("dispatch_to_inclusion_ms", optional number r.dispatch_to_inclusion_ms)
      ∷ ("prepare_age_ms", number r.prepare_age_ms)
      ∷ ("ack_source", optional source_text r.ack_source)
      ∷ ("acked_url", optional url_text r.acked_url)
      ∷ [],
)
entry_of config_changed = some ("config_change", [])
entry_of (copy_opportunity o) = some (
  "copy_opportunity",
  ("tracked_wallet", number o.tracked_wallet)
      ∷ ("nft_contract", number o.nft_contract)
      ∷ ("fee_recipient", number o.fee_recipient)
      ∷ ("mint_price_wei", number o.mint_price_wei)
      ∷ ("total_value_wei", number o.total_value_wei)
      ∷ ("quantity", number o.quantity)
      ∷ ("is_free", boolean o.is_free)
      ∷ ("fireable", boolean o.fireable)
      ∷ [],
)
entry_of (copymint_skipped tracked nft reason hint) = some (
  "copymint_skipped",
  ("tracked_wallet", number tracked)
      ∷ ("nft_contract", number nft)
      ∷ ("reason", reason_text reason)
      ∷ ("actionable_hint", optional hint_text hint)
      ∷ [],
)
entry_of (delegated_run_started count spend) = some (
  "delegated_run_started",
  ("delegate_count", number count) ∷ ("estimated_max_spend_wei", number spend) ∷ [],
)
entry_of (delegated_mint_result index receiver success detail) = some (
  "delegated_mint_result",
  ("receiver_index", number index)
      ∷ ("receiver_address", number receiver)
      ∷ ("success", boolean success)
      ∷ ("detail", detail_text detail)
      ∷ [],
)
entry_of (delegated_run_complete minted attempted cost) = some (
  "delegated_run_complete",
  ("minted", number minted)
      ∷ ("attempted", number attempted)
      ∷ ("total_cost_wei", number cost)
      ∷ [],
)
entry_of (log level note ts) = none
entry_of (wallet_update address balance nonce healthy) = none
entry_of (rpc_health url healthy latency) = none

-- An event that is not persisted goes on to the next turn.
abbrev pub append_entry : Turn → Option (String × Fields) → List Line → List Line
append_entry turn none file = file
append_entry turn (some (event, detail)) file = append turn event detail file

abbrev pub file_after : Turn → Received → List Line → List Line
file_after turn (got event) file = append_entry turn (entry_of event) file
file_after turn (lagged missed) file =
    append turn "audit_gap" (("missed_events", number missed) ∷ []) file
file_after turn closed file = file

abbrev pub is_closed : Received → Bool
is_closed closed = Bool.true
is_closed (got event) = Bool.false
is_closed (lagged missed) = Bool.false

-- The loop, which ends where the channel does.
unfoldable pub run_audit_writer : List Turn → List Line → List Line
run_audit_writer [] file = file
run_audit_writer (turn ∷ turns) file =
    let rest = run_audit_writer turns (file_after turn turn.received file) in
    elim (is_closed turn.received) [ Bool.true ↦ file | Bool.false ↦ rest ]
