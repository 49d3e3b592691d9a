-- ===== src/Audit/Trail.antt =====
-- What the audit log promises (mint-sniper/src/audit.rs): a trail that is complete, or says where it is not.
use mathlib.Core.List.{append-nil, append_assoc}
use seasniper.Common.{
  arith, Bool, ℕ, String, Option, none, some, List, [], ◌∷◌, ◌++◌, ◌≡◌, refl, sym, ap, ◌∙◌, All,
  length, map, Option-cases, inl, inr,
}
use seasniper.Bus.{
  ServerEvent, Level, Note, log, armed_state, wallet_update, rpc_health, trigger_fired, mint_result,
  config_changed, copy_opportunity, copymint_skipped, delegated_run_started, delegated_mint_result,
  delegated_run_complete,
}
use seasniper.Audit.{
  number, Fields, Line, full, torn, got, lagged, closed, written, Turn, append, entry_of,
  run_audit_writer,
}

-- The channel, which keeps the order of the events that were sent, may drop a run of them, whose count it tells, and
-- ends when there is no sender left.
pub data Delivered : List ServerEvent → List Turn → Type 0 where
  waiting : Delivered [] []
  ended : (t : Turn) (rest : List Turn) → t.received ≡ closed → Delivered [] (t ∷ rest)
  event :
      (e : ServerEvent) (t : Turn) {sent : List ServerEvent} {rest : List Turn}
      → t.received ≡ got e
      → Delivered sent rest
      → Delivered (e ∷ sent) (t ∷ rest)
  dropped :
      (gap : List ServerEvent) (t : Turn) {sent : List ServerEvent} {rest : List Turn}
      → t.received ≡ lagged (length gap)
      → Delivered sent rest
      → Delivered (gap ++ sent) (t ∷ rest)

-- The name and the detail of a line, apart from its time; a torn line has none.
abbrev pub entry_in : Line → Option (String × Fields)
entry_in (full r) = some (r.event, r.detail)
entry_in (torn r) = none

abbrev pub gap_entry : ℕ → String × Fields
gap_entry missed = ("audit_gap", ("missed_events", number missed) ∷ [])

-- The kinds that are not persisted.
pub data IsRoutine : ServerEvent → Type 0 where
  note : (level : Level) (n : Note) (ts : ℕ) → IsRoutine (log level n ts)
  wallet :
      (address : ℕ) (balance : String) (nonce : ℕ) (healthy : Bool)
      → IsRoutine (wallet_update address balance nonce healthy)
  health :
      (url : String) (healthy : Bool) (latency : ℕ) → IsRoutine (rpc_health url healthy latency)

IsRoutine-entry_of : (e : ServerEvent) → entry_of e ≡ none → IsRoutine e
unfolding entry_of
IsRoutine-entry_of (log level n ts) h = note level n ts
IsRoutine-entry_of (wallet_update address balance nonce healthy) h =
    wallet address balance nonce healthy
IsRoutine-entry_of (rpc_health url healthy latency) h = health url healthy latency
IsRoutine-entry_of (armed_state armed) h = ground arith
IsRoutine-entry_of (trigger_fired manual) h = ground arith
IsRoutine-entry_of (mint_result r) h = ground arith
IsRoutine-entry_of config_changed h = ground arith
IsRoutine-entry_of (copy_opportunity o) h = ground arith
IsRoutine-entry_of (copymint_skipped tracked nft reason hint) h = ground arith
IsRoutine-entry_of (delegated_run_started count spend) h = ground arith
IsRoutine-entry_of (delegated_mint_result index receiver success detail) h = ground arith
IsRoutine-entry_of (delegated_run_complete minted attempted cost) h = ground arith

-- A trail accounts for the events that were sent: in their order, each is of a kind that is not persisted, or has
-- its entry, or is counted by the entry of a gap that stands in its place.
pub data Accounts : List ServerEvent → List (String × Fields) → Type 0 where
  all_told : Accounts [] []
  routine :
      (e : ServerEvent) {sent : List ServerEvent} {trail : List (String × Fields)}
      → IsRoutine e
      → Accounts sent trail
      → Accounts (e ∷ sent) trail
  recorded :
      (e : ServerEvent) (x : String × Fields) {sent : List ServerEvent}
      {trail : List (String × Fields)}
      → entry_of e ≡ some x
      → Accounts sent trail
      → Accounts (e ∷ sent) (x ∷ trail)
  missing :
      (gap : List ServerEvent) {sent : List ServerEvent} {trail : List (String × Fields)}
      → Accounts sent trail
      → Accounts (gap ++ sent) (gap_entry (length gap) ∷ trail)

abbrev pub Told : List ServerEvent → List Line → List Line → Type 0
Told sent before after =
    (trail : List (String × Fields)) × Accounts sent trail
    × (map entry_in after ≡ map entry_in before ++ map some trail)

map_entry-append :
    (before : List Line) (r : Line)
    → map entry_in (before ++ r ∷ []) ≡ map entry_in before ++ entry_in r ∷ []
map_entry-append [] r = refl
map_entry-append (l ∷ ls) r = ap (λ ys. entry_in l ∷ ys) (map_entry-append ls r)

append-entry :
    (t : Turn) (x : String × Fields) (file : List Line)
    → t.append ≡ written
    → map entry_in (append t x.0 x.1 file) ≡ map entry_in file ++ some x ∷ []
unfolding append
append-entry t x file good = rw good (map_entry-append file _)

-- One more entry before those of the rest.
told_more :
    (x : String × Fields) (trail : List (String × Fields)) (before middle after : List Line)
    → map entry_in middle ≡ map entry_in before ++ some x ∷ []
    → map entry_in after ≡ map entry_in middle ++ map some trail
    → map entry_in after ≡ map entry_in before ++ map some (x ∷ trail)
told_more x trail before middle after step rest =
    rest
    ∙ ap (λ l. l ++ map some trail) step
    ∙ append_assoc (map entry_in before) (some x ∷ []) (map some trail)

-- While no append fails, the log is a trail of whatever was sent on the bus: every event but a log
-- line, a wallet update and an RPC's health has its entry, in the order of the events, or is counted by an
-- `audit_gap` entry in its place.
pub run_audit_writer-Accounts :
    {sent : List ServerEvent} {turns : List Turn} (file : List Line)
    → Delivered sent turns
    → All (λ (t : Turn). t.append ≡ written) turns
    → Told sent file (run_audit_writer turns file)
unfolding run_audit_writer append
run_audit_writer-Accounts file waiting good = ([], all_told, sym (append-nil (map entry_in file)))
run_audit_writer-Accounts file (ended t rest end) good =
    ([], all_told, rw end (sym (append-nil (map entry_in file))))
run_audit_writer-Accounts file (event e t came more) good = elim (Option-cases (entry_of e)) [
  | inl routine_event ↦
      let (trail, accounts, same) = run_audit_writer-Accounts file more good.1 in
      (
        trail,
        routine e (IsRoutine-entry_of e routine_event) accounts,
        rw came (rw routine_event same),
      )
  | inr (x, persisted) ↦
      let middle = append t x.0 x.1 file in
      let (trail, accounts, same) = run_audit_writer-Accounts middle more good.1 in
      (
        x ∷ trail,
        recorded e x persisted accounts,
        rw came
            (rw persisted (told_more x trail file middle _ (append-entry t x file good.0) same)),
      )
]
run_audit_writer-Accounts file (dropped gap t came more) good =
    let x = gap_entry (length gap) in
    let middle = append t x.0 x.1 file in
    let (trail, accounts, same) = run_audit_writer-Accounts middle more good.1 in
    (
      x ∷ trail,
      missing gap accounts,
      rw came (told_more x trail file middle _ (append-entry t x file good.0) same),
    )
