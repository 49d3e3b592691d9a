-- ===== src/Control/Clock.antt =====
-- The clock check (`measure_clock_drift_ms` and `log_clock_drift_check` of mint-sniper/src/main.rs).
use seasniper.Common.{ℕ, String, Option, none, some, List, [], ◌∷◌, leb, is_empty, if◌then◌else◌}
use seasniper.Common.Int.{ℤ, unsigned_abs}
use seasniper.Bus.{warn, clock_drift, clock_check_failed}
use seasniper.Net.{Net}
use seasniper.Calendar.HttpDate.{parse_http_date, ◌>>=◌}
use seasniper.Effect.{Effect, log_now}

drift_report : Net → ℕ → Option ℤ → List Effect × Option ℤ
drift_report net threshold none = (log_now net warn clock_check_failed ∷ [], none)
drift_report net threshold (some drift) = (
  if leb threshold (unsigned_abs drift) then log_now net warn clock_drift ∷ [] else [],
  some drift,
)

unfoldable pub measure_clock_drift_ms : Net → String → Option ℤ
measure_clock_drift_ms net check_url = do
  reply ← net.head check_url
  rtt ← reply.rtt
  date_header ← reply.date
  server_unix ← parse_http_date date_header
  local_unix_at_send ← reply.sent_at
  some (net.drift_ms local_unix_at_send rtt server_unix)

unfoldable pub log_clock_drift_check : Net → String → ℕ → List Effect × Option ℤ
unfolding drift_report
log_clock_drift_check net check_url threshold =
    if is_empty check_url
    then ([], none)
    else drift_report net threshold (measure_clock_drift_ms net check_url)
