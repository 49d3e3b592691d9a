-- ===== src/Executor/Warm.antt =====
-- Warming the RPC connections at arm time (`warm_connections` and `warm_sequencer` of
-- mint-sniper/src/executor.rs). A failed or timed out warm-up keeps the provider.
use seasniper.Common.{ℕ, String, Option, none, some, List, [], ◌∷◌, is_empty, if◌then◌else◌}
use seasniper.Common.Results.{Result, ok, err}
use seasniper.Failure.{ReadError, rpc_error, timed_out}
use seasniper.Bus.{
  ServerEvent, log, info, warn, error, skipping_rpc_url, skipping_sequencer_url, connection_warmed,
  connection_cold, connection_warm_timed_out, sequencer_warmed, sequencer_write_only,
  sequencer_cold, sequencer_warm_timed_out,
}
use seasniper.Config.{Config}
use seasniper.Net.{Net, SequencerAnswer}

warm_note : Net → String → Result ReadError ℕ → ServerEvent
warm_note net url (ok _) = log info (connection_warmed url) net.now
warm_note net url (err (rpc_error _)) = log warn (connection_cold url) net.now
warm_note net url (err timed_out) = log warn (connection_warm_timed_out url) net.now

warm_all : Net → List String → List ServerEvent × List String
warm_all net [] = ([], [])
warm_all net (url ∷ urls) =
    let (events, providers) = warm_all net urls in
    elim (net.parse_url url) [
      | none ↦ (log error (skipping_rpc_url url) net.now ∷ events, providers)
      | some _ ↦ (warm_note net url (net.get_block_number url) ∷ events, url ∷ providers)
    ]

unfoldable pub warm_connections : Net → Config → List ServerEvent × List String
unfolding warm_note warm_all
warm_connections net cfg = warm_all net cfg.http_rpc_urls

sequencer_note : Net → String → SequencerAnswer → ServerEvent
sequencer_note net url SequencerAnswer.answered = log info (sequencer_warmed url) net.now
sequencer_note net url SequencerAnswer.error_response = log info (sequencer_write_only url) net.now
sequencer_note net url SequencerAnswer.unreachable = log warn (sequencer_cold url) net.now
sequencer_note net url SequencerAnswer.no_answer = log warn (sequencer_warm_timed_out url) net.now

unfoldable pub warm_sequencer : Net → Config → List ServerEvent × Option String
unfolding sequencer_note
warm_sequencer net cfg =
    let url = cfg.sequencer_http_url in
    if is_empty url then ([], none) else (elim (net.parse_url url) [
      | none ↦ (log error (skipping_sequencer_url url) net.now ∷ [], none)
      | some _ ↦ (sequencer_note net url (net.sequencer_chain_id url) ∷ [], some url)
    ])
