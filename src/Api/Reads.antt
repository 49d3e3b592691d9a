-- ===== src/Api/Reads.antt =====
-- The routes of mint-sniper/src/api.rs that only read.
use seasniper.Common.{ℕ, String, Option, none, some, List, [], refl, All}
use seasniper.Common.Results.{Result, ok, err}
use seasniper.Failure.{Failure}
use seasniper.Copymint.Eligibility.{CopymintEligibilityReport, check_eligibility}
use seasniper.Opensea.{SearchHit, search_collections}
use seasniper.Target.{ResolvedTarget}
use seasniper.Identity.Lifetime.{Earned}
use seasniper.Api.{best_rpc, App, Outside, Reply}
use seasniper.Api.Orders.{report_for, hits_answer, search_with, report_answer, resolve_answer}
use seasniper.Api.Quiet.{Quiet}

pub reads-Quiet :
    (app : App) (reply : Reply)
    → All Earned app.accounts.sessions
    → Quiet app.config (app, [], reply)
reads-Quiet app reply h = record { silent = refl; kept = refl; earned = h }

pub report_answer-Quiet :
    (app : App) (x : Option (Result Failure CopymintEligibilityReport))
    → All Earned app.accounts.sessions
    → Quiet app.config (report_answer app x)
report_answer-Quiet app none h = reads-Quiet app _ h
report_answer-Quiet app (some (err e)) h = reads-Quiet app _ h
report_answer-Quiet app (some (ok report)) h = reads-Quiet app _ h

pub hits_answer-Quiet :
    (app : App) (x : Result Failure (List SearchHit))
    → All Earned app.accounts.sessions
    → Quiet app.config (hits_answer app x)
hits_answer-Quiet app (err e) h = reads-Quiet app _ h
hits_answer-Quiet app (ok hits) h = reads-Quiet app _ h

module _ (w : Outside) where
  pub report_for-Quiet :
      (app : App) (o : Option ℕ)
      → All Earned app.accounts.sessions
      → Quiet app.config (report_for w app o)
  report_for-Quiet app none h = reads-Quiet app _ h
  report_for-Quiet app (some contract) h =
      report_answer-Quiet app
        (check_eligibility w.net app.config (best_rpc app) app.wallet_addresses contract) h

  pub resolve_answer-Quiet :
      (app : App) (x : Option (Result Failure ResolvedTarget))
      → All Earned app.accounts.sessions
      → Quiet app.config (resolve_answer app w.net.now x)
  resolve_answer-Quiet app none h = reads-Quiet app _ h
  resolve_answer-Quiet app (some (err e)) h = reads-Quiet app _ h
  resolve_answer-Quiet app (some (ok target)) h = reads-Quiet app _ h

  pub search_with-Quiet :
      (query : String) (app : App) (key : Option String)
      → All Earned app.accounts.sessions
      → Quiet app.config (search_with w query app key)
  search_with-Quiet query app none h = reads-Quiet app _ h
  search_with-Quiet query app (some key) h =
      hits_answer-Quiet app (search_collections (w.search key query 8)) h
