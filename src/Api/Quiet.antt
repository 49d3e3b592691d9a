-- ===== src/Api/Quiet.antt =====
-- What an answer that orders nothing leaves, for each way in which the routes of sessions go on
-- (mint-sniper/src/api.rs).
use seasniper.Common.{
  ℕ, String, Bool, true, false, Option, none, some, List, ◌≡◌, refl, arith, any, All, find,
  Option-cases, inl, inr,
}
use seasniper.Common.Results.{Result, ok, err}
use seasniper.Failure.{Failure}
use seasniper.Config.{Config}
use seasniper.Effect.{
  Effect, emit, send, spawn, abort, broadcast, arm, disarm, fire_now, prepare, fire_copymint,
  set_target, fire_delegated,
}
use seasniper.Identity.Session.{
  Session, Table, Faults, Done, get_active, is_active, touch, touched, totp_verified, exec,
  mark_totp_verified,
}
use seasniper.Identity.Lifetime.{Earned, exec-Earned}
use seasniper.Identity.Totp.{TotpRow}
use seasniper.Identity.Guard.{Request, Accounts, Refusal, require_session}
use seasniper.Identity.Webauthn.{Devices}
use seasniper.Identity.Credentials.{Library, Credentials}
use seasniper.Api.{App, Outside, Outcome}
use seasniper.Api.Signin.{
  with_session, in_session, emailed, by_library, challenge_answer, finished, secret_answer, judged,
  marked, devices_answer, revoke_answer,
}
use seasniper.Api.Google.{with_codes}

-- A message to the control loop that is not a disarm.
abbrev pub is_order : Effect → Bool
is_order (send disarm) = false
is_order (send arm) = true
is_order (send fire_now) = true
is_order (send prepare) = true
is_order (send (fire_copymint contract calldata value)) = true
is_order (send (set_target nft calldata value)) = true
is_order (send fire_delegated) = true
is_order (emit e) = false
is_order (spawn t) = false
is_order (abort t) = false
is_order (broadcast url envelope) = false

-- An answer that leaves the configuration and the admin tier as they must be, and orders nothing.
pub record Quiet (cfg : Config) (o : Outcome) : Type 0 where
  pub silent : any is_order o.1 ≡ false
  pub kept : o.0.config ≡ cfg
  pub earned : All Earned o.0.accounts.sessions

pub record Sound (cfg : Config) (app : App) : Type 0 where
  pub same : app.config ≡ cfg
  pub earned : All Earned app.accounts.sessions

pub touch-Earned :
    (faults : Faults) (id : String) (now : ℕ) (table : Table)
    → All Earned table
    → All Earned (touch faults id now table).0
touch-Earned faults id now table h = unfold exec in exec-Earned faults (touched id now) table h

pub require_session-Earned :
    (read_faults touch_faults : Faults) (now : ℕ) (accounts : Accounts) (request : Request)
    → All Earned accounts.sessions
    → All Earned (require_session read_faults touch_faults now accounts request).0.sessions
unfolding require_session get_active
require_session-Earned read_faults touch_faults now accounts request h =
    elim (Option-cases request.session_cookie) [
      | inl missing ↦ ground (arith, h)
      | inr (id, cookie) ↦ elim (Option-cases (read_faults 0)) [
        | inr (failure, down) ↦ ground (arith, h)
        | inl fine ↦ elim (Option-cases (find (is_active id) accounts.sessions)) [
          | inl gone ↦ ground (arith, h)
          | inr (s, found) ↦ ground (arith, touch-Earned touch_faults s.id now accounts.sessions h)
        ]
      ]
    ]

module _ (cfg : Config) where
  pub in_session-Quiet :
      (next : Session → App → Outcome) (app : App) (x : Accounts × Result Refusal Session)
      → ((s : Session) (a : App) → Sound cfg a → Quiet cfg (next s a))
      → app.config ≡ cfg
      → All Earned x.0.sessions
      → Quiet cfg (in_session next app x)
  in_session-Quiet next app (accounts, err e) quiet same earned = record {
    silent = refl;
    kept = same;
    earned = earned;
  }
  in_session-Quiet next app (accounts, ok s) quiet same earned =
      quiet s (record app { accounts = accounts }) (record { same = same; earned = earned })

  pub with_session-Quiet :
      (w : Outside) (request : Request) (app : App) (next : Session → App → Outcome)
      → ((s : Session) (a : App) → Sound cfg a → Quiet cfg (next s a))
      → Sound cfg app
      → Quiet cfg (with_session w request app next)
  unfolding with_session
  with_session-Quiet w request app next quiet sound =
      in_session-Quiet next app
        (require_session (w.faults 0) (w.faults 1) w.net.now app.accounts request) quiet sound.same
        (require_session-Earned (w.faults 0) (w.faults 1) w.net.now app.accounts request
          sound.earned)

  pub emailed-Quiet :
      (next : String → Outcome) (app : App) (r : Result Failure String)
      → ((email : String) → Quiet cfg (next email))
      → Sound cfg app
      → Quiet cfg (emailed next app r)
  emailed-Quiet next app (err e) quiet sound = record {
    silent = refl;
    kept = sound.same;
    earned = sound.earned;
  }
  emailed-Quiet next app (ok email) quiet sound = quiet email

  pub by_library-Quiet :
      (app : App) (next : Library → Outcome) (o : Option Library)
      → ((lib : Library) → Quiet cfg (next lib))
      → Sound cfg app
      → Quiet cfg (by_library app next o)
  by_library-Quiet app next none quiet sound = record {
    silent = refl;
    kept = sound.same;
    earned = sound.earned;
  }
  by_library-Quiet app next (some lib) quiet sound = quiet lib

  pub secret_answer-Quiet :
      (app : App) (x : List TotpRow × Result Failure (Unit {0}))
      → Sound cfg app
      → Quiet cfg (secret_answer app x)
  secret_answer-Quiet app (rows, err e) sound = record {
    silent = refl;
    kept = sound.same;
    earned = sound.earned;
  }
  secret_answer-Quiet app (rows, ok x) sound = record {
    silent = refl;
    kept = sound.same;
    earned = sound.earned;
  }

  pub marked-Quiet :
      (w : Outside) (more : List Effect) (app : App) (d : Done)
      → any is_order more ≡ false
      → app.config ≡ cfg
      → All Earned d.0
      → Quiet cfg (marked w more app d)
  marked-Quiet w more app (table, ok x) silent same earned = record {
    silent = silent;
    kept = same;
    earned = earned;
  }
  marked-Quiet w more app (table, err e) silent same earned = record {
    silent = silent;
    kept = same;
    earned = earned;
  }

  pub judged-Quiet :
      (w : Outside) (more : List Effect) (s : Session) (app : App)
      (x : List TotpRow × Result Failure Bool)
      → any is_order more ≡ false
      → Sound cfg app
      → Quiet cfg (judged w more s app x)
  judged-Quiet w more s app (rows, err e) silent sound = record {
    silent = refl;
    kept = sound.same;
    earned = sound.earned;
  }
  judged-Quiet w more s app (rows, ok false) silent sound = record {
    silent = refl;
    kept = sound.same;
    earned = sound.earned;
  }
  judged-Quiet w more s app (rows, ok true) silent sound =
      marked-Quiet w more (with_codes rows app)
        (mark_totp_verified (w.faults 4) s.id w.net.now app.accounts.sessions) silent sound.same
        (unfold exec in
          exec-Earned (w.faults 4) (totp_verified s.id w.net.now) app.accounts.sessions
            sound.earned)

  pub challenge_answer-Quiet :
      (app : App) (x : Devices × Result Failure ℕ)
      → app.config ≡ cfg
      → All Earned x.0.sessions
      → Quiet cfg (challenge_answer app x)
  challenge_answer-Quiet app (d, err e) same earned = record {
    silent = refl;
    kept = same;
    earned = earned;
  }
  challenge_answer-Quiet app (d, ok challenge) same earned = record {
    silent = refl;
    kept = same;
    earned = earned;
  }

  pub finished-Quiet :
      (status : ℕ) (news : List Effect) (app : App) (x : Devices × Result Failure (Unit {0}))
      → any is_order news ≡ false
      → app.config ≡ cfg
      → All Earned x.0.sessions
      → Quiet cfg (finished status news app x)
  finished-Quiet status news app (d, err e) silent same earned = record {
    silent = refl;
    kept = same;
    earned = earned;
  }
  finished-Quiet status news app (d, ok x) silent same earned = record {
    silent = silent;
    kept = same;
    earned = earned;
  }

  pub devices_answer-Quiet :
      (app : App) (r : Result Failure Credentials)
      → Sound cfg app
      → Quiet cfg (devices_answer app r)
  devices_answer-Quiet app (err e) sound = record {
    silent = refl;
    kept = sound.same;
    earned = sound.earned;
  }
  devices_answer-Quiet app (ok devices) sound = record {
    silent = refl;
    kept = sound.same;
    earned = sound.earned;
  }

  pub revoke_answer-Quiet :
      (w : Outside) (id : String) (app : App) (x : Credentials × Result Failure Bool)
      → Sound cfg app
      → Quiet cfg (revoke_answer w id app x)
  revoke_answer-Quiet w id app (rows, err e) sound = record {
    silent = refl;
    kept = sound.same;
    earned = sound.earned;
  }
  revoke_answer-Quiet w id app (rows, ok false) sound = record {
    silent = refl;
    kept = sound.same;
    earned = sound.earned;
  }
  revoke_answer-Quiet w id app (rows, ok true) sound = record {
    silent = refl;
    kept = sound.same;
    earned = sound.earned;
  }
