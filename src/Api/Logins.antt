-- ===== src/Api/Logins.antt =====
-- The Google sign-in and the logout (mint-sniper/src/api.rs) order nothing and make no session an admin.
use seasniper.Common.{String, Option, none, some, List, ◌≡◌, refl, All}
use seasniper.Common.Results.{Result, ok, err}
use seasniper.Failure.{Failure}
use seasniper.Config.{Config}
use seasniper.Identity.Session.{Done, create, revoked, exec, create_google_verified_session, revoke}
use seasniper.Identity.Lifetime.{Earned, exec-Earned}
use seasniper.Identity.Users.{User, find_or_create_user}
use seasniper.Identity.Oidc.{Provider, Flows, GoogleClaims, complete_login}
use seasniper.Api.{App, Outside}
use seasniper.Api.Google.{
  user_found, login_completed, callback_by, login_by, logout_by, Callback, callback_with,
  open_session, signed_in, logged_out,
}
use seasniper.Api.Quiet.{Quiet, Sound}

module _ (cfg : Config) (w : Outside) where
  pub signed_in-Quiet :
      (email : String) (app : App) (d : Done)
      → app.config ≡ cfg
      → All Earned d.0
      → Quiet cfg (signed_in w email app d)
  signed_in-Quiet email app (table, err e) same earned = record {
    silent = refl;
    kept = same;
    earned = earned;
  }
  signed_in-Quiet email app (table, ok x) same earned = record {
    silent = refl;
    kept = same;
    earned = earned;
  }

  pub user_found-Quiet :
      (claims : GoogleClaims) (app : App) (x : List User × Result Failure String)
      → Sound cfg app
      → Quiet cfg (user_found w claims app x)
  user_found-Quiet claims app (users, err e) sound = record {
    silent = refl;
    kept = sound.same;
    earned = sound.earned;
  }
  user_found-Quiet claims app (users, ok user) sound =
      signed_in-Quiet claims.email (record app { users = users })
        (create_google_verified_session (w.faults 1) w.new_session_id user w.net.now
          app.accounts.sessions)
        sound.same
        (unfold exec in
          exec-Earned (w.faults 1) (create w.new_session_id user w.net.now) app.accounts.sessions
            sound.earned)

  pub login_completed-Quiet :
      (app : App) (x : Flows × Result Failure GoogleClaims)
      → Sound cfg app
      → Quiet cfg (login_completed w app x)
  unfolding open_session
  login_completed-Quiet app (flows, err e) sound = record {
    silent = refl;
    kept = sound.same;
    earned = sound.earned;
  }
  login_completed-Quiet app (flows, ok claims) sound =
      user_found-Quiet claims (record app { flows = flows })
        (find_or_create_user (w.faults 0) w.new_user_id claims.google_sub claims.email w.net.now
          app.users)
        (record { same = sound.same; earned = sound.earned })

  pub callback_with-Quiet :
      (provider : Provider) (app : App) (error code state flow_cookie : Option String)
      → Sound cfg app
      → Quiet cfg (callback_with w provider app error code state flow_cookie)
  unfolding callback_with
  callback_with-Quiet provider app (some e) code state flow sound = record {
    silent = refl;
    kept = sound.same;
    earned = sound.earned;
  }
  callback_with-Quiet provider app none none state flow sound = record {
    silent = refl;
    kept = sound.same;
    earned = sound.earned;
  }
  callback_with-Quiet provider app none (some code) none flow sound = record {
    silent = refl;
    kept = sound.same;
    earned = sound.earned;
  }
  callback_with-Quiet provider app none (some code) (some state) none sound = record {
    silent = refl;
    kept = sound.same;
    earned = sound.earned;
  }
  callback_with-Quiet provider app none (some code) (some state) (some flow_id) sound =
      login_completed-Quiet app (complete_login provider flow_id code state w.net.now app.flows)
        sound

  pub callback_by-Quiet :
      (q : Callback) (app : App) (o : Option Provider)
      → Sound cfg app
      → Quiet cfg (callback_by w q app o)
  callback_by-Quiet q app none sound = record {
    silent = refl;
    kept = sound.same;
    earned = sound.earned;
  }
  callback_by-Quiet q app (some provider) sound =
      callback_with-Quiet provider app q.error q.code q.state q.flow_cookie sound

  pub login_by-Quiet :
      (app : App) (o : Option Provider) → Sound cfg app → Quiet cfg (login_by w app o)
  login_by-Quiet app none sound = record { silent = refl; kept = sound.same; earned = sound.earned }
  login_by-Quiet app (some provider) sound = record {
    silent = refl;
    kept = sound.same;
    earned = sound.earned;
  }

  pub logged_out-Quiet :
      (app : App) (d : Done) → app.config ≡ cfg → All Earned d.0 → Quiet cfg (logged_out w app d)
  logged_out-Quiet app (table, ok x) same earned = record {
    silent = refl;
    kept = same;
    earned = earned;
  }
  logged_out-Quiet app (table, err e) same earned = record {
    silent = refl;
    kept = same;
    earned = earned;
  }

  pub logout_by-Quiet :
      (app : App) (cookie : Option String) → Sound cfg app → Quiet cfg (logout_by w app cookie)
  logout_by-Quiet app none sound = record {
    silent = refl;
    kept = sound.same;
    earned = sound.earned;
  }
  logout_by-Quiet app (some id) sound =
      logged_out-Quiet app (revoke (w.faults 0) id w.net.now app.accounts.sessions) sound.same (
        unfold exec in
        exec-Earned (w.faults 0) (revoked id w.net.now) app.accounts.sessions sound.earned)
