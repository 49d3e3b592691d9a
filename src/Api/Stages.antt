-- ===== src/Api/Stages.antt =====
-- The public routes send no order and leave the configuration, and none makes a session of the admin tier that
-- has not earned it (mint-sniper/src/api.rs).
use seasniper.Common.{ℕ, String, [], ◌∷◌, refl, Bool-cases, inl, inr, is_empty, trim}
use seasniper.Config.{Config}
use seasniper.Identity.Session.{Session}
use seasniper.Bus.{info, device_registered}
use seasniper.Effect.{log_now}
use seasniper.Identity.Guard.{Request}
use seasniper.Identity.Webauthn.{finish_registration}
use seasniper.Identity.Credentials.{list_devices, revoke_device}
use seasniper.Identity.Webauthn.Stages.{
  start_registration-Earned, finish_registration-Earned, start_authentication-Earned,
  finish_authentication-Earned,
}
use seasniper.Api.{App, Outside, email_of}
use seasniper.Api.Signin.{
  get_auth_session, setup_secret, confirm_setup, confirm_code, offer_registration, register_device,
  offer_authentication, check_assertion, post_totp_setup_start, post_totp_setup_verify,
  post_totp_verify, post_webauthn_register_start, post_webauthn_register_finish,
  post_webauthn_authenticate_start, post_webauthn_authenticate_finish, get_webauthn_devices,
  post_webauthn_device_revoke,
}
use seasniper.Api.Google.{
  get_auth_google_login, get_auth_google_callback, post_auth_logout, devices_of,
}
use seasniper.Api.Router.{
  Visit, visit, token, google_login, google_callback, logout, session_state, totp_setup_start,
  totp_setup_verify, totp_verify, register_start, register_finish, authenticate_start,
  authenticate_finish, devices, device_revoke,
}
use seasniper.Api.Quiet.{
  Quiet, Sound, with_session-Quiet, emailed-Quiet, by_library-Quiet, secret_answer-Quiet,
  judged-Quiet, challenge_answer-Quiet, finished-Quiet, devices_answer-Quiet, revoke_answer-Quiet,
}
use seasniper.Api.Logins.{callback_by-Quiet, login_by-Quiet, logout_by-Quiet}

module _ (cfg : Config) (w : Outside) where
  register_device-Quiet :
      (label : String) (response : ℕ) (s : Session) (app : App)
      → Sound cfg app
      → Quiet cfg (register_device w label response s app)
  unfolding register_device
  register_device-Quiet label response s app sound =
      by_library-Quiet cfg app _ w.webauthn
        (λ lib. elim (Bool-cases (is_empty (trim label))) [
          | inl blank ↦
              rw blank (record { silent = refl; kept = sound.same; earned = sound.earned })
          | inr filled ↦ rw filled (
              finished-Quiet cfg 400 (log_now w.net info (device_registered (trim label)) ∷ []) app
                (finish_registration lib (w.faults 2) (w.faults 3) w.new_row_id s.id s.user_id
                  (trim label) response w.net.now (devices_of app))
                refl sound.same
                (finish_registration-Earned lib (w.faults 2) (w.faults 3) w.new_row_id s.id
                  s.user_id (trim label) response w.net.now (devices_of app) sound.earned))
        ])
        sound

  -- No public route orders anything or changes the configuration, and none makes a session of the admin tier.
  pub visit-Quiet :
      (request : Request) (v : Visit) (app : App)
      → Sound cfg app
      → Quiet cfg (visit w request v app)
  unfolding visit get_auth_google_login get_auth_google_callback post_auth_logout get_auth_session
      post_totp_setup_start post_totp_setup_verify post_totp_verify post_webauthn_register_start
      post_webauthn_register_finish post_webauthn_authenticate_start
      post_webauthn_authenticate_finish get_webauthn_devices post_webauthn_device_revoke
      setup_secret confirm_setup confirm_code offer_registration offer_authentication
      check_assertion
  visit-Quiet request token app sound = record {
    silent = refl;
    kept = sound.same;
    earned = sound.earned;
  }
  visit-Quiet request google_login app sound = login_by-Quiet cfg w app w.google_oidc sound
  visit-Quiet request (google_callback q) app sound =
      callback_by-Quiet cfg w q app w.google_oidc sound
  visit-Quiet request logout app sound = logout_by-Quiet cfg w app request.session_cookie sound
  visit-Quiet request session_state app sound = record {
    silent = refl;
    kept = sound.same;
    earned = sound.earned;
  }
  visit-Quiet request totp_setup_start app sound =
      with_session-Quiet cfg w request app (setup_secret w)
        (λ s a h.
          emailed-Quiet cfg _ a (email_of w a 2 s) (λ email. secret_answer-Quiet cfg a _ h) h)
        sound
  visit-Quiet request (totp_setup_verify code) app sound =
      with_session-Quiet cfg w request app (confirm_setup w code)
        (λ s a h.
          emailed-Quiet cfg _ a (email_of w a 2 s) (λ email. judged-Quiet cfg w _ s a _ refl h) h)
        sound
  visit-Quiet request (totp_verify code) app sound =
      with_session-Quiet cfg w request app (confirm_code w code)
        (λ s a h.
          emailed-Quiet cfg _ a (email_of w a 2 s) (λ email. judged-Quiet cfg w _ s a _ refl h) h)
        sound
  visit-Quiet request register_start app sound =
      with_session-Quiet cfg w request app (offer_registration w)
        (λ s a h.
          by_library-Quiet cfg a _ w.webauthn
            (λ lib.
              emailed-Quiet cfg _ a (email_of w a 2 s)
                (λ email. challenge_answer-Quiet cfg a _ h.same (
                  start_registration-Earned lib (w.faults 3) s.id s.user_id email (devices_of a)
                    h.earned))
                h)
            h)
        sound
  visit-Quiet request (register_finish label response) app sound =
      with_session-Quiet cfg w request app (register_device w label response)
        (λ s a h. register_device-Quiet label response s a h) sound
  visit-Quiet request authenticate_start app sound =
      with_session-Quiet cfg w request app (offer_authentication w)
        (λ s a h.
          by_library-Quiet cfg a _ w.webauthn
            (λ lib. challenge_answer-Quiet cfg a _ h.same (
              start_authentication-Earned lib (w.faults 2 0) s.id s.user_id (devices_of a)
                h.earned))
            h)
        sound
  visit-Quiet request (authenticate_finish response) app sound =
      with_session-Quiet cfg w request app (check_assertion w response)
        (λ s a h.
          by_library-Quiet cfg a _ w.webauthn
            (λ lib. finished-Quiet cfg 401 [] a _ refl h.same (
              finish_authentication-Earned lib (w.faults 2) (w.faults 3) s.id response w.net.now
                (devices_of a) h.earned))
            h)
        sound
  visit-Quiet request devices app sound =
      with_session-Quiet cfg w request app _
        (λ s a h.
          devices_answer-Quiet cfg a (list_devices (w.faults 2 0) s.user_id a.credentials) h)
        sound
  visit-Quiet request (device_revoke id) app sound =
      with_session-Quiet cfg w request app _
        (λ s a h.
          revoke_answer-Quiet cfg w id a (revoke_device (w.faults 2 0) s.user_id id a.credentials)
            h)
        sound
