-- ===== src/Identity/Webauthn/Stages.antt =====
-- The ceremonies keep the admin tier earned (mint-sniper/src/identity/webauthn.rs).
use seasniper.Common.{ℕ, String, Option, List, arith, All, Option-cases, inl, inr}
use seasniper.Common.Results.{Result, ok, err, Result-cases}
use seasniper.Failure.{Failure}
use seasniper.Identity.Session.{Faults, webauthn_verified, exec}
use seasniper.Identity.Lifetime.{Earned, exec-Earned}
use seasniper.Identity.Webauthn.{
  Devices, Assertion, mark_session, begin_registration, start_registration, finish_registration,
  store_passkey, accept_passkey, begin_authentication, start_authentication, finish_authentication,
  complete_assertion, accept_assertion, record_use, lookup, remove,
}
use seasniper.Identity.Credentials.{Library, Written, insert_credential}

mark_session-Earned :
    (faults : Faults) (session : String) (bytes : List ℕ) (now : ℕ) (x : Written) (d : Devices)
    → All Earned d.sessions
    → All Earned (mark_session faults session bytes now x d).0.sessions
mark_session-Earned faults session bytes now (rows, err e) d h = h
mark_session-Earned faults session bytes now (rows, ok x) d h =
    unfold exec in exec-Earned faults (webauthn_verified session bytes now) d.sessions h

store_passkey-Earned :
    (lib : Library) (fault : Option String) (faults : Faults) (row_id session user label : String)
    (now : ℕ) (r : Result Failure ℕ) (d : Devices)
    → All Earned d.sessions
    → All Earned (store_passkey lib fault faults row_id session user label now r d).0.sessions
unfolding store_passkey
store_passkey-Earned lib fault faults row_id session user label now (err e) d h = h
store_passkey-Earned lib fault faults row_id session user label now (ok passkey) d h =
    mark_session-Earned faults session (lib.cred_id passkey) now
      (insert_credential lib fault row_id user passkey label now d.credentials) d h

complete_assertion-Earned :
    (lib : Library) (fault : Option String) (faults : Faults) (session : String) (now : ℕ)
    (r : Result Failure Assertion) (d : Devices)
    → All Earned d.sessions
    → All Earned (complete_assertion lib fault faults session now r d).0.sessions
unfolding complete_assertion
complete_assertion-Earned lib fault faults session now (err e) d h = h
complete_assertion-Earned lib fault faults session now (ok a) d h =
    mark_session-Earned faults session (lib.result_cred_id a.result) now
      (record_use lib fault now a d.credentials) d h

pub finish_registration-Earned :
    (lib : Library) (faults session_faults : Faults) (row_id session user label : String)
    (response now : ℕ) (d : Devices)
    → All Earned d.sessions
    → All Earned
        (finish_registration lib faults session_faults row_id session user label response now
          d).0.sessions
unfolding finish_registration
finish_registration-Earned lib faults session_faults row_id session user label response now d h =
    elim (Option-cases (lookup session d.registrations)) [
      | inl missing ↦ ground (arith, missing, h)
      | inr (ceremony, issued) ↦ ground (
        arith,
        issued,
        store_passkey-Earned lib (faults 1) session_faults row_id session user label now
            (accept_passkey lib (faults 0) user response ceremony d.credentials)
            (record d { registrations = remove session d.registrations }) h,
      )
    ]

pub finish_authentication-Earned :
    (lib : Library) (faults session_faults : Faults) (session : String) (response now : ℕ)
    (d : Devices)
    → All Earned d.sessions
    → All Earned (finish_authentication lib faults session_faults session response now d).0.sessions
unfolding finish_authentication
finish_authentication-Earned lib faults session_faults session response now d h =
    elim (Option-cases (lookup session d.authentications)) [
      | inl missing ↦ ground (arith, missing, h)
      | inr (ceremony, issued) ↦ ground (
        arith,
        issued,
        complete_assertion-Earned lib (faults 1) session_faults session now
            (accept_assertion lib (faults 0) response ceremony d.credentials)
            (record d { authentications = remove session d.authentications }) h,
      )
    ]

pub start_registration-Earned :
    (lib : Library) (faults : Faults) (session user email : String) (d : Devices)
    → All Earned d.sessions
    → All Earned (start_registration lib faults session user email d).0.sessions
unfolding start_registration
start_registration-Earned lib faults session user email d h =
    elim (Result-cases (begin_registration lib faults user email d.credentials)) [
      | inl (x, begun) ↦ ground (arith, begun, h)
      | inr (failure, refused) ↦ ground (arith, refused, h)
    ]

pub start_authentication-Earned :
    (lib : Library) (fault : Option String) (session user : String) (d : Devices)
    → All Earned d.sessions
    → All Earned (start_authentication lib fault session user d).0.sessions
unfolding start_authentication
start_authentication-Earned lib fault session user d h =
    elim (Result-cases (begin_authentication lib fault user d.credentials)) [
      | inl (x, begun) ↦ ground (arith, begun, h)
      | inr (failure, refused) ↦ ground (arith, refused, h)
    ]
