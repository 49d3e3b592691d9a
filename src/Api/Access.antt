-- ===== src/Api/Access.antt =====
-- That a sign-in which goes well gives access (mint-sniper/src/api.rs, mint-sniper/src/auth.rs and
-- mint-sniper/src/identity).
use seasniper.Common.{
  ℕ, String, Bool, true, false, Option, none, some, List, [], ◌≡◌, refl, ap, ◌∙◌, arith, find,
  is_some,
}
use seasniper.Common.Results.{Result, ok, err}
use seasniper.Identity.Session.{
  Session, Table, Faults, has_id, is_active, update_where, touch, get_active,
}
use seasniper.Identity.Guard.{
  Request, Accounts, next_run, require_session, require_token_or_session,
}
use seasniper.Identity.Webauthn.{
  Devices, Assertion, lookup, remove, accept_assertion, record_use, complete_assertion,
  mark_session, finish_authentication,
}
use seasniper.Identity.Credentials.{
  Library, Credential, Credentials, has_credential_id, find_credential, update_credential_passkey,
  touch_credential_last_used, Written,
}
use seasniper.Api.{App, Outside, done, identity_configured}
use seasniper.Failure.{Failure}
use seasniper.Effect.{Effect}
use seasniper.Api.Signin.{
  finished, with_session, check_assertion, post_webauthn_authenticate_finish,
}
use seasniper.Api.Google.{devices_of}
use seasniper.Api.Router.{public, authenticate_finish, visit, serve, decision}
use seasniper.Identity.Promotion.{
  find-true, find-update_where, mark_webauthn_verified-ok, verified, verified-Admin,
}

-- The session is found, and touched.
touched_at : ℕ → Session → Table → Table
touched_at now s table = update_where (has_id s.id) (λ r. record r { last_seen_at = now }) table

require_session-found :
    (read_faults touch_faults : Faults) (now : ℕ) (accounts : Accounts) (request : Request)
    (s : Session)
    → ((n : ℕ) → read_faults n ≡ none)
    → ((n : ℕ) → touch_faults n ≡ none)
    → request.session_cookie ≡ some s.id
    → find (is_active s.id) accounts.sessions ≡ some s
    → require_session read_faults touch_faults now accounts request
      ≡ (record accounts { sessions = touched_at now s accounts.sessions }, ok s)
unfolding require_session get_active touch touched_at
require_session-found read_faults touch_faults now accounts request s fine well cookie found =
    ground (arith, fine 0, well 0, cookie, found)

-- What a response must meet to be accepted: the session's challenge is pending, the library takes the response, and
-- the credential that it names is stored and readable.
pub record Acceptable (lib : Library) (session : String) (response : ℕ) (app : App) : Type 0 where
  pub ceremony : ℕ
  pub result : ℕ
  pub row : Credential
  pub passkey : ℕ
  pub issued : lookup session app.authentications ≡ some ceremony
  pub accepted : lib.finish_authentication response ceremony ≡ ok result
  pub stored : find (has_credential_id (lib.result_cred_id result)) app.credentials ≡ some row
  pub readable : lib.from_json row.passkey_json ≡ some passkey
  pub writable : is_some (lib.to_json (lib.update_credential passkey result).1) ≡ true

record_use-ok :
    (lib : Library) (fault : Option String) (now : ℕ) (a : Assertion) (rows : Credentials)
    → fault ≡ none
    → is_some (lib.to_json (lib.update_credential a.passkey a.result).1) ≡ true
    → (record_use lib fault now a rows).1 ≡ ok tt
unfolding record_use update_credential_passkey touch_credential_last_used
record_use-ok lib fault now a rows fine writable = ground (arith, fine, writable)

mark_session-ok :
    (faults : Faults) (session : String) (bytes : List ℕ) (now : ℕ) (w : Written) (d : Devices)
    → ((n : ℕ) → faults n ≡ none)
    → w.1 ≡ ok tt
    → ((mark_session faults session bytes now w d).0.sessions
        ≡ verified session bytes now d.sessions)
      × ((mark_session faults session bytes now w d).1 ≡ ok tt)
mark_session-ok faults session bytes now (rows, err e) d fine good = ground arith
mark_session-ok faults session bytes now (rows, ok x) d fine good =
    let marked = mark_webauthn_verified-ok faults session bytes now d.sessions fine in
    (ap (λ t. t.0) marked, ap (λ t. t.1) marked)

finish_authentication-ok :
    (lib : Library) (faults session_faults : Faults) (session : String) (response now : ℕ)
    (app : App)
    → ((n : ℕ) → faults n ≡ none)
    → ((n : ℕ) → session_faults n ≡ none)
    → (a : Acceptable lib session response app)
    → ((finish_authentication lib faults session_faults session response now
          (devices_of app)).0.sessions
        ≡ verified session (lib.result_cred_id a.result) now app.accounts.sessions)
      × ((finish_authentication lib faults session_faults session response now (devices_of app)).1
          ≡ ok tt)
unfolding finish_authentication complete_assertion accept_assertion find_credential
finish_authentication-ok lib faults session_faults session response now app fine well a =
    let d = devices_of app in
    let taken : Devices = record d { authentications = remove session d.authentications } in
    let accepted : Assertion = record {
      result = a.result;
      row_id = a.row.id;
      passkey = a.passkey;
    } in
    let whole : finish_authentication lib faults session_faults session response now d
        ≡ complete_assertion lib (faults 1) session_faults session now (ok accepted) taken =
      ground (arith, fine 0, a.issued, a.accepted, a.stored, a.readable) in
    rw whole (
      mark_session-ok session_faults session (lib.result_cred_id a.result) now
        (record_use lib (faults 1) now accepted app.credentials) taken well
        (record_use-ok lib (faults 1) now accepted app.credentials (fine 1) a.writable))

finished-ok :
    (status : ℕ) (news : List Effect) (app : App) (x : Devices × Result Failure (Unit {0}))
    → x.1 ≡ ok tt
    → ((finished status news app x).2 ≡ done 200)
      × ((finished status news app x).0.accounts.sessions ≡ x.0.sessions)
finished-ok status news app (d, err e) good = ground arith
finished-ok status news app (d, ok x) good = (refl, refl)

touched_at-active :
    (now : ℕ) (s : Session) (table : Table)
    → find (is_active s.id) table ≡ some s
    → find (is_active s.id) (touched_at now s table) ≡ some (record s { last_seen_at = now })
unfolding touched_at
touched_at-active now s table active =
    let mine : has_id s.id s ≡ true = ground (arith, find-true (is_active s.id) table s active) in
    find-update_where s.id (has_id s.id) (λ r. record r { last_seen_at = now }) table s (λ r. refl)
      active
    ∙ ap some (simp mine)

decision-next_run :
    (faults : Faults) (google_configured : Bool) (api_token : String) (table : Table)
    (request : Request) (id : String) (t : Session)
    → google_configured ≡ true
    → faults 0 ≡ none
    → request.session_cookie ≡ some id
    → find (is_active id) table ≡ some t
    → t.admin_tier ≡ true
    → require_token_or_session faults google_configured api_token table request ≡ next_run
unfolding require_token_or_session get_active
decision-next_run faults false api_token table request id t google well cookie found admin =
    ground arith
decision-next_run faults true api_token table request id t google well cookie found admin =
    ground (arith, well, cookie, found, admin)

-- Where nothing fails, a session that has passed TOTP and answers its WebAuthn challenge with a response that the
-- library takes, from a stored credential, is answered 200; and in the state that this leaves, with sign-in configured and
-- the guard's queries answered, the guard of the protected routes lets its cookie through. A route that orders still asks
-- for its code.
pub authenticate_finish-Admitted :
    (w : Outside) (lib : Library) (request : Request) (response : ℕ) (s : Session) (app : App)
    → w.webauthn ≡ some lib
    → ((n k : ℕ) → w.faults n k ≡ none)
    → request.session_cookie ≡ some s.id
    → find (is_active s.id) app.accounts.sessions ≡ some s
    → is_some s.totp_verified_at ≡ true
    → Acceptable lib s.id response app
    → ((serve w request (public (authenticate_finish response)) app).2 ≡ done 200)
      × ((v : Outside)
          → identity_configured v ≡ true
          → v.guard_faults 0 ≡ none
          → decision v request (serve w request (public (authenticate_finish response)) app).0
            ≡ next_run)
unfolding serve visit post_webauthn_authenticate_finish check_assertion with_session
    require_token_or_session get_active
authenticate_finish-Admitted w lib request response s app configured fine cookie active totp a =
    let app1 : App = record app {
      accounts = record app.accounts { sessions = touched_at w.net.now s app.accounts.sessions };
    } in
    let a1 : Acceptable lib s.id response app1 = record {
      ceremony = a.ceremony;
      result = a.result;
      row = a.row;
      passkey = a.passkey;
      issued = a.issued;
      accepted = a.accepted;
      stored = a.stored;
      readable = a.readable;
      writable = a.writable;
    } in
    let ended =
      finish_authentication lib (w.faults 2) (w.faults 3) s.id response w.net.now
        (devices_of app1) in
    let (sessions, good) =
      finish_authentication-ok lib (w.faults 2) (w.faults 3) s.id response w.net.now app1 (fine 2)
        (fine 3) a1 in
    let whole : serve w request (public (authenticate_finish response)) app
        ≡ finished 401 [] app1 ended =
      rw
        (require_session-found (w.faults 0) (w.faults 1) w.net.now app.accounts request s (fine 0)
          (fine 1) cookie active)
        (rw configured refl) in
    let (answer, after) = finished-ok 401 [] app1 ended good in
    let (t, found, admin) =
      verified-Admin s.id (lib.result_cred_id a.result) w.net.now
        (touched_at w.net.now s app.accounts.sessions) (record s { last_seen_at = w.net.now })
        (touched_at-active w.net.now s app.accounts.sessions active) totp in
    rw whole (
      answer,
      λ v google well.
          decision-next_run v.guard_faults (identity_configured v) v.api_token _ request s.id t
            google well cookie (rw after (rw sessions found)) admin,
    )
