-- ===== src/Identity/Webauthn/Ceremonies.antt =====
-- What a ceremony proves before it marks a session (mint-sniper/src/identity/webauthn.rs).
use seasniper.Common.{
  ℕ, String, true, Option, none, some, List, [], ◌∷◌, ◌≡◌, ◌⊎◌, refl, sym, ap, ◌∙◌, arith, any,
  find, count_if, ltb, Bool-cases, Option-cases, inl, inr,
}
use seasniper.Common.Results.{Result, ok, err, Result-cases}
use seasniper.Failure.{Failure, no_authentication, no_registration}
use seasniper.Identity.Session.{Faults}
use seasniper.Identity.Webauthn.{
  mark_session, record_use, Devices, Pending, Assertion, lookup, remove, accept_passkey,
  store_passkey, finish_registration, accept_assertion, complete_assertion, finish_authentication,
}
use seasniper.Identity.Credentials.{
  Written, insert_credential, Library, Credential, Credentials, has_credential_id, is_admin_of,
  admin_credential_count, find_credential,
}

lookup-remove : (key : String) (pending : Pending) → lookup key (remove key pending) ≡ none
lookup-remove key [] = refl
lookup-remove key ((k, v) ∷ rest) = ground (arith, lookup-remove key rest)

any-find :
    (bytes : List ℕ) (rows : Credentials) (c : Credential)
    → find (has_credential_id bytes) rows ≡ some c
    → any (has_credential_id bytes) rows ≡ true
any-find bytes [] c e = ground arith
any-find bytes (r ∷ rows) c e = elim (Bool-cases (has_credential_id bytes r)) [
  | inl hit ↦ ground arith
  | inr miss ↦ ground (arith, any-find bytes rows c)
]

-- An assertion that the library accepted, for the challenge of this session, by a credential of the table.
pub record Asserted (lib : Library) (session : String) (response : ℕ) (d : Devices) : Type 0 where
  pub ceremony : ℕ
  pub result : ℕ
  pub issued : lookup session d.authentications ≡ some ceremony
  pub accepted : lib.finish_authentication response ceremony ≡ ok result
  pub registered : any (has_credential_id (lib.result_cred_id result)) d.credentials ≡ true

-- A registration that the library accepted, for the challenge of this session, below the cap.
pub record Enrolled (lib : Library) (session user : String) (response : ℕ) (d : Devices)
    : Type 0 where
  pub ceremony : ℕ
  pub passkey : ℕ
  pub issued : lookup session d.registrations ≡ some ceremony
  pub accepted : lib.finish_registration response ceremony ≡ ok passkey
  pub below : ltb (count_if (is_admin_of user) d.credentials) 2 ≡ true

accept_assertion-registered :
    (lib : Library) (fault : Option String) (response ceremony : ℕ) (rows : Credentials)
    (a : Assertion)
    → accept_assertion lib fault response ceremony rows ≡ ok a
    → (lib.finish_authentication response ceremony ≡ ok a.result)
      × (any (has_credential_id (lib.result_cred_id a.result)) rows ≡ true)
unfolding accept_assertion find_credential
accept_assertion-registered lib (some e) response ceremony rows a h =
    elim (Result-cases (lib.finish_authentication response ceremony)) [
      | inr (failure, refused) ↦ ground arith
      | inl (result, accepted) ↦ ground arith
    ]
accept_assertion-registered lib none response ceremony rows a h =
    elim (Result-cases (lib.finish_authentication response ceremony)) [
      | inr (failure, refused) ↦ ground arith
      | inl (result, accepted) ↦
          elim (Option-cases (find (has_credential_id (lib.result_cred_id result)) rows)) [
            | inl gone ↦ ground arith
            | inr (c, found) ↦ elim (Option-cases (lib.from_json c.passkey_json)) [
              | inl bad ↦ ground arith
              | inr (passkey, good) ↦
                  ground (arith, any-find (lib.result_cred_id result) rows c found)
            ]
          ]
    ]

accept_passkey-below :
    (lib : Library) (fault : Option String) (user : String) (response ceremony : ℕ)
    (rows : Credentials) (passkey : ℕ)
    → accept_passkey lib fault user response ceremony rows ≡ ok passkey
    → (lib.finish_registration response ceremony ≡ ok passkey)
      × (ltb (count_if (is_admin_of user) rows) 2 ≡ true)
unfolding accept_passkey admin_credential_count
accept_passkey-below lib (some e) user response ceremony rows passkey h =
    elim (Result-cases (lib.finish_registration response ceremony)) [
      | inr (failure, refused) ↦ ground arith
      | inl (other, accepted) ↦ ground arith
    ]
accept_passkey-below lib none user response ceremony rows passkey h =
    elim (Result-cases (lib.finish_registration response ceremony)) [
      | inr (failure, refused) ↦ ground arith
      | inl (other, accepted) ↦ ground arith
    ]

mark_session-pending :
    (faults : Faults) (session : String) (bytes : List ℕ) (now : ℕ) (w : Written) (d : Devices)
    → ((mark_session faults session bytes now w d).0.authentications ≡ d.authentications)
      × ((mark_session faults session bytes now w d).0.registrations ≡ d.registrations)
mark_session-pending faults session bytes now (rows, err e) d = (refl, refl)
mark_session-pending faults session bytes now (rows, ok x) d = (refl, refl)

module _ (lib : Library) (fault : Option String) (faults : Faults) (session : String)
    (now : ℕ) where
  complete_assertion-pending :
      (r : Result Failure Assertion) (d : Devices)
      → (complete_assertion lib fault faults session now r d).0.authentications ≡ d.authentications
  unfolding complete_assertion
  complete_assertion-pending (err e) d = refl
  complete_assertion-pending (ok a) d =
      (mark_session-pending faults session (lib.result_cred_id a.result) now
        (record_use lib fault now a d.credentials) d).0

  store_passkey-pending :
      (row_id user label : String) (r : Result Failure ℕ) (d : Devices)
      → (store_passkey lib fault faults row_id session user label now r d).0.registrations
        ≡ d.registrations
  unfolding store_passkey
  store_passkey-pending row_id user label (err e) d = refl
  store_passkey-pending row_id user label (ok passkey) d =
      (mark_session-pending faults session (lib.cred_id passkey) now
        (insert_credential lib fault row_id user passkey label now d.credentials) d).1

  complete_assertion-Asserted :
      (accept_fault : Option String) (response ceremony : ℕ) (before d : Devices)
      (r : Result Failure Assertion)
      → lookup session before.authentications ≡ some ceremony
      → d.sessions ≡ before.sessions
      → r ≡ accept_assertion lib accept_fault response ceremony before.credentials
      → ((complete_assertion lib fault faults session now r d).0.sessions ≡ before.sessions)
        ⊎ Asserted lib session response before
  unfolding complete_assertion
  complete_assertion-Asserted accept_fault response ceremony before d (err e) issued kept came =
      inl kept
  complete_assertion-Asserted accept_fault response ceremony before d (ok a) issued kept came =
      let (accepted, registered) =
        accept_assertion-registered lib accept_fault response ceremony before.credentials a
          (sym came) in
      inr (record {
        ceremony = ceremony;
        result = a.result;
        issued = issued;
        accepted = accepted;
        registered = registered;
      })

  store_passkey-Enrolled :
      (accept_fault : Option String) (row_id user label : String) (response ceremony : ℕ)
      (before d : Devices) (r : Result Failure ℕ)
      → lookup session before.registrations ≡ some ceremony
      → d.sessions ≡ before.sessions
      → d.credentials ≡ before.credentials
      → r ≡ accept_passkey lib accept_fault user response ceremony before.credentials
      → (((store_passkey lib fault faults row_id session user label now r d).0.sessions
            ≡ before.sessions)
          × ((store_passkey lib fault faults row_id session user label now r d).0.credentials
              ≡ before.credentials))
        ⊎ Enrolled lib session user response before
  unfolding store_passkey
  store_passkey-Enrolled accept_fault row_id user label response ceremony before d (err e) issued
        kept same came =
      inl (kept, same)
  store_passkey-Enrolled accept_fault row_id user label response ceremony before d (ok passkey)
        issued kept same came =
      let (accepted, below) =
        accept_passkey-below lib accept_fault user response ceremony before.credentials passkey
          (sym came) in
      inr (record {
        ceremony = ceremony;
        passkey = passkey;
        issued = issued;
        accepted = accepted;
        below = below;
      })

-- However a login ceremony ends, its challenge is used up; and it changes the sessions only where the library
-- accepted the response to the challenge of this very session, from a credential that is still registered.
pub finish_authentication-Asserted :
    (lib : Library) (faults session_faults : Faults) (session : String) (response now : ℕ)
    (d : Devices)
    → (lookup session
          (finish_authentication lib faults session_faults session response now d).0.authentications
        ≡ none)
      × (((finish_authentication lib faults session_faults session response now d).0.sessions
            ≡ d.sessions)
          ⊎ Asserted lib session response d)
unfolding finish_authentication
finish_authentication-Asserted lib faults session_faults session response now d =
    elim (Option-cases (lookup session d.authentications)) [
      | inl missing ↦
          let whole : finish_authentication lib faults session_faults session response now d
              ≡ (d, err no_authentication) =
            ground (arith, missing) in
          rw whole (missing, inl refl)
      | inr (ceremony, issued) ↦
          let taken : Devices = record d { authentications = remove session d.authentications } in
          let r = accept_assertion lib (faults 0) response ceremony d.credentials in
          let whole : finish_authentication lib faults session_faults session response now d
              ≡ complete_assertion lib (faults 1) session_faults session now r taken =
            ground (arith, issued) in
          rw whole (
            ap (lookup session)
                  (complete_assertion-pending lib (faults 1) session_faults session now r taken)
                ∙ lookup-remove session d.authentications,
            complete_assertion-Asserted lib (faults 1) session_faults session now (faults 0)
                response ceremony d taken r issued refl refl,
          )
    ]

-- However a registration ends, its challenge is used up; and it changes the sessions or the credentials only
-- where the library accepted the response to the challenge of this very session, and the user was below the cap.
pub finish_registration-Enrolled :
    (lib : Library) (faults session_faults : Faults) (row_id session user label : String)
    (response now : ℕ) (d : Devices)
    → (lookup session
          (finish_registration lib faults session_faults row_id session user label response now
            d).0.registrations
        ≡ none)
      × ((((finish_registration lib faults session_faults row_id session user label response now
                d).0.sessions
              ≡ d.sessions)
            × ((finish_registration lib faults session_faults row_id session user label response now
                  d).0.credentials
                ≡ d.credentials))
          ⊎ Enrolled lib session user response d)
unfolding finish_registration
finish_registration-Enrolled lib faults session_faults row_id session user label response now d =
    elim (Option-cases (lookup session d.registrations)) [
      | inl missing ↦
          let whole : finish_registration lib faults session_faults row_id session user label
                response now d
              ≡ (d, err no_registration) =
            ground (arith, missing) in
          rw whole (missing, inl (refl, refl))
      | inr (ceremony, issued) ↦
          let taken : Devices = record d { registrations = remove session d.registrations } in
          let r = accept_passkey lib (faults 0) user response ceremony d.credentials in
          let whole : finish_registration lib faults session_faults row_id session user label
                response now d
              ≡ store_passkey lib (faults 1) session_faults row_id session user label now r taken =
            ground (arith, issued) in
          rw whole (
            ap (lookup session) (
                  store_passkey-pending lib (faults 1) session_faults session now row_id user label
                    r taken)
                ∙ lookup-remove session d.registrations,
            store_passkey-Enrolled lib (faults 1) session_faults session now (faults 0) row_id user
                label response ceremony d taken r issued refl refl refl,
          )
    ]
