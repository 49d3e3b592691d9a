-- ===== src/Identity/Promotion.antt =====
-- A session with both factors is of the admin tier (mint-sniper/src/identity/session.rs).
use seasniper.Common.{
  ℕ, String, Bool, true, none, some, List, [], ◌∷◌, ◌&&◌, ◌≡◌, refl, ap, ◌∙◌, if◌then◌else◌, arith,
  find, map, is_some, Bool-cases, inl, inr,
}
use seasniper.Common.Results.{ok}
use seasniper.Identity.Session.{
  Session, Table, Faults, has_id, is_active, update_where, is_complete, mark_webauthn_verified,
  promote_if_complete,
}

pub find-true :
    (p : Session → Bool) (table : Table) (s : Session) → find p table ≡ some s → p s ≡ true
find-true p [] s e = ground arith
find-true p (r ∷ table) s e = elim (Bool-cases (p r)) [
  | inl hit ↦ ground arith
  | inr miss ↦ find-true p table s (ground (arith, miss, e))
]

find-map :
    (p : Session → Bool) (g : Session → Session) (table : Table) (s : Session)
    → ((r : Session) → p (g r) ≡ p r)
    → find p table ≡ some s
    → find p (map g table) ≡ some (g s)
find-map p g [] s same e = ground arith
find-map p g (r ∷ table) s same e = elim (Bool-cases (p r)) [
  | inl hit ↦ ground (arith, same r, hit, e)
  | inr miss ↦ ground (arith, same r, miss, find-map p g table s same (ground (arith, miss, e)))
]

-- A search for an active session, after an update that changes neither an id nor a revocation.
pub find-update_where :
    (id : String) (p : Session → Bool) (f : Session → Session) (table : Table) (s : Session)
    → ((r : Session) → is_active id (f r) ≡ is_active id r)
    → find (is_active id) table ≡ some s
    → find (is_active id) (update_where p f table) ≡ some (if p s then f s else s)
find-update_where id p f table s same e =
    find-map (is_active id) (λ r. if p r then f r else r) table s
      (λ r. elim (Bool-cases (p r)) [ inl changed ↦ rw changed (same r) | inr kept ↦ rw kept refl ])
      e

-- The table after a session passes WebAuthn.
abbrev pub verified : (id : String) (credential : List ℕ) (now : ℕ) → Table → Table
verified id credential now table =
    update_where (λ s. has_id id s && is_complete s) (λ s. record s { admin_tier = true })
      (update_where (has_id id)
        (λ s. record s {
          webauthn_verified_at = some now;
          webauthn_credential_id = some credential;
        })
        table)

pub mark_webauthn_verified-ok :
    (faults : Faults) (id : String) (credential : List ℕ) (now : ℕ) (table : Table)
    → ((n : ℕ) → faults n ≡ none)
    → mark_webauthn_verified faults id credential now table
      ≡ (verified id credential now table, ok tt)
unfolding mark_webauthn_verified promote_if_complete
mark_webauthn_verified-ok faults id credential now table fine = ground (arith, fine 0, fine 1)

-- An active session with TOTP is one of the admin tier then.
pub verified-Admin :
    (id : String) (credential : List ℕ) (now : ℕ) (table : Table) (s : Session)
    → find (is_active id) table ≡ some s
    → is_some s.totp_verified_at ≡ true
    → (t : Session) × (find (is_active id) (verified id credential now table) ≡ some t)
      × (t.admin_tier ≡ true)
verified-Admin id credential now table s e totp =
    let active = find-true (is_active id) table s e in
    let mine : has_id id s ≡ true = ground arith in
    let s1 : Session = record s {
      webauthn_verified_at = some now;
      webauthn_credential_id = some credential;
    } in
    let first_step : find (is_active id) (
          update_where (has_id id)
            (λ r. record r {
              webauthn_verified_at = some now;
              webauthn_credential_id = some credential;
            })
            table)
        ≡ some s1 =
      find-update_where id (has_id id)
        (λ r. record r {
          webauthn_verified_at = some now;
          webauthn_credential_id = some credential;
        })
        table s (λ r. refl) e
      ∙ ap some (simp mine) in
    let second_step =
      find-update_where id (λ r. has_id id r && is_complete r) (λ r. record r { admin_tier = true })
        _ s1 (λ r. refl) first_step in
    (record s1 { admin_tier = true }, second_step ∙ ap some (simp (mine, totp)), refl)
