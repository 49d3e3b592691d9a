-- ===== src/Identity/Lifetime.antt =====
-- Which sessions are of the admin tier (mint-sniper/src/identity/session.rs).
use seasniper.Common.{
  String, List, Bool, true, Option, none, some, [], ◌∷◌, ◌&&◌, ◌≡◌, arith, any, All, Bool-cases,
  inl, inr,
}
use seasniper.Common.Results.{ok, err}
use seasniper.Identity.Session.{
  Session, Table, Faults, Done, Op, create, touched, totp_verified, webauthn_verified, revoked,
  exec, exec_all, has_id, update_where, run_query, and_then, new_session,
  create_google_verified_session, is_active, touch, is_complete, promote_if_complete,
  mark_totp_verified, mark_webauthn_verified, revoke,
}

-- A session of the admin tier has passed both further factors.
abbrev pub Earned : Session → Type 0
Earned s = s.admin_tier ≡ true → is_complete s ≡ true

run_query-All :
    (P : Session → Type 0) (fault : Option String) (before after : Table)
    → All P before
    → All P after
    → All P (run_query fault before after).0
run_query-All P (some e) before after hb ha = hb
run_query-All P none before after hb ha = ha

pub update_where-All :
    (P : Session → Type 0) (p : Session → Bool) (f : Session → Session) (table : Table)
    → ((s : Session) → p s ≡ true → P s → P (f s))
    → All P table
    → All P (update_where p f table)
update_where-All P p f [] keeps h = tt
update_where-All P p f (s ∷ table) keeps h = elim (Bool-cases (p s)) [
  | inl hit ↦ rw hit (keeps s hit h.0, update_where-All P p f table keeps h.1)
  | inr miss ↦ rw miss (h.0, update_where-All P p f table keeps h.1)
]

promote-Earned :
    (fault : Option String) (id : String) (table : Table)
    → All Earned table
    → All Earned (promote_if_complete fault id table).0
unfolding promote_if_complete
promote-Earned fault id table h =
    run_query-All Earned fault table
      (update_where (λ s. has_id id s && is_complete s) (λ s. record s { admin_tier = true }) table)
      h
      (update_where-All Earned (λ s. has_id id s && is_complete s)
        (λ s. record s { admin_tier = true }) table (λ s hit e _. ground arith) h)

and_then-All :
    (P : Session → Type 0) (d : Done) (next : Table → Done)
    → All P d.0
    → ((table : Table) → All P table → All P (next table).0)
    → All P (and_then d next).0
and_then-All P (table, ok x) next h keeps = keeps table h
and_then-All P (table, err e) next h keeps = h

-- An update of the rows of one id, for a property that it keeps.
updated-All :
    (P : Session → Type 0) (fault : Option String) (p : Session → Bool) (f : Session → Session)
    (table : Table)
    → ((s : Session) → p s ≡ true → P s → P (f s))
    → All P table
    → All P (run_query fault table (update_where p f table)).0
updated-All P fault p f table keeps h =
    run_query-All P fault table (update_where p f table) h (update_where-All P p f table keeps h)

pub exec-Earned :
    (faults : Faults) (op : Op) (table : Table)
    → All Earned table
    → All Earned (exec faults op table).0
unfolding exec create_google_verified_session new_session touch mark_totp_verified
    mark_webauthn_verified revoke
exec-Earned faults (create id user_id now) table h = elim (Bool-cases (any (has_id id) table)) [
  | inl taken ↦ rw taken h
  | inr free ↦ rw free (
      run_query-All Earned (faults 0) table (new_session id user_id now ∷ table) h
        ((λ e. ground arith), h))
]
exec-Earned faults (touched id now) table h =
    updated-All Earned (faults 0) (has_id id) (λ s. record s { last_seen_at = now }) table
      (λ s hit e. e) h
exec-Earned faults (totp_verified id now) table h =
    and_then-All Earned
      (run_query (faults 0) table
        (update_where (has_id id) (λ s. record s { totp_verified_at = some now }) table))
      (promote_if_complete (faults 1) id)
      (updated-All Earned (faults 0) (has_id id) (λ s. record s { totp_verified_at = some now })
        table (λ s hit e admin. ground (arith, e admin)) h)
      (promote-Earned (faults 1) id)
exec-Earned faults (webauthn_verified id credential now) table h =
    let f : Session → Session =
      λ s. record s { webauthn_verified_at = some now; webauthn_credential_id = some credential } in
    and_then-All Earned (run_query (faults 0) table (update_where (has_id id) f table))
      (promote_if_complete (faults 1) id)
      (updated-All Earned (faults 0) (has_id id) f table (λ s hit e admin. ground (arith, e admin))
        h)
      (promote-Earned (faults 1) id)
exec-Earned faults (revoked id now) table h =
    updated-All Earned (faults 0) (is_active id) (λ s. record s { revoked_at = some now }) table
      (λ s hit e. e) h

exec_all-keeps :
    (ops : List (Faults × Op)) (table : Table) → All Earned table → All Earned (exec_all ops table)
exec_all-keeps [] table h = h
exec_all-keeps ((faults, op) ∷ ops) table h =
    exec_all-keeps ops (exec faults op table).0 (exec-Earned faults op table h)

-- However the operations come from an empty table on, and whichever of their queries fail, only a session
-- that has passed TOTP and WebAuthn is of the admin tier.
pub exec_all-Earned : (ops : List (Faults × Op)) → All Earned (exec_all ops [])
exec_all-Earned ops = exec_all-keeps ops [] tt
