-- ===== src/Identity/Revocation.antt =====
-- What revoking a session does, and that it lasts (mint-sniper/src/identity/session.rs).
use seasniper.Common.{
  ℕ, List, eq_iff, ◌∙◌, String, Bool, true, false, Option, none, some, [], ◌∷◌, ◌&&◌, ◌≡◌, ◌≢◌, sym,
  refl, arith, any, find, is_some, All, Bool-cases, inl, inr,
}
use seasniper.Common.Results.{ok, err}
use seasniper.Identity.Lifetime.{update_where-All}
use seasniper.Identity.Session.{
  Session, Table, Faults, Done, Op, create, touched, totp_verified, webauthn_verified, revoked,
  exec, exec_all, has_id, update_where, run_query, and_then, new_session,
  create_google_verified_session, is_active, get_active, touch, is_complete, promote_if_complete,
  mark_totp_verified, mark_webauthn_verified, revoke,
}

-- Every row of the id is revoked.
abbrev RowRevoked : String → Session → Type 0
RowRevoked id s = has_id id s ≡ true → is_some s.revoked_at ≡ true

find-RowRevoked :
    (id : String) (table : Table) → All (RowRevoked id) table → find (is_active id) table ≡ none
find-RowRevoked id [] h = refl
find-RowRevoked id (s ∷ table) h = elim (Bool-cases (has_id id s)) [
  | inl ours ↦ ground (arith, h.0 ours, find-RowRevoked id table h.1)
  | inr other ↦ ground (arith, find-RowRevoked id table h.1)
]

-- The id has a row, and every row of it is revoked.
record Revoked (id : String) (table : Table) : Type 0 where
  pub present : any (has_id id) table ≡ true
  pub rows : All (RowRevoked id) table

update_where-present :
    (id : String) (p : Session → Bool) (f : Session → Session) (table : Table)
    → ((s : Session) → (f s).id ≡ s.id)
    → any (has_id id) (update_where p f table) ≡ any (has_id id) table
update_where-present id p f [] keeps = refl
update_where-present id p f (s ∷ table) keeps = elim (Bool-cases (p s)) [
  | inl hit ↦ rw hit (ground (arith, keeps s, update_where-present id p f table keeps))
  | inr miss ↦ rw miss (ground (arith, update_where-present id p f table keeps))
]

-- An update that keeps ids and never clears a revocation.
pub record KeepsRevoked (f : Session → Session) : Type 0 where
  pub same_id : (s : Session) → (f s).id ≡ s.id
  pub revoked_on : (s : Session) → is_some s.revoked_at ≡ true → is_some (f s).revoked_at ≡ true

updated-Revoked :
    (id : String) (fault : Option String) (p : Session → Bool) (f : Session → Session)
    (table : Table)
    → KeepsRevoked f
    → Revoked id table
    → Revoked id (run_query fault table (update_where p f table)).0
updated-Revoked id (some e) p f table k r = r
updated-Revoked id none p f table k r = record {
  present = update_where-present id p f table k.same_id ∙ r.present;
  rows =
      update_where-All (RowRevoked id) p f table
        (λ s hit row ours. k.revoked_on s (row (ground (arith, k.same_id s, ours)))) r.rows;
}

and_then-Revoked :
    (id : String) (d : Done) (next : Table → Done)
    → Revoked id d.0
    → ((table : Table) → Revoked id table → Revoked id (next table).0)
    → Revoked id (and_then d next).0
and_then-Revoked id (table, ok x) next h keeps = keeps table h
and_then-Revoked id (table, err e) next h keeps = h

promote-Revoked :
    (id : String) (fault : Option String) (other : String) (table : Table)
    → Revoked id table
    → Revoked id (promote_if_complete fault other table).0
unfolding promote_if_complete
promote-Revoked id fault other table r =
    updated-Revoked id fault (λ s. has_id other s && is_complete s)
      (λ s. record s { admin_tier = true }) table
      (record { same_id = λ s. refl; revoked_on = λ s h. h }) r

run_query-Revoked :
    (id : String) (fault : Option String) (before after : Table)
    → Revoked id before
    → Revoked id after
    → Revoked id (run_query fault before after).0
run_query-Revoked id (some e) before after hb ha = hb
run_query-Revoked id none before after hb ha = ha

-- A row of an id that has none is not of an id that has one.
fresh-RowRevoked :
    (id new_id : String) (table : Table) (s : Session)
    → s.id ≡ new_id
    → any (has_id id) table ≡ true
    → any (has_id new_id) table ≡ false
    → RowRevoked id s
fresh-RowRevoked id new_id table s named present free ours =
    let same : new_id ≡ id = sym named ∙ (eq_iff s.id id).0 ours in
    let taken : any (has_id new_id) table ≡ true = rw same present in ground (arith, taken, free)

create-Revoked :
    (id : String) (faults : Faults) (new_id user_id : String) (now : ℕ) (table : Table)
    → Revoked id table
    → Revoked id (create_google_verified_session faults new_id user_id now table).0
unfolding create_google_verified_session new_session
create-Revoked id faults new_id user_id now table r =
    elim (Bool-cases (any (has_id new_id) table)) [
      | inl taken ↦ rw taken r
      | inr free ↦
          let s : Session = new_session new_id user_id now in
          rw free (
            run_query-Revoked id (faults 0) table (s ∷ table) r (record {
              present = ground (arith, r.present);
              rows = (fresh-RowRevoked id new_id table s refl r.present free, r.rows);
            }))
    ]

exec-Revoked :
    (id : String) (faults : Faults) (op : Op) (table : Table)
    → Revoked id table
    → Revoked id (exec faults op table).0
unfolding exec touch mark_totp_verified mark_webauthn_verified revoke
exec-Revoked id faults (create new_id user_id now) table r =
    create-Revoked id faults new_id user_id now table r
exec-Revoked id faults (touched other now) table r =
    updated-Revoked id (faults 0) (has_id other) (λ s. record s { last_seen_at = now }) table
      (record { same_id = λ s. refl; revoked_on = λ s h. h }) r
exec-Revoked id faults (totp_verified other now) table r =
    let f : Session → Session = λ s. record s { totp_verified_at = some now } in
    and_then-Revoked id (run_query (faults 0) table (update_where (has_id other) f table))
      (promote_if_complete (faults 1) other)
      (updated-Revoked id (faults 0) (has_id other) f table
        (record { same_id = λ s. refl; revoked_on = λ s h. h }) r)
      (promote-Revoked id (faults 1) other)
exec-Revoked id faults (webauthn_verified other credential now) table r =
    let f : Session → Session =
      λ s. record s { webauthn_verified_at = some now; webauthn_credential_id = some credential } in
    and_then-Revoked id (run_query (faults 0) table (update_where (has_id other) f table))
      (promote_if_complete (faults 1) other)
      (updated-Revoked id (faults 0) (has_id other) f table
        (record { same_id = λ s. refl; revoked_on = λ s h. h }) r)
      (promote-Revoked id (faults 1) other)
exec-Revoked id faults (revoked other now) table r =
    updated-Revoked id (faults 0) (is_active other) (λ s. record s { revoked_at = some now }) table
      (record { same_id = λ s. refl; revoked_on = λ s h. refl }) r

get_active-Revoked :
    (id : String) (faults : Faults) (table : Table) (s : Session)
    → Revoked id table
    → get_active faults id table ≢ ok (some s)
unfolding get_active
get_active-Revoked id faults table s r e = ground (arith, find-RowRevoked id table r.rows, e)

revoke-rows :
    (id : String) (now : ℕ) (table : Table)
    → All
        (RowRevoked id)
        (update_where (is_active id) (λ s. record s { revoked_at = some now }) table)
revoke-rows id now [] = tt
revoke-rows id now (s ∷ table) = elim (Bool-cases (is_active id s)) [
  | inl hit ↦ rw hit ((λ ours. refl), revoke-rows id now table)
  | inr miss ↦ rw miss ((λ ours. ground (arith, miss, ours)), revoke-rows id now table)
]

revoke-Revoked :
    (id : String) (faults : Faults) (now : ℕ) (table : Table)
    → any (has_id id) table ≡ true
    → faults 0 ≡ none
    → Revoked id (revoke faults id now table).0
unfolding revoke
revoke-Revoked id faults now table present fine = rw fine (record {
  present =
      update_where-present id (is_active id) (λ s. record s { revoked_at = some now }) table
        (λ s. refl)
      ∙ present;
  rows = revoke-rows id now table;
})

exec_all-Revoked :
    (id : String) (ops : List (Faults × Op)) (table : Table)
    → Revoked id table
    → Revoked id (exec_all ops table)
exec_all-Revoked id [] table r = r
exec_all-Revoked id ((faults, op) ∷ ops) table r =
    exec_all-Revoked id ops (exec faults op table).0 (exec-Revoked id faults op table r)

-- Once a session that the table has is revoked, by a query that does not fail, no history of operations,
-- whichever of their queries fail, makes it a session that is found as active.
pub get_active-exec_all :
    (id : String) (faults : Faults) (now : ℕ) (table : Table) (ops : List (Faults × Op))
    (read_faults : Faults) (s : Session)
    → any (has_id id) table ≡ true
    → faults 0 ≡ none
    → get_active read_faults id (exec_all ops (revoke faults id now table).0) ≢ ok (some s)
get_active-exec_all id faults now table ops read_faults s present fine =
    get_active-Revoked id read_faults (exec_all ops (revoke faults id now table).0) s (
      exec_all-Revoked id ops (revoke faults id now table).0
        (revoke-Revoked id faults now table present fine))
