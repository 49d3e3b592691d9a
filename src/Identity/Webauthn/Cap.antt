-- ===== src/Identity/Webauthn/Cap.antt =====
-- The cap on admin credentials (`trg_webauthn_admin_cap` of mint-sniper/migrations/0001_identity.sql, and the
-- writes of mint-sniper/src/identity/webauthn.rs), however the requests' queries interleave.
use seasniper.Common.{
  ℕ, ◌≤◌, String, Bool, true, false, Option, none, some, List, [], ◌∷◌, not, ◌≡◌, refl, arith,
  select, count_if, leb, Bool-cases, Option-cases, inl, inr, eq_iff,
}
use seasniper.Identity.Credentials.{
  Library, Credential, Credentials, is_admin_of, is_device, trigger_aborts, insert_row,
  insert_credential, update_row, update_credential_passkey, touch_credential_last_used,
  revoke_device,
}

-- The writes of the table, each one query, with the error that it meets.
pub data Write : Type 0 where
  insert : Option String → (id user : String) (passkey : ℕ) (label : String) (now : ℕ) → Write
  update : Option String → (id : String) (passkey now : ℕ) → Write
  touch : Option String → (id : String) (now : ℕ) → Write
  delete : Option String → (user id : String) → Write

unfoldable pub write : Library → Write → Credentials → Credentials
write lib (insert fault id user passkey label now) rows =
    (insert_credential lib fault id user passkey label now rows).0
write lib (update fault id passkey now) rows =
    (update_credential_passkey lib fault id passkey now rows).0
write lib (touch fault id now) rows = (touch_credential_last_used fault id now rows).0
write lib (delete fault user id) rows = (revoke_device fault user id rows).0

abbrev pub write_all : Library → List Write → Credentials → Credentials
write_all lib [] rows = rows
write_all lib (w ∷ ws) rows = write_all lib ws (write lib w rows)

abbrev pub Capped : Credentials → Type 0
Capped rows = (user : String) → count_if (is_admin_of user) rows ≤ 2

count_if-update_row :
    (user id : String) (f : Credential → Credential) (rows : Credentials)
    → ((c : Credential) → is_admin_of user (f c) ≡ is_admin_of user c)
    → count_if (is_admin_of user) (update_row id f rows) ≡ count_if (is_admin_of user) rows
count_if-update_row user id f [] same = refl
count_if-update_row user id f (c ∷ rows) same =
    ground (arith, same c, count_if-update_row user id f rows same)

count_if-select :
    (user : String) (p : Credential → Bool) (rows : Credentials)
    → count_if (is_admin_of user) (select p rows) ≤ count_if (is_admin_of user) rows
count_if-select user p [] = ground arith
count_if-select user p (c ∷ rows) = ground (arith, count_if-select user p rows)

-- The row of another user counts for nothing, and one of this user is let in below the cap only.
insert_row-Capped :
    (fault : Option String) (c : Credential) (rows : Credentials)
    → Capped rows
    → Capped (insert_row fault c rows).0
unfolding insert_row
insert_row-Capped (some e) c rows h user = h user
insert_row-Capped none c rows h user = elim (Bool-cases (trigger_aborts c rows)) [
  | inl aborted ↦ ground (arith, h user)
  | inr passed ↦ elim (Bool-cases (is_admin_of user c)) [
    | inr other ↦ ground (arith, h user)
    | inl ours ↦
        let same : c.user_id ≡ user = (eq_iff c.user_id user).0 (ground arith) in
        let below : leb 2 (count_if (is_admin_of user) rows) ≡ false = rw (← same) (ground arith) in
        ground (arith, h user, below)
  ]
]

insert_credential-Capped :
    (lib : Library) (fault : Option String) (id owner : String) (passkey : ℕ) (label : String)
    (now : ℕ) (rows : Credentials)
    → Capped rows
    → Capped (insert_credential lib fault id owner passkey label now rows).0
unfolding insert_credential
insert_credential-Capped lib fault id owner passkey label now rows h user =
    elim (Option-cases (lib.to_json passkey)) [
      | inl bad ↦ ground (arith, bad, h user)
      | inr (json, good) ↦
          let c : Credential = record {
            id = id;
            user_id = owner;
            credential_id = lib.cred_id passkey;
            passkey_json = json;
            admin_tier = true;
            device_label = label;
            created_at = now;
            last_used_at = none;
          } in
          ground (arith, good, insert_row-Capped fault c rows h user)
    ]

update_credential_passkey-Capped :
    (lib : Library) (fault : Option String) (id : String) (passkey now : ℕ) (rows : Credentials)
    → Capped rows
    → Capped (update_credential_passkey lib fault id passkey now rows).0
unfolding update_credential_passkey
update_credential_passkey-Capped lib (some e) id passkey now rows h user =
    elim (Option-cases (lib.to_json passkey)) [
      | inl bad ↦ ground (arith, bad, h user)
      | inr (json, good) ↦ ground (arith, good, h user)
    ]
update_credential_passkey-Capped lib none id passkey now rows h user =
    elim (Option-cases (lib.to_json passkey)) [
      | inl bad ↦ ground (arith, bad, h user)
      | inr (json, good) ↦
          let same =
            count_if-update_row user id
              (λ (c : Credential). record c { passkey_json = json; last_used_at = some now }) rows
              (λ c. refl) in
          ground (arith, good, h user, same)
    ]

write-Capped :
    (lib : Library) (w : Write) (rows : Credentials) → Capped rows → Capped (write lib w rows)
unfolding write touch_credential_last_used revoke_device
write-Capped lib (insert fault id owner passkey label now) rows h user =
    insert_credential-Capped lib fault id owner passkey label now rows h user
write-Capped lib (update fault id passkey now) rows h user =
    update_credential_passkey-Capped lib fault id passkey now rows h user
write-Capped lib (touch (some e) id now) rows h user = h user
write-Capped lib (touch none id now) rows h user = ground (
  arith,
  h user,
  count_if-update_row user id (λ (c : Credential). record c { last_used_at = some now }) rows
      (λ c. refl),
)
write-Capped lib (delete (some e) owner id) rows h user = h user
write-Capped lib (delete none owner id) rows h user =
    ground (arith, h user, count_if-select user (λ c. not (is_device owner id c)) rows)

-- Whatever writes come from an empty table on, in whatever order the requests' queries interleave, no user ever
-- has more than two credentials of the admin tier.
pub write_all-Capped : (lib : Library) (ws : List Write) → Capped (write_all lib ws [])
write_all-Capped lib ws = go ws [] (λ user. ground arith)
  where
    go : (ws : List Write) (rows : Credentials) → Capped rows → Capped (write_all lib ws rows)
    go [] rows h = h
    go (w ∷ ws) rows h = go ws (write lib w rows) (write-Capped lib w rows h)
