-- ===== src/Identity/Users/Subjects.antt =====
-- A Google subject is one user for good (mint-sniper/src/identity/session.rs).
use seasniper.Common.{
  ℕ, String, Option, none, some, List, [], ◌∷◌, ◌++◌, ◌≡◌, ◌∙◌, arith, find, Bool-cases,
  Option-cases, inl, inr, eq_iff, if◌then◌else◌, refl,
}
use seasniper.Common.Results.{ok}
use seasniper.Identity.Session.{Faults}
use seasniper.Identity.Users.{
  User, has_sub, set_email, clashes, sync_email, insert_user, find_or_create_user,
}

-- The id of the user of a subject.
abbrev pub id_of : String → List User → Option String
id_of sub [] = none
id_of sub (u ∷ users) = let rest = id_of sub users in if has_sub sub u then some u.id else rest

id_of-set_email :
    (sub id email : String) (users : List User)
    → id_of sub (set_email id email users) ≡ id_of sub users
id_of-set_email sub id email [] = refl
id_of-set_email sub id email (u ∷ users) = ground (arith, id_of-set_email sub id email users)

id_of-find :
    (sub : String) (users : List User) (u : User)
    → find (has_sub sub) users ≡ some u
    → id_of sub users ≡ some u.id
id_of-find sub [] u e = ground arith
id_of-find sub (x ∷ users) u e = elim (Bool-cases (has_sub sub x)) [
  | inl hit ↦ ground arith
  | inr miss ↦ ground (arith, id_of-find sub users u)
]

id_of-new :
    (u : User) (users : List User)
    → find (has_sub u.google_sub) users ≡ none
    → id_of u.google_sub (users ++ u ∷ []) ≡ some u.id
id_of-new u [] e = ground (arith, eq_iff u.google_sub u.google_sub)
id_of-new u (x ∷ users) e = elim (Bool-cases (has_sub u.google_sub x)) [
  | inl hit ↦ ground arith
  | inr miss ↦ ground (arith, id_of-new u users)
]

id_of-append :
    (sub id : String) (users : List User) (u : User)
    → id_of sub users ≡ some id
    → id_of sub (users ++ u ∷ []) ≡ some id
id_of-append sub id [] u e = ground arith
id_of-append sub id (x ∷ users) u e = elim (Bool-cases (has_sub sub x)) [
  | inl hit ↦ ground arith
  | inr miss ↦ ground (arith, id_of-append sub id users u)
]

-- What a sign-in that succeeds leaves: the subject's user is the one that it answered, and every subject that
-- had a user keeps that user.
pub record Identified (sub id : String) (before after : List User) : Type 0 where
  pub known : id_of sub after ≡ some id
  pub kept :
      (other other_id : String)
      → id_of other before ≡ some other_id
      → id_of other after ≡ some other_id

sync_email-Identified :
    (fault : Option String) (sub email id : String) (users : List User) (u : User)
    → find (has_sub sub) users ≡ some u
    → (sync_email fault u.id email users).1 ≡ ok id
    → Identified sub id users (sync_email fault u.id email users).0
unfolding sync_email
sync_email-Identified (some e) sub email id users u found h = ground arith
sync_email-Identified none sub email id users u found h = record {
  known = ground (arith, id_of-set_email sub u.id email users, id_of-find sub users u found);
  kept = λ other other_id e. id_of-set_email other u.id email users ∙ e;
}

insert_user-Identified :
    (fault : Option String) (id : String) (users : List User) (u : User)
    → find (has_sub u.google_sub) users ≡ none
    → (insert_user fault u users).1 ≡ ok id
    → Identified u.google_sub id users (insert_user fault u users).0
unfolding insert_user
insert_user-Identified (some e) id users u missing h = ground arith
insert_user-Identified none id users u missing h = elim (Bool-cases (clashes u users)) [
  | inl clash ↦ ground arith
  | inr free ↦ record {
    known = ground (arith, id_of-new u users missing);
    kept = λ other other_id e. ground (arith, id_of-append other other_id users u e);
  }
]

-- A sign-in that succeeds answers the user of its Google subject, whatever email comes with it: the one that
-- the subject has had, or a new one. No subject ever changes its user.
pub find_or_create_user-Identified :
    (faults : Faults) (new_id sub email id : String) (now : ℕ) (users : List User)
    → (find_or_create_user faults new_id sub email now users).1 ≡ ok id
    → Identified sub id users (find_or_create_user faults new_id sub email now users).0
unfolding find_or_create_user
find_or_create_user-Identified faults new_id sub email id now users e =
    elim (Option-cases (faults 0)) [
      | inr (failure, down) ↦ ground arith
      | inl fine ↦ elim (Option-cases (find (has_sub sub) users)) [
        | inr (u, found) ↦
            let whole : find_or_create_user faults new_id sub email now users
                ≡ sync_email (faults 1) u.id email users =
              ground (arith, fine, found) in
            rw whole (
              sync_email-Identified (faults 1) sub email id users u found
                (ground (arith, whole, e)))
        | inl missing ↦
            let u : User = record {
              id = new_id;
              google_sub = sub;
              email = email;
              created_at = now;
            } in
            let whole : find_or_create_user faults new_id sub email now users
                ≡ insert_user (faults 1) u users =
              ground (arith, fine, missing) in
            rw whole
              (insert_user-Identified (faults 1) id users u missing (ground (arith, whole, e)))
      ]
    ]
