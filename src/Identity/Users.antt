-- ===== src/Identity/Users.antt =====
-- The users table (`find_or_create_user` and `get_user_email` of mint-sniper/src/identity/session.rs). A sampled id
-- is an argument; the constraints are those of mint-sniper/migrations/0001_identity.sql.
pub mod Subjects
use seasniper.Common.{
  ℕ, String, Bool, true, false, Option, none, some, List, [], ◌∷◌, ◌++◌, ◌||◌, any, find, map,
  str_eq, if◌then◌else◌,
}
use seasniper.Common.Results.{Result, ok, err}
use seasniper.Failure.{Failure, database}
use seasniper.Identity.Session.{Faults}

pub record User : Type 0 where
  pub id : String
  pub google_sub : String
  pub email : String
  pub created_at : ℕ

abbrev pub has_sub : String → User → Bool
has_sub sub u = str_eq u.google_sub sub

abbrev pub is_user : String → User → Bool
is_user id u = str_eq u.id id

abbrev pub set_email : (id email : String) → List User → List User
set_email id email = map (λ u. if is_user id u then record u { email = email } else u)

-- `INSERT INTO users`: the id is the primary key and the subject is unique.
abbrev pub clashes : User → List User → Bool
clashes u users = any (is_user u.id) users || any (has_sub u.google_sub) users

-- A user who was found: the email is brought up to date.
unfoldable pub sync_email :
    Option String → (id email : String) → List User → List User × Result Failure String
sync_email (some e) id email users = (users, err (database e))
sync_email none id email users = (set_email id email users, ok id)

unfoldable pub insert_user : Option String → User → List User → List User × Result Failure String
insert_user (some e) u users = (users, err (database e))
insert_user none u users =
    if clashes u users
    then (users, err (database "UNIQUE constraint failed: users"))
    else (users ++ u ∷ [], ok u.id)

unfoldable pub find_or_create_user :
    Faults
    → (new_id google_sub email : String) (now : ℕ) → List User
    → List User × Result Failure String
find_or_create_user faults new_id google_sub email now users = elim (faults 0) [
  | some e ↦ (users, err (database e))
  | none ↦ elim (find (has_sub google_sub) users) [
    | some u ↦ sync_email (faults 1) u.id email users
    | none ↦
        insert_user (faults 1)
          (record { id = new_id; google_sub = google_sub; email = email; created_at = now }) users
  ]
]

unfoldable pub get_user_email :
    Option String → (user_id : String) → List User → Result Failure String
get_user_email (some e) user_id users = err (database e)
get_user_email none user_id users = elim (find (is_user user_id) users) [
  | some u ↦ ok u.email
  | none ↦ err (database "no rows returned")
]
