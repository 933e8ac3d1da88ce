-- ===== src/Users.antt =====
-- Accounts: `UserRepository` of app/repositories/user.py, with the constraints of
-- app/db/models/user.py that a flush meets. The services on it are in `Security` and `Auth`.
pub mod Security
pub mod Auth
pub mod Unique
pub mod Login
pub mod Tokens
mod Tests
use Prim.Native.Char.{code}
use help_me_bid_backend.Base.{
  ℕ, zero, suc, ◌==◌, ◌&&◌, ◌||◌, not, leb, String, Bool, true, false, Option, none, some, List, [],
  ◌∷◌, ◌++◌, any, find, update, is_some, str_eq, if◌then◌else◌,
}
use help_me_bid_backend.Models.{User}
use help_me_bid_backend.Store.{Store}

abbrev pub has_id : ℕ → User → Bool
has_id id u = u.id == id

abbrev pub has_phone : String → User → Bool
has_phone phone u = str_eq u.phone_number phone

abbrev pub has_email : String → User → Bool
has_email email u = elim u.email [ none ↦ false | some e ↦ str_eq e email ]

unfoldable pub get_by_id : ℕ → Store → Option User
get_by_id user_id s = find (has_id user_id) s.users

unfoldable pub get_by_phone : String → Store → Option User
get_by_phone phone s = find (has_phone phone) s.users

-- `lower` is Python's.
unfoldable pub get_by_email : (String → String) → String → Store → Option User
get_by_email lower email s = find (has_email (lower email)) s.users

unfoldable pub exists_by_phone : String → Store → Bool
exists_by_phone phone s = any (has_phone phone) s.users

-- `email.lower() if email else None`
abbrev pub stored_email : (String → String) → Option String → Option String
stored_email lower none = none
stored_email lower (some String.[]) = none
stored_email lower (some (String.◌∷◌ c e)) = some (lower (String.◌∷◌ c e))

abbrev is_digit_from : ℕ → ℕ → Bool
is_digit_from low c = leb low c && leb c 57

abbrev digits_between : ℕ → ℕ → String → Bool
digits_between least most String.[] = least == 0
digits_between least zero (String.◌∷◌ c s) = false
digits_between zero (suc most) (String.◌∷◌ c s) =
    let rest = digits_between zero most s in is_digit_from 48 (code c) && rest
digits_between (suc least) (suc most) (String.◌∷◌ c s) =
    let rest = digits_between least most s in is_digit_from 48 (code c) && rest

abbrev after_plus : String → Bool
after_plus String.[] = false
after_plus (String.◌∷◌ c s) = is_digit_from 49 (code c) && digits_between 6 17 s

-- The CHECK constraint on the phone number: a plus, a digit that is not 0, and 6 to 17 digits.
unfoldable pub is_e164 : String → Bool
is_e164 String.[] = false
is_e164 (String.◌∷◌ c s) = code c == 43 && after_plus s

abbrev pub email_taken : Option String → List User → Bool
email_taken none us = false
email_taken (some email) us = any (has_email email) us

-- The unique indexes on the phone number and on the emails that are not NULL.
abbrev pub conflicts : User → List User → Bool
conflicts u us = any (has_phone u.phone_number) us || email_taken u.email us

abbrev pub new_user : (String → String) → ℕ → String → String → Option String → Option String → User
new_user lower id phone hashed name email = record {
  id = id;
  phone_number = phone;
  hashed_password = hashed;
  name = name;
  email = stored_email lower email;
  is_active = true;
  last_login_at = none;
}

abbrev pub add_user : User → Store → Store
add_user u s = record s { users = s.users ++ u ∷ []; next_id = suc s.next_id }

-- `create`: `none` is the `IntegrityError` of the flush.
unfoldable pub create :
    (String → String)
    → (phone hashed : String) → (name email : Option String) → Store
    → Option (User × Store)
unfolding is_e164
create lower phone hashed name email s =
    let u = new_user lower s.next_id phone hashed name email in
    if conflicts u s.users || not (is_e164 phone) then none else some (u, add_user u s)

-- Writing to the row of a user.
abbrev pub write_user : ℕ → (User → User) → Store → Store
write_user id f s = record s { users = update (has_id id) f s.users }

unfoldable pub touch_last_login : ℕ → ℕ → Store → Store
touch_last_login id now s = write_user id (λ u. record u { last_login_at = some now }) s

abbrev pub given_email : (String → String) → Option String → Option String → Option String
given_email lower none old = old
given_email lower (some e) old = some (lower e)

abbrev pub given_name : Option String → Option String → Option String
given_name none old = old
given_name (some n) old = some n

abbrev pub with_profile : (String → String) → (name email : Option String) → User → User
with_profile lower name email u = record u {
  name = given_name name u.name;
  email = given_email lower email u.email;
}

-- Another user has the email.
abbrev pub email_taken_by_other : ℕ → Option String → List User → Bool
email_taken_by_other id none us = false
email_taken_by_other id (some e) us = any (λ u. not (has_id id u) && has_email e u) us

-- `update_profile`, of a user that was loaded: `none` is the `IntegrityError` of the flush.
unfoldable pub update_profile :
    (String → String) → ℕ → (name email : Option String) → Store → Option Store
update_profile lower id name email s =
    if email_taken_by_other id (given_email lower email none) s.users
    then none
    else some (write_user id (with_profile lower name email) s)
