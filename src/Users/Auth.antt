-- ===== src/Users/Auth.antt =====
-- `AuthService` of app/services/auth.py, and `get_current_user` of app/api/deps.py. An error that
-- comes with tables is one after which the session is as it was; a commit is the end of the call.
use help_me_bid_backend.Base.{ℕ, not, String, Option, none, some, if◌then◌else◌}
use help_me_bid_backend.Models.{User}
use help_me_bid_backend.Store.{Store, strip}
use help_me_bid_backend.Users.{
  get_by_id, get_by_phone, exists_by_phone, create, touch_last_login, write_user,
}
use help_me_bid_backend.Users.Security.{
  invalid_credentials, invalid_token, inactive_user, user_not_found, phone_already_registered,
  Result, ok, err, Hasher, verify_password, password_needs_rehash, Policy,
  validate_password_strength, Phones, normalize_phone_number, TokenSettings, Jwt,
  create_access_token, extract_user_id,
}

pub record Services : Type 0 where
  pub hasher : Hasher
  pub policy : Policy
  pub phones : Phones
  pub region : String
  pub lower : String → String

pub record RegisterRequest : Type 0 where
  pub phone_number : String
  pub password : String
  pub name : Option String
  pub email : Option String

pub record LoginRequest : Type 0 where
  pub phone_number : String
  pub password : String

-- `payload.name.strip() if payload.name else None`
abbrev pub stripped_name : Option String → Option String
stripped_name none = none
stripped_name (some String.[]) = none
stripped_name (some (String.◌∷◌ c s)) = some (strip (String.◌∷◌ c s))

abbrev pub created : Option (User × Store) → Result (User × Store)
created none = err phone_already_registered
created (some r) = ok r

abbrev pub add_account :
    Services → (salt : ℕ) → RegisterRequest → Store → String → Result (User × Store)
add_account v salt r s phone =
    if exists_by_phone phone s
    then err phone_already_registered
    else created
        (create v.lower phone (v.hasher.hash salt r.password) (stripped_name r.name) r.email s)

abbrev pub with_strong_password : Result (Unit {0}) → Result (User × Store) → Result (User × Store)
with_strong_password (err x) rest = err x
with_strong_password (ok u) rest = rest

abbrev pub with_phone : Result String → (String → Result (User × Store)) → Result (User × Store)
with_phone (err x) f = err x
with_phone (ok phone) f = f phone

-- `register`: the user and the tables after the commit.
unfoldable pub register : Services → (salt : ℕ) → RegisterRequest → Store → Result (User × Store)
register v salt r s = with_phone (normalize_phone_number v.phones v.region r.phone_number) (λ phone.
    with_strong_password (validate_password_strength v.policy r.password)
      (add_account v salt r s phone))

-- The hash that a login leaves.
abbrev pub upgraded_hash : Services → (salt : ℕ) → String → String → String
upgraded_hash v salt password hashed =
    if password_needs_rehash v.hasher hashed then v.hasher.hash salt password else hashed

abbrev pub rehashed : Services → (salt : ℕ) → String → User → User
rehashed v salt password u = record u {
  hashed_password = upgraded_hash v salt password u.hashed_password;
}

-- The user that a login returns.
abbrev pub logged_in : Services → (salt now : ℕ) → String → User → User
logged_in v salt now password u = record (rehashed v salt password u) { last_login_at = some now }

-- The checks of a user that was found, in the order of the code.
abbrev pub let_in : Services → (salt now : ℕ) → String → User → Store → Result (User × Store)
let_in v salt now password u s =
    if not (verify_password v.hasher password u.hashed_password)
    then err invalid_credentials
    else if not u.is_active
    then err inactive_user
    else ok (
      logged_in v salt now password u,
      touch_last_login u.id now (write_user u.id (rehashed v salt password) s),
    )

abbrev pub let_in_found :
    Services → (salt now : ℕ) → String → Option User → Store → Result (User × Store)
let_in_found v salt now password none s = err invalid_credentials
let_in_found v salt now password (some u) s = let_in v salt now password u s

-- `authenticate`: whatever the phone library says against a number is a wrong credential.
abbrev pub authenticate_phone :
    Services → (salt now : ℕ) → String → Store → Result String → Result (User × Store)
authenticate_phone v salt now password s (err x) = err invalid_credentials
authenticate_phone v salt now password s (ok phone) =
    let_in_found v salt now password (get_by_phone phone s) s

unfoldable pub authenticate :
    Services → (salt now : ℕ) → LoginRequest → Store → Result (User × Store)
authenticate v salt now r s =
    authenticate_phone v salt now r.password s
      (normalize_phone_number v.phones v.region r.phone_number)

abbrev pub active_user : Option User → Result User
active_user none = err user_not_found
active_user (some u) = if u.is_active then ok u else err inactive_user

unfoldable pub get_active_user : ℕ → Store → Result User
get_active_user user_id s = active_user (get_by_id user_id s)

abbrev pub user_with_id : Result ℕ → Store → Result User
user_with_id (err x) s = err x
user_with_id (ok id) s = get_active_user id s

module _ {Token : Type 0} (j : Jwt Token) (t : TokenSettings) where
  unfoldable pub issue_token : User → (now : ℕ) → (jti : String) → Token × ℕ
  issue_token u now jti = create_access_token j t u.id now jti

  -- `get_current_user`, on the bearer token of a request.
  unfoldable pub get_current_user : (now : ℕ) → Option Token → Store → Result User
  get_current_user now none s = err invalid_token
  get_current_user now (some token) s = user_with_id (extract_user_id j t now token) s
