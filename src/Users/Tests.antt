-- ===== src/Users/Tests.antt =====
-- An account is registered, logs in, and uses its token; a second one wants its email.
use Prim.Native.String.{◌++◌ as ◌^^◌}
use help_me_bid_backend.Base.{
  ℕ, zero, suc, ◌*◌, ◌≡◌, ◌↔◌, refl, ap, true, false, Option, none, some, [], String, str_eq,
  eq_iff, leb, ltb, ◌&&◌, if◌then◌else◌, arith,
}
use help_me_bid_backend.Models.{User}
use help_me_bid_backend.Store.{Store}
use help_me_bid_backend.Users.{
  get_by_id, get_by_phone, exists_by_phone, create, is_e164, add_user, touch_last_login,
}
use help_me_bid_backend.Users.Security.{
  invalid_credentials, phone_already_registered, ok, err, Hasher, verify_password,
  password_needs_rehash, size, validate_password_strength, Phones, normalize_phone_number, Claims,
  TokenSettings, Jwt, microseconds_per_second,
}
use help_me_bid_backend.Users.Auth.{
  Services, RegisterRequest, LoginRequest, register, authenticate, logged_in, active_user,
  issue_token, get_current_user,
}
use help_me_bid_backend.Users.Unique.{account_of}
use help_me_bid_backend.Users.Login.{
  HasCredentials, authenticate_refuses_iff, register-authenticate,
}
use help_me_bid_backend.Users.Tokens.{IsJwt, get_current_user-issue_token}

abbrev marked : Hasher
marked = record {
  hash = λ salt p. "h" ^^ p;
  verify = λ hashed p. some (str_eq hashed ("h" ^^ p));
  check_needs_rehash = λ hashed. some false;
}

-- Reads two ways of writing one number.
abbrev directory : Phones
directory = record {
  parse = λ s region.
      if str_eq s "98765 43210" then some 1 else if str_eq s "+91 9876543210" then some 1 else none;
  is_valid_number = λ n. true;
  format_e164 = λ n. "+919876543210";
}

abbrev services : Services
services = record {
  hasher = marked;
  policy = record { minimum = 8; is_alpha = λ c. leb 97 c; is_digit = λ c. leb c 57 };
  phones = directory;
  region = "IN";
  lower = λ s. s;
}

abbrev empty : Store
empty = record {
  users = [];
  preferences = [];
  devices = [];
  ipos = [];
  deliveries = [];
  next_id = 1;
}

abbrev asha : RegisterRequest
asha = record {
  phone_number = " 98765 43210 ";
  password = "passw0rd1";
  name = some " Asha ";
  email = some "a@b.in";
}

abbrev asha_user : User
asha_user = account_of services 0 asha empty "+919876543210"

abbrev one : Store
one = add_user asha_user empty

-- Another number, of which the directory knows nothing, and the same email.
abbrev other_phones : Services
other_phones = record services {
  phones = record directory { parse = λ s region. some 2; format_e164 = λ n. "+919999999999" };
}

checks : Unit {0}
unfolding is_e164 create exists_by_phone get_by_phone touch_last_login normalize_phone_number
    validate_password_strength verify_password password_needs_rehash register authenticate
checks = tt

asha_is_added : register services 0 asha empty ≡ ok (asha_user, one)
unfolding checks
asha_is_added = refl

-- A second number with the email of the first account: the error speaks of the number.
email_is_taken : register other_phones 0 asha one ≡ err phone_already_registered
unfolding checks
email_is_taken = refl

other_is_read :
    normalize_phone_number other_phones.phones "IN" asha.phone_number ≡ ok "+919999999999"
unfolding checks
other_is_read = refl

asha_is_strong : validate_password_strength services.policy asha.password ≡ ok tt
unfolding checks
asha_is_strong = refl

other_is_formed : is_e164 "+919999999999" ≡ true
unfolding checks
other_is_formed = refl

abbrev second : User
second = account_of other_phones 0 asha one "+919999999999"

abbrev login : LoginRequest
login = record { phone_number = "+91 9876543210"; password = "passw0rd1" }

marked_verifies : (n : ℕ) (p : String) → marked.verify (marked.hash n p) p ≡ some true
marked_verifies n p = ap some ((eq_iff ("h" ^^ p) ("h" ^^ p)).1 refl)

same_number :
    normalize_phone_number directory "IN" login.phone_number
    ≡ normalize_phone_number directory "IN" asha.phone_number
unfolding checks
same_number = refl

register-authenticate_example :
    (s : Store) × (authenticate services 5 9 login one
      ≡ ok (logged_in services 5 9 "passw0rd1" asha_user, s))
register-authenticate_example =
    register-authenticate services 0 asha empty asha_user one 5 9 login marked_verifies
      asha_is_added same_number refl

authenticate_refuses_iff_example :
    (authenticate services 5 9 login empty ≡ err invalid_credentials)
    ↔ (¬ HasCredentials services login empty)
authenticate_refuses_iff_example = authenticate_refuses_iff services 5 9 login empty

-- A token is its claims with the key that signed them.
abbrev reads : Claims × String → String → String → ℕ → Option Claims
reads (c, key) secret issuer now =
    if str_eq key secret
      && str_eq c.iss issuer
      && leb (c.iat * microseconds_per_second) now
      && ltb now (c.exp * microseconds_per_second)
    then some c
    else none

abbrev signed : Jwt (Claims × String)
signed = record { encode = λ c secret. (c, secret); decode = reads }

signed-IsJwt : IsJwt signed
signed-IsJwt = record {
  decodes = λ c secret now h k. ground (arith, eq_iff secret secret, eq_iff c.iss c.iss);
  expires = λ c secret now h. ground arith;
}

abbrev strokes : ℕ → String
strokes zero = ""
strokes (suc n) = String.◌∷◌ "|" (strokes n)

size-strokes : (n : ℕ) → size (strokes n) ≡ n
size-strokes zero = refl
size-strokes (suc n) = ap suc (size-strokes n)

abbrev settings : TokenSettings
settings = record {
  secret = "key";
  issuer = "api";
  expire_minutes = 30;
  uuid_text = strokes;
  uuid_of = λ s. some (size s);
}

strokes_are_read : (n : ℕ) → settings.uuid_of (settings.uuid_text n) ≡ some n
strokes_are_read n = ap some (size-strokes n)

get_current_user-issue_token_example :
    get_current_user signed settings 1_000_000
      (some (issue_token signed settings asha_user 5 "j").0)
      one
    ≡ active_user (get_by_id 1 one)
get_current_user-issue_token_example =
    get_current_user-issue_token signed signed-IsJwt settings strokes_are_read asha_user 5 1_000_000
      "j" one (omega arith) (omega arith)
