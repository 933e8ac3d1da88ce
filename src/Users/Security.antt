-- ===== src/Users/Security.antt =====
-- app/core/security.py: the password policy, phone numbers and access tokens. The libraries for
-- hashing, phone numbers and JSON web tokens are arguments. Instants are microseconds.
use text.Mathlib.Text.{starts_with}
use Prim.Native.Char.{code}
use help_me_bid_backend.Base.{
  ℕ, suc, ◌+◌, ◌*◌, ◌/◌, ◌≡◌, refl, ◌⊎◌, inl, inr, ◌||◌, not, ltb, String, Bool, false, Option,
  none, some, str_eq, if◌then◌else◌,
}
use help_me_bid_backend.Store.{strip}

-- The deliberate errors of app/core/exceptions.py that this part raises.
pub data AppError : Type 0 where
  weak_password invalid_phone_number invalid_credentials invalid_token : AppError
  inactive_user user_not_found phone_already_registered : AppError

pub data Result {ℓ} (A : Type ℓ) : Type ℓ where
  ok : A → Result A
  err : AppError → Result A

pub Result-cases :
    {A : Type 0} (r : Result A) → ((x : AppError) × (r ≡ err x)) ⊎ ((a : A) × (r ≡ ok a))
Result-cases (err x) = inl (x, refl)
Result-cases (ok a) = inr (a, refl)

-- Argon2: `verify` and `check_needs_rehash` are `none` where they raise; `hash` takes a salt.
pub record Hasher : Type 0 where
  pub hash : (salt : ℕ) → String → String
  pub verify : (hashed password : String) → Option Bool
  pub check_needs_rehash : String → Option Bool

abbrev pub or_false : Option Bool → Bool
or_false none = false
or_false (some b) = b

unfoldable pub verify_password : Hasher → (password hashed : String) → Bool
verify_password h password hashed = or_false (h.verify hashed password)

unfoldable pub password_needs_rehash : Hasher → String → Bool
password_needs_rehash h hashed = or_false (h.check_needs_rehash hashed)

-- `str.isalpha` and `str.isdigit` of a character's code, and `password_min_length`.
pub record Policy : Type 0 where
  pub minimum : ℕ
  pub is_alpha : ℕ → Bool
  pub is_digit : ℕ → Bool

abbrev pub size : String → ℕ
size String.[] = 0
size (String.◌∷◌ c s) = suc (size s)

abbrev pub any_char : (ℕ → Bool) → String → Bool
any_char p String.[] = false
any_char p (String.◌∷◌ c s) = p (code c) || any_char p s

-- `validate_password_strength`
unfoldable pub validate_password_strength : Policy → String → Result (Unit {0})
validate_password_strength p password =
    if ltb (size password) p.minimum
    then err weak_password
    else if ltb 128 (size password)
    then err weak_password
    else if not (any_char p.is_alpha password)
    then err weak_password
    else if not (any_char p.is_digit password)
    then err weak_password
    else ok tt

-- The phone number library. A parsed number is a code that stands for it.
pub record Phones : Type 0 where
  pub parse : String → (region : Option String) → Option ℕ
  pub is_valid_number : ℕ → Bool
  pub format_e164 : ℕ → String

abbrev valid_phone : Phones → Option ℕ → Result String
valid_phone p none = err invalid_phone_number
valid_phone p (some n) =
    if p.is_valid_number n then ok (p.format_e164 n) else err invalid_phone_number

unfoldable pub normalize_phone_number : Phones → (region : String) → String → Result String
normalize_phone_number p region raw =
    let candidate = strip raw in
    if str_eq candidate ""
    then err invalid_phone_number
    else valid_phone p (p.parse candidate (if starts_with candidate "+" then none else some region))

-- The claims of a token. The clock of the claims counts seconds.
pub record Claims : Type 0 where
  pub sub : String
  pub type : String
  pub iat : ℕ
  pub exp : ℕ
  pub iss : String
  pub jti : String

-- The settings of the tokens; `uuid_text` and `uuid_of` are `str` and `UUID` on ids.
pub record TokenSettings : Type 0 where
  pub secret : String
  pub issuer : String
  pub expire_minutes : ℕ
  pub uuid_text : ℕ → String
  pub uuid_of : String → Option ℕ

abbrev pub microseconds_per_second : ℕ
microseconds_per_second = 1_000_000

abbrev pub lifetime : TokenSettings → ℕ
lifetime s = s.expire_minutes * 60 * microseconds_per_second

abbrev pub claims_of : TokenSettings → (user_id now : ℕ) → (jti : String) → Claims
claims_of s user_id now jti = record {
  sub = s.uuid_text user_id;
  type = "access";
  iat = now / microseconds_per_second;
  exp = (now + lifetime s) / microseconds_per_second;
  iss = s.issuer;
  jti = jti;
}

abbrev pub access_claims : Option Claims → Result Claims
access_claims none = err invalid_token
access_claims (some c) = if str_eq c.type "access" then ok c else err invalid_token

abbrev pub user_of : TokenSettings → Result Claims → Result ℕ
user_of s (err x) = err x
user_of s (ok c) = elim (s.uuid_of c.sub) [ none ↦ err invalid_token | some id ↦ ok id ]

-- The token library, with tokens of a type of its own; `decode` is `none` where it raises.
pub record Jwt (Token : Type 0) : Type 0 where
  pub encode : Claims → (secret : String) → Token
  pub decode : Token → (secret issuer : String) → (now : ℕ) → Option Claims

module _ {Token : Type 0} (j : Jwt Token) (s : TokenSettings) where
  -- `create_access_token`: the token, and the seconds for which it is good.
  unfoldable pub create_access_token : (user_id now : ℕ) → (jti : String) → Token × ℕ
  create_access_token user_id now jti =
      (j.encode (claims_of s user_id now jti) s.secret, lifetime s / microseconds_per_second)

  unfoldable pub decode_access_token : (now : ℕ) → Token → Result Claims
  decode_access_token now token = access_claims (j.decode token s.secret s.issuer now)

  unfoldable pub extract_user_id : (now : ℕ) → Token → Result ℕ
  unfolding decode_access_token
  extract_user_id now token = user_of s (decode_access_token now token)
