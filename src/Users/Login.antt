-- ===== src/Users/Login.antt =====
-- Logging in (app/services/auth.py): which attempts are refused alike, and that an account can be
-- used once it is registered.
use help_me_bid_backend.Base.{
  ℕ, ◌≡◌, refl, ◌∙◌, ap, Bool, true, false, not, none, some, List, [], ◌∷◌, ◌++◌, arith, inl, inr,
  ◌⊎◌, ◌↔◌, Bool-cases, Option-cases, any, find, String, eq_iff,
}
use help_me_bid_backend.Models.{User}
use help_me_bid_backend.Store.{Store}
use help_me_bid_backend.Users.{has_phone, get_by_phone, add_user, write_user, touch_last_login}
use help_me_bid_backend.Users.Security.{
  AppError, invalid_credentials, Result, ok, err, verify_password, normalize_phone_number,
  Result-cases,
}
use help_me_bid_backend.Users.Unique.{account_of, register-IsRegistered}
use help_me_bid_backend.Users.Auth.{
  Services, RegisterRequest, LoginRequest, register, logged_in, rehashed, let_in, authenticate,
}

-- The request names an account, and its password is that account's.
abbrev pub HasCredentials : Services → LoginRequest → Store → Type 0
HasCredentials v r s =
    (phone : String) × (u : User) × (normalize_phone_number v.phones v.region r.phone_number
      ≡ ok phone)
    × (get_by_phone phone s ≡ some u)
    × (verify_password v.hasher r.password u.hashed_password ≡ true)

abbrev is_invalid : Result (User × Store) → Bool
is_invalid (ok a) = false
is_invalid (err invalid_credentials) = true
is_invalid (err x) = false

let_in-is_invalid :
    (v : Services) (salt now : ℕ) (password : String) (u : User) (s : Store)
    → is_invalid (let_in v salt now password u s)
      ≡ not (verify_password v.hasher password u.hashed_password)
let_in-is_invalid v salt now password u s =
    elim (Bool-cases (verify_password v.hasher password u.hashed_password)) [
      | inr wrong ↦ rw wrong refl
      | inl right ↦ elim (Bool-cases u.is_active) [
        | inl active ↦ rw (right, active) refl
        | inr inactive ↦ rw (right, inactive) refl
      ]
    ]

authenticate-is_invalid_found :
    (v : Services) (salt now : ℕ) (r : LoginRequest) (s : Store) (phone : String) (u : User)
    → normalize_phone_number v.phones v.region r.phone_number ≡ ok phone
    → get_by_phone phone s ≡ some u
    → is_invalid (authenticate v salt now r s)
      ≡ not (verify_password v.hasher r.password u.hashed_password)
unfolding authenticate
authenticate-is_invalid_found v salt now r s phone u h k =
    rw (h, k, authenticate) (let_in-is_invalid v salt now r.password u s)

abbrev Decided : Services → ℕ → ℕ → LoginRequest → Store → Type 0
Decided v salt now r s =
    (authenticate v salt now r s ≡ err invalid_credentials) × (¬ HasCredentials v r s)
    ⊎ HasCredentials v r s × (is_invalid (authenticate v salt now r s) ≡ false)

invalid_at : (m : Result (User × Store)) → is_invalid m ≡ true → m ≡ err invalid_credentials
invalid_at (ok a) h = ground arith
invalid_at (err invalid_credentials) h = refl
invalid_at (err x) h = cc

module _ (v : Services) (salt now : ℕ) (r : LoginRequest) (s : Store) where
  Decided-unparsed :
      (x : AppError)
      → normalize_phone_number v.phones v.region r.phone_number ≡ err x
      → Decided v salt now r s
  unfolding authenticate
  Decided-unparsed x h = inl (rw h refl, λ (phone, u, k, found, right). cc)

  Decided-unknown :
      (phone : String)
      → normalize_phone_number v.phones v.region r.phone_number ≡ ok phone
      → get_by_phone phone s ≡ none
      → Decided v salt now r s
  unfolding authenticate
  Decided-unknown phone h k = inl (rw (h, k) refl, λ (phone', u, h', k', right). cc)

  Decided-known :
      (phone : String) (u : User)
      → normalize_phone_number v.phones v.region r.phone_number ≡ ok phone
      → get_by_phone phone s ≡ some u
      → Decided v salt now r s
  Decided-known phone u h k =
      let found = authenticate-is_invalid_found v salt now r s phone u h k in
      elim (Bool-cases (verify_password v.hasher r.password u.hashed_password)) [
        | inl right ↦ inr ((phone, u, h, k, right), found ∙ ap not right)
        | inr wrong ↦ inl (
          invalid_at (authenticate v salt now r s) (found ∙ ap not wrong),
          λ (phone', u', h', k', right). cc,
        )
      ]

  decided : Decided v salt now r s
  decided = elim (Result-cases (normalize_phone_number v.phones v.region r.phone_number)) [
    | inl (x, h) ↦ Decided-unparsed x h
    | inr (phone, h) ↦ elim (Option-cases (get_by_phone phone s)) [
      | inl unknown ↦ Decided-unknown phone h unknown
      | inr (u, known) ↦ Decided-known phone u h known
    ]
  ]

  -- A login is refused with the error for invalid credentials exactly when the request does not
  -- name an account by a number that can be read together with the account's password: so one
  -- error stands for an unreadable number, an unknown account and a wrong password, and an account
  -- that is inactive is only ever reported to a caller with its password.
  pub authenticate_refuses_iff :
      (authenticate v salt now r s ≡ err invalid_credentials) ↔ (¬ HasCredentials v r s)
  authenticate_refuses_iff = elim decided [
    | inl (refused, without) ↦ (λ _. without, λ _. refused)
    | inr (has, accepted) ↦ (λ refused. cc, λ without. absurd (without has))
  ]

-- The account is found under its number: no earlier row has it.
find_appended :
    (phone : String) (us : List User) (u : User)
    → any (has_phone phone) us ≡ false
    → has_phone phone u ≡ true
    → find (has_phone phone) (us ++ u ∷ []) ≡ some u
find_appended phone [] u h k = rw k refl
find_appended phone (w ∷ us) u h k = ground (arith, find_appended phone us u)

-- Who has registered can log in at once, with the password of the registration and with the number
-- in any form that is read as the same one, and logs in to the account that was made.
pub register-authenticate :
    (v : Services) (salt : ℕ) (r : RegisterRequest) (s : Store) (u : User) (s' : Store)
    (salt' now : ℕ) (login : LoginRequest)
    → ((n : ℕ) (password : String)
        → v.hasher.verify (v.hasher.hash n password) password ≡ some true)
    → register v salt r s ≡ ok (u, s')
    → normalize_phone_number v.phones v.region login.phone_number
      ≡ normalize_phone_number v.phones v.region r.phone_number
    → login.password ≡ r.password
    → (s2 : Store) × (authenticate v salt' now login s'
        ≡ ok (logged_in v salt' now r.password u, s2))
unfolding authenticate get_by_phone verify_password
register-authenticate v salt r s u s' salt' now login law h same password =
    let done = register-IsRegistered v salt r s u s' h in
    let a = account_of v salt r s done.phone in
    let here =
      find_appended done.phone s.users a done.free ((eq_iff done.phone done.phone).1 refl) in
    (
      touch_last_login a.id now (write_user a.id (rehashed v salt' r.password) (add_user a s)),
      rw (done.user, done.store, same, done.read, password, here, law salt r.password, authenticate)
          refl,
    )
