-- ===== src/Users/Unique.antt =====
-- Registration (app/services/auth.py) against the unique indexes of the table `users`.
use help_me_bid_backend.Base.{
  ℕ, ◌≡◌, refl, sym, subst, true, false, Option, none, some, List, [], ◌∷◌, ◌++◌, arith, inl, inr,
  Bool-cases, any, All, All-append, String, str_eq, if◌then◌else◌,
}
use help_me_bid_backend.Models.{User}
use help_me_bid_backend.Store.{Store}
use help_me_bid_backend.Users.{
  has_phone, email_taken, exists_by_phone, create, conflicts, is_e164, new_user, add_user,
}
use help_me_bid_backend.Users.Security.{
  phone_already_registered, Result, ok, err, validate_password_strength, normalize_phone_number,
  Result-cases,
}
use help_me_bid_backend.Users.Auth.{Services, RegisterRequest, stripped_name, add_account, register}

-- The row that a request adds.
abbrev pub account_of : Services → ℕ → RegisterRequest → Store → String → User
account_of v salt r s phone =
    new_user v.lower s.next_id phone (v.hasher.hash salt r.password) (stripped_name r.name) r.email

-- The table is as the two indexes want it.
abbrev pub UniqueUsers : List User → Type 0
UniqueUsers [] = Unit
UniqueUsers (u ∷ us) =
    All
      (λ (w : User).
        (str_eq u.phone_number w.phone_number ≡ false) × (email_taken w.email (u ∷ []) ≡ false))
      us
    × UniqueUsers us

add_account_lem :
    (v : Services) (salt : ℕ) (r : RegisterRequest) (s : Store) (phone : String)
    → is_e164 phone ≡ true
    → let u = account_of v salt r s phone in
      add_account v salt r s phone
      ≡ (if conflicts u s.users then err phone_already_registered else ok (u, add_user u s))
unfolding exists_by_phone create
add_account_lem v salt r s phone h =
    let u = account_of v salt r s phone in
    elim (Bool-cases (any (has_phone phone) s.users)) [
      | inl taken ↦ rw taken refl
      | inr free ↦ elim (Bool-cases (email_taken u.email s.users)) [
        | inl used ↦ rw (free, used) refl
        | inr unused ↦ rw (free, unused, h) refl
      ]
    ]

-- With a number that can be read and a password that is strong enough, a registration adds the
-- account, unless the number or the email is another account's; in both of these cases the error
-- is the one for a number that is registered.
pub register_lem :
    (v : Services) (salt : ℕ) (r : RegisterRequest) (s : Store) (phone : String)
    → normalize_phone_number v.phones v.region r.phone_number ≡ ok phone
    → validate_password_strength v.policy r.password ≡ ok tt
    → is_e164 phone ≡ true
    → let u = account_of v salt r s phone in
      register v salt r s
      ≡ (if conflicts u s.users then err phone_already_registered else ok (u, add_user u s))
unfolding register
register_lem v salt r s phone h k l = rw (h, k, register) (add_account_lem v salt r s phone l)

-- What a registration that succeeds has done.
pub record IsRegistered (v : Services) (salt : ℕ) (r : RegisterRequest) (s : Store) (u : User)
    (s' : Store) : Type 0 where
  pub phone : String
  pub read : normalize_phone_number v.phones v.region r.phone_number ≡ ok phone
  pub user : u ≡ account_of v salt r s phone
  pub store : s' ≡ add_user (account_of v salt r s phone) s
  pub free : any (has_phone phone) s.users ≡ false
  pub unused : email_taken (account_of v salt r s phone).email s.users ≡ false

abbrev Registered : Services → ℕ → RegisterRequest → Store → Result (User × Store) → Type 0
Registered v salt r s (err x) = Unit
Registered v salt r s (ok (u, s')) = IsRegistered v salt r s u s'

module _ (v : Services) (salt : ℕ) (r : RegisterRequest) (s : Store) where
  add_account-IsRegistered :
      (phone : String)
      → normalize_phone_number v.phones v.region r.phone_number ≡ ok phone
      → Registered v salt r s (add_account v salt r s phone)
  unfolding exists_by_phone create
  add_account-IsRegistered phone h =
      let u = account_of v salt r s phone in
      elim (Bool-cases (any (has_phone phone) s.users)) [
        | inl taken ↦ rw (taken, Registered) tt
        | inr free ↦ elim (Bool-cases (email_taken u.email s.users)) [
          | inl used ↦ rw (free, used, Registered) tt
          | inr unused ↦ elim (Bool-cases (is_e164 phone)) [
            | inr malformed ↦ rw (free, unused, malformed, Registered) tt
            | inl formed ↦
                rw (free, unused, formed, Registered)
                  (record {
                    phone = phone;
                    read = h;
                    user = refl;
                    store = refl;
                    free = free;
                    unused = unused;
                  })
          ]
        ]
      ]

  register-Registered : Registered v salt r s (register v salt r s)
  unfolding register
  register-Registered =
      elim (Result-cases (normalize_phone_number v.phones v.region r.phone_number)) [
        | inl (x, h) ↦ rw (h, Registered) tt
        | inr (phone, h) ↦ elim (Result-cases (validate_password_strength v.policy r.password)) [
          | inl (x, k) ↦ rw (h, k, Registered) tt
          | inr (good, k) ↦ rw (h, k, Registered) (add_account-IsRegistered phone h)
        ]
      ]

  pub register-IsRegistered :
      (u : User) (s' : Store) → register v salt r s ≡ ok (u, s') → IsRegistered v salt r s u s'
  register-IsRegistered u s' h = subst (Registered v salt r s) h register-Registered

email_taken_split :
    (email : Option String) (w : User) (us : List User)
    → email_taken email (w ∷ us) ≡ false
    → (email_taken email (w ∷ []) ≡ false) × (email_taken email us ≡ false)
email_taken_split none w us h = (refl, refl)
email_taken_split (some e) w us h = (ground arith, ground arith)

append-UniqueUsers :
    (us : List User) (u : User)
    → UniqueUsers us
    → any (has_phone u.phone_number) us ≡ false
    → email_taken u.email us ≡ false
    → UniqueUsers (us ++ u ∷ [])
append-UniqueUsers [] u h f e = (tt, tt)
append-UniqueUsers (w ∷ us) u (p, h) f e =
    let (here, later) = email_taken_split u.email w us e in
    (
      All-append
          (λ (x : User).
            (str_eq w.phone_number x.phone_number ≡ false) × (email_taken x.email (w ∷ []) ≡ false))
          us (u ∷ []) p ((ground (arith, f), here), tt),
      append-UniqueUsers us u h (ground (arith, f)) later,
    )

-- A registration that succeeds keeps the phone numbers unique, and the emails.
pub register-UniqueUsers :
    (v : Services) (salt : ℕ) (r : RegisterRequest) (s : Store) (u : User) (s' : Store)
    → UniqueUsers s.users
    → register v salt r s ≡ ok (u, s')
    → UniqueUsers s'.users
register-UniqueUsers v salt r s u s' h k =
    let done = register-IsRegistered v salt r s u s' k in
    subst (λ (t : Store). UniqueUsers t.users) (sym done.store)
      (append-UniqueUsers s.users (account_of v salt r s done.phone) h done.free done.unused)
