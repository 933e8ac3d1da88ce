-- ===== src/Devices/Tokens.antt =====
-- The push tokens of the device table under a registration (app/repositories/device.py).
use help_me_bid_backend.Base.{
  ℕ, ◌≡◌, ◌≢◌, refl, Bool, true, false, List, [], ◌∷◌, arith, any, update, String, find, is_some,
  eq_iff, if◌then◌else◌, ◌&&◌,
}
use help_me_bid_backend.Models.{Device}
use help_me_bid_backend.Store.{Store}
use help_me_bid_backend.Devices.{has_token, Registration, refreshed, register}

abbrev pub is_known : String → List Device → Bool
is_known token rows = any (has_token token) rows

-- The unique constraint on `push_token`.
abbrev pub DistinctTokens : List Device → Type 0
DistinctTokens [] = Unit
DistinctTokens (d ∷ rows) = (is_known d.push_token rows ≡ false) × DistinctTokens rows

abbrev KeepsToken : (Device → Device) → Type 0
KeepsToken f = (d : Device) → (f d).push_token ≡ d.push_token

is_known-update :
    (p : Device → Bool) (f : Device → Device)
    → KeepsToken f
    → (t : String) (rows : List Device) → is_known t (update p f rows) ≡ is_known t rows
is_known-update p f keep t [] = refl
is_known-update p f keep t (d ∷ rows) = ground (arith, keep d, is_known-update p f keep t rows)

DistinctTokens-update :
    (p : Device → Bool) (f : Device → Device)
    → KeepsToken f
    → (rows : List Device) → DistinctTokens rows
    → DistinctTokens (update p f rows)
DistinctTokens-update p f keep [] h = tt
DistinctTokens-update p f keep (d ∷ rows) h = ground (
  arith,
  keep d,
  is_known-update p f keep d.push_token rows,
  DistinctTokens-update p f keep rows h.1,
)

is_some-find :
    (t : String) (rows : List Device) → is_some (find (has_token t) rows) ≡ is_known t rows
is_some-find t [] = refl
is_some-find t (d ∷ rows) = ground (arith, is_some-find t rows)

-- A registration keeps distinct tokens distinct, whether it moves a known token or adds a device.
pub register-DistinctTokens :
    (r : Registration) (now : ℕ) (s : Store)
    → DistinctTokens s.devices
    → DistinctTokens (register r now s).1.devices
unfolding register
register-DistinctTokens r now s h = ground (
  arith,
  is_some-find r.push_token s.devices,
  DistinctTokens-update (has_token r.push_token) (refreshed r now) (λ d. refl) s.devices h,
)

-- The users to whom the active rows with a token belong.
abbrev pub owners : String → List Device → List ℕ
owners t [] = []
owners t (d ∷ rows) =
    if has_token t d && d.is_active then d.user_id ∷ owners t rows else owners t rows

owners_unknown : (t : String) (rows : List Device) → is_known t rows ≡ false → owners t rows ≡ []
owners_unknown t [] h = refl
owners_unknown t (d ∷ rows) h = ground (arith, owners_unknown t rows)

owners_moved :
    (r : Registration) (now : ℕ) (rows : List Device)
    → DistinctTokens rows
    → is_known r.push_token rows ≡ true
    → owners r.push_token (update (has_token r.push_token) (refreshed r now) rows) ≡ r.user_id ∷ []
owners_moved r now [] h k = cc
owners_moved r now (d ∷ rows) h k = ground (
  arith,
  eq_iff d.push_token r.push_token,
  is_known-update (has_token r.push_token) (refreshed r now) (λ e. refl) r.push_token rows,
  owners_unknown r.push_token (update (has_token r.push_token) (refreshed r now) rows),
  owners_moved r now rows h.1,
)

owners_others :
    (r : Registration) (now : ℕ) (t : String) (rows : List Device)
    → t ≢ r.push_token
    → owners t (update (has_token r.push_token) (refreshed r now) rows) ≡ owners t rows
owners_others r now t [] ne = refl
owners_others r now t (d ∷ rows) ne =
    ground
      (arith, eq_iff d.push_token t, eq_iff d.push_token r.push_token, owners_others r now t rows)

-- In a table of distinct tokens, after a registration the token pushes to the registering user
-- alone, and every other token to whom it did before.
pub register_moves :
    (r : Registration) (now : ℕ) (s : Store)
    → DistinctTokens s.devices
    → (owners r.push_token (register r now s).1.devices ≡ r.user_id ∷ [])
      × ((t : String)
          → t ≢ r.push_token
          → owners t (register r now s).1.devices ≡ owners t s.devices)
unfolding register
register_moves r now s h = (
  ground (
    arith,
    eq_iff r.push_token r.push_token,
    is_some-find r.push_token s.devices,
    owners_unknown r.push_token s.devices,
    owners_moved r now s.devices h,
  ),
  λ t ne. ground (arith, eq_iff r.push_token t, owners_others r now t s.devices ne),
)
