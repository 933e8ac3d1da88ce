-- ===== src/Users/Tokens.antt =====
-- Access tokens from their issue to their use (app/core/security.py, app/api/deps.py).
use help_me_bid_backend.Base.{ℕ, ◌+◌, ◌*◌, ◌≤◌, ◌<◌, ◌≡◌, refl, String, none, some, arith}
use help_me_bid_backend.Models.{User}
use help_me_bid_backend.Store.{Store}
use help_me_bid_backend.Users.{get_by_id}
use help_me_bid_backend.Users.Security.{
  invalid_token, err, Claims, TokenSettings, Jwt, claims_of, lifetime, microseconds_per_second,
  create_access_token, decode_access_token, extract_user_id,
}
use help_me_bid_backend.Users.Auth.{active_user, get_active_user, issue_token, get_current_user}

-- What PyJWT promises of `exp`, `iat` and `iss`: a token decodes to its claims with the key that
-- signed it, for the issuer that it names, from the second of its issue and before its expiry; and
-- from its expiry on it does not decode.
pub record IsJwt {Token : Type 0} (j : Jwt Token) : Type 0 where
  pub decodes :
      (c : Claims) (secret : String) (now : ℕ)
      → c.iat * microseconds_per_second ≤ now
      → now < c.exp * microseconds_per_second
      → j.decode (j.encode c secret) secret c.iss now ≡ some c
  pub expires :
      (c : Claims) (secret : String) (now : ℕ)
      → c.exp * microseconds_per_second ≤ now
      → j.decode (j.encode c secret) secret c.iss now ≡ none

module _ {Token : Type 0} (j : Jwt Token) (law : IsJwt j) (t : TokenSettings)
    (text : (id : ℕ) → t.uuid_of (t.uuid_text id) ≡ some id) (u : User) (issued now : ℕ)
    (jti : String) (s : Store) where
  -- From its issue on, and until a second before its lifetime ends, a token that was issued to a
  -- user lets a request in as that user: the row with the user's id, if it is still there and
  -- active.
  pub get_current_user-issue_token :
      issued ≤ now
      → now + microseconds_per_second ≤ issued + lifetime t
      → get_current_user j t now (some (issue_token j t u issued jti).0) s
        ≡ active_user (get_by_id u.id s)
  unfolding get_current_user issue_token create_access_token extract_user_id decode_access_token
      get_active_user
  get_current_user-issue_token h k =
      let c = claims_of t u.id issued jti in
      let decoded = law.decodes c t.secret now (omega arith) (omega arith) in
      rw (decoded, text u.id) refl

  -- Once its lifetime has passed, the token is refused, whoever has it.
  pub get_current_user_expired :
      issued + lifetime t ≤ now
      → get_current_user j t now (some (issue_token j t u issued jti).0) s ≡ err invalid_token
  unfolding get_current_user issue_token create_access_token extract_user_id decode_access_token
  get_current_user_expired h =
      let c = claims_of t u.id issued jti in rw (law.expires c t.secret now (omega arith)) refl
