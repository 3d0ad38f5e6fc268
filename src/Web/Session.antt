-- ===== src/Web/Session.antt =====
-- middleware/auth.go with util/jwt.go: the handler lets the holder of a token that GenerateAuthToken made
-- through.
use mathlib.Core.Path.{subst}
use utils_go.Base.{◌≡◌, ◌≢◌, refl, sym, true, false, some, [], ◌∷◌, ◌++◌, arith, All}
use utils_go.Base.Int.{ℤ, ◌+ℤ◌, ◌≤ℤ◌, ◌<ℤ◌, ltb_ℤ}
use utils_go.Base.Text.{Text, text_eq}
use utils_go.Util.Token.{
  Answer, answer, Claims, Method, hmac, Jwt, Settings, key_of_method, valid_claims, is_expired,
  unless_expired, new_claims, generate_auth_token, parse_auth_token, validate_token,
  get_address_from_token,
}
use utils_go.Web.Auth.{bearer_prefix, Context, auth}
use utils_go.Web.Gate.{IsPassed, auth_complete, let_through-IsPassed}

module _ (jwt : Jwt) (settings : Settings) where
  parse_auth_token_ok :
      (now : ℤ) (token : Text) (claims : Claims)
      → jwt.parse_with_claims (key_of_method settings) now token
        ≡ answer (record { claims = some claims; valid = true })
      → parse_auth_token jwt settings now token ≡ answer claims
  unfolding parse_auth_token valid_claims
  parse_auth_token_ok now token claims parsed = rw (parse_auth_token, parsed) refl

  validate_token_ok :
      (t1 t2 expires : ℤ) (token : Text) (claims : Claims)
      → parse_auth_token jwt settings t1 token ≡ answer claims
      → claims.expires_at ≡ some expires
      → t2 <ℤ expires
      → validate_token jwt settings t1 t2 token ≡ answer true
  unfolding validate_token is_expired unless_expired
  validate_token_ok t1 t2 expires token claims parsed stamped early =
      let fresh : ltb_ℤ expires t2 ≡ false = ground arith in
      rw (validate_token, parsed, stamped, is_expired, fresh) refl

  get_address_from_token_ok :
      (t3 : ℤ) (token : Text) (claims : Claims)
      → parse_auth_token jwt settings t3 token ≡ answer claims
      → get_address_from_token jwt settings t3 token ≡ answer claims.address
  unfolding get_address_from_token
  get_address_from_token_ok t3 token claims parsed = rw (get_address_from_token, parsed) refl

-- A token that GenerateAuthToken made for an address: while the parsing and the checks run no earlier
-- than its NotBefore is read and before it expires, the handler lets the request with the header
-- "Bearer " and this token through, and GetUserAddress then returns the address. Of the library it is
-- used that a signed token is not empty, that it parses with its key from NotBefore on and before
-- ExpiresAt into the claims that were signed, and that NewNumericDate does not round up.
pub auth-generate_auth_token :
    {V : Type 0} (jwt : Jwt) (settings : Settings)
    → ((secret : Text) (claims : Claims) (token : Text)
        → jwt.signed_string secret claims ≡ answer token
        → token ≢ [])
    → ((secret : Text) (claims : Claims) (token : Text) (keys : Method → Answer Text)
          (not_before expires now : ℤ)
        → jwt.signed_string secret claims ≡ answer token
        → keys hmac ≡ answer secret
        → claims.not_before ≡ some not_before
        → claims.expires_at ≡ some expires
        → not_before ≤ℤ now
        → now <ℤ expires
        → jwt.parse_with_claims keys now token
          ≡ answer (record { claims = some claims; valid = true }))
    → ((t : ℤ) → jwt.new_numeric_date t ≤ℤ t)
    → (expires_now issued_now not_before_now t1 t2 t3 : ℤ) (address token : Text) (c : Context V)
    → generate_auth_token jwt settings expires_now issued_now not_before_now address ≡ answer token
    → All
        (λ t.
          (not_before_now ≤ℤ t)
          × (t <ℤ jwt.new_numeric_date (expires_now +ℤ settings.token_expire_duration)))
        (t1 ∷ t2 ∷ t3 ∷ [])
    → c.authorization ≡ bearer_prefix ++ token
    → IsPassed address c (auth jwt settings t1 t2 t3 c)
unfolding generate_auth_token new_claims key_of_method
auth-generate_auth_token jwt settings not_empty parses no_round_up expires_now issued_now
      not_before_now t1 t2 t3 address token c made times header =
    let claims = new_claims jwt settings expires_now issued_now not_before_now address in
    let expires = jwt.new_numeric_date (expires_now +ℤ settings.token_expire_duration) in
    let parsed : (t : ℤ)
        → not_before_now ≤ℤ t
        → t <ℤ expires
        → parse_auth_token jwt settings t token ≡ answer claims =
      λ t early late. parse_auth_token_ok jwt settings t token claims (
        parses settings.jwt_secret claims token (key_of_method settings)
          (jwt.new_numeric_date not_before_now) expires t made refl refl refl
          (let down = no_round_up not_before_now in omega arith) late) in
    let through = auth_complete jwt settings t1 t2 t3 c address (
      token,
      header,
      not_empty settings.jwt_secret claims token made,
      validate_token_ok jwt settings t1 t2 expires token claims (parsed t1 times.0.0 times.0.1) refl
          times.1.0.1,
      get_address_from_token_ok jwt settings t3 token claims
          (parsed t3 times.1.1.0.0 times.1.1.0.1),
    ) in
    subst (IsPassed address c) (sym through) (let_through-IsPassed address c)
