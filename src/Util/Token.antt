-- ===== src/Util/Token.antt =====
-- util/jwt.go. The library golang-jwt is a parameter: signing, parsing with the key that the code's
-- function gives, and the rounding of jwt.NewNumericDate. Each reading of the clock is an argument, in
-- nanoseconds.
use utils_go.Base.{◌≡◌, refl, ◌⊎◌, inl, inr, ◌*◌, ◌^◌, Bool, true, false, Option, none, some, ◌++◌}
use utils_go.Base.Int.{ℤ, pos, ◌+ℤ◌, ◌-ℤ◌, ltb_ℤ}
use utils_go.Base.Text.{Text, text}

-- A value, or an error with what it prints.
pub data Answer (A : Type 0) : Type 0 where
  answer : A → Answer A
  refused : Text → Answer A

infixl 5 ◌>>=◌
abbrev pub ◌>>=◌ : {A B : Type 0} → Answer A → (A → Answer B) → Answer B
answer a >>= f = f a
refused msg >>= f = refused msg

pub Answer-cases :
    {A : Type 0} (a : Answer A) → ((v : A) × (a ≡ answer v)) ⊎ ((msg : Text) × (a ≡ refused msg))
Answer-cases (answer v) = inl (v, refl)
Answer-cases (refused msg) = inr (msg, refl)

-- A nil *jwt.NumericDate is `none`.
pub record Claims : Type 0 where
  pub address : Text
  pub expires_at : Option ℤ
  pub issued_at : Option ℤ
  pub not_before : Option ℤ
  pub issuer : Text
  pub subject : Text

-- The type of token.Method.
pub data Method : Type 0 where
  hmac : Method
  other_method : Text → Method

-- What jwt.ParseWithClaims returns: token.Claims.(*Claims), and token.Valid.
pub record Parsed : Type 0 where
  pub claims : Option Claims
  pub valid : Bool

pub record Jwt : Type 0 where
  -- jwt.NewWithClaims(jwt.SigningMethodHS256, claims).SignedString(secret)
  pub signed_string : Text → Claims → Answer Text
  -- jwt.ParseWithClaims with the function that gives the key, at a time
  pub parse_with_claims : (Method → Answer Text) → ℤ → Text → Answer Parsed
  pub new_numeric_date : ℤ → ℤ

-- jwtSecret and TokenExpireDuration
pub record Settings : Type 0 where
  pub jwt_secret : Text
  pub token_expire_duration : ℤ

abbrev pub initial_settings : Settings
initial_settings = record { jwt_secret = text ""; token_expire_duration = pos 0 }

unfoldable pub set_jwt_secret : Text → Settings → Settings
set_jwt_secret secret s = record s { jwt_secret = secret }

unfoldable pub set_token_expire_duration : ℤ → Settings → Settings
set_token_expire_duration duration s = record s { token_expire_duration = duration }

unfoldable pub key_of_method : Settings → Method → Answer Text
key_of_method s hmac = answer s.jwt_secret
key_of_method s (other_method alg) = refused (text "unexpected signing method: " ++ alg)

-- if claims, ok := token.Claims.(*Claims); ok && token.Valid
unfoldable pub valid_claims : Option Claims → Bool → Answer Claims
valid_claims (some claims) true = answer claims
valid_claims _ _ = refused (text "invalid token")

-- claims.ExpiresAt != nil && claims.ExpiresAt.Before(now)
unfoldable pub is_expired : Option ℤ → ℤ → Bool
is_expired none now = false
is_expired (some expires) now = ltb_ℤ expires now

-- time.Hour * 24
abbrev pub day : ℤ
day = pos (24 * 3600 * 10 ^ 9)

-- claims.ExpiresAt != nil && time.Until(claims.ExpiresAt.Time) < time.Hour*24
unfoldable pub expires_soon : Option ℤ → ℤ → Bool
expires_soon none now = false
expires_soon (some expires) now = ltb_ℤ (expires -ℤ now) day

unfoldable pub unless_expired : Bool → Answer Bool
unless_expired true = refused (text "token expired")
unless_expired false = answer true

module _ (jwt : Jwt) (settings : Settings) where
  -- The three readings are those of ExpiresAt, IssuedAt and NotBefore.
  unfoldable pub new_claims : (expires_now issued_now not_before_now : ℤ) → Text → Claims
  new_claims expires_now issued_now not_before_now addr = record {
    address = addr;
    expires_at = some (jwt.new_numeric_date (expires_now +ℤ settings.token_expire_duration));
    issued_at = some (jwt.new_numeric_date issued_now);
    not_before = some (jwt.new_numeric_date not_before_now);
    issuer = text "owlto.finance";
    subject = addr;
  }

  unfoldable pub generate_auth_token :
      (expires_now issued_now not_before_now : ℤ) → Text → Answer Text
  unfolding new_claims
  generate_auth_token expires_now issued_now not_before_now addr =
      jwt.signed_string settings.jwt_secret (new_claims expires_now issued_now not_before_now addr)

  unfoldable pub parse_auth_token : ℤ → Text → Answer Claims
  unfolding key_of_method valid_claims
  parse_auth_token now token_string = do
    token ← jwt.parse_with_claims (key_of_method settings) now token_string
    valid_claims token.claims token.valid

  -- The second reading of the clock is the comparison's own.
  unfoldable pub validate_token : ℤ → ℤ → Text → Answer Bool
  unfolding parse_auth_token is_expired unless_expired
  validate_token parse_now check_now token_string = do
    claims ← parse_auth_token parse_now token_string
    unless_expired (is_expired claims.expires_at check_now)

  unfoldable pub get_address_from_token : ℤ → Text → Answer Text
  unfolding parse_auth_token
  get_address_from_token now token_string = do
    claims ← parse_auth_token now token_string
    answer claims.address

  unfoldable pub refresh_token :
      ℤ → ℤ → (expires_now issued_now not_before_now : ℤ) → Text → Answer Text
  unfolding parse_auth_token generate_auth_token expires_soon
  refresh_token parse_now until_now expires_now issued_now not_before_now token_string = do
    claims ← parse_auth_token parse_now token_string
    elim (expires_soon claims.expires_at until_now) [
      | true ↦ generate_auth_token expires_now issued_now not_before_now claims.address
      | false ↦ answer token_string
    ]
