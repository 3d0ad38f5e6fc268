-- ===== src/Web/Auth.antt =====
-- middleware/auth.go: the handler that Auth returns, on the part of gin.Context that it uses.
use utils_go.Base.{
  ℕ, suc, Bool, true, false, Option, none, some, List, [], ◌∷◌, nat_beq, if◌then◌else◌,
}
use utils_go.Base.Int.{ℤ}
use utils_go.Base.Text.{Text, text, text_beq, text_eq}
use utils_go.Base.GoMap.{GoMap, lookup, insert}
use utils_go.Util.Token.{answer, refused, Jwt, Settings, validate_token, get_address_from_token}
use utils_go.Web.Errors.{Any, string, other, unauthorized_err}
use utils_go.Web.Response.{Response, biz, respond_error}

abbrev pub bearer_prefix : Text
bearer_prefix = text "Bearer "

abbrev pub user_address_key : Text
user_address_key = text "user_address"

-- The header "Authorization" (the empty text where there is none), c.Set's keys, the answers, whether
-- c.Abort was called, and how often c.Next was.
pub record Context (V : Type 0) : Type 0 where
  pub authorization : Text
  pub keys : GoMap Text (Any V)
  pub responses : List (Response V)
  pub aborted : Bool
  pub nexts : ℕ

-- strings.HasPrefix(s, prefix) and strings.TrimPrefix(s, prefix)
unfoldable pub after_prefix : Text → Text → Option Text
after_prefix [] s = some s
after_prefix (p ∷ ps) [] = none
after_prefix (p ∷ ps) (c ∷ s) = let rest = after_prefix ps s in if nat_beq p c then rest else none

module _ {V : Type 0} where
  unfoldable pub abort : Context V → Context V
  abort c = record c { aborted = true }

  -- response.RespondError(c, errors.UnauthorizedErr); c.Abort()
  unfoldable pub unauthorized : Context V → Context V
  unfolding respond_error abort
  unauthorized c =
      abort (record c { responses = respond_error (some (biz unauthorized_err)) c.responses })

  -- c.Set(UserAddressKey, address); c.Next()
  unfoldable pub let_through : Text → Context V → Context V
  unfolding insert
  let_through address c = record c {
    keys = insert user_address_key (string address) c.keys;
    nexts = suc c.nexts;
  }

  -- The handler behind the checks of the header; the readings of the clock are those of
  -- ValidateToken (two) and of GetAddressFromToken.
  unfoldable pub check_token : Jwt → Settings → (t1 t2 t3 : ℤ) → Text → Context V → Context V
  unfolding unauthorized let_through validate_token get_address_from_token
  check_token jwt settings t1 t2 t3 token c = elim (validate_token jwt settings t1 t2 token) [
    | refused msg ↦ unauthorized c
    | answer false ↦ unauthorized c
    | answer true ↦ elim (get_address_from_token jwt settings t3 token) [
      | refused msg ↦ unauthorized c
      | answer address ↦ let_through address c
    ]
  ]

  -- The handler behind authHeader := c.GetHeader(AuthorizationHeader).
  unfoldable pub auth_header : Jwt → Settings → (t1 t2 t3 : ℤ) → Text → Context V → Context V
  unfolding abort unauthorized check_token after_prefix
  auth_header jwt settings t1 t2 t3 header c =
      if text_beq header [] then abort c else elim (after_prefix bearer_prefix header) [
        | none ↦ unauthorized c
        | some [] ↦ unauthorized c
        | some (b ∷ bs) ↦ check_token jwt settings t1 t2 t3 (b ∷ bs) c
      ]

  unfoldable pub auth : Jwt → Settings → (t1 t2 t3 : ℤ) → Context V → Context V
  unfolding auth_header
  auth jwt settings t1 t2 t3 c = auth_header jwt settings t1 t2 t3 c.authorization c

  unfoldable pub get_user_address : Context V → Text × Bool
  unfolding lookup
  get_user_address c = elim (lookup user_address_key c.keys) [
    | none ↦ ([], false)
    | some (string address) ↦ (address, true)
    | some (other v) ↦ ([], false)
  ]
