-- ===== src/Web/Response.antt =====
-- response/response.go. The part of gin.Context that the package writes is the list of the JSON
-- answers; all have the status 200.
use utils_go.Base.{Option, none, some, List, [], ◌∷◌, ◌++◌}
use utils_go.Base.Int.{ℤ, pos}
use utils_go.Base.Text.{Text, text}
use utils_go.Web.Errors.{Any, BizError}

pub record Response (V : Type 0) : Type 0 where
  pub code : ℤ
  pub message : Text
  pub answer_data : Option (Any V)

-- An error: a *BizError, or another one by its text.
pub data Err (V : Type 0) : Type 0 where
  biz : BizError V → Err V
  plain : Text → Err V

module _ {V : Type 0} where
  unfoldable pub respond_json : ℤ → Text → Option (Any V) → List (Response V) → List (Response V)
  respond_json code message answer_data sent =
      sent ++ (record { code = code; message = message; answer_data = answer_data }) ∷ []

  unfoldable pub respond_ok : Option (Any V) → List (Response V) → List (Response V)
  respond_ok answer_data sent =
      sent ++ (record { code = pos 0; message = text "success"; answer_data = answer_data }) ∷ []

  unfoldable pub respond_error : Option (Err V) → List (Response V) → List (Response V)
  unfolding respond_ok respond_json
  respond_error none sent = respond_ok none sent
  respond_error (some (biz e)) sent = respond_json e.code e.msg none sent
  respond_error (some (plain msg)) sent = respond_json (pos 1001) msg none sent
