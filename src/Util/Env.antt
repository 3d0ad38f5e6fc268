-- ===== src/Util/Env.antt =====
-- util/env.go and the context functions of util/generate.go: texts that a context carries. A context is a
-- map from keys to values: a text, or a value of another type.
use utils_go.Base.{Bool, Option, none, some, []}
use utils_go.Base.Text.{Text, text, text_eq, text_beq}
use utils_go.Base.GoMap.{GoMap, lookup, insert}

pub data ContextValue : Type 0 where
  text_value : Text → ContextValue
  other_value : ContextValue

abbrev pub Context : Type 0
Context = GoMap Text ContextValue

-- The assertion to a string, with the empty text when it fails.
unfoldable pub as_text : Option ContextValue → Text
as_text (some (text_value s)) = s
as_text (some other_value) = []
as_text none = []

unfoldable pub get_env : Context → Text
unfolding as_text
get_env ctx = as_text (lookup (text "env") ctx)

unfoldable pub set_env : Context → Text → Context
set_env ctx env = insert (text "env") (text_value env) ctx

unfoldable pub is_test_env : Context → Bool
unfolding get_env text_beq
is_test_env ctx = text_beq (get_env ctx) (text "test")

unfoldable pub is_prod_env : Context → Bool
unfolding get_env text_beq
is_prod_env ctx = text_beq (get_env ctx) (text "prod")

unfoldable pub get_log_id : Context → Text
unfolding as_text
get_log_id ctx = as_text (lookup (text "logId") ctx)

unfoldable pub with_log_id_ctx : Context → Text → Context
with_log_id_ctx ctx log_id = insert (text "logId") (text_value log_id) ctx
