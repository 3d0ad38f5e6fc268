-- ===== src/Util/Call.antt =====
-- Calls of util/ that return a value, return an error (with what it prints), or panic.
use utils_go.Base.Text.{Text}

pub data Call (A : Type 0) : Type 0 where
  returned : A → Call A
  failed : Text → Call A
  panicked : Call A

infixl 5 ◌>>=◌
abbrev pub ◌>>=◌ : {A B : Type 0} → Call A → (A → Call B) → Call B
returned a >>= f = f a
failed msg >>= f = failed msg
panicked >>= f = panicked
