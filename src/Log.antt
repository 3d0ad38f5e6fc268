-- ===== src/Log.antt =====
-- log/logger.go: the lines of the log. Times are printed by a parameter, and so are the values of an
-- entry; the frames that runtime.Caller knows from the eighth on are a list.
use utils_go.Base.{ℕ, Bool, true, not, ◌&&◌, Option, none, some, List, [], ◌∷◌, ◌++◌, if◌then◌else◌}
use utils_go.Base.Text.{Text, text, to_upper, text_beq, starts_with}
use utils_go.Base.Decimal.{decimal}
use utils_go.Util.Token.{Answer, answer, ◌>>=◌}

-- The levels of logrus that the source names, and any other value of their type.
pub data Level : Type 0 where
  panic_level fatal_level error_level warn_level info_level debug_level : Level
  other_level : ℕ → Level

-- "\033[" and what follows
unfoldable pub escape : Text → Text
escape s = 27 ∷ 91 ∷ s

unfoldable pub get_color_by_level : Level → Text
unfolding escape
get_color_by_level debug_level = escape (text "37m")
get_color_by_level info_level = escape (text "32m")
get_color_by_level warn_level = escape (text "33m")
get_color_by_level error_level = escape (text "31m")
get_color_by_level fatal_level = escape (text "35m")
get_color_by_level panic_level = escape (text "35m")
get_color_by_level (other_level code) = escape (text "0m")

pub record Frame : Type 0 where
  pub func_name : Text
  pub file : Text
  pub line : ℕ

-- strings.Contains
unfoldable pub text_contains : Text → Text → Bool
unfolding starts_with
text_contains sub [] = starts_with sub []
text_contains sub (c ∷ s) =
    let rest = text_contains sub s in if starts_with sub (c ∷ s) then true else rest

unfoldable pub find_caller : List Frame → Text × ℕ
unfolding text_contains
find_caller [] = (text "unknown", 0)
find_caller (f ∷ frames) =
    let rest = find_caller frames in
    if not (text_contains (text "log.") f.func_name)
      && not (text_contains (text "logrus") f.func_name)
    then (f.file, f.line)
    else rest

-- The values of Data["logId"]: a text, or another value with what it prints.
pub data LogId : Type 0 where
  text_id : Text → LogId
  other_id : Text → LogId

unfoldable pub log_id_text : Option LogId → Text
unfolding text_beq
log_id_text none = []
log_id_text (some (text_id s)) = if text_beq s (text "unknown") then [] else s ++ text " "
log_id_text (some (other_id s)) = s ++ text " "

pub record Entry (Time : Type 0) : Type 0 where
  pub time : Time
  pub level : Level
  pub log_id : Option LogId
  pub message : Text

-- The level of a line; the argument is Level.String of logrus.
unfoldable pub level_name : (Level → Text) → Level → Text
unfolding to_upper text_beq
level_name level_string level =
    let upper = to_upper (level_string level) in
    if text_beq upper (text "WARNING") then text "WARN" else upper

-- CustomFormatter.Format. The arguments are EnableColors, Level.String, filepath.Base, the print of a time in the
-- layout of the source, and the frames.
unfoldable pub format :
    {Time : Type 0}
    → Bool
    → (Level → Text)
    → (Text → Text)
    → (Time → Text)
    → List Frame
    → Entry Time
    → Text
unfolding find_caller level_name log_id_text get_color_by_level decimal escape
format enable_colors level_string base format_time frames entry =
    let (file, line) = find_caller frames in
    let head =
      format_time entry.time
      ++ text " "
      ++ base file
      ++ text ":"
      ++ decimal line
      ++ text " "
      ++ log_id_text entry.log_id in
    let level = level_name level_string entry.level in
    if enable_colors
    then head
      ++ text "["
      ++ get_color_by_level entry.level
      ++ level
      ++ escape (text "0m")
      ++ text "] "
      ++ entry.message
      ++ 10 ∷ []
    else head ++ text "[" ++ level ++ text "] " ++ entry.message ++ 10 ∷ []

-- Hook.Fire: the error of the formatter, or what Write returns.
unfoldable pub fire : {E : Type 0} → (E → Answer Text) → (Text → Answer ℕ) → E → Answer ℕ
fire formatter write entry = do line ← formatter entry; write line

-- TimezoneHook.Fire
unfoldable pub timezone_fire :
    {Time Loc : Type 0}
    → (Text → Answer Loc)
    → (Time → Loc → Time)
    → Text
    → Entry Time
    → Answer (Entry Time)
timezone_fire load_location in_location location entry = do
  loc ← load_location location
  answer (record entry { time = in_location entry.time loc })

-- CtxWithFields: the value of the context under logId.
unfoldable pub ctx_log_id : Option LogId → LogId
ctx_log_id none = text_id (text "unknown")
ctx_log_id (some id) = id
