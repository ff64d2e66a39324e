-- ===== src/Log.antt =====
-- src/log.rs: the logger of the driver, and the log of its messages that explains a failed call.
pub mod Worst
use wintun_bindings.Base.{
  ℕ, List, [], ◌∷◌, none, Bool, Option, ok, false, if◌then◌else◌, some, Text, leb, true, ◌==◌, text,
  ◌++◌, inr, inl,
}
use wintun_bindings.Failure.{Error, string}
use wintun_bindings.System.{
  error, warn, info, Level, Platform, M, LogItem, tell, log_message, set_logger, ◌>>=◌, pure, fail,
  ◌>>◌,
}
use wintun_bindings.Util.Utf16.{win_pwstr_to_string}

abbrev pub severity : Level → ℕ
severity error = 2
severity warn = 1
severity info = 0

-- `set_logger`, with whether there is a logger, and `reset_logger`.
unfoldable pub set_logger_to : {E : Type 0} → Bool → M E (Unit {0})
set_logger_to present = tell (set_logger present)

unfoldable pub reset_logger : {E : Type 0} → M E (Unit {0})
unfolding set_logger_to
reset_logger = set_logger_to false

-- The levels of the driver, which are C integers.
abbrev pub level_of : ℕ → Level
level_of code = if code == 0 then info else if code == 1 then warn else error

-- The message goes to the crate `log` if it is no error.
abbrev pub forward : {E : Type 0} → Level → Text → M E (Unit {0})
forward info msg = tell (log_message 0 (text "WinTun: " ++ msg))
forward warn msg = tell (log_message 1 (text "WinTun: " ++ msg))
forward error msg = pure tt

-- `win_pwstr_to_string(..).unwrap_or_else(|e| e.to_string())`
unfoldable pub message_or : (List ℕ → Text) → (Error → Text) → Option (List ℕ) → Text
message_or debug display message = elim (win_pwstr_to_string debug message) [
  | inr s ↦ s
  | inl e ↦ display e
]

-- `default_logger`. The message is what the pointer leads to, `display` the text of an error.
unfoldable pub default_logger :
    Platform → (List ℕ → Text) → (Error → Text) → ℕ → ℕ → Option (List ℕ) → M ⊥ (Unit {0})
unfolding message_or
default_logger p debug display level timestamp message = do
  let msg = message_or debug display message
  forward (level_of level) msg
  if p.enable_inner_logging
      then (λ w. (
        ok tt,
        record w {
          log_container =
              w.log_container
              ++ record { level = level_of level; msg = msg; timestamp = timestamp } ∷ [];
        },
      ))
      else if severity (level_of level) == 2
      then tell (log_message 2 (text "WinTun: " ++ msg))
      else pure tt

-- `get_log` empties the container.
unfoldable pub get_log : {E : Type 0} → M E (List LogItem)
get_log w = (ok w.log_container, record w { log_container = [] })

-- `max_by_key`, which gives the last of the greatest: `best` is the greatest so far.
unfoldable pub worst_from : LogItem → List LogItem → LogItem
worst_from best [] = best
worst_from best (item ∷ items) =
    worst_from (if leb (severity best.level) (severity item.level) then item else best) items

unfoldable pub get_worst_log_msg : List LogItem → Option LogItem
unfolding worst_from
get_worst_log_msg [] = none
get_worst_log_msg (item ∷ items) = some (worst_from item items)

abbrev msg_or : Option LogItem → Text
msg_or none = text "No inner logs"
msg_or (some item) = item.msg

-- `extract_wintun_log_error(prefix)?`, at the error type of the crate.
unfoldable pub extract_wintun_log_error : {A : Type 0} → Platform → Text → M Error A
unfolding get_log get_worst_log_msg
extract_wintun_log_error p prefix = do
  items ← if p.enable_inner_logging then get_log else pure []
  fail (string (prefix ++ text " \"" ++ msg_or (get_worst_log_msg items) ++ text "\""))

-- `set_default_logger_if_unset`: a compare-and-exchange on the static flag.
unfoldable pub set_default_logger_if_unset : {E : Type 0} → M E (Unit {0})
unfolding set_logger_to
set_default_logger_if_unset w =
    if w.logger_is_set then (ok tt, w) else set_logger_to true (record w { logger_is_set = true })
