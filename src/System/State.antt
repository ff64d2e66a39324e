-- ===== src/System/State.antt =====
-- The state that the crate's functions share, and the monad of functions on it.
use wintun_bindings.Base.{
  ℕ, Bool, false, Option, none, some, List, [], ◌∷◌, Text, Outcome, ok, err, panic, ◌⊎◌, inl, inr,
  ◌==◌, if◌then◌else◌,
}
use wintun_bindings.System.Calls.{Call, Trace}

pub data Level : Type 0 where
  error warn info : Level

-- `LogItem` of log.rs.
pub record LogItem : Type 0 where
  pub level : Level
  pub msg : Text
  pub timestamp : ℕ

-- `cell` holds the `OnceLock` cells, of which the first `next_cell` are in use; `logger_is_set` is
-- the static `SET_LOGGER`, and `log_container` the static `LOG_CONTAINER`, oldest first.
pub record World : Type 0 where
  pub trace : Trace
  pub cell : ℕ → Option ℕ
  pub next_cell : ℕ
  pub logger_is_set : Bool
  pub log_container : List LogItem

abbrev pub M : Type 0 → Type 0 → Type 0
M E A = World → Outcome E A × World

abbrev pub pure : {E A : Type 0} → A → M E A
pure a w = (ok a, w)

abbrev pub fail : {E A : Type 0} → E → M E A
fail e w = (err e, w)

abbrev pub panics : {E A : Type 0} → M E A
panics w = (panic, w)

-- The `?` operator on the result of foreign code.
abbrev pub from_result : {E A : Type 0} → E ⊎ A → M E A
from_result (inl e) = fail e
from_result (inr a) = pure a

abbrev pub and_then : {E A B : Type 0} → Outcome E A × World → (A → M E B) → Outcome E B × World
and_then (ok a, w) f = f a w
and_then (err e, w) f = (err e, w)
and_then (panic, w) f = (panic, w)

infixl 5 ◌>>=◌ ◌>>◌
abbrev pub ◌>>=◌ : {E A B : Type 0} → M E A → (A → M E B) → M E B
◌>>=◌ m f w = and_then (m w) f

abbrev pub ◌>>◌ : {E B : Type 0} → M E (Unit {0}) → M E B → M E B
m >> k = m >>= λ _. k

-- The `?` operator, where it converts the error.
abbrev pub convert : {E F A : Type 0} → (E → F) → Outcome E A × World → Outcome F A × World
convert f (ok a, w) = (ok a, w)
convert f (err e, w) = (err (f e), w)
convert f (panic, w) = (panic, w)

abbrev pub map_err : {E F A : Type 0} → (E → F) → M E A → M F A
map_err f m w = convert f (m w)

abbrev pub settle : {E F A : Type 0} → Outcome E A × World → Outcome F (E ⊎ A) × World
settle (ok a, w) = (ok (inr a), w)
settle (err e, w) = (ok (inl e), w)
settle (panic, w) = (panic, w)

-- A `match` on the result of a call.
abbrev pub attempt : {E F A : Type 0} → M E A → M F (E ⊎ A)
attempt m w = settle (m w)

abbrev pub unwinding : {E A : Type 0} → (World → World) → Outcome E A × World → Outcome E A × World
unwinding clean (ok a, w) = (ok a, w)
unwinding clean (err e, w) = (err e, w)
unwinding clean (panic, w) = (panic, clean w)

-- A value that is owned while `m` runs is dropped by `clean` if `m` panics. A second panic in the
-- drop aborts the process, which is a panic too.
abbrev pub unwind : {E A : Type 0} → M E (Unit {0}) → M E A → M E A
unwind clean m w = unwinding (λ w'. (clean w').1) (m w)

-- A call of foreign code, with its answer as a function of the calls before it.
abbrev pub invoke : {E A : Type 0} → Call → (Trace → A) → M E A
invoke c answer w = (ok (answer w.trace), record w { trace = c ∷ w.trace })

-- A call of foreign code that answers nothing.
abbrev pub tell : {E : Type 0} → Call → M E (Unit {0})
tell c w = (ok tt, record w { trace = c ∷ w.trace })

-- What foreign code has left behind: `GetLastError`, or the memory that a pointer leads to.
abbrev pub observe : {E A : Type 0} → (Trace → A) → M E A
observe answer w = (ok (answer w.trace), w)

abbrev pub write_cell : (ℕ → Option ℕ) → ℕ → ℕ → ℕ → Option ℕ
write_cell f c v x = if c == x then some v else f x

abbrev pub empty_world : World
empty_world = record {
  trace = [];
  cell = λ _. none;
  next_cell = 0;
  logger_is_set = false;
  log_container = [];
}
