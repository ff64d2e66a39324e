-- ===== src/Log/Worst.antt =====
-- What message explains a failed call, and how often the logger is set: src/log.rs.
use wintun_bindings.Base.{
  ℕ, List, [], ◌∷◌, none, ◌++◌, ◌≡◌, ◌≤◌, Bool-cases, ◌<◌, ok, arith, refl, leb, inl, inr,
}
use wintun_bindings.Failure.{Error}
use wintun_bindings.Log.{worst_from, get_worst_log_msg, set_default_logger_if_unset, severity, info}
use wintun_bindings.System.{Level, error, warn, LogItem, World}
use mathlib.Core.List.{append_assoc, append-nil}
use mathlib.Core.Path.{subst}
use mathlib.Core.Option.{some-injective, some}

abbrev AllBelow : ℕ → List LogItem → Type 0
AllBelow n [] = Unit
AllBelow n (item ∷ items) = (severity item.level < n) × AllBelow n items

abbrev AllUpTo : ℕ → List LogItem → Type 0
AllUpTo n [] = Unit
AllUpTo n (item ∷ items) = (severity item.level ≤ n) × AllUpTo n items

-- The order of the levels: the first is more severe than the second.
pub data Graver : Level → Level → Type 0 where
  error_over_warn : Graver error warn
  error_over_info : Graver error info
  warn_over_info : Graver warn info

abbrev pub NoneGraver : Level → List LogItem → Type 0
NoneGraver level [] = Unit
NoneGraver level (item ∷ items) = (¬ Graver item.level level) × NoneGraver level items

abbrev pub AllLess : Level → List LogItem → Type 0
AllLess level [] = Unit
AllLess level (item ∷ items) = Graver level item.level × AllLess level items

Graver-lt : {a b : Level} → Graver a b → severity b < severity a
Graver-lt error_over_warn = omega arith
Graver-lt error_over_info = omega arith
Graver-lt warn_over_info = omega arith

Graver-of_lt : (a b : Level) → severity b < severity a → Graver a b
Graver-of_lt error error h = absurd (omega (arith, h))
Graver-of_lt error warn h = error_over_warn
Graver-of_lt error info h = error_over_info
Graver-of_lt warn error h = absurd (omega (arith, h))
Graver-of_lt warn warn h = absurd (omega (arith, h))
Graver-of_lt warn info h = warn_over_info
Graver-of_lt info error h = absurd (omega (arith, h))
Graver-of_lt info warn h = absurd (omega (arith, h))
Graver-of_lt info info h = absurd (omega (arith, h))

UpTo-NoneGraver :
    (level : Level) (items : List LogItem) → AllUpTo (severity level) items → NoneGraver level items
UpTo-NoneGraver level [] h = tt
UpTo-NoneGraver level (item ∷ items) (le, h) =
    (λ g. absurd (omega (arith, le, Graver-lt g)), UpTo-NoneGraver level items h)

Below-AllLess :
    (level : Level) (items : List LogItem) → AllBelow (severity level) items → AllLess level items
Below-AllLess level [] h = tt
Below-AllLess level (item ∷ items) (lt, h) =
    (Graver-of_lt level item.level lt, Below-AllLess level items h)

-- `items` are `older`, then `item`, then `newer`; nothing is more severe than `item`, and all that is
-- newer is less severe.
pub record IsWorst (items : List LogItem) (item : LogItem) : Type 0 where
  pub older : List LogItem
  pub newer : List LogItem
  pub splits : items ≡ older ++ item ∷ newer
  pub older_le : NoneGraver item.level older
  pub newer_lt : AllLess item.level newer

UpTo-mono : {m n : ℕ} (items : List LogItem) → m ≤ n → AllUpTo m items → AllUpTo n items
UpTo-mono [] h a = tt
UpTo-mono (item ∷ items) h (b, a) = (omega arith, UpTo-mono items h a)

UpTo-of-Below : {m n : ℕ} (items : List LogItem) → m ≤ n → AllBelow m items → AllUpTo n items
UpTo-of-Below [] h a = tt
UpTo-of-Below (item ∷ items) h (b, a) = (omega arith, UpTo-of-Below items h a)

UpTo-append : (n : ℕ) (xs ys : List LogItem) → AllUpTo n xs → AllUpTo n ys → AllUpTo n (xs ++ ys)
UpTo-append n [] ys h k = k
UpTo-append n (x ∷ xs) ys (b, h) k = (b, UpTo-append n xs ys h k)

Below-append :
    (n : ℕ) (xs ys : List LogItem) → AllBelow n xs → AllBelow n ys → AllBelow n (xs ++ ys)
Below-append n [] ys h k = k
Below-append n (x ∷ xs) ys (b, h) k = (b, Below-append n xs ys h k)

worst_from-IsWorst :
    (older seen items : List LogItem) (best : LogItem)
    → AllUpTo (severity best.level) older
    → AllBelow (severity best.level) seen
    → IsWorst (older ++ best ∷ (seen ++ items)) (worst_from best items)
unfolding worst_from
worst_from-IsWorst older seen [] best o n = record {
  older = older;
  newer = seen;
  splits = rw append-nil;
  older_le = UpTo-NoneGraver best.level older o;
  newer_lt = Below-AllLess best.level seen n;
}
worst_from-IsWorst older seen (item ∷ items) best o n =
    elim (Bool-cases (leb (severity best.level) (severity item.level))) [
      | inl le ↦
          rw (le, worst_from)
            (rw (← append_assoc older (best ∷ seen) (item ∷ items)) (
              worst_from-IsWorst (older ++ best ∷ seen) [] items item
                (UpTo-append _ older (best ∷ seen)
                  (UpTo-mono {m = severity best.level} older (ground arith) o)
                  (ground arith, UpTo-of-Below {m = severity best.level} seen (ground arith) n))
                tt))
      | inr gt ↦
          rw (gt, worst_from)
            (rw (← append_assoc seen (item ∷ []) items) (
              worst_from-IsWorst older (seen ++ item ∷ []) items best o
                (Below-append _ seen (item ∷ []) n (ground arith, tt))))
    ]

-- The message that `get_worst_log_msg` picks is the last of the most severe ones, and it picks none
-- only from an empty log: an error is more severe than a warning, and this than an information.
pub get_worst_log_msg-IsWorst :
    (items : List LogItem)
    → ((get_worst_log_msg items ≡ none) → items ≡ [])
      × ((item : LogItem) → get_worst_log_msg items ≡ some item → IsWorst items item)
unfolding get_worst_log_msg
get_worst_log_msg-IsWorst [] = (λ e. refl, λ item e. cc)
get_worst_log_msg-IsWorst (first ∷ items) = (
  λ e. cc,
  λ item e.
      subst (IsWorst (first ∷ items)) (some-injective _ _ e)
        (worst_from-IsWorst [] [] items first tt tt),
)

-- The default logger is set at most once: a second call changes nothing and calls nothing.
pub set_default_logger_twice :
    (w : World)
    → let w' = (set_default_logger_if_unset {E = Error} w).1 in
      set_default_logger_if_unset {E = Error} w' ≡ (ok tt, w')
unfolding set_default_logger_if_unset
set_default_logger_twice w = ground arith
