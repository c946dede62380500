-- ===== src/Log.antt =====
-- src/utils/log.h and log.cpp: the log level of the command line as a severity filter of
-- Boost.Log. `none` is the exit of the process on an unused level.
use psc_mock_server.Prelude.{
  ℕ, ◌+◌, ◌≡◌, ◌≤◌, ◌<◌, Bool, true, false, Option, none, some, arith, leb, ◌==◌, ◌↔◌,
  if◌then◌else◌,
}
use psc_mock_server.Prelude.Int.{ℤ, pos, negsuc}

-- `logging::trivial::severity_level`, in the order of Boost.Log.
pub data Severity : Type 0 where
  trace debug info warning error fatal : Severity

-- The position in that order, by which `severity >= l` compares.
abbrev pub rank : Severity → ℕ
rank trace = 0
rank debug = 1
rank info = 2
rank warning = 3
rank error = 4
rank fatal = 5

-- The switch of `_boost_set_log_level`: the severity from which on records pass.
unfoldable pub level_severity : ℤ → Option Severity
level_severity (negsuc n) = none
level_severity (pos n) =
    if n == 0
    then some fatal
    else if n == 1
    then some error
    else if n == 2
    then some warning
    else if n == 3
    then some info
    else if n == 4
    then some debug
    else none

-- The filter that is set: does a record of this severity pass?
unfoldable pub passes : Severity → Severity → Bool
passes l severity = leb (rank l) (rank severity)

-- the default argument of the constructor
abbrev pub default_level : ℤ
default_level = pos 3

abbrev pub emitted : Option Severity → Severity → Bool
emitted none severity = false
emitted (some l) severity = passes l severity

-- A level of the range 0 to 4 is accepted and any other ends the process.
pub level_severity-none_iff : (n : ℕ) → (level_severity (pos n) ≡ none) ↔ (4 < n)
unfolding level_severity
level_severity-none_iff n = (λ h. ground arith, λ h. ground arith)

-- At a level from 0 to 4 a record passes exactly when the rank of its severity, from trace 0 to
-- fatal 5, and the level add up to 5 or more.
pub emitted_iff :
    (n : ℕ) (severity : Severity)
    → n ≤ 4
    → (emitted (level_severity (pos n)) severity ≡ true) ↔ (5 ≤ n + rank severity)
unfolding level_severity passes
emitted_iff n severity h = (λ e. ground arith, λ e. ground arith)
