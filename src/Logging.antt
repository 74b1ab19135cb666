-- ===== src/Logging.antt =====
-- The log levels of src/logging.h, and print_log_header and logger of src/logging.c. A formatted
-- message is the text that vprintf makes of it.
pub mod Dump
pub mod Loop
pub mod Rows
pub mod Bits
use open_hybrid.Base.{ℕ, Bool, List, [], ◌++◌, leb, ◌==◌, if◌then◌else◌}
use open_hybrid.Base.Text.{codes}

pub data Level : Type 0 where
  log_none log_fatal log_error log_warning log_info log_debug log_crazydebug : Level

abbrev pub level_number : Level → ℕ
level_number log_none = 0
level_number log_fatal = 1
level_number log_error = 2
level_number log_warning = 3
level_number log_info = 4
level_number log_debug = 5
level_number log_crazydebug = 6

unfoldable pub print_log_header : ℕ → List ℕ
print_log_header n =
    if n == 6
    then codes "CRAZYDEBUG: "
    else if n == 5
    then codes "DEBUG: "
    else if n == 4
    then codes "INFO: "
    else if n == 3
    then codes "WARNING: "
    else if n == 2
    then codes "ERROR: "
    else if n == 1
    then codes "FATAL: "
    else []

-- What is printed, and whether the process ends. The first argument is runtime.log_level.
unfoldable pub logger : ℕ → ℕ → List ℕ → List ℕ × Bool
logger runtime_level log_level message = (
  if leb log_level runtime_level then print_log_header log_level ++ message else [],
  log_level == 1,
)
