-- ===== src/Tests/Dumps.antt =====
-- The theorems on the log, at concrete bytes.
use open_hybrid.Base.{ℕ, ◌∷◌, [], ◌++◌, List, false, ok, ◌≡◌, refl, ◌==◌, replicate}
use open_hybrid.Base.Text.{codes}
use open_hybrid.Logging.{print_log_header, logger}
use open_hybrid.Logging.Dump.{logger_hexdump}
use open_hybrid.Logging.Rows.{rows_from, rows_text, joined, AreRows, logger_hexdump-rows}

abbrev packet : List ℕ
packet = 72 ∷ 105 ∷ 0 ∷ 200 ∷ replicate 15 65

rows_run :
    rows_text 0 (rows_from (65 ∷ []) (10 ∷ []))
    ≡ codes "  0000 41 0a                                           A.\n"
unfolding rows_from
rows_run = refl

logger_run : logger 4 3 (codes "text\n") ≡ (codes "WARNING: text\n", false)
unfolding logger print_log_header
logger_run = refl

logger_hexdump-rows_example :
    (logger_hexdump 6 6 (1 ∷ packet) (codes "Contents:\n")
      ≡ ok (
        print_log_header 6 ++ codes "Contents:\n" ++ rows_text 0 (rows_from (1 ∷ []) packet),
        6 == 1,
      ))
    × (joined (rows_from (1 ∷ []) packet) ≡ 1 ∷ packet)
    × AreRows (rows_from (1 ∷ []) packet)
logger_hexdump-rows_example = logger_hexdump-rows 6 6 1 packet (codes "Contents:\n") refl
