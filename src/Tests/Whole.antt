-- ===== src/Tests/Whole.antt =====
-- The theorems on whole runs of the process, at a concrete start.
use open_hybrid.Base.{All, [], some, Outcome, ok, refl, replicate, Post}
use open_hybrid.Base.Text.{c_string, has_prefix}
use open_hybrid.Runtime.{State, settings_of}
use open_hybrid.Calls.{Permitted}
use open_hybrid.Sections.Session.{last_state}
use open_hybrid.Calls.Runs.{main-calls}
use open_hybrid.Tundev.{Run, running}
use open_hybrid.Timers.Session.{handle_signal}
use open_hybrid.Timers.Ends.{RunHolds, EndsAs, Continues}
use open_hybrid.Grecp.Process.{packet}
use open_hybrid.Config.Files.{print_file}
use open_hybrid.Config.{
  read_config, read_lines, get_lines, read_line, read_setting, read_name, read_mtu,
}
use open_hybrid.Daemon.{main_start, main_round, begin, open_grecp_socket}
use open_hybrid.Daemon.Runs.{begun, then_step, signal, main_round-ends}
use open_hybrid.Tests.{host, session}
use open_hybrid.Tests.Setup.{library, unset, entries}

abbrev zeroed : State
zeroed = record session { runtime = unset }

-- The state in which the loop is entered.
abbrev entered : Outcome Run → State
entered (ok (running s)) = s
entered _ = zeroed

abbrev looping : State
looping = entered (main_start library 2 (some (print_file entries)) zeroed)

abbrev stopping : State
stopping = handle_signal 15 looping

main_round-ends_example :
    Post Unit
      (λ r. RunHolds (Continues session) (EndsAs host session) (r.1))
      (main_round host (packet (replicate 16 2) []) [] session)
main_round-ends_example = main_round-ends host (packet (replicate 16 2) []) [] session

main-calls_example :
    All (Permitted (settings_of looping.runtime)) stopping.trace
    × Post Unit
        (λ r. All (Permitted (settings_of looping.runtime)) (last_state (r.1)).trace)
        (main_round library (packet (replicate 16 2) []) [] stopping)
unfolding main_start read_config read_lines get_lines read_line c_string read_setting has_prefix
    read_name read_mtu begin open_grecp_socket
main-calls_example =
    main-calls library (some (print_file entries)) [] zeroed looping [] stopping
      (packet (replicate 16 2) []) refl refl (then_step begun (signal 15))
