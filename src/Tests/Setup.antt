-- ===== src/Tests/Setup.antt =====
-- The theorems on the configuration, at concrete files.
use mathlib.Core.Option.{some_inj}
use open_hybrid.Base.{
  leb, fault, if◌then◌else◌, ℕ, true, false, List, [], ◌∷◌, ◌++◌, some, replicate, length, All, ◌≡◌,
  refl, sym, ap, inl, arith, ◌≤◌, Option, none, zero, suc, All-append, bytes_eq, ok,
}
use open_hybrid.Base.Int.{pos}
use open_hybrid.Base.Text.{codes, c_string, has_prefix, IsPlain}
use open_hybrid.Runtime.{Runtime}
use open_hybrid.Os.{Os}
use open_hybrid.Logging.{log_debug}
use open_hybrid.Config.{
  Loading, loaded, overflow, and_then, get_lines, defaults_first, defaults_last, read_config,
  exited, read_name, read_mtu, read_log_level, read_line, read_lines, read_text, read_setting,
  default_mtu, default_tunnel_name, default_anycast_ip,
}
use open_hybrid.Config.Sizes.{GivesSixteen, IsSound, IsComplete, Within}
use open_hybrid.Config.Bounds.{read_config-IsComplete, read_config_short}
use open_hybrid.Config.Print.{
  lte_interface, bonding, log_level, tunnel_interface_mtu, event_script_path,
}
use open_hybrid.Config.Files.{
  Entry, setting, comment, blank, print_file, IsEntry, apply_all, read_config-print_file,
  read_config_overflow,
}
use open_hybrid.Event.Environment.{env_texts, environment}
use open_hybrid.Config.Script.{environment_fits}
use open_hybrid.Runtime.{set_dhcp, set_dhcp6}
use open_hybrid.Dhcp.{process_udhcpc_output, process_udhcpc6_output}
use open_hybrid.Dhcp.Output.{
  udhcpc_output, udhcpc6_output, process-udhcpc_output, process-udhcpc6_output,
}
use open_hybrid.Tests.{host, session}

-- A C library for which every text is one address and one number.
abbrev pub library : Os
library = record host { inet_pton6 = λ x. some (replicate 16 32); atoi = λ x. pos 1400 }

pub library-GivesSixteen : GivesSixteen library
library-GivesSixteen text ip e = ap length (sym (some_inj.0 e))

-- `runtime` before anything is read.
abbrev pub unset : Runtime
unset = record session.runtime {
  bonding = false;
  tunnel_interface_mtu = 0;
  haap = record session.runtime.haap { anycast_ip = replicate 16 0 };
}

pub unset-IsSound : (n : ℕ) → IsSound n unset
unset-IsSound n = ((omega arith, omega arith, omega arith, omega arith, refl), inl refl)

abbrev pub entries : List Entry
entries =
    comment (codes " an example")
    ∷ setting (lte_interface (codes "wwan1"))
    ∷ blank
    ∷ setting (bonding true)
    ∷ setting (tunnel_interface_mtu (codes "1400"))
    ∷ setting (log_level log_debug)
    ∷ []

abbrev long_path : Entry
long_path = setting (event_script_path (replicate 130 97))

All-replicate : (n : ℕ) → All IsPlain (replicate n 97)
All-replicate zero = tt
All-replicate (suc n) = ((omega arith, omega arith), All-replicate n)

entries-IsEntry : All IsEntry entries
entries-IsEntry = omega arith

-- The name of the LTE interface, the level and the MTU of a struct that was loaded.
abbrev shown : Loading → Option (List ℕ × ℕ × ℕ)
shown (loaded r) = some (r.lte.interface_name, r.log_level, r.tunnel_interface_mtu)
shown exited = none
shown overflow = none

read_config_run :
    shown (read_config library (some (print_file entries)) unset) ≡ some (codes "wwan1", 5, 1400)
unfolding read_config bytes_eq c_string has_prefix read_name read_mtu read_log_level get_lines
    read_line read_lines read_text defaults_last read_setting default_mtu default_tunnel_name
    default_anycast_ip defaults_first
read_config_run = refl

-- A second equals sign belongs to the value, and a name of 15 characters ends the process.
read_name_run :
    (shown (read_config library (some (codes "lte interface = a=b")) unset)
      ≡ some (codes "a=b", 4, 1448))
    × (shown (read_config library (some (codes "lte interface = abcdefghijklmno")) unset) ≡ none)
unfolding read_config bytes_eq c_string has_prefix read_name read_mtu read_log_level get_lines
    read_line read_lines read_text defaults_last read_setting default_mtu default_tunnel_name
    default_anycast_ip defaults_first
read_name_run = (refl, refl)

read_config-print_file_example :
    read_config library (some (print_file entries)) unset
    ≡ and_then
        (apply_all library entries (defaults_first unset))
        (λ r1. loaded (defaults_last library r1))
read_config-print_file_example = read_config-print_file library entries unset entries-IsEntry

read_config-IsComplete_example :
    Within Unit (IsComplete 128) (read_config library (some (print_file entries)) unset)
read_config-IsComplete_example =
    read_config-IsComplete library (print_file entries) unset library-GivesSixteen
      (unset-IsSound 128)

entries_short : All (λ line. length line ≤ 147) (get_lines (print_file entries))
unfolding get_lines
entries_short = omega arith

read_config_short_example :
    Within ⊥ (IsComplete 127) (read_config library (some (print_file entries)) unset)
read_config_short_example =
    read_config_short library (print_file entries) unset library-GivesSixteen (unset-IsSound 127)
      entries_short

with_path-IsEntry : All IsEntry (entries ++ long_path ∷ [])
with_path-IsEntry =
    All-append IsEntry entries (long_path ∷ []) entries-IsEntry
      ((omega arith, All-replicate 130), tt)

read_config_overflow_example :
    read_config library (some (print_file (entries ++ long_path ∷ []))) unset ≡ overflow
unfolding read_name read_mtu
read_config_overflow_example =
    read_config_overflow library entries [] (replicate 130 97) unset _ with_path-IsEntry refl
      (omega arith)

environment_fits_example : environment library session.runtime ≡ (
    if leb (length (library.inet_ntop6 session.runtime.dhcp6.prefix_address)) 42
    then ok (env_texts library session.runtime)
    else fault)
environment_fits_example =
    environment_fits 128 library session.runtime
      (omega arith, omega arith, omega arith, omega arith, refl) (omega arith)

-- The library, with clients that have printed a lease.
abbrev leased : Os
leased = record library {
  inet_pton = λ x. some (10 ∷ 0 ∷ 0 ∷ 1 ∷ []);
  pipe_bytes = λ t. some (udhcpc_output (codes "10.0.0.1") (codes "1400"));
}

abbrev leased6 : Os
leased6 = record library {
  pipe_bytes = λ t. some (udhcpc6_output (codes "2003::") (codes "56") (codes "1400"));
}

process-udhcpc_output_example :
    (process_udhcpc_output leased session).runtime
    ≡ (set_dhcp session (record session.runtime.dhcp {
      ip = 10 ∷ 0 ∷ 0 ∷ 1 ∷ [];
      lease_time = 1400;
      lease_obtained = 110;
    })).runtime
process-udhcpc_output_example =
    process-udhcpc_output leased session (codes "10.0.0.1") (codes "1400") (omega arith)
      (omega arith) (omega arith) refl refl

process-udhcpc6_output_example :
    (process_udhcpc6_output leased6 session).runtime
    ≡ (set_dhcp6 session (record session.runtime.dhcp6 {
      prefix_address = replicate 16 32;
      prefix_length = 120;
      lease_time = 1400;
      lease_obtained = 110;
    })).runtime
process-udhcpc6_output_example =
    process-udhcpc6_output leased6 session (codes "2003::") (codes "56") (codes "1400")
      (omega arith) (omega arith) (omega arith) (omega arith) refl refl
