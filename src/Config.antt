-- ===== src/Config.antt =====
-- read_config of src/config.c. The file is what fopen and getline give of it: none where it cannot
-- be opened. What is only logged is left out.
pub mod Sizes
pub mod Lines
pub mod Bounds
pub mod Print
pub mod Files
pub mod Script
use open_hybrid.Base.{
  ℕ, zero, suc, ◌+◌, ◌-◌, ◌*◌, ◌/◌, ◌%◌, Bool, true, false, ◌&&◌, List, [], ◌∷◌, ◌++◌, Option, none,
  some, length, drop, replicate, ltb, leb, ◌==◌, ◌!=◌, if◌then◌else◌, bytes_eq,
}
use open_hybrid.Base.Int.{ℤ, pos, negsuc, pos_part, ltb_ℤ}
use open_hybrid.Base.Text.{codes, c_string, has_prefix}
use open_hybrid.Runtime.{Interval, Haap, Lte, Dsl, Runtime}
use open_hybrid.Os.{Os}
use open_hybrid.Dhcp.{to_u32, or_else}

-- What reading the configuration comes to: a struct that is filled, the end of the process by
-- LOG_FATAL, or a write behind the end of an array.
pub data Loading : Type 0 where
  loaded : Runtime → Loading
  exited : Loading
  overflow : Loading

abbrev pub and_then : Loading → (Runtime → Loading) → Loading
and_then (loaded r) f = f r
and_then exited f = exited
and_then overflow f = overflow

abbrev pub set_lte_name : Runtime → List ℕ → Runtime
set_lte_name r name = record r { lte = record r.lte { interface_name = name } }

abbrev pub set_dsl_name : Runtime → List ℕ → Runtime
set_dsl_name r name = record r { dsl = record r.dsl { interface_name = name } }

abbrev pub set_anycast_ip : Runtime → List ℕ → Runtime
set_anycast_ip r ip = record r { haap = record r.haap { anycast_ip = ip } }

-- memcpy of a text into an array that holds a C string: what stands behind the text stays.
abbrev pub overwrite : List ℕ → List ℕ → List ℕ
overwrite text old = text ++ drop (length text) old

-- The lines that getline gives one after the other, without the ends of the lines.
abbrev pub push : ℕ → List (List ℕ) → List (List ℕ)
push c [] = (c ∷ []) ∷ []
push c (line ∷ lines) = (c ∷ line) ∷ lines

unfoldable pub get_lines : List ℕ → List (List ℕ)
get_lines [] = []
get_lines (c ∷ text) = let rest = get_lines text in if c == 10 then [] ∷ rest else push c rest

-- strstr(line, "="): from the first '=' on.
unfoldable pub find_equals : List ℕ → Option (List ℕ)
find_equals [] = none
find_equals (c ∷ line) = if c == 61 then some (c ∷ line) else find_equals line

-- Division and remainder of C round toward zero.
abbrev pub quotient_1000 : ℤ → ℤ
quotient_1000 (pos n) = pos (n / 1000)
quotient_1000 (negsuc n) = if (n + 1) / 1000 == 0 then pos 0 else negsuc ((n + 1) / 1000 - 1)

-- `atoi(value) % 1000 * 1000`.
abbrev pub milliseconds_left : ℤ → ℤ
milliseconds_left (pos n) = pos (n % 1000 * 1000)
milliseconds_left (negsuc n) =
    if (n + 1) % 1000 == 0 then pos 0 else negsuc ((n + 1) % 1000 * 1000 - 1)

-- IF_NAMESIZE - 1; a name as long as that is refused.
abbrev pub name_limit : ℕ
name_limit = 15

-- LOG_NONE to LOG_CRAZYDEBUG. `none` and `error` are set before the chain that ends in the warning.
unfoldable pub read_log_level : List ℕ → ℕ → ℕ
read_log_level value old =
    if bytes_eq value (codes "none")
    then 0
    else if bytes_eq value (codes "error")
    then 2
    else if bytes_eq value (codes "critical")
    then 1
    else if bytes_eq value (codes "warning")
    then 3
    else if bytes_eq value (codes "info")
    then 4
    else if bytes_eq value (codes "debug")
    then 5
    else if bytes_eq value (codes "crazydebug")
    then 6
    else old

-- The MTU of the tunnel interface, between 1280 and 1448.
unfoldable pub read_mtu : ℤ → Runtime → Loading
read_mtu n r =
    if ltb_ℤ n (pos 1280)
    then exited
    else if ltb_ℤ (pos 1448) n
    then exited
    else loaded (record r { tunnel_interface_mtu = pos_part n })

-- The path of the event script is copied into 128 bytes whatever its length. A path of 128 bytes
-- fills them, and leaves no room for the end of the string.
unfoldable pub read_event_script_path : List ℕ → Runtime → Loading
read_event_script_path value r =
    if leb (length value) 128 then loaded (record r { event_script_path = value }) else overflow

-- A name of an interface is taken if it is shorter than 15 characters.
unfoldable pub read_name : List ℕ → Runtime → Loading
read_name value r = if leb name_limit (length value) then exited else loaded r

abbrev pub read_bonding : List ℕ → Runtime → Runtime
read_bonding value r = if bytes_eq value (codes "true") then record r { bonding = true } else r

-- The comparisons of the chain on a line with a value, with what each leads to, in their order.
-- "tunnel interface mtu =" is compared up to its 19th character.
unfoldable pub settings : Os → List ℕ → List (List ℕ × (Runtime → Loading))
settings os value =
    (
      codes "haap anycast ip =",
      λ r. loaded (set_anycast_ip r (or_else (os.inet_pton6 value) r.haap.anycast_ip)),
    )
    ∷ (codes "lte interface =", λ r. read_name value (set_lte_name r value))
    ∷ (codes "dsl interface =", λ r. read_name value (set_dsl_name r value))
    ∷ (
      codes "tunnel interface =",
      λ r. read_name value (record r { tunnel_interface_name = value }),
    )
    ∷ (codes "bonding =", λ r. loaded (read_bonding value r))
    ∷ (codes "log level =", λ r. loaded (record r { log_level = read_log_level value r.log_level }))
    ∷ (codes "tunnel interface mt", λ r. read_mtu (os.atoi value) r)
    ∷ (
      codes "active hello interval =",
      λ r.
          loaded
            (record r { haap = record r.haap { active_hello_interval = to_u32 (os.atoi value) } }),
    )
    ∷ (
      codes "hello retry times =",
      λ r.
          loaded (record r { haap = record r.haap { hello_retry_times = to_u32 (os.atoi value) } }),
    )
    ∷ (codes "event script path =", λ r. read_event_script_path value r)
    ∷ (
      codes "reorder buffer timeout =",
      λ r. loaded (record r {
        reorder_buffer_timeout = record {
          tv_sec = quotient_1000 (os.atoi value);
          tv_usec = milliseconds_left (os.atoi value);
        };
      }),
    )
    ∷ []

-- The first comparison that holds decides; a line for which none does is ignored.
unfoldable pub first_match : List ℕ → List (List ℕ × (Runtime → Loading)) → Runtime → Loading
first_match line [] r = loaded r
first_match line ((prefix, take_over) ∷ rest) r =
    if has_prefix prefix line then take_over r else first_match line rest r

unfoldable pub read_setting : Os → List ℕ → List ℕ → Runtime → Loading
unfolding settings first_match
read_setting os line value r = first_match line (settings os value) r

-- A value is what stands two characters behind the first '=', unless that is nothing.
unfoldable pub read_value : Os → List ℕ → Option (List ℕ) → Runtime → Loading
read_value os line none r = loaded r
read_value os line (some rest) r =
    if ltb 2 (length rest) then read_setting os line (drop 2 rest) r else loaded r

-- A line that is a C string.
unfoldable pub read_text : Os → List ℕ → Runtime → Loading
unfolding find_equals read_value
read_text os line r = read_value os line (find_equals line) r

-- A comment is skipped.
unfoldable pub read_line : Os → List ℕ → Runtime → Loading
unfolding read_text
read_line os [] r = loaded r
read_line os (c ∷ line) r = if c == 35 then loaded r else read_text os (c_string (c ∷ line)) r

unfoldable pub read_lines : Os → List (List ℕ) → Runtime → Loading
read_lines os [] r = loaded r
read_lines os (line ∷ lines) r = and_then (read_line os line r) (read_lines os lines)

-- Defaults part 1: LOG_INFO, the names of the interfaces, and 250 ms.
unfoldable pub defaults_first : Runtime → Runtime
defaults_first r =
    let r1 =
      set_lte_name (record r { log_level = 4 }) (overwrite (codes "wwan0") r.lte.interface_name) in
    let r2 = set_dsl_name r1 (overwrite (codes "ppp0") r.dsl.interface_name) in
    record r2 { reorder_buffer_timeout = record r.reorder_buffer_timeout { tv_usec = pos 250000 } }

-- Defaults part 2.
unfoldable pub default_anycast_ip : Os → Runtime → Runtime
default_anycast_ip os r =
    if bytes_eq r.haap.anycast_ip (replicate 16 0)
    then set_anycast_ip r (or_else (os.inet_pton6 (codes "2003:6::1")) r.haap.anycast_ip)
    else r

unfoldable pub default_tunnel_name : Runtime → Runtime
default_tunnel_name r =
    if length r.tunnel_interface_name == 0
    then record r { tunnel_interface_name = if r.bonding then codes "tun0" else codes "gre1" }
    else r

unfoldable pub default_mtu : Runtime → Runtime
default_mtu r =
    if r.tunnel_interface_mtu == 0
    then record r { tunnel_interface_mtu = if r.bonding then 1440 else 1448 }
    else r

unfoldable pub defaults_last : Os → Runtime → Runtime
defaults_last os r =
    let r1 = default_tunnel_name (default_anycast_ip os r) in
    default_mtu (record r1 { haap = record (r1.haap) { ip = r1.haap.anycast_ip } })

unfoldable pub read_config : Os → Option (List ℕ) → Runtime → Loading
read_config os file r = elim file [
  | none ↦ exited
  | some text ↦
      and_then (read_lines os (get_lines text) (defaults_first r))
        (λ s. loaded (defaults_last os s))
]
