-- ===== src/Dhcp.antt =====
-- src/dhcp.c: the script that the two DHCP clients run, starting and killing them, and reading what
-- they print.
pub mod Output
pub mod Printed
use open_hybrid.Base.{
  ℕ, ◌+◌, ◌-◌, Bool, true, false, List, [], ◌∷◌, Option, none, some, ◌==◌, ◌!=◌, if◌then◌else◌,
  take, ◌++◌, length, ltb,
}
use open_hybrid.Base.Text.{codes}
use mathlib.Core.List.{reverse}
use open_hybrid.Base.Int.{ℤ, pos_part, neg_part}
use open_hybrid.Bytes.{u8, u32}
use open_hybrid.Runtime.{dhcpup_ip, dhcpup_ip6, Call, State, set_dhcp, set_dhcp6}
use open_hybrid.Os.{Os, called, get_uptime}
use open_hybrid.Event.{trigger_event}

abbrev pub dhcp_script_content : List ℕ
dhcp_script_content =
    codes "#!/bin/busybox sh\n"
    ++ codes "if [ \"${1}\" = \"bound\" ]\n"
    ++ codes "then\n"
    ++ codes "    if [ -n \"${ip}\" ]\n"
    ++ codes "    then\n"
    ++ codes "        echo \"ip=${ip}\"\n"
    ++ codes "        echo \"lease=${lease}\"\n"
    ++ codes "    elif [ -n \"${ipv6prefix}\" ]\n"
    ++ codes "    then\n"
    ++ codes "        echo \"prefix_address=${ipv6prefix//\\/*/}\"\n"
    ++ codes "        echo \"prefix_length=${ipv6prefix//*\\//}\"\n"
    ++ codes "        echo \"lease=${ipv6prefix_lease}\"\n"
    ++ codes "    fi\n"
    ++ codes "fi"

-- The script is written by one call of write, whose result is compared at the end.
unfoldable pub written : Os → State → Bool × State
written os s =
    let s1 = called (Call.write_script dhcp_script_content) s in
    let s2 = called Call.chmod_script (called Call.close_script s1) in
    (
      elim (os.script_written s.trace) [ none ↦ false | some n ↦ n == length dhcp_script_content ],
      s2,
    )

-- A descriptor 0 counts as a failure of mkstemp.
unfoldable pub create_dhcp_script : Os → State → Bool × State
unfolding written
create_dhcp_script os s =
    let s1 = called Call.mkstemp s in
    elim (os.script_fd s.trace) [
      | none ↦ (false, s1)
      | some fd ↦ if ltb 0 fd then written os s1 else (false, s1)
    ]

abbrev pub delete_dhcp_script : Os → State → Bool × State
delete_dhcp_script os s = (os.unlink_done s.trace, called Call.unlink_script s)

-- fork's child becomes the client; the parent goes on with its pid, and 0 stands for a failure.
unfoldable pub start_udhcpc : Os → State → ℕ × State
start_udhcpc os s =
    let s1 = called Call.pipe s in
    if os.pipe_made s.trace
    then (elim (os.fork_pid s1.trace) [ none ↦ 0 | some pid ↦ pid ], called Call.fork_udhcpc s1)
    else (0, s1)

unfoldable pub start_udhcpc6 : Os → State → ℕ × State
start_udhcpc6 os s =
    let s1 = called Call.pipe s in
    if os.pipe_made s.trace
    then (elim (os.fork_pid s1.trace) [ none ↦ 0 | some pid ↦ pid ], called Call.fork_udhcpc6 s1)
    else (0, s1)

unfoldable pub kill_udhcpc : Os → State → Bool × State
kill_udhcpc os s =
    if s.runtime.dhcp.udhcpc_pid != 0
    then (os.kill_done s.trace, called (Call.kill s.runtime.dhcp.udhcpc_pid) s)
    else (true, s)

-- The code tests and kills the pid of the other client.
unfoldable pub kill_udhcpc6 : Os → State → Bool × State
kill_udhcpc6 os s =
    if s.runtime.dhcp.udhcpc_pid != 0
    then (os.kill_done s.trace, called (Call.kill s.runtime.dhcp.udhcpc_pid) s)
    else (true, s)

-- The tokens of strtok(buffer, "\n"): the text up to the first zero byte, cut at the line ends,
-- without empty pieces. `line` is the piece so far, back to front.
end_line : List ℕ → List (List ℕ) → List (List ℕ)
end_line [] rest = rest
end_line (c ∷ line) rest = reverse (c ∷ line) ∷ rest

unfoldable pub strtok_lines : List ℕ → List ℕ → List (List ℕ)
unfolding end_line
strtok_lines [] line = end_line line []
strtok_lines (c ∷ text) line = elim (c == 0) [
  | true ↦ end_line line []
  | false ↦ elim (c == 10) [
    | true ↦ end_line line (strtok_lines text [])
    | false ↦ strtok_lines text (c ∷ line)
  ]
]

-- strncmp(line, prefix, strlen(prefix)) == 0, with what stands behind the prefix.
unfoldable pub after_prefix : List ℕ → List ℕ → Option (List ℕ)
after_prefix [] line = some line
after_prefix (p ∷ prefix) [] = none
after_prefix (p ∷ prefix) (c ∷ line) = if p == c then after_prefix prefix line else none

-- An int stored into a uint32_t, and into a uint8_t.
abbrev pub to_u32 : ℤ → ℕ
to_u32 z = u32 (pos_part z + (4294967296 - u32 (neg_part z)))

abbrev pub to_u8 : ℤ → ℕ
to_u8 z = u8 (pos_part z + (256 - u8 (neg_part z)))

abbrev pub or_else : Option (List ℕ) → List ℕ → List ℕ
or_else none d = d
or_else (some x) d = x

abbrev pub ip_text : List ℕ
ip_text = b'i' ∷ b'p' ∷ b'=' ∷ []

abbrev pub lease_text : List ℕ
lease_text = b'l' ∷ b'e' ∷ b'a' ∷ b's' ∷ b'e' ∷ b'=' ∷ []

abbrev pub prefix_address_text : List ℕ
prefix_address_text =
    b'p' ∷ b'r' ∷ b'e' ∷ b'f' ∷ b'i' ∷ b'x' ∷ b'_' ∷ b'a' ∷ b'd' ∷ b'd' ∷ b'r' ∷ b'e' ∷ b's' ∷ b's'
    ∷ b'=' ∷ []

abbrev pub prefix_length_text : List ℕ
prefix_length_text =
    b'p' ∷ b'r' ∷ b'e' ∷ b'f' ∷ b'i' ∷ b'x' ∷ b'_' ∷ b'l' ∷ b'e' ∷ b'n' ∷ b'g' ∷ b't' ∷ b'h' ∷ b'='
    ∷ []

-- One line of the output of udhcpc.
unfoldable pub udhcpc_line : Os → List ℕ → State → State
udhcpc_line os line s = elim (after_prefix ip_text line) [
  | some value ↦
      set_dhcp s (record s.runtime.dhcp { ip = or_else (os.inet_pton value) s.runtime.dhcp.ip })
  | none ↦ elim (after_prefix lease_text line) [
    | some value ↦ set_dhcp s (record s.runtime.dhcp { lease_time = to_u32 (os.atoi value) })
    | none ↦ s
  ]
]

unfoldable pub udhcpc_lines : Os → List (List ℕ) → State → State
udhcpc_lines os [] s = s
udhcpc_lines os (line ∷ rest) s = udhcpc_lines os rest (udhcpc_line os line s)

-- One line of the output of udhcpc6.
unfoldable pub udhcpc6_line : Os → List ℕ → State → State
udhcpc6_line os line s = elim (after_prefix prefix_address_text line) [
  | some value ↦ set_dhcp6 s (record s.runtime.dhcp6 {
    prefix_address = or_else (os.inet_pton6 value) s.runtime.dhcp6.prefix_address;
  })
  | none ↦ elim (after_prefix prefix_length_text line) [
    | some value ↦ set_dhcp6 s (record s.runtime.dhcp6 { prefix_length = to_u8 (os.atoi value) })
    | none ↦ elim (after_prefix lease_text line) [
      | some value ↦ set_dhcp6 s (record s.runtime.dhcp6 { lease_time = to_u32 (os.atoi value) })
      | none ↦ s
    ]
  ]
]

unfoldable pub udhcpc6_lines : Os → List (List ℕ) → State → State
udhcpc6_lines os [] s = s
udhcpc6_lines os (line ∷ rest) s = udhcpc6_lines os rest (udhcpc6_line os line s)

abbrev pub max_udhcpc_output : ℕ
max_udhcpc_output = 1024

-- A lease that the output names, or that was there before, starts now.
unfoldable pub udhcpc_obtained : Os → State → State
udhcpc_obtained os s =
    if s.runtime.dhcp.lease_time != 0
    then (let (now, s1) = get_uptime os s in
        trigger_event dhcpup_ip
          (set_dhcp s1 (record (s1.runtime.dhcp) { lease_obtained = now.tv_sec })))
    else s

unfoldable pub udhcpc6_obtained : Os → State → State
udhcpc6_obtained os s =
    if s.runtime.dhcp6.lease_time != 0
    then (let (now, s1) = get_uptime os s in
        trigger_event dhcpup_ip6
          (set_dhcp6 s1 (record (s1.runtime.dhcp6) { lease_obtained = now.tv_sec })))
    else s

unfoldable pub process_udhcpc_output : Os → State → State
process_udhcpc_output os s = elim (os.pipe_bytes s.trace) [
  | none ↦ called Call.read_pipe s
  | some bytes ↦ udhcpc_obtained os (
      udhcpc_lines os (strtok_lines (take (max_udhcpc_output - 1) bytes) [])
        (called Call.read_pipe s))
]

unfoldable pub process_udhcpc6_output : Os → State → State
process_udhcpc6_output os s = elim (os.pipe_bytes s.trace) [
  | none ↦ called Call.read_pipe s
  | some bytes ↦ udhcpc6_obtained os (
      udhcpc6_lines os (strtok_lines (take (max_udhcpc_output - 1) bytes) [])
        (called Call.read_pipe s))
]
