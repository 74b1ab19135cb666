-- ===== src/Sections/Udhcpc.antt =====
-- The DHCP clients (src/dhcp.c): starting and killing them, and reading what they print.
use open_hybrid.Base.{
  ℕ, ◌-◌, List, [], ◌∷◌, Option, none, some, ◌!=◌, ◌≢◌, inl, inr, Bool-cases, take, arith,
}
use open_hybrid.Runtime.{Call, State, dhcpup_ip, dhcpup_ip6, set_dhcp, set_dhcp6}
use open_hybrid.Os.{Os, called, get_uptime}
use open_hybrid.Dhcp.{
  start_udhcpc, start_udhcpc6, kill_udhcpc, kill_udhcpc6, strtok_lines, after_prefix, ip_text,
  lease_text, prefix_address_text, prefix_length_text, udhcpc_line, udhcpc_lines, udhcpc6_line,
  udhcpc6_lines, udhcpc_obtained, udhcpc6_obtained, process_udhcpc_output, process_udhcpc6_output,
  max_udhcpc_output,
}
use open_hybrid.Dhcp.Printed.{Option-cases, printed, printed6}
use open_hybrid.Sections.{IsClosed}
use open_hybrid.Sections.Devices.{trigger_event-keeps}

module _ (os : Os) (P : State → Type 0) (closed : IsClosed os P) where
  pub start_udhcpc-keeps : (s : State) → P s → P (start_udhcpc os s).1
  unfolding start_udhcpc
  start_udhcpc-keeps s h =
      let h1 = closed.call Call.pipe s tt h in
      elim (Bool-cases (os.pipe_made s.trace)) [
        | inl e ↦ simp e (closed.call Call.fork_udhcpc (called Call.pipe s) tt h1)
        | inr e ↦ simp e h1
      ]

  pub kill_udhcpc-keeps : (s : State) → P s → P (kill_udhcpc os s).1
  unfolding kill_udhcpc
  kill_udhcpc-keeps s h = elim (Bool-cases (s.runtime.dhcp.udhcpc_pid != 0)) [
    | inl e ↦
        let positive : s.runtime.dhcp.udhcpc_pid ≢ 0 = ground arith in
        simp e (closed.call (Call.kill s.runtime.dhcp.udhcpc_pid) s positive h)
    | inr e ↦ simp e h
  ]

  pub start_udhcpc6-keeps : (s : State) → P s → P (start_udhcpc6 os s).1
  unfolding start_udhcpc6
  start_udhcpc6-keeps s h =
      let h1 = closed.call Call.pipe s tt h in
      elim (Bool-cases (os.pipe_made s.trace)) [
        | inl e ↦ simp e (closed.call Call.fork_udhcpc6 (called Call.pipe s) tt h1)
        | inr e ↦ simp e h1
      ]

  pub kill_udhcpc6-keeps : (s : State) → P s → P (kill_udhcpc6 os s).1
  unfolding kill_udhcpc6
  kill_udhcpc6-keeps s h = elim (Bool-cases (s.runtime.dhcp.udhcpc_pid != 0)) [
    | inl e ↦
        let positive : s.runtime.dhcp.udhcpc_pid ≢ 0 = ground arith in
        simp e (closed.call (Call.kill s.runtime.dhcp.udhcpc_pid) s positive h)
    | inr e ↦ simp e h
  ]

  udhcpc_line-keeps : (line : List ℕ) (s : State) → P s → P (udhcpc_line os line s)
  unfolding udhcpc_line after_prefix
  udhcpc_line-keeps line s h = elim (Option-cases (after_prefix ip_text line)) [
    | inr (x, e) ↦ simp e (closed.dhcp _ s h)
    | inl e ↦ elim (Option-cases (after_prefix lease_text line)) [
      | inr (x, d) ↦ simp (e, d) (closed.dhcp _ s h)
      | inl d ↦ simp (e, d) h
    ]
  ]

  udhcpc6_line-keeps : (line : List ℕ) (s : State) → P s → P (udhcpc6_line os line s)
  unfolding udhcpc6_line after_prefix
  udhcpc6_line-keeps line s h = elim (Option-cases (after_prefix prefix_address_text line)) [
    | inr (x, e) ↦ simp e (closed.dhcp6 _ s h)
    | inl e ↦ elim (Option-cases (after_prefix prefix_length_text line)) [
      | inr (x, d) ↦ simp (e, d) (closed.dhcp6 _ s h)
      | inl d ↦ elim (Option-cases (after_prefix lease_text line)) [
        | inr (x, f) ↦ simp (e, d, f) (closed.dhcp6 _ s h)
        | inl f ↦ simp (e, d, f) h
      ]
    ]
  ]

  udhcpc_lines-keeps : (lines : List (List ℕ)) (s : State) → P s → P (udhcpc_lines os lines s)
  unfolding udhcpc_lines
  udhcpc_lines-keeps [] s h = h
  udhcpc_lines-keeps (line ∷ lines) s h =
      udhcpc_lines-keeps lines (udhcpc_line os line s) (udhcpc_line-keeps line s h)

  udhcpc_obtained-keeps : (s : State) → P s → P (udhcpc_obtained os s)
  unfolding udhcpc_obtained
  udhcpc_obtained-keeps s h =
      let (now, s1) = get_uptime os s in
      let d = record (s1.runtime.dhcp) { lease_obtained = now.tv_sec } in
      elim (Bool-cases (s.runtime.dhcp.lease_time != 0)) [
        | inr e ↦ simp e h
        | inl e ↦ simp e (
            trigger_event-keeps os P closed dhcpup_ip (set_dhcp s1 d)
              (closed.dhcp d s1 (closed.call Call.clock_gettime s tt h)))
      ]

  printed-keeps : (o : Option (List ℕ)) (s : State) → P s → P (printed os o s)
  unfolding printed
  printed-keeps none s h = closed.call Call.read_pipe s tt h
  printed-keeps (some bytes) s h =
      let lines = strtok_lines (take (max_udhcpc_output - 1) bytes) [] in
      let s1 = called Call.read_pipe s in
      udhcpc_obtained-keeps (udhcpc_lines os lines s1)
        (udhcpc_lines-keeps lines s1 (closed.call Call.read_pipe s tt h))

  pub process_udhcpc_output-keeps : (s : State) → P s → P (process_udhcpc_output os s)
  unfolding process_udhcpc_output printed
  process_udhcpc_output-keeps s = printed-keeps (os.pipe_bytes s.trace) s

  udhcpc6_lines-keeps : (lines : List (List ℕ)) (s : State) → P s → P (udhcpc6_lines os lines s)
  unfolding udhcpc6_lines
  udhcpc6_lines-keeps [] s h = h
  udhcpc6_lines-keeps (line ∷ lines) s h =
      udhcpc6_lines-keeps lines (udhcpc6_line os line s) (udhcpc6_line-keeps line s h)

  udhcpc6_obtained-keeps : (s : State) → P s → P (udhcpc6_obtained os s)
  unfolding udhcpc6_obtained
  udhcpc6_obtained-keeps s h =
      let (now, s1) = get_uptime os s in
      let d = record (s1.runtime.dhcp6) { lease_obtained = now.tv_sec } in
      elim (Bool-cases (s.runtime.dhcp6.lease_time != 0)) [
        | inr e ↦ simp e h
        | inl e ↦ simp e (
            trigger_event-keeps os P closed dhcpup_ip6 (set_dhcp6 s1 d)
              (closed.dhcp6 d s1 (closed.call Call.clock_gettime s tt h)))
      ]

  printed6-keeps : (o : Option (List ℕ)) (s : State) → P s → P (printed6 os o s)
  unfolding printed6
  printed6-keeps none s h = closed.call Call.read_pipe s tt h
  printed6-keeps (some bytes) s h =
      let lines = strtok_lines (take (max_udhcpc_output - 1) bytes) [] in
      let s1 = called Call.read_pipe s in
      udhcpc6_obtained-keeps (udhcpc6_lines os lines s1)
        (udhcpc6_lines-keeps lines s1 (closed.call Call.read_pipe s tt h))

  pub process_udhcpc6_output-keeps : (s : State) → P s → P (process_udhcpc6_output os s)
  unfolding process_udhcpc6_output printed6
  process_udhcpc6_output-keeps s = printed6-keeps (os.pipe_bytes s.trace) s
