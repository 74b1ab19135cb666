-- ===== src/Sections/Clients.antt =====
-- The sections of execute_timers (src/openhybrid.c) on the DHCP clients and their leases.
use open_hybrid.Base.{◌+◌, ◌&&◌, leb, ◌==◌, ◌!=◌, ◌≢◌, inl, inr, Bool-cases, arith}
use open_hybrid.Runtime.{Call, State, dhcpdown_ip, dhcpdown_ip6, set_dhcp, set_dhcp6}
use open_hybrid.Os.{Os, called, get_uptime}
use open_hybrid.Event.{trigger_event}
use open_hybrid.Dhcp.{start_udhcpc, start_udhcpc6}
use open_hybrid.Timers.Clients.{
  wifexited, launch_udhcpc, reap_udhcpc, dhcp_client, launch_udhcpc6, reap_udhcpc6, dhcp6_client,
  dhcp_clients, expire_dhcp, expire_dhcp6, expire_leases,
}
use open_hybrid.Sections.{IsClosed}
use open_hybrid.Sections.Devices.{trigger_event-keeps}
use open_hybrid.Sections.Udhcpc.{
  start_udhcpc-keeps, start_udhcpc6-keeps, process_udhcpc_output-keeps,
  process_udhcpc6_output-keeps,
}

module _ (os : Os) (P : State → Type 0) (closed : IsClosed os P) where
  launch_udhcpc-keeps : (s : State) → P s → P (launch_udhcpc os s)
  unfolding launch_udhcpc
  launch_udhcpc-keeps s h =
      elim (Bool-cases (
        s.runtime.tunnel_interface_created
        && (s.runtime.dhcp.lease_time == 0 && s.runtime.dhcp.udhcpc_pid == 0))) [
          | inl e ↦
              simp e (closed.dhcp _ (start_udhcpc os s).1 (start_udhcpc-keeps os P closed s h))
          | inr e ↦ simp e h
        ]

  reap_udhcpc-keeps : (s : State) → P s → P (reap_udhcpc os s)
  unfolding reap_udhcpc
  reap_udhcpc-keeps s h = elim (Bool-cases (s.runtime.dhcp.udhcpc_pid != 0)) [
    | inr e ↦ simp e h
    | inl e ↦
        let positive : s.runtime.dhcp.udhcpc_pid ≢ 0 = ground arith in
        let s1 = called (Call.waitpid s.runtime.dhcp.udhcpc_pid) s in
        let h1 = closed.call (Call.waitpid s.runtime.dhcp.udhcpc_pid) s positive h in
        let d = record (s1.runtime.dhcp) { udhcpc_pid = 0 } in
        elim (Bool-cases (wifexited (os.wait_status s.trace))) [
          | inl f ↦
              simp (e, f)
                (process_udhcpc_output-keeps os P closed (set_dhcp s1 d) (closed.dhcp d s1 h1))
          | inr f ↦ simp (e, f) h1
        ]
  ]

  launch_udhcpc6-keeps : (s : State) → P s → P (launch_udhcpc6 os s)
  unfolding launch_udhcpc6
  launch_udhcpc6-keeps s h =
      elim (Bool-cases (
        s.runtime.tunnel_interface_created
        && (s.runtime.dhcp6.lease_time == 0 && s.runtime.dhcp6.udhcpc6_pid == 0))) [
          | inl e ↦
              simp e (closed.dhcp6 _ (start_udhcpc6 os s).1 (start_udhcpc6-keeps os P closed s h))
          | inr e ↦ simp e h
        ]

  reap_udhcpc6-keeps : (s : State) → P s → P (reap_udhcpc6 os s)
  unfolding reap_udhcpc6
  reap_udhcpc6-keeps s h = elim (Bool-cases (s.runtime.dhcp6.udhcpc6_pid != 0)) [
    | inr e ↦ simp e h
    | inl e ↦
        let positive : s.runtime.dhcp6.udhcpc6_pid ≢ 0 = ground arith in
        let s1 = called (Call.waitpid s.runtime.dhcp6.udhcpc6_pid) s in
        let h1 = closed.call (Call.waitpid s.runtime.dhcp6.udhcpc6_pid) s positive h in
        let d = record (s1.runtime.dhcp6) { udhcpc6_pid = 0 } in
        elim (Bool-cases (wifexited (os.wait_status s.trace))) [
          | inl f ↦
              simp (e, f)
                (process_udhcpc6_output-keeps os P closed (set_dhcp6 s1 d) (closed.dhcp6 d s1 h1))
          | inr f ↦ simp (e, f) h1
        ]
  ]

  pub dhcp_clients-keeps : (s : State) → P s → P (dhcp_clients os s)
  unfolding dhcp_clients dhcp_client dhcp6_client
  dhcp_clients-keeps s h =
      let s1 = launch_udhcpc os s in
      let s2 = reap_udhcpc os s1 in
      let s3 = launch_udhcpc6 os s2 in
      reap_udhcpc6-keeps s3
        (launch_udhcpc6-keeps s2 (reap_udhcpc-keeps s1 (launch_udhcpc-keeps s h)))

  expire_dhcp-keeps : (s : State) → P s → P (expire_dhcp os s)
  unfolding expire_dhcp
  expire_dhcp-keeps s h = elim (Bool-cases (s.runtime.dhcp.lease_time != 0)) [
    | inr e ↦ simp e h
    | inl e ↦
        let (now, s1) = get_uptime os s in
        let h1 = closed.call Call.clock_gettime s tt h in
        elim (Bool-cases
          (leb (s1.runtime.dhcp.lease_obtained + s1.runtime.dhcp.lease_time) now.tv_sec)) [
            | inl d ↦
                simp (e, d)
                  (closed.dhcp _ (trigger_event dhcpdown_ip s1)
                    (trigger_event-keeps os P closed dhcpdown_ip s1 h1))
            | inr d ↦ simp (e, d) h1
          ]
  ]

  expire_dhcp6-keeps : (s : State) → P s → P (expire_dhcp6 os s)
  unfolding expire_dhcp6
  expire_dhcp6-keeps s h = elim (Bool-cases (s.runtime.dhcp6.lease_time != 0)) [
    | inr e ↦ simp e h
    | inl e ↦
        let (now, s1) = get_uptime os s in
        let h1 = closed.call Call.clock_gettime s tt h in
        elim (Bool-cases
          (leb (s1.runtime.dhcp6.lease_obtained + s1.runtime.dhcp6.lease_time) now.tv_sec)) [
            | inl d ↦
                simp (e, d)
                  (closed.dhcp _ (trigger_event dhcpdown_ip6 s1)
                    (trigger_event-keeps os P closed dhcpdown_ip6 s1 h1))
            | inr d ↦ simp (e, d) h1
          ]
  ]

  pub expire_leases-keeps : (s : State) → P s → P (expire_leases os s)
  unfolding expire_leases
  expire_leases-keeps s h = expire_dhcp6-keeps (expire_dhcp os s) (expire_dhcp-keeps s h)
