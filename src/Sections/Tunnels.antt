-- ===== src/Sections/Tunnels.antt =====
-- The first half of execute_timers (src/openhybrid.c).
use open_hybrid.Base.{◌+◌, not, ◌&&◌, ltb, leb, ◌!=◌, inl, inr, Bool-cases, if◌then◌else◌, false}
use open_hybrid.Runtime.{Call, State, set_lte, set_dsl}
use open_hybrid.Os.{Os, called, get_uptime, get_primary_ip6}
use open_hybrid.Bytes.{u8}
use open_hybrid.Grecp.Message.{send_grecphello}
use open_hybrid.Grecp.{grecp_tuntype_lte, grecp_tuntype_dsl}
use open_hybrid.Timers.Tunnels.{
  update_interface_ips, connect, ack_filter_list, verify_tunnel, hello_lte, hello_dsl, check_lte,
  check_dsl, bypass_bandwidth, keep_tunnels,
}
use open_hybrid.Sections.{IsClosed, IsClosedHello, IsClosedLte, branch}
use open_hybrid.Sections.Messages.{
  send_grecprequest-keeps, hello_dsl_sent-keeps, hello_lte_sent-keeps, filterlistpackageack-keeps,
  tunnelverify-keeps, bypasstraffic-keeps,
}

-- The state at which the hello message of the LTE tunnel is considered.
unfoldable pub before_hello : Os → State → State
before_hello os s = verify_tunnel os (ack_filter_list os (connect os (update_interface_ips os s)))

module _ (os : Os) (P : State → Type 0) (closed : IsClosed os P) where
  clock-keeps : (s : State) → P s → P (get_uptime os s).1
  clock-keeps s h = closed.call Call.clock_gettime s tt h

  update_interface_ips-keeps : (s : State) → P s → P (update_interface_ips os s)
  unfolding update_interface_ips get_primary_ip6
  update_interface_ips-keeps s h =
      let s1 = called Call.fopen_if_inet6 s in
      let ip = (get_primary_ip6 os s.runtime.lte.interface_name s).0 in
      let s2 = set_lte s1 (record s.runtime.lte { interface_ip = ip }) in
      let s3 = called Call.fopen_if_inet6 s2 in
      let ip' = (get_primary_ip6 os s2.runtime.dsl.interface_name s2).0 in
      let h2 = closed.lte_ip s h in
      branch P s.runtime.bonding (set_dsl s3 (record (s2.runtime.dsl) { interface_ip = ip' })) s2
        (closed.dsl_ip s2 h2) h2

  connect-keeps : (s : State) → P s → P (connect os s)
  unfolding connect
  connect-keeps s h = elim (Bool-cases (not s.runtime.lte.tunnel_established)) [
    | inl e ↦ simp e (send_grecprequest-keeps os P closed grecp_tuntype_lte s h)
    | inr e ↦ elim (Bool-cases (s.runtime.bonding && not s.runtime.dsl.tunnel_established)) [
      | inl g ↦ simp (e, g) (send_grecprequest-keeps os P closed grecp_tuntype_dsl s h)
      | inr g ↦ simp (e, g) h
    ]
  ]

  ack_filter_list-keeps : (s : State) → P s → P (ack_filter_list os s)
  unfolding ack_filter_list
  ack_filter_list-keeps s h =
      elim (Bool-cases (
        s.runtime.lte.tunnel_established
        && ltb 0 s.runtime.haap.commit_count
        && not s.runtime.filter_list_acked)) [
          | inl e ↦ simp e (closed.acked _ _ (filterlistpackageack-keeps os P closed 2 s h))
          | inr e ↦ simp e h
        ]

  verify_tunnel-keeps : (s : State) → P s → P (verify_tunnel os s)
  unfolding verify_tunnel
  verify_tunnel-keeps s h =
      elim (Bool-cases
        (s.runtime.lte.tunnel_established && s.runtime.lte.tunnel_verification_required)) [
          | inl e ↦ simp e (closed.verification _ _ (tunnelverify-keeps os P closed s h))
          | inr e ↦ simp e h
        ]

  pub hello_lte-keeps : (s : State) → IsClosedHello P → P s → P (hello_lte os s)
  unfolding hello_lte
  hello_lte-keeps s lte h =
      let (now, s1) = get_uptime os s in
      let h1 = closed.call Call.clock_gettime s tt h in
      let n = u8 (s1.runtime.lte.missed_hellos + 1) in
      let counted = set_lte s1 (record (s1.runtime.lte) { missed_hellos = n }) in
      let unanswered = s1.runtime.lte.last_hello_received != s1.runtime.lte.last_hello_sent in
      let due =
        ltb (s1.runtime.lte.last_hello_sent + s1.runtime.haap.active_hello_interval) now.tv_sec in
      let s2 = if unanswered then counted else s1 in
      let s3 = (send_grecphello os grecp_tuntype_lte s2).1 in
      let h2 = branch P unanswered counted s1 (lte.missed _ s1 h1) h1 in
      let h3 = hello_lte_sent-keeps os P closed s2 lte h2 in
      branch P s.runtime.lte.tunnel_established (if due then s3 else s1) s
        (branch P due s3 s1 h3 h1) h

  pub hello_dsl-keeps : (s : State) → P s → P (hello_dsl os s)
  unfolding hello_dsl
  hello_dsl-keeps s h =
      let (now, s1) = get_uptime os s in
      let h1 = closed.call Call.clock_gettime s tt h in
      let n = u8 (s1.runtime.dsl.missed_hellos + 1) in
      let counted = set_dsl s1 (record (s1.runtime.dsl) { missed_hellos = n }) in
      let unanswered = s1.runtime.dsl.last_hello_received != s1.runtime.dsl.last_hello_sent in
      let due =
        ltb (s1.runtime.dsl.last_hello_sent + s1.runtime.haap.active_hello_interval) now.tv_sec in
      let s2 = if unanswered then counted else s1 in
      let s3 = (send_grecphello os grecp_tuntype_dsl s2).1 in
      let h2 = branch P unanswered counted s1 (closed.dsl_missed _ s1 h1) h1 in
      let h3 = hello_dsl_sent-keeps os P closed s2 h2 in
      branch P s.runtime.dsl.tunnel_established (if due then s3 else s1) s
        (branch P due s3 s1 h3 h1) h

  pub check_lte-keeps : (s : State) → IsClosedLte P → P s → P (check_lte s)
  unfolding check_lte
  check_lte-keeps s lte h =
      branch P
        (s.runtime.lte.tunnel_established
          && leb s.runtime.haap.hello_retry_times s.runtime.lte.missed_hellos)
        (set_lte s (record s.runtime.lte { tunnel_established = false })) s (lte.down s h) h

  check_dsl-keeps : (s : State) → P s → P (check_dsl s)
  unfolding check_dsl
  check_dsl-keeps s h =
      branch P
        (s.runtime.dsl.tunnel_established
          && leb s.runtime.haap.hello_retry_times s.runtime.dsl.missed_hellos)
        (set_dsl s (record s.runtime.dsl { tunnel_established = false })) s (closed.dsl_down s h) h

  bypass_bandwidth-keeps : (s : State) → P s → P (bypass_bandwidth os s)
  unfolding bypass_bandwidth
  bypass_bandwidth-keeps s h = elim (Bool-cases s.runtime.dsl.tunnel_established) [
    | inr e ↦ simp e h
    | inl e ↦
        let (now, s1) = get_uptime os s in
        let h1 = clock-keeps s h in
        elim (Bool-cases (
          ltb
            (s1.runtime.dsl.last_bypass_traffic_sent
              + s1.runtime.haap.bypass_bandwidth_check_interval)
            now.tv_sec)) [
              | inl d ↦ simp (e, d) (bypasstraffic-keeps os P closed 1000 s1 h1)
              | inr d ↦ simp (e, d) h1
            ]
  ]

  -- The sections before the hello message of the LTE tunnel.
  pub before_hello-keeps : (s : State) → P s → P (before_hello os s)
  unfolding before_hello
  before_hello-keeps s h =
      let s1 = update_interface_ips os s in
      let s2 = connect os s1 in
      let s3 = ack_filter_list os s2 in
      let h1 = update_interface_ips-keeps s h in
      let h2 = connect-keeps s1 h1 in
      let h3 = ack_filter_list-keeps s2 h2 in verify_tunnel-keeps s3 h3

  -- Those after its supervision.
  pub after_check-keeps : (s : State) → P s → P (bypass_bandwidth os (check_dsl s))
  after_check-keeps s h = bypass_bandwidth-keeps (check_dsl s) (check_dsl-keeps s h)

  pub keep_tunnels-keeps : (s : State) → IsClosedLte P → P s → P (keep_tunnels os s)
  unfolding keep_tunnels before_hello
  keep_tunnels-keeps s lte h =
      let s4 = before_hello os s in
      let s5 = hello_lte os s4 in
      let s6 = hello_dsl os s5 in
      let h4 = before_hello-keeps s h in
      let h5 = hello_lte-keeps s4 (lte.hello) h4 in
      let h6 = hello_dsl-keeps s5 h5 in after_check-keeps (check_lte s6) (check_lte-keeps s6 lte h6)
