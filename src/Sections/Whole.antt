-- ===== src/Sections/Whole.antt =====
-- The end of execute_timers (src/openhybrid.c), and the whole of it.
use open_hybrid.Base.{◌&&◌, ◌||◌, ◌==◌, ◌!=◌, if◌then◌else◌, inl, inr, Bool-cases}
use open_hybrid.Runtime.{Call, State, dhcpdown_ip, dhcpdown_ip6, shutdown}
use open_hybrid.Os.{Os, called}
use open_hybrid.Event.{trigger_event}
use open_hybrid.Grecp.{grecp_tuntype_lte, grecp_tuntype_dsl}
use open_hybrid.Grecp.Message.{send_grecpnotify_linkfailure}
use open_hybrid.Tundev.{Run, ◌>>>◌, destroy_tunnel_dev}
use open_hybrid.Dhcp.{kill_udhcpc, kill_udhcpc6}
use open_hybrid.Timers.{execute_timers}
use open_hybrid.Timers.Tunnels.{keep_tunnels}
use open_hybrid.Timers.Clients.{dhcp_clients, expire_leases}
use open_hybrid.Timers.Session.{
  reset_lte, reset_dsl, reset_session, reset_stats, tunnel_device, stop_threads, data_threads,
  sigint, sigterm, stop_dhcp, stop_tunnels, handle_signals,
}
use open_hybrid.Sections.{IsClosed, IsClosedLte, IsClosedSignal, branch}
use open_hybrid.Sections.Messages.{linkfailure-keeps}
use open_hybrid.Sections.Tunnels.{keep_tunnels-keeps}
use open_hybrid.Sections.Devices.{trigger_event-keeps, destroy_tunnel_dev-keeps}
use open_hybrid.Sections.Udhcpc.{kill_udhcpc-keeps, kill_udhcpc6-keeps}
use open_hybrid.Sections.Clients.{dhcp_clients-keeps, expire_leases-keeps}
use open_hybrid.Sections.Session.{
  last_state, >>>-keeps, stop_threads-keeps, reset_lte-keeps, after_reset-keeps, data_threads-keeps,
}

-- What follows the reset of the LTE tunnel.
unfoldable pub after_lte : Os → State → Run
after_lte os s = data_threads os (tunnel_device os (reset_session os (reset_dsl s))) >>> λ s1.
    handle_signals os (expire_leases os (dhcp_clients os s1))

module _ (os : Os) (P : State → Type 0) (closed : IsClosed os P) where
  stop_dhcp-keeps : (s : State) → P s → P (stop_dhcp os s)
  unfolding stop_dhcp
  stop_dhcp-keeps s h =
      let s1 = if s.runtime.dhcp.udhcpc_pid != 0 then (kill_udhcpc os s).1 else s in
      let s2 = if s1.runtime.dhcp6.udhcpc6_pid != 0 then (kill_udhcpc6 os s1).1 else s1 in
      let s3 = if s2.runtime.dhcp.lease_time != 0 then trigger_event dhcpdown_ip s2 else s2 in
      let h1 =
        branch P (s.runtime.dhcp.udhcpc_pid != 0) (kill_udhcpc os s).1 s
          (kill_udhcpc-keeps os P closed s h) h in
      let h2 =
        branch P (s1.runtime.dhcp6.udhcpc6_pid != 0) (kill_udhcpc6 os s1).1 s1
          (kill_udhcpc6-keeps os P closed s1 h1) h1 in
      let h3 =
        branch P (s2.runtime.dhcp.lease_time != 0) (trigger_event dhcpdown_ip s2) s2
          (trigger_event-keeps os P closed dhcpdown_ip s2 h2) h2 in
      branch P (s3.runtime.dhcp6.lease_time != 0) (trigger_event dhcpdown_ip6 s3) s3
        (trigger_event-keeps os P closed dhcpdown_ip6 s3 h3) h3

  stop_tunnels-keeps : (s : State) → P s → P (stop_tunnels os s)
  unfolding stop_tunnels
  stop_tunnels-keeps s h =
      let s1 = if s.runtime.bonding then stop_threads s else s in
      let s2 = if s1.runtime.tunnel_interface_created then (destroy_tunnel_dev os s1).1 else s1 in
      let told = (send_grecpnotify_linkfailure os grecp_tuntype_lte s2).1 in
      let h1 = threads s h in
      let h2 =
        branch P s1.runtime.tunnel_interface_created (destroy_tunnel_dev os s1).1 s1
          (destroy_tunnel_dev-keeps os P closed s1 h1) h1 in
      branch P (s2.runtime.lte.tunnel_established && s2.runtime.dsl.tunnel_established)
        (send_grecpnotify_linkfailure os grecp_tuntype_dsl told).1 s2
        (linkfailure-keeps os P closed grecp_tuntype_dsl told
          (linkfailure-keeps os P closed grecp_tuntype_lte s2 h2))
        h2
    where
      threads : (s : State) → P s → P (if s.runtime.bonding then stop_threads s else s)
      threads s h = elim (Bool-cases s.runtime.bonding) [
        | inl e ↦ simp e (stop_threads-keeps os P closed s (h, e))
        | inr e ↦ simp e h
      ]

  handle_signals-keeps : IsClosedSignal P → (s : State) → P s → P (last_state (handle_signals os s))
  unfolding handle_signals
  handle_signals-keeps handled s h =
      let s1 = stop_tunnels os (stop_dhcp os s) in
      let s2 = called Call.close_grecp s1 in
      let h1 = stop_tunnels-keeps (stop_dhcp os s) (stop_dhcp-keeps s h) in
      let h2 = closed.call Call.close_grecp s1 tt h1 in
      let h3 = closed.call Call.unlink_script s2 tt h2 in
      elim (Bool-cases (s.runtime.signal != 0)) [
        | inr e ↦ simp e h
        | inl e ↦ elim (Bool-cases (s.runtime.signal == sigint || s.runtime.signal == sigterm)) [
          | inl d ↦
              simp (e, d)
                (trigger_event-keeps os P closed shutdown (called Call.unlink_script s2) h3)
          | inr d ↦ simp (e, d) (handled s h)
        ]
      ]

  -- The DHCP clients and the leases.
  pub before_signals-keeps : (s : State) → P s → P (expire_leases os (dhcp_clients os s))
  before_signals-keeps s h =
      expire_leases-keeps os P closed (dhcp_clients os s) (dhcp_clients-keeps os P closed s h)

  -- Everything behind the reset of the LTE tunnel.
  pub after_lte-keeps : IsClosedSignal P → (s : State) → P s → P (last_state (after_lte os s))
  unfolding after_lte
  after_lte-keeps handled s h =
      let s1 = tunnel_device os (reset_session os (reset_dsl s)) in
      >>>-keeps P (data_threads os s1) _
        (data_threads-keeps os P closed s1 (after_reset-keeps os P closed s h))
        (λ s2 h2.
          handle_signals-keeps handled (expire_leases os (dhcp_clients os s2))
            (before_signals-keeps s2 h2))

  before_lte-keeps : (s : State) → IsClosedLte P → P s → P (reset_lte (keep_tunnels os s))
  before_lte-keeps s lte h =
      reset_lte-keeps os P closed (keep_tunnels os s) lte (keep_tunnels-keeps os P closed s lte h)

  -- Everything before the threads.
  pub before_threads-keeps :
      (s : State) → IsClosedLte P → P s → P (tunnel_device os (reset_stats os (keep_tunnels os s)))
  unfolding reset_stats
  before_threads-keeps s lte h =
      after_reset-keeps os P closed (reset_lte (keep_tunnels os s)) (before_lte-keeps s lte h)

  -- The whole of execute_timers, also where it ends the process.
  pub execute_timers-keeps :
      (s : State) → IsClosedLte P → IsClosedSignal P → P s → P (last_state (execute_timers os s))
  unfolding execute_timers reset_stats after_lte
  execute_timers-keeps s lte handled h =
      after_lte-keeps handled (reset_lte (keep_tunnels os s)) (before_lte-keeps s lte h)
