-- ===== src/Sections/Session.antt =====
-- The second half of execute_timers (src/openhybrid.c): the reset, the tunnel device and the
-- threads.
use open_hybrid.Base.{
  ℕ, true, not, ◌&&◌, ◌||◌, Option, none, some, ◌==◌, ◌!=◌, if◌then◌else◌, ◌≡◌, ◌≢◌, inl, inr,
  Bool-cases, arith,
}
use open_hybrid.Runtime.{Call, State, dhcpdown_ip, dhcpdown_ip6, set_dhcp, set_dhcp6}
use open_hybrid.Os.{Os, called}
use open_hybrid.Event.{trigger_event}
use open_hybrid.Tundev.{
  Run, running, exited, ◌>>>◌, create_tunnel_dev, destroy_tunnel_dev, open_gre_socket,
  close_gre_socket,
}
use open_hybrid.Dhcp.{kill_udhcpc, kill_udhcpc6}
use open_hybrid.Timers.Session.{
  reset_lte, reset_dsl, reset_haap, reset_dhcp, reset_dhcp6, reset_session, tunnel_device,
  start_gre2tun, start_tun2gre, stop_threads, data_threads,
}
use open_hybrid.Sections.{IsClosed, IsClosedLte, branch}
use open_hybrid.Sections.Devices.{
  trigger_event-keeps, create_tunnel_dev-keeps, destroy_tunnel_dev-keeps,
}
use open_hybrid.Sections.Udhcpc.{kill_udhcpc-keeps, kill_udhcpc6-keeps}

-- open_gre_socket, from the descriptor on.
unfoldable pub opened : Os → Option ℕ → State → Run
opened os fd s = elim fd [
  | none ↦ exited 1 (called Call.socket s)
  | some fd ↦
      let s1 = record (called Call.socket s) { sockfd_gre = fd } in
      let s2 = called Call.setsockopt s1 in
      if os.setsockopt_done s1.trace then running (called Call.setsockopt s2) else exited 1 s2
]

-- The state that a step ends in.
abbrev pub last_state : Run → State
last_state (running s) = s
last_state (exited code s) = s

-- A step that ends, or goes on with another one.
pub >>>-keeps :
    (P : State → Type 0) (m : Run) (f : State → Run)
    → P (last_state m)
    → ((s : State) → P s → P (last_state (f s)))
    → P (last_state (m >>> f))
>>>-keeps P (running s) f h g = g s h
>>>-keeps P (exited code s) f h g = h

module _ (os : Os) (P : State → Type 0) (closed : IsClosed os P) where
  -- In bonding mode.
  abbrev pub Bonded : State → Type 0
  Bonded s = P s × (s.runtime.bonding ≡ true)

  pub stop_threads-keeps : (s : State) → Bonded s → P (stop_threads s)
  unfolding stop_threads close_gre_socket
  stop_threads-keeps s b =
      let c1 = Call.pthread_cancel s.runtime.gre2tun_thread in
      let c2 = Call.pthread_cancel s.runtime.tun2gre_thread in
      let s1 = if s.runtime.gre2tun_thread != 0 then called c1 s else s in
      let s2 = if s.runtime.tun2gre_thread != 0 then called c2 s1 else s1 in
      let (h2, mode) =
        cancelled s.runtime.tun2gre_thread s1 (cancelled s.runtime.gre2tun_thread s b) in
      branch P (s.sockfd_gre != 0) (called Call.close_gre s2) s2
        (closed.call Call.close_gre s2 mode h2) h2
    where
      cancelled :
          (thread : ℕ) (s : State)
          → Bonded s
          → Bonded (if thread != 0 then called (Call.pthread_cancel thread) s else s)
      cancelled thread s (h, mode) = elim (Bool-cases (thread != 0)) [
        | inl e ↦
            let positive : thread ≢ 0 = ground arith in
            rw e (closed.call (Call.pthread_cancel thread) s (mode, positive) h, mode)
        | inr e ↦ rw e (h, mode)
      ]

  reset_dhcp-keeps : (s : State) → P s → P (reset_dhcp os s)
  unfolding reset_dhcp
  reset_dhcp-keeps s h =
      let killed = (kill_udhcpc os s).1 in
      let s1 = set_dhcp killed (record (killed.runtime.dhcp) { udhcpc_pid = 0 }) in
      let s2 = trigger_event dhcpdown_ip s in
      let h1 = closed.dhcp _ killed (kill_udhcpc-keeps os P closed s h) in
      let h2 = trigger_event-keeps os P closed dhcpdown_ip s h in
      let s3 = if s.runtime.dhcp.lease_time != 0 then s2 else s in
      let h3 = branch P (s.runtime.dhcp.lease_time != 0) s2 s h2 h in
      closed.dhcp _ (if s.runtime.dhcp.udhcpc_pid != 0 then s1 else s3)
        (branch P (s.runtime.dhcp.udhcpc_pid != 0) s1 s3 h1 h3)

  reset_dhcp6-keeps : (s : State) → P s → P (reset_dhcp6 os s)
  unfolding reset_dhcp6
  reset_dhcp6-keeps s h =
      let killed = (kill_udhcpc6 os s).1 in
      let s1 = set_dhcp6 killed (record (killed.runtime.dhcp6) { udhcpc6_pid = 0 }) in
      let s2 = trigger_event dhcpdown_ip6 s in
      let h1 = closed.dhcp6 _ killed (kill_udhcpc6-keeps os P closed s h) in
      let h2 = trigger_event-keeps os P closed dhcpdown_ip6 s h in
      let s3 = if s.runtime.dhcp.lease_time != 0 then s2 else s in
      let h3 = branch P (s.runtime.dhcp.lease_time != 0) s2 s h2 h in
      closed.dhcp6 _ (if s.runtime.dhcp6.udhcpc6_pid != 0 then s1 else s3)
        (branch P (s.runtime.dhcp6.udhcpc6_pid != 0) s1 s3 h1 h3)

  reset_session-keeps : (s : State) → P s → P (reset_session os s)
  unfolding reset_session
  reset_session-keeps s h =
      let s1 = reset_haap s in
      let h1 = closed.session s h in
      branch P (not s.runtime.lte.tunnel_established && not s.runtime.dsl.tunnel_established)
        (reset_dhcp6 os (reset_dhcp os s1)) s
        (reset_dhcp6-keeps (reset_dhcp os s1) (reset_dhcp-keeps s1 h1)) h

  reset_dsl-keeps : (s : State) → P s → P (reset_dsl s)
  unfolding reset_dsl
  reset_dsl-keeps s h =
      branch P (not s.runtime.dsl.tunnel_established && s.runtime.tunnel_interface_created) _ s
        (closed.dsl_reset s h) h

  pub reset_lte-keeps : (s : State) → IsClosedLte P → P s → P (reset_lte s)
  unfolding reset_lte
  reset_lte-keeps s lte h =
      branch P (not s.runtime.lte.tunnel_established && s.runtime.tunnel_interface_created) _ s
        (lte.reset s h) h

  tunnel_device-keeps : (s : State) → P s → P (tunnel_device os s)
  unfolding tunnel_device
  tunnel_device-keeps s h =
      let lte_up = s.runtime.lte.tunnel_established in
      let dsl_up = s.runtime.dsl.tunnel_established in
      let created = s.runtime.tunnel_interface_created in
      elim (Bool-cases ((lte_up || dsl_up) && not created)) [
        | inl e ↦
            simp e (
              closed.created _ (create_tunnel_dev os s).1 (create_tunnel_dev-keeps os P closed s h))
        | inr e ↦ elim (Bool-cases (not lte_up && (not dsl_up && created))) [
          | inl d ↦
              simp (e, d)
                (closed.created _ (destroy_tunnel_dev os s).1
                  (destroy_tunnel_dev-keeps os P closed s h))
          | inr d ↦ simp (e, d) h
        ]
      ]

  -- What follows the reset of the LTE tunnel, up to the device.
  pub after_reset-keeps : (s : State) → P s → P (tunnel_device os (reset_session os (reset_dsl s)))
  after_reset-keeps s h =
      let s1 = reset_dsl s in
      tunnel_device-keeps (reset_session os s1) (reset_session-keeps s1 (reset_dsl-keeps s h))

  start_gre2tun-keeps : (s : State) → Bonded s → Bonded (start_gre2tun os s)
  unfolding start_gre2tun
  start_gre2tun-keeps s (h, mode) = elim (Bool-cases (s.runtime.gre2tun_thread == 0)) [
    | inl e ↦ simp e (
      closed.gre2tun _ (called Call.pthread_create s) (closed.call Call.pthread_create s mode h),
      mode,
    )
    | inr e ↦ simp e (h, mode)
  ]

  start_tun2gre-keeps : (s : State) → Bonded s → P (start_tun2gre os s)
  unfolding start_tun2gre
  start_tun2gre-keeps s (h, mode) =
      branch P (s.runtime.tun2gre_thread == 0) _ s
        (closed.tun2gre _ (called Call.pthread_create s) (closed.call Call.pthread_create s mode h))
        h

  opened-keeps : (fd : Option ℕ) (s : State) → Bonded s → Bonded (last_state (opened os fd s))
  unfolding opened
  opened-keeps none s (h, mode) = (closed.call Call.socket s tt h, mode)
  opened-keeps (some fd) s (h, mode) =
      let s0 = called Call.socket s in
      let s1 = record s0 { sockfd_gre = fd } in
      let s2 = called Call.setsockopt s1 in
      let h2 =
        closed.call Call.setsockopt s1 tt
          (closed.gre_socket fd s0 (closed.call Call.socket s tt h)) in
      elim (Bool-cases (os.setsockopt_done s1.trace)) [
        | inl e ↦ simp e (closed.call Call.setsockopt s2 tt h2, mode)
        | inr e ↦ simp e (h2, mode)
      ]

  socket_once-keeps :
      (s : State)
      → Bonded s
      → Bonded (last_state (if s.sockfd_gre == 0 then open_gre_socket os s else running s))
  unfolding open_gre_socket opened
  socket_once-keeps s h = elim (Bool-cases (s.sockfd_gre == 0)) [
    | inl e ↦ rw e (opened-keeps (os.socket_fd s.trace) s h)
    | inr e ↦ rw e h
  ]

  pub data_threads-keeps : (s : State) → P s → P (last_state (data_threads os s))
  unfolding data_threads
  data_threads-keeps s h =
      elim (Bool-cases (s.runtime.bonding && s.runtime.tunnel_interface_created)) [
        | inl e ↦ simp e (started s (h, ground arith))
        | inr e ↦ elim (Bool-cases (s.runtime.bonding && not s.runtime.tunnel_interface_created)) [
          | inl d ↦ simp (e, d) (stop_threads-keeps s (h, ground arith))
          | inr d ↦ simp (e, d) h
        ]
      ]
    where
      started :
          (s : State)
          → Bonded s
          → P (
              last_state (
                (if s.sockfd_gre == 0 then open_gre_socket os s else running s) >>> λ s1.
                running (start_tun2gre os (start_gre2tun os s1))))
      started s b =
          ends (if s.sockfd_gre == 0 then open_gre_socket os s else running s)
            (socket_once-keeps s b)
        where
          ends :
              (m : Run)
              → Bonded (last_state m)
              → P (last_state (m >>> λ s1. running (start_tun2gre os (start_gre2tun os s1))))
          ends (running s1) b = start_tun2gre-keeps (start_gre2tun os s1) (start_gre2tun-keeps s1 b)
          ends (exited code s1) (h, mode) = h
