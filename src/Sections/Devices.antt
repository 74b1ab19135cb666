-- ===== src/Sections/Devices.antt =====
-- The tunnel device and its sockets (src/tundev.c), and the events (src/event.c).
use open_hybrid.Base.{
  ℕ, ◌≡◌, true, false, List, [], ◌∷◌, Option, none, some, inl, inr, Bool-cases, refl,
}
use open_hybrid.Runtime.{Event, Call, State, tunnelup, tunneldown}
use open_hybrid.Os.{Os, called}
use open_hybrid.Event.{trigger_event}
use open_hybrid.Event.Frame.{forked}
use open_hybrid.Tundev.{
  newlink_request, dellink_request, bring_up, create_gre_tunnel_dev, destroy_gre_tunnel_dev,
  create_tun_tunnel_dev, destroy_tun_tunnel_dev, create_tunnel_dev, destroy_tunnel_dev,
}
use open_hybrid.Tundev.Opened.{opened}
use open_hybrid.Sections.{IsClosed}

module _ (os : Os) (P : State → Type 0) (closed : IsClosed os P) where
  forked-keeps :
      (path : List ℕ) (name : Event) (s : State)
      → path ≡ s.runtime.event_script_path
      → P s
      → P (forked path name s)
  unfolding forked
  forked-keeps [] name s e h = h
  forked-keeps (x ∷ path) name s e h = closed.call (Call.fork_event name) s (λ none. cc) h

  pub trigger_event-keeps : (name : Event) (s : State) → P s → P (trigger_event name s)
  unfolding trigger_event forked
  trigger_event-keeps name s h = forked-keeps s.runtime.event_script_path name s refl h

  create_gre_tunnel_dev-keeps :
      (s : State) → s.runtime.bonding ≡ false → P s → P (create_gre_tunnel_dev os s).1
  unfolding create_gre_tunnel_dev
  create_gre_tunnel_dev-keeps s mode h =
      let s1 = called Call.netlink_open s in
      let request = Call.netlink_newlink (newlink_request s1.runtime) in
      let h1 = closed.call Call.netlink_open s mode h in
      let h2 = closed.call request s1 (mode, refl) h1 in
      elim (Bool-cases (os.netlink_opened s.trace)) [
        | inr e ↦ simp e h1
        | inl e ↦ elim (Bool-cases (os.netlink_acked s1.trace)) [
          | inl d ↦ simp (e, d) (trigger_event-keeps tunnelup (called request s1) h2)
          | inr d ↦ simp (e, d) h2
        ]
      ]

  destroy_gre_tunnel_dev-keeps :
      (s : State) → s.runtime.bonding ≡ false → P s → P (destroy_gre_tunnel_dev os s).1
  unfolding destroy_gre_tunnel_dev
  destroy_gre_tunnel_dev-keeps s mode h =
      let s1 = called Call.netlink_open s in
      let request = Call.netlink_dellink (dellink_request s1.runtime) in
      let h1 = closed.call Call.netlink_open s mode h in
      let h2 = closed.call request s1 (mode, refl) h1 in
      elim (Bool-cases (os.netlink_opened s.trace)) [
        | inr e ↦ simp e h1
        | inl e ↦ elim (Bool-cases (os.netlink_acked s1.trace)) [
          | inl d ↦ simp (e, d) (trigger_event-keeps tunneldown (called request s1) h2)
          | inr d ↦ simp (e, d) h2
        ]
      ]

  bring_up-keeps : (s : State) → s.runtime.bonding ≡ true → P s → P (bring_up s)
  bring_up-keeps s mode h =
      let c2 = Call.ioctl_mtu s.runtime.tunnel_interface_mtu in
      let c3 = Call.ioctl_flags false in
      let c4 = Call.ioctl_flags true in
      let s1 = called Call.socket s in
      let h1 = closed.call Call.socket s tt h in
      let h2 = closed.call c2 s1 (mode, refl) h1 in
      let h3 = closed.call c3 (called c2 s1) mode h2 in
      let h4 = closed.call c4 (called c3 (called c2 s1)) mode h3 in
      closed.call Call.close_socket (called c4 (called c3 (called c2 s1))) tt h4

  opened-keeps : (fd : Option ℕ) (s : State) → s.runtime.bonding ≡ true → P s → P (opened os fd s).1
  unfolding opened
  opened-keeps none s mode h =
      closed.tun_socket none (called Call.open_tun s) (closed.call Call.open_tun s mode h)
  opened-keeps (some n) s mode h =
      let s1 = record (called Call.open_tun s) { sockfd_tun = some n } in
      let h1 =
        closed.tun_socket (some n) (called Call.open_tun s) (closed.call Call.open_tun s mode h) in
      let named = Call.ioctl_tunsetiff s.runtime.tunnel_interface_name in
      let s2 = called named s1 in
      let h2 = closed.call named s1 (mode, refl) h1 in
      elim (Bool-cases (os.tunsetiff_done s1.trace)) [
        | inl e ↦ simp e (trigger_event-keeps tunnelup (bring_up s2) (bring_up-keeps s2 mode h2))
        | inr e ↦ simp e (closed.call Call.close_tun s2 mode h2)
      ]

  create_tun_tunnel_dev-keeps :
      (s : State) → s.runtime.bonding ≡ true → P s → P (create_tun_tunnel_dev os s).1
  unfolding create_tun_tunnel_dev opened
  create_tun_tunnel_dev-keeps s = opened-keeps (os.tun_fd s.trace) s

  pub create_tunnel_dev-keeps : (s : State) → P s → P (create_tunnel_dev os s).1
  unfolding create_tunnel_dev
  create_tunnel_dev-keeps s h = elim (Bool-cases s.runtime.bonding) [
    | inl e ↦ simp e (create_tun_tunnel_dev-keeps s e h)
    | inr e ↦ simp e (create_gre_tunnel_dev-keeps s e h)
  ]

  pub destroy_tunnel_dev-keeps : (s : State) → P s → P (destroy_tunnel_dev os s).1
  unfolding destroy_tunnel_dev destroy_tun_tunnel_dev
  destroy_tunnel_dev-keeps s h = elim (Bool-cases s.runtime.bonding) [
    | inl e ↦ simp e (
        trigger_event-keeps tunneldown (called Call.close_tun s) (closed.call Call.close_tun s e h))
    | inr e ↦ simp e (destroy_gre_tunnel_dev-keeps s e h)
  ]
