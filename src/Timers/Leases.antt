-- ===== src/Timers/Leases.antt =====
-- The DHCP client for the prefix in execute_timers (src/openhybrid.c) and src/dhcp.c, where the code
-- names the first client; and the tunnel device that is not wanted any more.
use open_hybrid.Base.{
  ◌≡◌, ◌≢◌, refl, true, false, not, ◌&&◌, ◌||◌, ◌∷◌, ◌!=◌, inl, inr, Bool-cases, arith,
}
use open_hybrid.Runtime.{Call, State}
use open_hybrid.Os.{Os}
use open_hybrid.Dhcp.{kill_udhcpc6}
use open_hybrid.Tundev.{destroy_tunnel_dev, destroy_tun_tunnel_dev, destroy_gre_tunnel_dev}
use open_hybrid.Timers.Session.{reset_dhcp6, tunnel_device}

-- No client of the first kind runs, and one of the second kind does. The reset forgets its pid and
-- makes no call at all: the client is not killed.
pub reset_dhcp6-orphan :
    (os : Os) (s : State)
    → s.runtime.dhcp.udhcpc_pid ≡ 0
    → s.runtime.dhcp6.udhcpc6_pid ≢ 0
    → ((reset_dhcp6 os s).runtime.dhcp6.udhcpc6_pid ≡ 0) × ((reset_dhcp6 os s).trace ≡ s.trace)
unfolding reset_dhcp6 kill_udhcpc6
reset_dhcp6-orphan os s e n =
    let runs : s.runtime.dhcp6.udhcpc6_pid != 0 ≡ true = ground arith in simp (e, runs) (refl, refl)

-- Both tunnels are down and the tunnel device exists. After the round the code still takes the
-- device for existing exactly if it runs in bonding mode, or the netlink socket opened and the
-- kernel answered with an error.
pub tunnel_device-down :
    (os : Os) (s : State)
    → s.runtime.lte.tunnel_established ≡ false
    → s.runtime.dsl.tunnel_established ≡ false
    → s.runtime.tunnel_interface_created ≡ true
    → (tunnel_device os s).runtime.tunnel_interface_created ≡ (
        s.runtime.bonding
        || (os.netlink_opened s.trace && not (os.netlink_acked (Call.netlink_open ∷ s.trace))))
unfolding tunnel_device destroy_tunnel_dev destroy_tun_tunnel_dev destroy_gre_tunnel_dev
tunnel_device-down os s l d c = elim (Bool-cases s.runtime.bonding) [
  | inl b ↦ simp (l, d, c, b) refl
  | inr b ↦ elim (Bool-cases (os.netlink_opened s.trace)) [
    | inr o ↦ simp (l, d, c, b, o) refl
    | inl o ↦ elim (Bool-cases (os.netlink_acked (Call.netlink_open ∷ s.trace))) [
      | inl a ↦ simp (l, d, c, b, o, a) refl
      | inr a ↦ simp (l, d, c, b, o, a) refl
    ]
  ]
]
