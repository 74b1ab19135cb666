-- ===== src/Tundev.antt =====
-- src/tundev.c: the tunnel device of each operating mode, and the raw socket of the data plane.
-- What libmnl makes of a netlink request is not modelled, only what it is told to put there.
pub mod Opened
use open_hybrid.Base.{List, [], ◌∷◌, ℕ, Bool, true, false, none, some, if◌then◌else◌}
use open_hybrid.Base.Text.{codes}
use open_hybrid.Bytes.{htonl}
use open_hybrid.Runtime.{
  tunnelup, tunneldown, Call, State, Runtime, LinkAttribute, ifname, mtu, info_kind, gre_local,
  gre_remote, gre_flags, gre_ttl, gre_ikey, gre_okey, gre_iflags, gre_oflags,
}
use open_hybrid.Os.{Os, called}
use open_hybrid.Event.{trigger_event}

-- IP6_TNL_F_IGN_ENCAP_LIMIT, and GRE_KEY, 0x20, which stands in the byte order of the network.
abbrev pub ip6_tnl_f_ign_encap_limit : ℕ
ip6_tnl_f_ign_encap_limit = 1

abbrev pub gre_key : ℕ
gre_key = 0x20

-- The device of the tunnel over LTE: both keys are the bonding key.
abbrev pub newlink_request : Runtime → List LinkAttribute
newlink_request r =
    ifname r.tunnel_interface_name
    ∷ mtu r.tunnel_interface_mtu
    ∷ info_kind (codes "ip6gre")
    ∷ gre_local r.lte.interface_ip
    ∷ gre_remote r.haap.ip
    ∷ gre_flags ip6_tnl_f_ign_encap_limit
    ∷ gre_ttl 64
    ∷ gre_ikey (htonl r.haap.bonding_key)
    ∷ gre_okey (htonl r.haap.bonding_key)
    ∷ gre_iflags gre_key
    ∷ gre_oflags gre_key
    ∷ []

abbrev pub dellink_request : Runtime → List LinkAttribute
dellink_request r = ifname r.tunnel_interface_name ∷ []

-- An answer with no error, or one that is no error message, makes the device.
unfoldable pub create_gre_tunnel_dev : Os → State → Bool × State
unfolding trigger_event
create_gre_tunnel_dev os s =
    if os.netlink_opened s.trace
    then (let s1 = called Call.netlink_open s in
        let s2 = called (Call.netlink_newlink (newlink_request s.runtime)) s1 in
        if os.netlink_acked s1.trace then (true, trigger_event tunnelup s2) else (false, s2))
    else (false, called Call.netlink_open s)

unfoldable pub destroy_gre_tunnel_dev : Os → State → Bool × State
unfolding trigger_event
destroy_gre_tunnel_dev os s =
    if os.netlink_opened s.trace
    then (let s1 = called Call.netlink_open s in
        let s2 = called (Call.netlink_dellink (dellink_request s.runtime)) s1 in
        if os.netlink_acked s1.trace then (true, trigger_event tunneldown s2) else (false, s2))
    else (true, called Call.netlink_open s)

-- The MTU and the flags, through a socket of another kind. The flags are set twice, without IFF_UP
-- and with it. What fails here is only logged.
abbrev pub bring_up : State → State
bring_up s = called Call.close_socket (
    called (Call.ioctl_flags true) (
      called (Call.ioctl_flags false)
        (called (Call.ioctl_mtu s.runtime.tunnel_interface_mtu) (called Call.socket s))))

unfoldable pub create_tun_tunnel_dev : Os → State → Bool × State
unfolding trigger_event
create_tun_tunnel_dev os s =
    let fd = os.tun_fd s.trace in
    let s1 = record (called Call.open_tun s) { sockfd_tun = fd } in
    elim fd [
      | none ↦ (false, s1)
      | some _ ↦
          let s2 = called (Call.ioctl_tunsetiff s.runtime.tunnel_interface_name) s1 in
          if os.tunsetiff_done s1.trace
          then (true, trigger_event tunnelup (bring_up s2))
          else (false, called Call.close_tun s2)
    ]

-- The code answers false although the device is gone.
unfoldable pub destroy_tun_tunnel_dev : State → Bool × State
unfolding trigger_event
destroy_tun_tunnel_dev s = (false, trigger_event tunneldown (called Call.close_tun s))

unfoldable pub create_tunnel_dev : Os → State → Bool × State
unfolding create_tun_tunnel_dev create_gre_tunnel_dev
create_tunnel_dev os s =
    if s.runtime.bonding then create_tun_tunnel_dev os s else create_gre_tunnel_dev os s

unfoldable pub destroy_tunnel_dev : Os → State → Bool × State
unfolding destroy_tun_tunnel_dev destroy_gre_tunnel_dev
destroy_tunnel_dev os s =
    if s.runtime.bonding then destroy_tun_tunnel_dev s else destroy_gre_tunnel_dev os s

-- A step of the process that may end it: `exit(code)`, or LOG_FATAL, which exits with 1.
pub data Run : Type 0 where
  running : State → Run
  exited : ℕ → State → Run

infixl 5 ◌>>>◌
abbrev pub ◌>>>◌ : Run → (State → Run) → Run
running s >>> f = f s
exited code s >>> f = exited code s

-- Where the packet filter cannot be attached, that is only logged. A failing socket is fatal.
unfoldable pub open_gre_socket : Os → State → Run
open_gre_socket os s = elim (os.socket_fd s.trace) [
  | none ↦ exited 1 (called Call.socket s)
  | some fd ↦
      let s1 = record (called Call.socket s) { sockfd_gre = fd } in
      let s2 = called Call.setsockopt s1 in
      if os.setsockopt_done s1.trace then running (called Call.setsockopt s2) else exited 1 s2
]

unfoldable pub close_gre_socket : State → State
close_gre_socket s = called Call.close_gre s
