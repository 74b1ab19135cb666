-- ===== src/Tests/Timing.antt =====
-- The theorems on execute_timers, at the concrete host and state.
use open_hybrid.Base.{◌≡◌, refl, ◌∷◌, bytes_eq, not, ◌&&◌, ◌||◌, arith}
use open_hybrid.Runtime.{Call, State, set_haap, set_lte}
use open_hybrid.Grecp.{grecp_tuntype_lte, grecp_msgtype_request}
use open_hybrid.Grecp.Message.{grecp_packet, request_attributes}
use open_hybrid.Timers.Tunnels.{connect}
use open_hybrid.Timers.Session.{reset_stats, reset_dhcp6, tunnel_device}
use open_hybrid.Timers.Reset.{IsFresh, reset_stats-connect}
use open_hybrid.Timers.Leases.{reset_dhcp6-orphan, tunnel_device-down}
use open_hybrid.Tests.{host, session, disconnected}

-- With one more hello to be missed.
abbrev late_session : State
late_session = set_lte session (record session.runtime.lte { missed_hellos = 2 })

abbrev patient_session : State
patient_session = set_haap session (record session.runtime.haap { hello_retry_times = 300 })

reset_stats-connect_example :
    let t = reset_stats host disconnected in
    IsFresh t
    × ((connect host t).trace
        ≡ Call.sendmsg disconnected.runtime.lte.interface_ip t.runtime.haap.anycast_ip (
            grecp_packet 0 grecp_msgtype_request grecp_tuntype_lte
              (request_attributes grecp_tuntype_lte 0))
          ∷ t.trace)
unfolding bytes_eq
reset_stats-connect_example = reset_stats-connect host disconnected refl refl refl

reset_dhcp6-orphan_example :
    ((reset_dhcp6 host session).runtime.dhcp6.udhcpc6_pid ≡ 0)
    × ((reset_dhcp6 host session).trace ≡ session.trace)
reset_dhcp6-orphan_example = reset_dhcp6-orphan host session refl (omega arith)

tunnel_device-down_example : (tunnel_device host disconnected).runtime.tunnel_interface_created ≡ (
    disconnected.runtime.bonding
    || (host.netlink_opened disconnected.trace
        && not (host.netlink_acked (Call.netlink_open ∷ disconnected.trace))))
tunnel_device-down_example = tunnel_device-down host disconnected refl refl refl
