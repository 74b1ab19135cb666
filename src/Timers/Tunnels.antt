-- ===== src/Timers/Tunnels.antt =====
-- The first half of execute_timers (src/openhybrid.c): requests, acknowledgements, hello messages,
-- their supervision, and the bypass traffic.
use open_hybrid.Base.{◌+◌, false, not, ◌&&◌, ltb, leb, ◌!=◌, if◌then◌else◌}
use open_hybrid.Bytes.{u8}
use open_hybrid.Runtime.{State, set_runtime, set_lte, set_dsl}
use open_hybrid.Os.{Os, get_uptime, get_primary_ip6}
use open_hybrid.Grecp.{grecp_tuntype_lte, grecp_tuntype_dsl}
use open_hybrid.Grecp.Message.{
  send_grecprequest, send_grecphello, send_grecpnotify_filterlistpackageack,
  send_grecpnotify_tunnelverify, send_grecpnotify_bypasstraffic,
}

unfoldable pub update_interface_ips : Os → State → State
update_interface_ips os s =
    let (lte_ip, s1) = get_primary_ip6 os s.runtime.lte.interface_name s in
    let s2 = set_lte s1 (record (s1.runtime.lte) { interface_ip = lte_ip }) in
    if s2.runtime.bonding
    then (let (dsl_ip, s3) = get_primary_ip6 os s2.runtime.dsl.interface_name s2 in
        set_dsl s3 (record (s3.runtime.dsl) { interface_ip = dsl_ip }))
    else s2

-- Connect, if not connected: the DSL tunnel only once the LTE tunnel is up.
unfoldable pub connect : Os → State → State
connect os s =
    if not s.runtime.lte.tunnel_established
    then (send_grecprequest os grecp_tuntype_lte s).1
    else if s.runtime.bonding && not s.runtime.dsl.tunnel_established
    then (send_grecprequest os grecp_tuntype_dsl s).1
    else s

unfoldable pub ack_filter_list : Os → State → State
ack_filter_list os s =
    if s.runtime.lte.tunnel_established
      && ltb 0 s.runtime.haap.commit_count
      && not s.runtime.filter_list_acked
    then (let (res, s1) = send_grecpnotify_filterlistpackageack os 2 s in
        set_runtime s1 (record (s1.runtime) { filter_list_acked = res }))
    else s

unfoldable pub verify_tunnel : Os → State → State
verify_tunnel os s =
    if s.runtime.lte.tunnel_established && s.runtime.lte.tunnel_verification_required
    then (let (res, s1) = send_grecpnotify_tunnelverify os s in
        set_lte s1 (record (s1.runtime.lte) { tunnel_verification_required = not res }))
    else s

-- `last_hello_sent < now - interval` is signed, on 64 bits: the interval moves to the other side.
unfoldable pub hello_lte : Os → State → State
hello_lte os s =
    if s.runtime.lte.tunnel_established
    then (let (now, s1) = get_uptime os s in
        if ltb (s1.runtime.lte.last_hello_sent + s1.runtime.haap.active_hello_interval) now.tv_sec
        then (let s2 =
              if s1.runtime.lte.last_hello_received != s1.runtime.lte.last_hello_sent
              then set_lte s1 (record (s1.runtime.lte) {
                missed_hellos = u8 (s1.runtime.lte.missed_hellos + 1);
              })
              else s1 in
            (send_grecphello os grecp_tuntype_lte s2).1)
        else s1)
    else s

unfoldable pub hello_dsl : Os → State → State
hello_dsl os s =
    if s.runtime.dsl.tunnel_established
    then (let (now, s1) = get_uptime os s in
        if ltb (s1.runtime.dsl.last_hello_sent + s1.runtime.haap.active_hello_interval) now.tv_sec
        then (let s2 =
              if s1.runtime.dsl.last_hello_received != s1.runtime.dsl.last_hello_sent
              then set_dsl s1 (record (s1.runtime.dsl) {
                missed_hellos = u8 (s1.runtime.dsl.missed_hellos + 1);
              })
              else s1 in
            (send_grecphello os grecp_tuntype_dsl s2).1)
        else s1)
    else s

-- A tunnel with too many missed hello messages is considered dead.
unfoldable pub check_lte : State → State
check_lte s =
    if s.runtime.lte.tunnel_established
      && leb s.runtime.haap.hello_retry_times s.runtime.lte.missed_hellos
    then set_lte s (record s.runtime.lte { tunnel_established = false })
    else s

unfoldable pub check_dsl : State → State
check_dsl s =
    if s.runtime.dsl.tunnel_established
      && leb s.runtime.haap.hello_retry_times s.runtime.dsl.missed_hellos
    then set_dsl s (record s.runtime.dsl { tunnel_established = false })
    else s

unfoldable pub bypass_bandwidth : Os → State → State
bypass_bandwidth os s =
    if s.runtime.dsl.tunnel_established
    then (let (now, s1) = get_uptime os s in
        if ltb
          (s1.runtime.dsl.last_bypass_traffic_sent
            + s1.runtime.haap.bypass_bandwidth_check_interval)
          now.tv_sec
        then (send_grecpnotify_bypasstraffic os 1000 s1).1
        else s1)
    else s

unfoldable pub keep_tunnels : Os → State → State
keep_tunnels os s = bypass_bandwidth os (
    check_dsl (
      check_lte (
        hello_dsl os (
          hello_lte os
            (verify_tunnel os (ack_filter_list os (connect os (update_interface_ips os s))))))))
