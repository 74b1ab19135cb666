-- ===== src/Timers/Session.antt =====
-- The second half of execute_timers (src/openhybrid.c): what is reset when a tunnel is down, the
-- tunnel device, the threads of the data plane, and the signals. The DHCP clients are in Clients.
use open_hybrid.Base.{ℕ, false, not, ◌&&◌, ◌||◌, List, replicate, ◌==◌, ◌!=◌, if◌then◌else◌}
use open_hybrid.Runtime.{
  State, Call, dhcpdown_ip, dhcpdown_ip6, shutdown, set_runtime, set_lte, set_dsl, set_dhcp,
  set_dhcp6,
}
use open_hybrid.Os.{Os, called, no_ip6}
use open_hybrid.Event.{trigger_event}
use open_hybrid.Grecp.{grecp_tuntype_lte, grecp_tuntype_dsl}
use open_hybrid.Grecp.Message.{send_grecpnotify_linkfailure}
use open_hybrid.Tundev.{
  Run, running, exited, ◌>>>◌, create_tunnel_dev, destroy_tunnel_dev, open_gre_socket,
  close_gre_socket,
}
use open_hybrid.Dhcp.{kill_udhcpc, kill_udhcpc6, delete_dhcp_script}

abbrev pub no_ip : List ℕ
no_ip = replicate 4 0

unfoldable pub reset_lte : State → State
reset_lte s =
    if not s.runtime.lte.tunnel_established && s.runtime.tunnel_interface_created
    then set_lte s (record s.runtime.lte {
      tunnel_established = false;
      missed_hellos = 0;
      last_hello_sent = 0;
      last_hello_received = 0;
      tunnel_verification_required = false;
    })
    else s

unfoldable pub reset_dsl : State → State
reset_dsl s =
    if not s.runtime.dsl.tunnel_established && s.runtime.tunnel_interface_created
    then set_dsl s (record s.runtime.dsl {
      tunnel_established = false;
      missed_hellos = 0;
      last_hello_sent = 0;
      last_hello_received = 0;
      last_bypass_traffic_sent = 0;
    })
    else s

unfoldable pub reset_haap : State → State
reset_haap s = set_runtime s (record s.runtime {
  haap = record s.runtime.haap {
    ip = s.runtime.haap.anycast_ip;
    bonding_key = 0;
    session_id = 0;
    commit_count = 0;
  };
  filter_list_acked = false;
})

unfoldable pub reset_dhcp : Os → State → State
reset_dhcp os s =
    let s1 =
      if s.runtime.dhcp.udhcpc_pid != 0
      then (let s' = (kill_udhcpc os s).1 in
          set_dhcp s' (record (s'.runtime.dhcp) { udhcpc_pid = 0 }))
      else if s.runtime.dhcp.lease_time != 0
      then trigger_event dhcpdown_ip s
      else s in
    set_dhcp s1 (record (s1.runtime.dhcp) { ip = no_ip; lease_time = 0; lease_obtained = 0 })

-- The code tests the lease of the other client, which has just been reset.
unfoldable pub reset_dhcp6 : Os → State → State
reset_dhcp6 os s =
    let s1 =
      if s.runtime.dhcp6.udhcpc6_pid != 0
      then (let s' = (kill_udhcpc6 os s).1 in
          set_dhcp6 s' (record (s'.runtime.dhcp6) { udhcpc6_pid = 0 }))
      else if s.runtime.dhcp.lease_time != 0
      then trigger_event dhcpdown_ip6 s
      else s in
    set_dhcp6 s1 (record (s1.runtime.dhcp6) {
      prefix_address = no_ip6;
      prefix_length = 0;
      lease_time = 0;
      lease_obtained = 0;
    })

unfoldable pub reset_session : Os → State → State
reset_session os s =
    if not s.runtime.lte.tunnel_established && not s.runtime.dsl.tunnel_established
    then reset_dhcp6 os (reset_dhcp os (reset_haap s))
    else s

unfoldable pub reset_stats : Os → State → State
unfolding reset_lte reset_dsl reset_session
reset_stats os s = reset_session os (reset_dsl (reset_lte s))

unfoldable pub tunnel_device : Os → State → State
tunnel_device os s =
    if (lte_up || dsl_up) && not created
    then (let (res, s1) = create_tunnel_dev os s in
        set_runtime s1 (record (s1.runtime) { tunnel_interface_created = res }))
    else if not lte_up && (not dsl_up && created)
    then (let (res, s1) = destroy_tunnel_dev os s in
        set_runtime s1 (record (s1.runtime) { tunnel_interface_created = not res }))
    else s
  where
    open s.runtime.lte use {tunnel_established as lte_up}
    open s.runtime.dsl use {tunnel_established as dsl_up}
    open s.runtime use {tunnel_interface_created as created}

unfoldable pub start_gre2tun : Os → State → State
start_gre2tun os s =
    if s.runtime.gre2tun_thread == 0
    then (let s1 = called Call.pthread_create s in
        set_runtime s1 (record (s1.runtime) { gre2tun_thread = os.thread_id s.trace }))
    else s

unfoldable pub start_tun2gre : Os → State → State
start_tun2gre os s =
    if s.runtime.tun2gre_thread == 0
    then (let s1 = called Call.pthread_create s in
        set_runtime s1 (record (s1.runtime) { tun2gre_thread = os.thread_id s.trace }))
    else s

-- Cancelling the threads and closing the socket leaves their variables as they are.
unfoldable pub stop_threads : State → State
stop_threads s =
    let s1 =
      if s.runtime.gre2tun_thread != 0
      then called (Call.pthread_cancel s.runtime.gre2tun_thread) s
      else s in
    let s2 =
      if s.runtime.tun2gre_thread != 0
      then called (Call.pthread_cancel s.runtime.tun2gre_thread) s1
      else s1 in
    if s.sockfd_gre != 0 then close_gre_socket s2 else s2

unfoldable pub data_threads : Os → State → Run
data_threads os s =
    if s.runtime.bonding && s.runtime.tunnel_interface_created
    then ((if s.sockfd_gre == 0 then open_gre_socket os s else running s) >>> λ s1.
        running (start_tun2gre os (start_gre2tun os s1)))
    else if s.runtime.bonding && not s.runtime.tunnel_interface_created
    then running (stop_threads s)
    else running s

abbrev pub sigint : ℕ
sigint = 2

abbrev pub sigterm : ℕ
sigterm = 15

unfoldable pub stop_dhcp : Os → State → State
stop_dhcp os s =
    let s1 = if s.runtime.dhcp.udhcpc_pid != 0 then (kill_udhcpc os s).1 else s in
    let s2 = if s1.runtime.dhcp6.udhcpc6_pid != 0 then (kill_udhcpc6 os s1).1 else s1 in
    let s3 = if s2.runtime.dhcp.lease_time != 0 then trigger_event dhcpdown_ip s2 else s2 in
    if s3.runtime.dhcp6.lease_time != 0 then trigger_event dhcpdown_ip6 s3 else s3

unfoldable pub stop_tunnels : Os → State → State
stop_tunnels os s =
    let s1 = if s.runtime.bonding then stop_threads s else s in
    let s2 = if s1.runtime.tunnel_interface_created then (destroy_tunnel_dev os s1).1 else s1 in
    if s2.runtime.lte.tunnel_established && s2.runtime.dsl.tunnel_established
    then (send_grecpnotify_linkfailure os grecp_tuntype_dsl
        (send_grecpnotify_linkfailure os grecp_tuntype_lte s2).1).1
    else s2

-- The signal handler stores the signal; SIGINT and SIGTERM end the process here.
unfoldable pub handle_signal : ℕ → State → State
handle_signal sig s = set_runtime s (record s.runtime { signal = sig })

-- What it answers is not used.
abbrev pub close_grecp_socket : State → State
close_grecp_socket s = called Call.close_grecp s

unfoldable pub handle_signals : Os → State → Run
handle_signals os s =
    if s.runtime.signal != 0
    then (if s.runtime.signal == sigint || s.runtime.signal == sigterm
        then exited 0 (
            trigger_event shutdown
              ((delete_dhcp_script os (close_grecp_socket (stop_tunnels os (stop_dhcp os s)))).1))
        else running (set_runtime s (record s.runtime { signal = 0 })))
    else running s
