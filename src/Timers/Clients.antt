-- ===== src/Timers/Clients.antt =====
-- The part of execute_timers (src/openhybrid.c) on the DHCP clients and their leases.
use open_hybrid.Base.{ℕ, ◌+◌, ◌%◌, Bool, ◌&&◌, leb, ◌==◌, ◌!=◌, if◌then◌else◌}
use open_hybrid.Runtime.{State, Call, dhcpdown_ip, dhcpdown_ip6, set_dhcp, set_dhcp6}
use open_hybrid.Os.{Os, called, get_uptime}
use open_hybrid.Event.{trigger_event}
use open_hybrid.Dhcp.{start_udhcpc, start_udhcpc6, process_udhcpc_output, process_udhcpc6_output}
use open_hybrid.Timers.Session.{no_ip}

-- WIFEXITED(status).
abbrev pub wifexited : ℕ → Bool
wifexited status = status % 128 == 0

-- A client is started where there is a device, but neither a lease nor a client.
unfoldable pub launch_udhcpc : Os → State → State
launch_udhcpc os s =
    if s.runtime.tunnel_interface_created
      && (s.runtime.dhcp.lease_time == 0 && s.runtime.dhcp.udhcpc_pid == 0)
    then (let (pid, s') = start_udhcpc os s in
        set_dhcp s' (record (s'.runtime.dhcp) { udhcpc_pid = pid }))
    else s

unfoldable pub reap_udhcpc : Os → State → State
reap_udhcpc os s =
    if s.runtime.dhcp.udhcpc_pid != 0
    then (let s1 = called (Call.waitpid s.runtime.dhcp.udhcpc_pid) s in
        if wifexited (os.wait_status s.trace)
        then process_udhcpc_output os (set_dhcp s1 (record (s1.runtime.dhcp) { udhcpc_pid = 0 }))
        else s1)
    else s

unfoldable pub dhcp_client : Os → State → State
dhcp_client os s = reap_udhcpc os (launch_udhcpc os s)

-- A client is started where there is a device, but neither a lease nor a client.
unfoldable pub launch_udhcpc6 : Os → State → State
launch_udhcpc6 os s =
    if s.runtime.tunnel_interface_created
      && (s.runtime.dhcp6.lease_time == 0 && s.runtime.dhcp6.udhcpc6_pid == 0)
    then (let (pid, s') = start_udhcpc6 os s in
        set_dhcp6 s' (record (s'.runtime.dhcp6) { udhcpc6_pid = pid }))
    else s

unfoldable pub reap_udhcpc6 : Os → State → State
reap_udhcpc6 os s =
    if s.runtime.dhcp6.udhcpc6_pid != 0
    then (let s1 = called (Call.waitpid s.runtime.dhcp6.udhcpc6_pid) s in
        if wifexited (os.wait_status s.trace)
        then process_udhcpc6_output os
            (set_dhcp6 s1 (record (s1.runtime.dhcp6) { udhcpc6_pid = 0 }))
        else s1)
    else s

unfoldable pub dhcp6_client : Os → State → State
dhcp6_client os s = reap_udhcpc6 os (launch_udhcpc6 os s)

unfoldable pub dhcp_clients : Os → State → State
dhcp_clients os s = dhcp6_client os (dhcp_client os s)

unfoldable pub expire_dhcp : Os → State → State
expire_dhcp os s =
    if s.runtime.dhcp.lease_time != 0
    then (let (now, s1) = get_uptime os s in
        if leb (s1.runtime.dhcp.lease_obtained + s1.runtime.dhcp.lease_time) now.tv_sec
        then (let s2 = trigger_event dhcpdown_ip s1 in
            set_dhcp s2
              (record (s2.runtime.dhcp) { ip = no_ip; lease_time = 0; lease_obtained = 0 }))
        else s1)
    else s

-- The code resets the lease of the other client.
unfoldable pub expire_dhcp6 : Os → State → State
expire_dhcp6 os s =
    if s.runtime.dhcp6.lease_time != 0
    then (let (now, s1) = get_uptime os s in
        if leb (s1.runtime.dhcp6.lease_obtained + s1.runtime.dhcp6.lease_time) now.tv_sec
        then (let s2 = trigger_event dhcpdown_ip6 s1 in
            set_dhcp s2
              (record (s2.runtime.dhcp) { ip = no_ip; lease_time = 0; lease_obtained = 0 }))
        else s1)
    else s

unfoldable pub expire_leases : Os → State → State
expire_leases os s = expire_dhcp6 os (expire_dhcp os s)
