-- ===== src/Timers.antt =====
-- execute_timers of src/openhybrid.c, one function for each of its sections, in their order.
-- `Tunnels` has the sections on the two tunnels, `Session` and `Clients` those on what hangs on them.
pub mod Tunnels
pub mod Session
pub mod Clients
pub mod Supervision
pub mod Reset
pub mod Leases
pub mod Ends
use open_hybrid.Base.{ℕ}
use open_hybrid.Runtime.{State}
use open_hybrid.Os.{Os}
use open_hybrid.Tundev.{Run, running, ◌>>>◌}
use open_hybrid.Timers.Tunnels.{keep_tunnels}
use open_hybrid.Timers.Session.{reset_stats, tunnel_device, data_threads, handle_signals}
use open_hybrid.Timers.Clients.{dhcp_clients, expire_leases}

-- The whole of execute_timers.
unfoldable pub execute_timers : Os → State → Run
execute_timers os s =
    data_threads os (tunnel_device os (reset_stats os (keep_tunnels os s))) >>> λ s1.
    handle_signals os (expire_leases os (dhcp_clients os s1))
