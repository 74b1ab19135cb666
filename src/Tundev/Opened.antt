-- ===== src/Tundev/Opened.antt =====
-- create_tun_tunnel_dev (src/tundev.c), by the cases of the descriptor.
use open_hybrid.Base.{ℕ, Bool, true, false, Option, none, some, if◌then◌else◌}
use open_hybrid.Runtime.{tunnelup, Call, State}
use open_hybrid.Os.{Os, called}
use open_hybrid.Event.{trigger_event}
use open_hybrid.Tundev.{bring_up}

-- The part of create_tun_tunnel_dev that has opened the device, or failed to.
unfoldable pub opened : Os → Option ℕ → State → Bool × State
opened os fd s =
    let s1 = record (called Call.open_tun s) { sockfd_tun = fd } in
    elim fd [
      | none ↦ (false, s1)
      | some _ ↦
          let s2 = called (Call.ioctl_tunsetiff s.runtime.tunnel_interface_name) s1 in
          if os.tunsetiff_done s1.trace
          then (true, trigger_event tunnelup (bring_up s2))
          else (false, called Call.close_tun s2)
    ]
