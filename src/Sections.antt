-- ===== src/Sections.antt =====
-- The sections of execute_timers (src/openhybrid.c) as compositions of single updates: what every
-- update keeps, every section keeps, and so does the whole. A call has to be permitted for that.
pub mod Messages
pub mod Tunnels
pub mod Devices
pub mod Udhcpc
pub mod Clients
pub mod Session
pub mod Whole
pub mod Watched
use open_hybrid.Base.{ℕ, Bool, true, false, Option, some, List, if◌then◌else◌, length, ◌≡◌}
use open_hybrid.Bytes.{IsByte, IsU32, u8}
use open_hybrid.Runtime.{
  Call, State, Dhcp, Dhcp6, settings_of, set_runtime, set_lte, set_dsl, set_dhcp, set_dhcp6,
}
use open_hybrid.Os.{Os, called, get_primary_ip6}
use open_hybrid.Calls.{Permitted}
use open_hybrid.Timers.Session.{reset_haap}

-- The updates that execute_timers makes, but for those of the supervision of the LTE tunnel.
pub record IsClosed (os : Os) (P : State → Type 0) : Type 0 where
  pub call : (c : Call) (s : State) → Permitted (settings_of s.runtime) c → P s → P (called c s)
  pub lte_ip :
      (s : State)
      → P s
      → let ip = (get_primary_ip6 os s.runtime.lte.interface_name s).0 in
        P (set_lte (called Call.fopen_if_inet6 s) (record s.runtime.lte { interface_ip = ip }))
  pub dsl_ip :
      (s : State)
      → P s
      → let ip = (get_primary_ip6 os s.runtime.dsl.interface_name s).0 in
        P (set_dsl (called Call.fopen_if_inet6 s) (record s.runtime.dsl { interface_ip = ip }))
  pub acked :
      (b : Bool) (s : State) → P s → P (set_runtime s (record s.runtime { filter_list_acked = b }))
  pub verification :
      (b : Bool) (s : State)
      → P s
      → P (set_lte s (record s.runtime.lte { tunnel_verification_required = b }))
  pub dsl_missed :
      (n : ℕ) (s : State) → P s → P (set_dsl s (record s.runtime.dsl { missed_hellos = u8 n }))
  pub dsl_sent :
      (n : ℕ) (s : State) → P s → P (set_dsl s (record s.runtime.dsl { last_hello_sent = n }))
  pub dsl_down :
      (s : State) → P s → P (set_dsl s (record s.runtime.dsl { tunnel_established = false }))
  pub dsl_reset :
      (s : State)
      → P s
      → P (
          set_dsl s (record s.runtime.dsl {
            tunnel_established = false;
            missed_hellos = 0;
            last_hello_sent = 0;
            last_hello_received = 0;
            last_bypass_traffic_sent = 0;
          }))
  pub bypass :
      (n : ℕ) (s : State)
      → P s
      → P (set_dsl s (record s.runtime.dsl { last_bypass_traffic_sent = n }))
  pub session : (s : State) → P s → P (reset_haap s)
  pub dhcp : (d : Dhcp) (s : State) → P s → P (set_dhcp s d)
  pub dhcp6 : (d : Dhcp6) (s : State) → P s → P (set_dhcp6 s d)
  pub created :
      (b : Bool) (s : State)
      → P s
      → P (set_runtime s (record s.runtime { tunnel_interface_created = b }))
  pub gre2tun :
      (n : ℕ) (s : State) → P s → P (set_runtime s (record s.runtime { gre2tun_thread = n }))
  pub tun2gre :
      (n : ℕ) (s : State) → P s → P (set_runtime s (record s.runtime { tun2gre_thread = n }))
  pub gre_socket : (n : ℕ) (s : State) → P s → P (record s { sockfd_gre = n })
  pub tun_socket : (fd : Option ℕ) (s : State) → P s → P (record s { sockfd_tun = fd })

-- Those of the hello messages of the LTE tunnel, as they are sent.
pub record IsClosedHello (P : State → Type 0) : Type 0 where
  pub missed :
      (n : ℕ) (s : State) → P s → P (set_lte s (record s.runtime.lte { missed_hellos = u8 n }))
  pub sent :
      (n : ℕ) (s : State) → P s → P (set_lte s (record s.runtime.lte { last_hello_sent = n }))

-- All of the LTE tunnel, the ends of it included.
pub record IsClosedLte (P : State → Type 0) : Type 0 where
  pub hello : IsClosedHello P
  pub down : (s : State) → P s → P (set_lte s (record s.runtime.lte { tunnel_established = false }))
  pub reset :
      (s : State)
      → P s
      → P (
          set_lte s (record s.runtime.lte {
            tunnel_established = false;
            missed_hellos = 0;
            last_hello_sent = 0;
            last_hello_received = 0;
            tunnel_verification_required = false;
          }))

-- A signal that was handled.
abbrev pub IsClosedSignal : (State → Type 0) → Type 0
IsClosedSignal P = (s : State) → P s → P (set_runtime s (record s.runtime { signal = 0 }))

-- What a branch leaves.
pub branch : (P : State → Type 0) (b : Bool) (x y : State) → P x → P y → P (if b then x else y)
branch P true x y h g = h
branch P false x y h g = g
