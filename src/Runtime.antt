-- ===== src/Runtime.antt =====
-- The global struct `runtime` of src/openhybrid.h and the global sockets, with what the process
-- has asked of the operating system so far.
use open_hybrid.Base.{ℕ, Bool, List, [], ◌∷◌, Option}
use open_hybrid.Base.Int.{ℤ}

-- struct timeval of a clock, which is never negative.
pub record Timeval : Type 0 where
  pub tv_sec : ℕ
  pub tv_usec : ℕ

-- struct timeval of a difference or a setting. time_t has 64 bits and does not overflow here.
pub record Interval : Type 0 where
  pub tv_sec : ℤ
  pub tv_usec : ℤ

-- An IPv6 address is the list of its 16 bytes, a C string the list of its characters.
pub record Haap : Type 0 where
  pub anycast_ip : List ℕ
  pub ip : List ℕ
  pub session_id : ℕ
  pub bonding_key : ℕ
  pub active_hello_interval : ℕ
  pub hello_retry_times : ℕ
  pub commit_count : ℕ
  pub bypass_bandwidth_check_interval : ℕ

pub record Dhcp : Type 0 where
  pub udhcpc_pid : ℕ
  pub ip : List ℕ
  pub lease_time : ℕ
  pub lease_obtained : ℕ

pub record Dhcp6 : Type 0 where
  pub udhcpc6_pid : ℕ
  pub prefix_address : List ℕ
  pub prefix_length : ℕ
  pub lease_time : ℕ
  pub lease_obtained : ℕ

pub record Lte : Type 0 where
  pub interface_name : List ℕ
  pub tunnel_established : Bool
  pub last_hello_sent : ℕ
  pub last_hello_received : ℕ
  pub missed_hellos : ℕ
  pub tunnel_verification_required : Bool
  pub interface_ip : List ℕ
  pub round_trip_time : Interval

pub record Dsl : Type 0 where
  pub interface_name : List ℕ
  pub tunnel_established : Bool
  pub last_hello_sent : ℕ
  pub last_hello_received : ℕ
  pub missed_hellos : ℕ
  pub last_bypass_traffic_sent : ℕ
  pub interface_ip : List ℕ
  pub round_trip_time : Interval

-- The events of src/event.c, under the names that the event script is given.
pub data Event : Type 0 where
  startup shutdown tunnelup tunneldown dhcpup_ip dhcpup_ip6 dhcpdown_ip dhcpdown_ip6 : Event

pub Event-discrete : Discrete Event
Event-discrete = hlevel

-- What libmnl is told to put into a request for a link, with the value as the code gives it.
pub data LinkAttribute : Type 0 where
  ifname : List ℕ → LinkAttribute
  mtu : ℕ → LinkAttribute
  info_kind : List ℕ → LinkAttribute
  gre_local : List ℕ → LinkAttribute
  gre_remote : List ℕ → LinkAttribute
  gre_flags : ℕ → LinkAttribute
  gre_ttl : ℕ → LinkAttribute
  gre_ikey : List ℕ → LinkAttribute
  gre_okey : List ℕ → LinkAttribute
  gre_iflags : ℕ → LinkAttribute
  gre_oflags : ℕ → LinkAttribute

-- A call that the process made, with its arguments where they matter.
pub data Call : Type 0 where
  clock_gettime : Call
  fopen_if_inet6 : Call
  sendmsg : List ℕ → List ℕ → List ℕ → Call
  fork_event : Event → Call
  fork_udhcpc : Call
  fork_udhcpc6 : Call
  pipe : Call
  read_pipe : Call
  waitpid : ℕ → Call
  kill : ℕ → Call
  netlink_open : Call
  netlink_newlink : List LinkAttribute → Call
  netlink_dellink : List LinkAttribute → Call
  open_tun : Call
  ioctl_tunsetiff : List ℕ → Call
  ioctl_mtu : ℕ → Call
  ioctl_flags : Bool → Call
  close_socket : Call
  close_tun : Call
  socket : Call
  setsockopt : Call
  close_gre : Call
  close_grecp : Call
  unlink_script : Call
  mkstemp : Call
  write_script : List ℕ → Call
  close_script : Call
  chmod_script : Call
  pthread_create : Call
  pthread_cancel : ℕ → Call

-- The calls but for the readings of the clock.
abbrev pub other_calls : List Call → List Call
other_calls [] = []
other_calls (c ∷ calls) = elim c [
  | Call.clock_gettime ↦ other_calls calls
  | other ↦ other ∷ other_calls calls
]

pub record Runtime : Type 0 where
  pub haap : Haap
  pub bonding : Bool
  pub filter_list_acked : Bool
  pub log_level : ℕ
  pub tunnel_interface_mtu : ℕ
  pub tunnel_interface_created : Bool
  pub tunnel_interface_name : List ℕ
  pub gre2tun_thread : ℕ
  pub tun2gre_thread : ℕ
  pub signal : ℕ
  pub event_script_path : List ℕ
  pub reorder_buffer_timeout : Interval
  pub dhcp : Dhcp
  pub dhcp6 : Dhcp6
  pub lte : Lte
  pub dsl : Dsl

-- What the configuration settles once and for all.
pub record Settings : Type 0 where
  pub bonding : Bool
  pub log_level : ℕ
  pub tunnel_interface_mtu : ℕ
  pub tunnel_interface_name : List ℕ
  pub event_script_path : List ℕ
  pub reorder_buffer_timeout : Interval
  pub lte_name : List ℕ
  pub dsl_name : List ℕ
  pub anycast_ip : List ℕ

abbrev pub settings_of : Runtime → Settings
settings_of r = record {
  bonding = r.bonding;
  log_level = r.log_level;
  tunnel_interface_mtu = r.tunnel_interface_mtu;
  tunnel_interface_name = r.tunnel_interface_name;
  event_script_path = r.event_script_path;
  reorder_buffer_timeout = r.reorder_buffer_timeout;
  lte_name = r.lte.interface_name;
  dsl_name = r.dsl.interface_name;
  anycast_ip = r.haap.anycast_ip;
}

-- `runtime`, the global sockets (the tun socket is negative where open failed), and the calls made,
-- the newest first.
pub record State : Type 0 where
  pub runtime : Runtime
  pub sockfd_gre : ℕ
  pub sockfd_tun : Option ℕ
  pub trace : List Call

abbrev pub set_runtime : State → Runtime → State
set_runtime s r = record s { runtime = r }

abbrev pub set_haap : State → Haap → State
set_haap s h = record s { runtime = record s.runtime { haap = h } }

abbrev pub set_lte : State → Lte → State
set_lte s l = record s { runtime = record s.runtime { lte = l } }

abbrev pub set_dsl : State → Dsl → State
set_dsl s d = record s { runtime = record s.runtime { dsl = d } }

abbrev pub set_dhcp : State → Dhcp → State
set_dhcp s d = record s { runtime = record s.runtime { dhcp = d } }

abbrev pub set_dhcp6 : State → Dhcp6 → State
set_dhcp6 s d = record s { runtime = record s.runtime { dhcp6 = d } }

-- The configuration and the signal that waits.
unfoldable pub steady : State → Settings × ℕ
steady s = (settings_of s.runtime, s.runtime.signal)
