-- ===== src/Tests.antt =====
-- A concrete host, a state of the daemon and reorder buffers, at which the theorems are applied.
mod Control
mod Setup
mod Filters
mod Dumps
mod Whole
mod Data
mod Timing
mod Upload
use open_hybrid.Base.{
  ℕ, ◌+◌, ◌*◌, Bool, true, false, List, [], ◌∷◌, Option, none, some, replicate, length, leb,
  if◌then◌else◌,
}
use open_hybrid.Base.Int.{ℤ, pos}
use open_hybrid.Runtime.{Timeval, Interval, Runtime, State, Call}
use open_hybrid.Os.{Os}

-- Each call takes ten seconds, until the clock stops; all that can succeed does.
abbrev pub clock : List Call → ℕ
clock t = if leb (length t) 50 then 100 + 10 * length t else 600

abbrev pub host : Os
host = record {
  clock_sec = clock;
  clock_nsec = λ t. 5000000;
  if_inet6 = λ t. none;
  sendmsg_sent = λ t. true;
  fork_pid = λ t. some 77;
  pipe_made = λ t. true;
  wait_status = λ t. 0;
  pipe_bytes = λ t. none;
  kill_done = λ t. true;
  netlink_opened = λ t. true;
  netlink_acked = λ t. true;
  tun_fd = λ t. some 5;
  tunsetiff_done = λ t. true;
  socket_fd = λ t. some 6;
  setsockopt_done = λ t. true;
  script_fd = λ t. some 3;
  script_written = λ t. none;
  unlink_done = λ t. true;
  inet_pton = λ x. none;
  inet_pton6 = λ x. none;
  atoi = λ x. pos 0;
  inet_ntop = λ x. replicate 7 48;
  inet_ntop6 = λ x. replicate 39 48;
  thread_id = λ t. 9;
}

abbrev no_time : Interval
no_time = record { tv_sec = pos 0; tv_usec = pos 0 }

-- A tenth of a second.
abbrev pub tenth : Interval
tenth = record { tv_sec = pos 0; tv_usec = pos 100000 }

-- Bonding mode with both tunnels up, a hello outstanding for LTE, and a lease of each kind.
abbrev pub session : State
session = record {
  runtime = record {
    haap = record {
      anycast_ip = replicate 16 1;
      ip = replicate 16 2;
      session_id = 11;
      bonding_key = 22;
      active_hello_interval = 5;
      hello_retry_times = 3;
      commit_count = 0;
      bypass_bandwidth_check_interval = 60;
    };
    bonding = true;
    filter_list_acked = false;
    log_level = 1;
    tunnel_interface_mtu = 1400;
    tunnel_interface_created = true;
    tunnel_interface_name = [];
    gre2tun_thread = 9;
    tun2gre_thread = 9;
    signal = 0;
    event_script_path = [];
    reorder_buffer_timeout = tenth;
    dhcp = record { udhcpc_pid = 0; ip = replicate 4 0; lease_time = 500; lease_obtained = 80 };
    dhcp6 = record {
      udhcpc6_pid = 33;
      prefix_address = replicate 16 0;
      prefix_length = 56;
      lease_time = 10;
      lease_obtained = 80;
    };
    lte = record {
      interface_name = [];
      tunnel_established = true;
      last_hello_sent = 90;
      last_hello_received = 80;
      missed_hellos = 1;
      tunnel_verification_required = false;
      interface_ip = replicate 16 3;
      round_trip_time = no_time;
    };
    dsl = record {
      interface_name = [];
      tunnel_established = true;
      last_hello_sent = 90;
      last_hello_received = 90;
      missed_hellos = 0;
      last_bypass_traffic_sent = 0;
      interface_ip = replicate 16 4;
      round_trip_time = no_time;
    };
  };
  sockfd_gre = 6;
  sockfd_tun = some 5;
  trace = [];
}

-- The same with both tunnels down.
abbrev pub disconnected : State
disconnected = record session {
  runtime = record session.runtime {
    lte = record session.runtime.lte { tunnel_established = false };
    dsl = record session.runtime.dsl { tunnel_established = false };
    dhcp = record session.runtime.dhcp { udhcpc_pid = 0 };
  };
}
