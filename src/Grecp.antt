-- ===== src/Grecp.antt =====
-- The GRE control protocol of src/grecp.h: the constants, and the modules for the attribute codec
-- and the messages of src/grecp.c.
pub mod Attribute
pub mod Message
pub mod Handlers
pub mod Process
pub mod Table
pub mod Tunnels
pub mod Packets
pub mod Exchange
pub mod Accept
pub mod Overflow
pub mod Answered
pub mod Guard
use open_hybrid.Base.{ℕ}

abbrev pub grecp_proto : ℕ
grecp_proto = 0x0101

abbrev pub grecp_flagsandversion : ℕ
grecp_flagsandversion = 0x2000

abbrev pub grecp_flagsandversion_with_seq : ℕ
grecp_flagsandversion_with_seq = 0x3000

abbrev pub grecp_msgtype_request : ℕ
grecp_msgtype_request = 1

abbrev pub grecp_msgtype_accept : ℕ
grecp_msgtype_accept = 2

abbrev pub grecp_msgtype_deny : ℕ
grecp_msgtype_deny = 3

abbrev pub grecp_msgtype_hello : ℕ
grecp_msgtype_hello = 4

abbrev pub grecp_msgtype_teardown : ℕ
grecp_msgtype_teardown = 5

abbrev pub grecp_msgtype_notify : ℕ
grecp_msgtype_notify = 6

abbrev pub grecp_msgattr_h_ipv4_address : ℕ
grecp_msgattr_h_ipv4_address = 1

abbrev pub grecp_msgattr_h_ipv6_address : ℕ
grecp_msgattr_h_ipv6_address = 2

abbrev pub grecp_msgattr_client_identification_name : ℕ
grecp_msgattr_client_identification_name = 3

abbrev pub grecp_msgattr_session_id : ℕ
grecp_msgattr_session_id = 4

abbrev pub grecp_msgattr_timestamp : ℕ
grecp_msgattr_timestamp = 5

abbrev pub grecp_msgattr_bypass_traffic_rate : ℕ
grecp_msgattr_bypass_traffic_rate = 6

abbrev pub grecp_msgattr_dsl_synchronization_rate : ℕ
grecp_msgattr_dsl_synchronization_rate = 7

abbrev pub grecp_msgattr_filter_list_package : ℕ
grecp_msgattr_filter_list_package = 8

abbrev pub grecp_msgattr_rtt_difference_threshold : ℕ
grecp_msgattr_rtt_difference_threshold = 9

abbrev pub grecp_msgattr_bypass_bandwidth_check_interval : ℕ
grecp_msgattr_bypass_bandwidth_check_interval = 10

abbrev pub grecp_msgattr_switching_to_dsl_tunnel : ℕ
grecp_msgattr_switching_to_dsl_tunnel = 11

abbrev pub grecp_msgattr_overflowing_to_lte_tunnel : ℕ
grecp_msgattr_overflowing_to_lte_tunnel = 12

abbrev pub grecp_msgattr_ipv6_prefix_assigned_by_haap : ℕ
grecp_msgattr_ipv6_prefix_assigned_by_haap = 13

abbrev pub grecp_msgattr_active_hello_interval : ℕ
grecp_msgattr_active_hello_interval = 14

abbrev pub grecp_msgattr_hello_retry_times : ℕ
grecp_msgattr_hello_retry_times = 15

abbrev pub grecp_msgattr_idle_timeout : ℕ
grecp_msgattr_idle_timeout = 16

abbrev pub grecp_msgattr_error_code : ℕ
grecp_msgattr_error_code = 17

abbrev pub grecp_msgattr_dsl_link_failure : ℕ
grecp_msgattr_dsl_link_failure = 18

abbrev pub grecp_msgattr_lte_link_failure : ℕ
grecp_msgattr_lte_link_failure = 19

abbrev pub grecp_msgattr_bonding_key_value : ℕ
grecp_msgattr_bonding_key_value = 20

abbrev pub grecp_msgattr_ipv6_prefix_assigned_to_host : ℕ
grecp_msgattr_ipv6_prefix_assigned_to_host = 21

abbrev pub grecp_msgattr_configured_dsl_upstream_bandwidth : ℕ
grecp_msgattr_configured_dsl_upstream_bandwidth = 22

abbrev pub grecp_msgattr_configured_dsl_downstream_bandwidth : ℕ
grecp_msgattr_configured_dsl_downstream_bandwidth = 23

abbrev pub grecp_msgattr_rtt_difference_threshold_violation : ℕ
grecp_msgattr_rtt_difference_threshold_violation = 24

abbrev pub grecp_msgattr_rtt_difference_threshold_compliance : ℕ
grecp_msgattr_rtt_difference_threshold_compliance = 25

abbrev pub grecp_msgattr_diagnostic_start_bonding_tunnel : ℕ
grecp_msgattr_diagnostic_start_bonding_tunnel = 26

abbrev pub grecp_msgattr_diagnostic_start_dsl_tunnel : ℕ
grecp_msgattr_diagnostic_start_dsl_tunnel = 27

abbrev pub grecp_msgattr_diagnostic_start_lte_tunnel : ℕ
grecp_msgattr_diagnostic_start_lte_tunnel = 28

abbrev pub grecp_msgattr_diagnostic_end : ℕ
grecp_msgattr_diagnostic_end = 29

abbrev pub grecp_msgattr_filter_list_package_ack : ℕ
grecp_msgattr_filter_list_package_ack = 30

abbrev pub grecp_msgattr_idle_hello_interval : ℕ
grecp_msgattr_idle_hello_interval = 31

abbrev pub grecp_msgattr_no_traffic_monitored_interval : ℕ
grecp_msgattr_no_traffic_monitored_interval = 32

abbrev pub grecp_msgattr_switching_to_active_hello_state : ℕ
grecp_msgattr_switching_to_active_hello_state = 33

abbrev pub grecp_msgattr_switching_to_idle_hello_state : ℕ
grecp_msgattr_switching_to_idle_hello_state = 34

abbrev pub grecp_msgattr_tunnel_verification : ℕ
grecp_msgattr_tunnel_verification = 35

abbrev pub grecp_msgattr_padding : ℕ
grecp_msgattr_padding = 255

abbrev pub grecp_tuntype_lte : ℕ
grecp_tuntype_lte = 0

abbrev pub grecp_tuntype_dsl : ℕ
grecp_tuntype_dsl = 8
