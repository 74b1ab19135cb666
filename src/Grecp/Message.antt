-- ===== src/Grecp/Message.antt =====
-- send_grecpmessage of src/grecp.c, and the messages that are built from attributes by
-- src/grecp_request.c, the sender of src/grecp_hello.c and the senders of src/grecp_notify.c.
-- The source address in the control data is the first argument of the call `sendmsg`.
use Prim.Native.Nat.{bit_or}
use open_hybrid.Base.{
  ℕ, ◌*◌, ◌/◌, Bool, true, false, List, [], ◌∷◌, ◌++◌, ◌==◌, ◌!=◌, if◌then◌else◌, bytes_eq,
  replicate,
}
use open_hybrid.Bytes.{htons, htonl, u32}
use open_hybrid.Runtime.{Call, State, set_lte, set_dsl}
use open_hybrid.Os.{Os, called, get_uptime, no_ip6}
use open_hybrid.Grecp.Attribute.{append_grecpattribute}
use open_hybrid.Grecp.{
  grecp_proto, grecp_flagsandversion, grecp_msgtype_request, grecp_msgtype_hello,
  grecp_msgtype_notify, grecp_tuntype_lte, grecp_tuntype_dsl,
  grecp_msgattr_client_identification_name, grecp_msgattr_session_id, grecp_msgattr_timestamp,
  grecp_msgattr_padding, grecp_msgattr_filter_list_package_ack, grecp_msgattr_tunnel_verification,
  grecp_msgattr_dsl_link_failure, grecp_msgattr_lte_link_failure, grecp_msgattr_bypass_traffic_rate,
}

-- The GRE header, the GRECP header and the attributes, as they stand in the buffer.
unfoldable pub grecp_packet : ℕ → ℕ → ℕ → List ℕ → List ℕ
unfolding htons htonl
grecp_packet bonding_key msgtype tuntype attributes =
    htons grecp_flagsandversion
    ++ (htons grecp_proto ++ (htonl bonding_key ++ (bit_or (msgtype * 16) tuntype ∷ attributes)))

-- The address that a message for a tunnel is sent from.
abbrev pub source_ip : ℕ → State → List ℕ
source_ip tuntype s =
    if tuntype == grecp_tuntype_lte then s.runtime.lte.interface_ip else s.runtime.dsl.interface_ip

-- Without a source address nothing is sent.
unfoldable pub send_grecpmessage : Os → ℕ → ℕ → List ℕ → State → Bool × State
send_grecpmessage os msgtype tuntype attributes s =
    if bytes_eq (source_ip tuntype s) no_ip6 then (false, s) else (
      os.sendmsg_sent s.trace,
      called
          (Call.sendmsg (source_ip tuntype s) s.runtime.haap.ip
            (grecp_packet s.runtime.haap.bonding_key msgtype tuntype attributes))
          s,
    )

-- "OpenHybrid" with zeros up to 40 bytes.
abbrev pub client_identification_name : List ℕ
client_identification_name =
    b'O' ∷ b'p' ∷ b'e' ∷ b'n' ∷ b'H' ∷ b'y' ∷ b'b' ∷ b'r' ∷ b'i' ∷ b'd' ∷ replicate 30 0

abbrev pub padding : List ℕ
padding = append_grecpattribute grecp_msgattr_padding 0 []

unfoldable pub request_attributes : ℕ → ℕ → List ℕ
request_attributes tuntype session_id =
    (if tuntype == grecp_tuntype_lte
      then append_grecpattribute grecp_msgattr_client_identification_name 40
          client_identification_name
      else [])
    ++ ((if session_id != 0
          then append_grecpattribute grecp_msgattr_session_id 4 (htonl session_id)
          else [])
        ++ padding)

unfoldable pub send_grecprequest : Os → ℕ → State → Bool × State
send_grecprequest os tuntype s =
    send_grecpmessage os grecp_msgtype_request tuntype
      (request_attributes tuntype s.runtime.haap.session_id) s

-- `timestamp` holds htonl of the seconds and of the milliseconds, one behind the other.
unfoldable pub hello_attributes : ℕ → ℕ → List ℕ
hello_attributes seconds milliseconds =
    append_grecpattribute grecp_msgattr_timestamp 8 (htonl seconds ++ htonl milliseconds) ++ padding

-- The clock is read twice, once for the seconds and once for the milliseconds. last_hello_sent is
-- set whether or not the message was sent.
unfoldable pub send_grecphello : Os → ℕ → State → Bool × State
send_grecphello os tuntype s =
    let (first, s1) = get_uptime os s in
    let (second, s2) = get_uptime os s1 in
    let seconds = u32 first.tv_sec in
    let (res, s3) =
      send_grecpmessage os grecp_msgtype_hello tuntype
        (hello_attributes seconds (u32 (second.tv_usec / 1000))) s2 in
    if tuntype == grecp_tuntype_lte
    then (res, set_lte s3 (record (s3.runtime.lte) { last_hello_sent = seconds }))
    else (res, set_dsl s3 (record (s3.runtime.dsl) { last_hello_sent = seconds }))

unfoldable pub send_grecpnotify_filterlistpackageack : Os → ℕ → State → Bool × State
send_grecpnotify_filterlistpackageack os ackcode s =
    send_grecpmessage os grecp_msgtype_notify grecp_tuntype_lte
      (append_grecpattribute grecp_msgattr_filter_list_package_ack 5
          (htonl s.runtime.haap.commit_count ++ (ackcode ∷ []))
        ++ padding)
      s

unfoldable pub send_grecpnotify_tunnelverify : Os → State → Bool × State
send_grecpnotify_tunnelverify os s =
    send_grecpmessage os grecp_msgtype_notify grecp_tuntype_lte
      (append_grecpattribute grecp_msgattr_tunnel_verification 0 [] ++ padding) s

unfoldable pub send_grecpnotify_linkfailure : Os → ℕ → State → Bool × State
send_grecpnotify_linkfailure os tuntype s =
    send_grecpmessage os grecp_msgtype_notify tuntype
      ((if tuntype == grecp_tuntype_lte
          then append_grecpattribute grecp_msgattr_dsl_link_failure 0 []
          else append_grecpattribute grecp_msgattr_lte_link_failure 0 [])
        ++ padding)
      s

unfoldable pub send_grecpnotify_bypasstraffic : Os → ℕ → State → Bool × State
send_grecpnotify_bypasstraffic os kbit s =
    let (sent, s1) =
      send_grecpmessage os grecp_msgtype_notify grecp_tuntype_dsl
        (append_grecpattribute grecp_msgattr_bypass_traffic_rate 4 (htonl kbit) ++ padding) s in
    if sent
    then (let (now, s2) = get_uptime os s1 in
        (true, set_dsl s2 (record (s2.runtime.dsl) { last_bypass_traffic_sent = now.tv_sec })))
    else (false, s1)
