-- ===== src/Sections/Messages.antt =====
-- The control messages that src/grecp.c and src/grecp_*.c send: what they are, how long, and what
-- sending them keeps.
use open_hybrid.Base.{
  ℕ, ◌+◌, ◌/◌, ◌≤◌, ◌≡◌, refl, false, List, ◌++◌, length, length-append, length-take, inl, inr,
  Bool-cases, ◌==◌, ◌!=◌, arith, bytes_eq, bytes_eq_refl,
}
use open_hybrid.Bytes.{htons, htonl, u32}
use open_hybrid.Runtime.{Call, State}
use open_hybrid.Os.{Os, get_uptime, no_ip6}
use open_hybrid.Grecp.{
  grecp_msgtype_hello, grecp_msgtype_notify, grecp_tuntype_lte, grecp_tuntype_dsl,
  grecp_msgattr_bypass_traffic_rate, grecp_msgattr_timestamp,
}
use open_hybrid.Grecp.Attribute.{append_grecpattribute}
use open_hybrid.Grecp.Message.{
  grecp_packet, source_ip, padding, request_attributes, hello_attributes, send_grecpmessage,
  send_grecprequest, send_grecphello, send_grecpnotify_filterlistpackageack,
  send_grecpnotify_tunnelverify, send_grecpnotify_linkfailure, send_grecpnotify_bypasstraffic,
}
use open_hybrid.Calls.{IsControl}
use open_hybrid.Sections.{IsClosed, IsClosedHello}

length-append_grecpattribute :
    (id len : ℕ) (value : List ℕ) → length (append_grecpattribute id len value) ≤ 3 + len
unfolding append_grecpattribute htons
length-append_grecpattribute id len value = omega (arith, length-take len value)

length-padding : length padding ≡ 3
unfolding append_grecpattribute htons
length-padding = refl

-- One attribute and the padding.
length-padded :
    (id len : ℕ) (value : List ℕ) → length (append_grecpattribute id len value ++ padding) ≤ 6 + len
length-padded id len value = omega (
  arith,
  length-append (append_grecpattribute id len value) padding,
  length-padding,
  length-append_grecpattribute id len value,
)

length-request_attributes :
    (tuntype session_id : ℕ) → length (request_attributes tuntype session_id) ≤ 53
unfolding request_attributes append_grecpattribute htons htonl
length-request_attributes tuntype session_id = elim (Bool-cases (tuntype == grecp_tuntype_lte)) [
  | inl e ↦ elim (Bool-cases (session_id != 0)) [
    | inl d ↦ simp (e, d) (omega arith)
    | inr d ↦ simp (e, d) (omega arith)
  ]
  | inr e ↦ elim (Bool-cases (session_id != 0)) [
    | inl d ↦ simp (e, d) (omega arith)
    | inr d ↦ simp (e, d) (omega arith)
  ]
]

length-hello_attributes :
    (seconds milliseconds : ℕ) → length (hello_attributes seconds milliseconds) ≤ 53
unfolding hello_attributes
length-hello_attributes seconds milliseconds =
    omega (arith, length-padded grecp_msgattr_timestamp 8 (htonl seconds ++ htonl milliseconds))

-- Attributes of up to 53 bytes make a control message.
grecp_packet-IsControl :
    (source : List ℕ) (key msgtype tuntype : ℕ) (attributes : List ℕ)
    → bytes_eq source no_ip6 ≡ false
    → length attributes ≤ 53
    → IsControl source (grecp_packet key msgtype tuntype attributes)
unfolding grecp_packet htons htonl
grecp_packet-IsControl source key msgtype tuntype attributes e h =
    (λ same. cc (bytes_eq_refl no_ip6, same), refl, omega arith)

module _ (os : Os) (P : State → Type 0) (closed : IsClosed os P) where
  pub send_grecpmessage-keeps :
      (msgtype tuntype : ℕ) (attributes : List ℕ) (s : State)
      → length attributes ≤ 53
      → P s
      → P (send_grecpmessage os msgtype tuntype attributes s).1
  unfolding send_grecpmessage
  send_grecpmessage-keeps msgtype tuntype attributes s short h =
      elim (Bool-cases (bytes_eq (source_ip tuntype s) no_ip6)) [
        | inl e ↦ simp e h
        | inr e ↦ simp e (
            closed.call
              (Call.sendmsg (source_ip tuntype s) s.runtime.haap.ip
                (grecp_packet s.runtime.haap.bonding_key msgtype tuntype attributes))
              s
              (grecp_packet-IsControl (source_ip tuntype s) s.runtime.haap.bonding_key msgtype
                tuntype attributes e short)
              h)
      ]

  pub send_grecprequest-keeps :
      (tuntype : ℕ) (s : State) → P s → P (send_grecprequest os tuntype s).1
  unfolding send_grecprequest
  send_grecprequest-keeps tuntype s =
      send_grecpmessage-keeps _ tuntype (request_attributes tuntype s.runtime.haap.session_id) s
        (length-request_attributes tuntype s.runtime.haap.session_id)

  -- A hello message, with what sets the time of the tunnel's last one.
  pub hello_sent-keeps :
      (tuntype : ℕ) (s : State)
      → P s
      → let (first, s1) = get_uptime os s in
        let (second, s2) = get_uptime os s1 in
        P
          (send_grecpmessage os grecp_msgtype_hello tuntype
            (hello_attributes (u32 first.tv_sec) (u32 (second.tv_usec / 1000)))
            s2).1
  hello_sent-keeps tuntype s h =
      let (first, s1) = get_uptime os s in
      let (second, s2) = get_uptime os s1 in
      let seconds = u32 first.tv_sec in
      let milliseconds = u32 (second.tv_usec / 1000) in
      send_grecpmessage-keeps grecp_msgtype_hello tuntype (hello_attributes seconds milliseconds) s2
        (length-hello_attributes seconds milliseconds)
        (closed.call Call.clock_gettime s1 tt (closed.call Call.clock_gettime s tt h))

  pub hello_dsl_sent-keeps : (s : State) → P s → P (send_grecphello os grecp_tuntype_dsl s).1
  unfolding send_grecphello
  hello_dsl_sent-keeps s h = closed.dsl_sent _ _ (hello_sent-keeps grecp_tuntype_dsl s h)

  pub hello_lte_sent-keeps :
      (s : State) → IsClosedHello P → P s → P (send_grecphello os grecp_tuntype_lte s).1
  unfolding send_grecphello
  hello_lte_sent-keeps s lte h = lte.sent _ _ (hello_sent-keeps grecp_tuntype_lte s h)

  pub filterlistpackageack-keeps :
      (ackcode : ℕ) (s : State) → P s → P (send_grecpnotify_filterlistpackageack os ackcode s).1
  unfolding send_grecpnotify_filterlistpackageack
  filterlistpackageack-keeps ackcode s =
      send_grecpmessage-keeps _ _ _ s (omega (arith, length-padded _ 5 _))

  pub tunnelverify-keeps : (s : State) → P s → P (send_grecpnotify_tunnelverify os s).1
  unfolding send_grecpnotify_tunnelverify
  tunnelverify-keeps s = send_grecpmessage-keeps _ _ _ s (omega (arith, length-padded _ 0 _))

  pub linkfailure-keeps :
      (tuntype : ℕ) (s : State) → P s → P (send_grecpnotify_linkfailure os tuntype s).1
  unfolding send_grecpnotify_linkfailure
  linkfailure-keeps tuntype s h = elim (Bool-cases (tuntype == grecp_tuntype_lte)) [
    | inl e ↦ simp e (send_grecpmessage-keeps _ _ _ s (omega (arith, length-padded _ 0 _)) h)
    | inr e ↦ simp e (send_grecpmessage-keeps _ _ _ s (omega (arith, length-padded _ 0 _)) h)
  ]

  pub bypasstraffic-keeps :
      (kbit : ℕ) (s : State) → P s → P (send_grecpnotify_bypasstraffic os kbit s).1
  unfolding send_grecpnotify_bypasstraffic
  bypasstraffic-keeps kbit s h =
      let attributes =
        append_grecpattribute grecp_msgattr_bypass_traffic_rate 4 (htonl kbit) ++ padding in
      let r = send_grecpmessage os grecp_msgtype_notify grecp_tuntype_dsl attributes s in
      let sent =
        send_grecpmessage-keeps grecp_msgtype_notify grecp_tuntype_dsl attributes s
          (omega (arith, length-padded grecp_msgattr_bypass_traffic_rate 4 (htonl kbit))) h in
      elim (Bool-cases r.0) [
        | inl e ↦ simp e (closed.bypass _ _ (closed.call Call.clock_gettime (r.1) tt sent))
        | inr e ↦ simp e sent
      ]
