-- ===== src/Tests/Control.antt =====
-- The theorems on the control messages, at the concrete host and state.
use open_hybrid.Base.{
  true, false, ℕ, ◌+◌, ◌≡◌, refl, inl, inr, List, [], ◌∷◌, ◌++◌, ok, fault, ◌>>=◌, Post, length,
  replicate, bytes_eq, arith,
}
use open_hybrid.Bytes.{htonl}
use open_hybrid.Runtime.{Call}
use open_hybrid.Grecp.{
  grecp_tuntype_lte, grecp_tuntype_dsl, grecp_msgtype_hello, grecp_msgtype_accept,
  grecp_msgtype_teardown, grecp_msgtype_notify,
}
use open_hybrid.Grecp.Attribute.{for_attributes}
use open_hybrid.Grecp.Attribute.RoundTrip.{
  append_attributes, run_attributes, for_attributes-append_attributes,
}
use open_hybrid.Grecp.Message.{grecp_packet, source_ip, hello_attributes, send_grecphello}
use open_hybrid.Grecp.Handlers.{notify_attribute}
use open_hybrid.Grecp.Process.{dispatch, process_grecpmessage}
use open_hybrid.Grecp.Table.{tunnels, tunnels_after, Keeps}
use open_hybrid.Grecp.Tunnels.{dispatch-tunnels}
use open_hybrid.Grecp.Packets.{process-grecp_packet}
use open_hybrid.Grecp.Exchange.{hello_answered, process-hello}
use open_hybrid.Grecp.Accept.{Grant, grant_list, granted, hello_times, process-accept}
use open_hybrid.Grecp.Overflow.{process-accept_overflow}
use open_hybrid.Grecp.Answered.{
  hello_packet, last_hello_sent, last_hello_received, missed_hellos, send-process_hello,
}
use open_hybrid.Grecp.Process.{packet, fill, receive}
use open_hybrid.Grecp.Guard.{IsAdmitted, IsReceivedAs, receive-IsGuarded}
use open_hybrid.Tests.{host, session, disconnected}

-- Three bytes: an attribute 255 of no length.
abbrev padded : List ℕ
padded = 255 ∷ 0 ∷ 0 ∷ []

dispatch-tunnels_example :
    Post Unit
      (λ s'.
        (tunnels s' ≡ tunnels_after grecp_msgtype_teardown grecp_tuntype_lte (tunnels session))
        × Keeps session s')
      (dispatch host grecp_msgtype_teardown grecp_tuntype_lte padded 3 session)
dispatch-tunnels_example =
    dispatch-tunnels padded 3 (omega arith) session host grecp_tuntype_lte grecp_msgtype_teardown

send-process_hello_example :
    let t = (send_grecphello host grecp_tuntype_dsl session).1 in
    (t.trace
      ≡ Call.sendmsg
          (source_ip grecp_tuntype_dsl session)
          session.runtime.haap.ip
          (hello_packet host grecp_tuntype_dsl session)
        ∷ Call.clock_gettime
        ∷ Call.clock_gettime
        ∷ session.trace)
    × Post ⊥
        (λ r.
          (last_hello_received grecp_tuntype_dsl r ≡ last_hello_sent grecp_tuntype_dsl r)
          × (last_hello_sent grecp_tuntype_dsl r ≡ last_hello_sent grecp_tuntype_dsl t)
          × (missed_hellos grecp_tuntype_dsl r ≡ 0))
        (process_grecpmessage host
          (hello_packet host grecp_tuntype_dsl session ++ padded)
          (length (hello_packet host grecp_tuntype_dsl session))
          t)
unfolding bytes_eq
send-process_hello_example =
    send-process_hello host grecp_tuntype_dsl padded session (inr refl) (omega arith) refl

abbrev grant : Grant
grant = record {
  ip = replicate 16 7;
  session_id = 1;
  bonding_key = 2;
  active_hello_interval = 3;
  hello_retry_times = 4;
  bypass_bandwidth_check_interval = 5;
}

process-accept_example :
    Post ⊥
      (λ t.
        (t.runtime.haap ≡ granted grant disconnected.runtime.haap)
        × (tunnels t ≡ (true, false))
        × (hello_times grecp_tuntype_lte t ≡ (100, 100)))
      (process_grecpmessage host
        (grecp_packet 9 grecp_msgtype_accept grecp_tuntype_lte
            (append_attributes (grant_list grant))
          ++ padded)
        (9 + length (append_attributes (grant_list grant)))
        disconnected)
process-accept_example =
    process-accept host 9 grecp_tuntype_lte grant padded disconnected (omega arith) (inl refl)
      (refl, omega arith, omega arith, omega arith, omega arith, omega arith) refl

process-accept_overflow_example :
    process_grecpmessage host
      (grecp_packet 9 grecp_msgtype_accept grecp_tuntype_lte
          (append_attributes ((4, replicate 5 1) ∷ []) ++ padded)
        ++ [])
      (9 + length (append_attributes ((4, replicate 5 1) ∷ []) ++ padded))
      session
    ≡ fault
process-accept_overflow_example =
    process-accept_overflow host 9 grecp_tuntype_lte 4 (replicate 5 1) padded [] session
      (omega arith) (inl refl) (omega arith) (omega arith)

abbrev notices : List (ℕ × List ℕ)
notices = (22, []) ∷ (11, htonl 6) ∷ []

for_attributes-append_attributes_example :
    for_attributes notify_attribute
      (append_attributes notices ++ padded)
      (length (append_attributes notices) + 3)
      session
    ≡ (run_attributes notify_attribute notices padded session >>= λ s'.
        for_attributes notify_attribute padded 3 s')
unfolding htonl
for_attributes-append_attributes_example =
    for_attributes-append_attributes notify_attribute notices padded 3 session
      (omega arith, (omega arith, tt)) (omega arith)

process-grecp_packet_example :
    process_grecpmessage host
      (grecp_packet 22 grecp_msgtype_notify grecp_tuntype_dsl padded ++ [])
      (9 + length padded)
      session
    ≡ dispatch host grecp_msgtype_notify grecp_tuntype_dsl (padded ++ []) (length padded) session
process-grecp_packet_example =
    process-grecp_packet host 22 grecp_msgtype_notify grecp_tuntype_dsl padded [] session
      (omega arith) (omega arith) (inr refl) (inl refl)

process-hello_example :
    process_grecpmessage host
      (grecp_packet session.runtime.haap.bonding_key grecp_msgtype_hello grecp_tuntype_lte
          (hello_attributes 90 250)
        ++ padded)
      (9 + length (hello_attributes 90 250))
      session
    ≡ ok (hello_answered host grecp_tuntype_lte 90 250 session)
process-hello_example =
    process-hello host grecp_tuntype_lte 90 250 padded session (inl refl) (omega arith)
      (omega arith) (omega arith)

receive-IsGuarded_example :
    Post
      ((bytes_eq (replicate 16 2) session.runtime.haap.ip ≡ true)
        × IsAdmitted (fill padded (replicate 20 0)) session)
      (IsReceivedAs (replicate 16 2) padded (replicate 20 0) session)
      (receive host (packet (replicate 16 2) padded) (replicate 20 0) session)
receive-IsGuarded_example =
    receive-IsGuarded host (replicate 16 2) padded (replicate 20 0) session (omega arith)
