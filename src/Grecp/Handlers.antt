-- ===== src/Grecp/Handlers.antt =====
-- The receivers: handle_grecpaccept, handle_grecpdeny, handle_grecphello, handle_grecpteardown and
-- handle_grecpnotify of src/grecp_*.c. `buffer` is the packet buffer from the attributes on, to its
-- end, and `size` is what the packet fills of it. What is only logged is left out.
use open_hybrid.Base.{ℕ, ◌*◌, true, false, List, Outcome, ok, ◌>>=◌, drop, ◌==◌, if◌then◌else◌}
use open_hybrid.Bytes.{u32, load32, memcpy_u32, memcpy_in6}
use open_hybrid.Runtime.{Timeval, State, set_haap, set_lte, set_dsl, set_runtime}
use open_hybrid.Os.{Os, get_uptime, timersub}
use open_hybrid.Grecp.Attribute.{Attr, for_attributes}
use open_hybrid.Grecp.{
  grecp_tuntype_lte, grecp_msgattr_h_ipv6_address, grecp_msgattr_session_id,
  grecp_msgattr_active_hello_interval, grecp_msgattr_hello_retry_times,
  grecp_msgattr_bonding_key_value, grecp_msgattr_bypass_bandwidth_check_interval,
  grecp_msgattr_timestamp, grecp_msgattr_filter_list_package, grecp_msgattr_tunnel_verification,
}

-- The `switch` of handle_grecpaccept. The two intervals are taken only where none is set.
unfoldable pub accept_attribute : Attr → State → Outcome State
accept_attribute attr s =
    if attr.id == grecp_msgattr_h_ipv6_address
    then (memcpy_in6 haap.ip attr.value attr.length >>= λ x.
        ok (set_haap s (record haap { ip = x })))
    else if attr.id == grecp_msgattr_session_id
    then (memcpy_u32 haap.session_id attr.value attr.length >>= λ x.
        ok (set_haap s (record haap { session_id = x })))
    else if attr.id == grecp_msgattr_active_hello_interval
    then (if haap.active_hello_interval == 0
        then (memcpy_u32 haap.active_hello_interval attr.value attr.length >>= λ x.
            ok (set_haap s (record haap { active_hello_interval = x })))
        else ok s)
    else if attr.id == grecp_msgattr_hello_retry_times
    then (if haap.hello_retry_times == 0
        then (memcpy_u32 haap.hello_retry_times attr.value attr.length >>= λ x.
            ok (set_haap s (record haap { hello_retry_times = x })))
        else ok s)
    else if attr.id == grecp_msgattr_bonding_key_value
    then (memcpy_u32 haap.bonding_key attr.value attr.length >>= λ x.
        ok (set_haap s (record haap { bonding_key = x })))
    else if attr.id == grecp_msgattr_bypass_bandwidth_check_interval
    then (memcpy_u32 haap.bypass_bandwidth_check_interval attr.value attr.length >>= λ x.
        ok (set_haap s (record haap { bypass_bandwidth_check_interval = x })))
    else ok s
  where
    open s.runtime use {haap}

-- The end of handle_grecpaccept: the tunnel is up, and a hello counts as sent and answered now.
unfoldable pub accept_established : Os → ℕ → State → State
accept_established os tuntype s =
    let (now, s') = get_uptime os s in
    if tuntype == grecp_tuntype_lte
    then set_lte s' (record (s'.runtime.lte) {
      tunnel_established = true;
      last_hello_sent = now.tv_sec;
      last_hello_received = now.tv_sec;
    })
    else set_dsl s' (record (s'.runtime.dsl) {
      tunnel_established = true;
      last_hello_sent = now.tv_sec;
      last_hello_received = now.tv_sec;
    })

unfoldable pub handle_grecpaccept : Os → ℕ → List ℕ → ℕ → State → Outcome State
handle_grecpaccept os tuntype buffer size s =
    for_attributes accept_attribute buffer size s >>= λ s'. ok (accept_established os tuntype s')

-- The `switch` of handle_grecpdeny and handle_grecpteardown: `case 17` reads the error code.
unfoldable pub errorcode_attribute : Attr → ℕ → Outcome ℕ
errorcode_attribute attr errorcode = if attr.id == 17 then load32 attr.value else ok errorcode

-- The error code is logged, and nothing else happens; it is returned here.
unfoldable pub handle_grecpdeny : List ℕ → ℕ → State → Outcome (ℕ × State)
handle_grecpdeny buffer size s =
    for_attributes errorcode_attribute buffer size 0 >>= λ errorcode. ok (errorcode, s)

unfoldable pub handle_grecpteardown : List ℕ → ℕ → State → Outcome (ℕ × State)
handle_grecpteardown buffer size s =
    for_attributes errorcode_attribute buffer size 0 >>= λ errorcode. ok (
      errorcode,
      record s {
        runtime = record s.runtime {
          lte = record s.runtime.lte { tunnel_established = false };
          dsl = record s.runtime.dsl { tunnel_established = false };
        };
      },
    )

-- The `switch` of handle_grecphello; the case of the timestamp falls through to the padding's.
unfoldable pub hello_attribute : Os → ℕ → Attr → State → Outcome State
hello_attribute os tuntype attr s =
    if attr.id == grecp_msgattr_timestamp
    then (load32 attr.value >>= λ seconds. load32 (drop 4 attr.value) >>= λ milliseconds.
        let (now, s') = get_uptime os s in
        let sent : Timeval = record { tv_sec = seconds; tv_usec = u32 (milliseconds * 1000) } in
        if tuntype == grecp_tuntype_lte
        then ok (
            set_lte s' (record (s'.runtime.lte) {
              round_trip_time = timersub now sent;
              last_hello_received = seconds;
              missed_hellos = 0;
            }))
        else ok (
            set_dsl s' (record (s'.runtime.dsl) {
              round_trip_time = timersub now sent;
              last_hello_received = seconds;
              missed_hellos = 0;
            })))
    else ok s

unfoldable pub handle_grecphello : Os → ℕ → List ℕ → ℕ → State → Outcome State
handle_grecphello os tuntype buffer size s =
    for_attributes (hello_attribute os tuntype) buffer size s

-- The `switch` of handle_grecpnotify.
unfoldable pub notify_attribute : Attr → State → Outcome State
notify_attribute attr s =
    if attr.id == grecp_msgattr_filter_list_package
    then (load32 attr.value >>= λ x. ok (
        set_runtime s (record s.runtime {
          haap = record s.runtime.haap { commit_count = x };
          filter_list_acked = false;
        })))
    else if attr.id == grecp_msgattr_tunnel_verification
    then ok (set_lte s (record s.runtime.lte { tunnel_verification_required = true }))
    else ok s

unfoldable pub handle_grecpnotify : List ℕ → ℕ → State → Outcome State
handle_grecpnotify buffer size s = for_attributes notify_attribute buffer size s
