-- ===== src/Grecp/Process.antt =====
-- process_grecpmessage of src/grecp.c, and the reception in the main loop of src/openhybrid.c.
use open_hybrid.Base.{
  ℕ, ◌-◌, ◌/◌, ◌%◌, ◌&&◌, List, ◌++◌, Outcome, ok, ◌>>=◌, drop, length, ◌==◌, ◌!=◌, if◌then◌else◌,
  bytes_eq,
}
use open_hybrid.Bytes.{load16, load32}
use open_hybrid.Grecp.Attribute.{load8}
use open_hybrid.Runtime.{State}
use open_hybrid.Os.{Os}
use open_hybrid.Grecp.{
  grecp_flagsandversion, grecp_tuntype_lte, grecp_tuntype_dsl, grecp_msgtype_accept,
  grecp_msgtype_deny, grecp_msgtype_hello, grecp_msgtype_teardown, grecp_msgtype_notify,
}
use open_hybrid.Grecp.Handlers.{
  handle_grecpaccept, handle_grecpdeny, handle_grecphello, handle_grecpteardown, handle_grecpnotify,
}

-- The `switch` on the message type, on the attributes behind the two headers. A packet shorter than
-- the headers leaves a negative size, which is 0 here.
unfoldable pub dispatch : Os → ℕ → ℕ → List ℕ → ℕ → State → Outcome State
dispatch os msgtype tuntype buffer size s =
    if msgtype == grecp_msgtype_accept
    then handle_grecpaccept os tuntype buffer size s
    else if msgtype == grecp_msgtype_deny
    then (handle_grecpdeny buffer size s >>= λ (_, s'). ok s')
    else if msgtype == grecp_msgtype_hello
    then handle_grecphello os tuntype buffer size s
    else if msgtype == grecp_msgtype_teardown
    then (handle_grecpteardown buffer size s >>= λ (_, s'). ok s')
    else if msgtype == grecp_msgtype_notify
    then handle_grecpnotify buffer size s
    else ok s

-- `x >> 4` and `x & ~0xf0` on the byte msgtype_and_tuntype.
unfoldable pub process_grecpmessage : Os → List ℕ → ℕ → State → Outcome State
unfolding load8
process_grecpmessage os buffer size s = load16 buffer >>= λ flags_and_version.
    if flags_and_version != grecp_flagsandversion
    then ok s
    else (load32 (drop 4 buffer) >>= λ key. load8 (drop 8 buffer) >>= λ byte.
        if (key != s.runtime.haap.bonding_key) && (byte / 16 != grecp_msgtype_accept)
        then ok s
        else if (byte % 16 != grecp_tuntype_lte) && (byte % 16 != grecp_tuntype_dsl)
        then ok s
        else dispatch os (byte / 16) (byte % 16) (drop 9 buffer) (size - 8 - 1) s)

-- What recvfrom on the control socket comes to: an error, or a packet with its sender.
pub data Received : Type 0 where
  nothing : Received
  packet : List ℕ → List ℕ → Received

-- recvfrom fills the front of the buffer; what it held behind that stays.
unfoldable pub fill : List ℕ → List ℕ → List ℕ
fill bytes buffer = bytes ++ drop (length bytes) buffer

-- One reception of the main loop: the buffer and the state after it.
unfoldable pub receive : Os → Received → List ℕ → State → Outcome (List ℕ × State)
unfolding fill
receive os Received.nothing buffer s = ok (buffer, s)
receive os (Received.packet sender bytes) buffer s =
    if bytes_eq sender s.runtime.haap.ip
    then (process_grecpmessage os (fill bytes buffer) (length bytes) s >>= λ s'.
        ok (fill bytes buffer, s'))
    else ok (fill bytes buffer, s)
