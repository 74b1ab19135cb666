-- ===== src/Grecp/Exchange.antt =====
-- Whole control messages through the handlers: a hello message as it was sent, and accept messages
-- with attributes that fit, and that do not fit, the variables that they are copied to.
use open_hybrid.Base.{
  ℕ, ◌+◌, ◌*◌, ◌/◌, ◌%◌, ◌≡◌, inl, inr, refl, ap, ◌∙◌, List, [], ◌∷◌, ◌++◌, Outcome, ok, length,
  ◌==◌, if◌then◌else◌, arith, Bool-cases, All,
}
use open_hybrid.Bytes.{ntohl, IsU32, u32, htonl, load32}
use open_hybrid.Runtime.{Timeval, State, set_lte, set_dsl}
use open_hybrid.Os.{Os, get_uptime, timersub}
use open_hybrid.Grecp.{
  grecp_tuntype_lte, grecp_msgtype_hello, grecp_msgattr_timestamp, grecp_msgattr_padding,
}
use open_hybrid.Grecp.Attribute.{Attr, append_grecpattribute, for_attributes, read_grecpattribute}
use open_hybrid.Grecp.Attribute.RoundTrip.{
  append_attributes, FitsU16, run_attributes, for_attributes-append_attributes,
}
use open_hybrid.Grecp.Message.{grecp_packet, hello_attributes}
use open_hybrid.Grecp.Handlers.{hello_attribute, handle_grecphello}
use open_hybrid.Grecp.Process.{dispatch, process_grecpmessage}
use open_hybrid.Grecp.Packets.{IsTunnel, process-grecp_packet}

module _ {ℓ} {S : Type ℓ} (body : Attr → S → Outcome S) where
  for_attributes_none : (buffer : List ℕ) (s : S) → for_attributes body buffer 0 s ≡ ok s
  unfolding for_attributes read_grecpattribute
  for_attributes_none buffer s = refl

  -- The loop on a message that is nothing but attributes.
  pub for_attributes-message :
      (attrs : List (ℕ × List ℕ)) (rest : List ℕ) (s : S) {s' : S}
      → All FitsU16 attrs
      → run_attributes body attrs rest s ≡ ok s'
      → for_attributes body (append_attributes attrs ++ rest) (length (append_attributes attrs)) s
        ≡ ok s'
  for_attributes-message attrs rest s {s'} h e =
      ap (λ n. for_attributes body (append_attributes attrs ++ rest) n s) (omega arith)
      ∙ for_attributes-append_attributes body attrs rest 0 s h (omega arith)
      ∙ rw e (for_attributes_none rest s')

-- The state after the answer to a hello message that carried this time.
abbrev pub hello_answered : Os → ℕ → ℕ → ℕ → State → State
hello_answered os tuntype seconds milliseconds s =
    let (now, s') = get_uptime os s in
    let sent : Timeval = record { tv_sec = seconds; tv_usec = u32 (milliseconds * 1000) } in
    if tuntype == grecp_tuntype_lte
    then set_lte s' (record (s'.runtime.lte) {
      round_trip_time = timersub now sent;
      last_hello_received = seconds;
      missed_hellos = 0;
    })
    else set_dsl s' (record (s'.runtime.dsl) {
      round_trip_time = timersub now sent;
      last_hello_received = seconds;
      missed_hellos = 0;
    })

abbrev hello_list : ℕ → ℕ → List (ℕ × List ℕ)
hello_list seconds milliseconds =
    (grecp_msgattr_timestamp, htonl seconds ++ htonl milliseconds)
    ∷ (grecp_msgattr_padding, [])
    ∷ []

hello_attributes_list :
    (seconds milliseconds : ℕ)
    → hello_attributes seconds milliseconds ≡ append_attributes (hello_list seconds milliseconds)
unfolding hello_attributes append_attributes append_grecpattribute htonl
hello_attributes_list seconds milliseconds = refl

run-hello :
    (os : Os) (tuntype seconds milliseconds : ℕ) (rest : List ℕ) (s : State)
    → IsU32 seconds
    → IsU32 milliseconds
    → run_attributes (hello_attribute os tuntype) (hello_list seconds milliseconds) rest s
      ≡ ok (hello_answered os tuntype seconds milliseconds s)
unfolding run_attributes hello_attribute load32 htonl
run-hello os tuntype seconds milliseconds rest s u v =
    let e : ntohl (seconds / 16777216 % 256) (seconds / 65536 % 256) (seconds / 256 % 256)
          (seconds % 256)
        ≡ seconds =
      omega arith in
    let f : ntohl (milliseconds / 16777216 % 256) (milliseconds / 65536 % 256)
          (milliseconds / 256 % 256) (milliseconds % 256)
        ≡ milliseconds =
      omega arith in
    elim (Bool-cases (tuntype == grecp_tuntype_lte)) [
      | inl t ↦ rw (t, e, f) refl
      | inr t ↦ rw (t, e, f) refl
    ]

hello_FitsU16 : (seconds milliseconds : ℕ) → All FitsU16 (hello_list seconds milliseconds)
unfolding htonl
hello_FitsU16 seconds milliseconds = (omega arith, (omega arith, tt))

for_attributes-hello :
    (os : Os) (tuntype seconds milliseconds : ℕ) (rest : List ℕ) (s : State)
    → IsU32 seconds
    → IsU32 milliseconds
    → for_attributes
        (hello_attribute os tuntype)
        (hello_attributes seconds milliseconds ++ rest)
        (length (hello_attributes seconds milliseconds))
        s
      ≡ ok (hello_answered os tuntype seconds milliseconds s)
for_attributes-hello os tuntype seconds milliseconds rest s u v =
    rw (hello_attributes_list seconds milliseconds) (
      for_attributes-message (hello_attribute os tuntype) (hello_list seconds milliseconds) rest s
        (hello_FitsU16 seconds milliseconds) (run-hello os tuntype seconds milliseconds rest s u v))

-- A hello message as send_grecphello builds it, when it comes back with the bonding key of the
-- session, is taken as answered: the hello sent at that time was received, none is missed, and the
-- round trip time of the tunnel is the time from then to now. Nothing else changes, whatever stands
-- behind the message in the buffer.
pub process-hello :
    (os : Os) (tuntype seconds milliseconds : ℕ) (rest : List ℕ) (s : State)
    → IsTunnel tuntype
    → IsU32 s.runtime.haap.bonding_key
    → IsU32 seconds
    → IsU32 milliseconds
    → process_grecpmessage os
        (grecp_packet s.runtime.haap.bonding_key grecp_msgtype_hello tuntype
            (hello_attributes seconds milliseconds)
          ++ rest)
        (9 + length (hello_attributes seconds milliseconds))
        s
      ≡ ok (hello_answered os tuntype seconds milliseconds s)
unfolding dispatch handle_grecphello
process-hello os tuntype seconds milliseconds rest s t k u v =
    process-grecp_packet os s.runtime.haap.bonding_key grecp_msgtype_hello tuntype
      (hello_attributes seconds milliseconds) rest s k (omega arith) t (inl refl)
    ∙ for_attributes-hello os tuntype seconds milliseconds rest s u v
