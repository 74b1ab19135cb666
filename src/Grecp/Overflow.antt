-- ===== src/Grecp/Overflow.antt =====
-- Accept messages of src/grecp_accept.c with an attribute that does not fit its variable.
use open_hybrid.Base.{
  ℕ, ◌+◌, ◌<◌, ◌≡◌, inr, refl, ◌∙◌, List, [], ◌∷◌, ◌++◌, fault, length, length-append, append_assoc,
  ◌==◌, if◌then◌else◌, arith,
}
use open_hybrid.Bytes.{IsU16, IsU32, memcpy_u32, memcpy_in6}
use open_hybrid.Runtime.{State}
use open_hybrid.Os.{Os}
use open_hybrid.Grecp.{
  grecp_msgtype_accept, grecp_msgattr_h_ipv6_address, grecp_msgattr_session_id,
  grecp_msgattr_bonding_key_value, grecp_msgattr_bypass_bandwidth_check_interval,
}
use open_hybrid.Grecp.Attribute.RoundTrip.{
  attr_at, append_attributes, run_attributes, for_attributes-append_attributes,
}
use open_hybrid.Grecp.Message.{grecp_packet}
use open_hybrid.Grecp.Handlers.{accept_attribute, handle_grecpaccept}
use open_hybrid.Grecp.Process.{dispatch, process_grecpmessage}
use open_hybrid.Grecp.Packets.{IsTunnel, process-grecp_packet}

-- The size of the variable that an attribute of an accept message is copied to.
abbrev pub room : ℕ → ℕ
room id =
    if id == grecp_msgattr_h_ipv6_address
    then 16
    else if id == grecp_msgattr_session_id
    then 4
    else if id == grecp_msgattr_bonding_key_value
    then 4
    else if id == grecp_msgattr_bypass_bandwidth_check_interval
    then 4
    else 65535

-- An accepted attribute that is longer than its variable.
accept_attribute-fault :
    (id : ℕ) (value rest : List ℕ) (s : State)
    → IsU16 (length value)
    → room id < length value
    → accept_attribute (attr_at id value rest) s ≡ fault
unfolding accept_attribute memcpy_u32 memcpy_in6
accept_attribute-fault id value rest s u h = ground arith

run_attributes_fault :
    (id : ℕ) (value rest : List ℕ) (s : State)
    → accept_attribute (attr_at id value rest) s ≡ fault
    → run_attributes accept_attribute ((id, value) ∷ []) rest s ≡ fault
unfolding run_attributes append_attributes
run_attributes_fault id value rest s e = rw e refl

-- An accept message for a tunnel, under any key, whose first attribute is an address of more than
-- 16 bytes, or a session id, a bonding key or a check interval of more than 4: the code copies it
-- over the end of its variable.
pub process-accept_overflow :
    (os : Os) (key tuntype id : ℕ) (value more rest : List ℕ) (s : State)
    → IsU32 key
    → IsTunnel tuntype
    → IsU16 (length value)
    → room id < length value
    → process_grecpmessage os
        (grecp_packet key grecp_msgtype_accept tuntype
            (append_attributes ((id, value) ∷ []) ++ more)
          ++ rest)
        (9 + length (append_attributes ((id, value) ∷ []) ++ more))
        s
      ≡ fault
unfolding dispatch handle_grecpaccept
process-accept_overflow os key tuntype id value more rest s k t u h =
    let bytes = append_attributes ((id, value) ∷ []) in
    process-grecp_packet os key grecp_msgtype_accept tuntype (bytes ++ more) rest s k (omega arith)
      t (inr refl)
    ∙ rw (append_assoc bytes more rest, length-append bytes more)
        (rw
          (for_attributes-append_attributes accept_attribute ((id, value) ∷ []) (more ++ rest)
            (length more) s (u, tt) (omega (arith, length-append more rest)))
          (rw
            (run_attributes_fault id value (more ++ rest) s
              (accept_attribute-fault id value (more ++ rest) s u h))
            refl))
