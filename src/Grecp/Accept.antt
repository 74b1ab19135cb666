-- ===== src/Grecp/Accept.antt =====
-- Accept messages of src/grecp_accept.c whose attributes fit the variables that they are copied to.
use open_hybrid.Base.{
  ℕ, suc, ◌+◌, ◌/◌, ◌%◌, ◌≡◌, inl, inr, refl, sym, ap, ◌∙◌, true, List, [], ◌∷◌, ◌++◌, ok, drop,
  take, length, take-append, drop-append, length-append, append-nil, leb, ◌==◌, if◌then◌else◌,
  arith, Bool-cases, All, Post,
}
use open_hybrid.Bytes.{ntohl, IsU32, htonl, load32, host_bytes, memcpy_u32, memcpy_in6}
use open_hybrid.Runtime.{State, Haap, set_haap}
use open_hybrid.Os.{Os}
use open_hybrid.Grecp.{
  grecp_tuntype_lte, grecp_msgtype_accept, grecp_msgattr_padding, grecp_msgattr_h_ipv6_address,
  grecp_msgattr_session_id, grecp_msgattr_bonding_key_value, grecp_msgattr_active_hello_interval,
  grecp_msgattr_hello_retry_times, grecp_msgattr_bypass_bandwidth_check_interval,
}
use open_hybrid.Grecp.Attribute.RoundTrip.{attr_at, append_attributes, FitsU16, run_attributes}
use open_hybrid.Grecp.Message.{grecp_packet}
use open_hybrid.Grecp.Table.{tunnels, tunnels_after}
use open_hybrid.Grecp.Handlers.{accept_attribute, accept_established, handle_grecpaccept}
use open_hybrid.Grecp.Process.{dispatch, process_grecpmessage}
use open_hybrid.Grecp.Packets.{IsTunnel, process-grecp_packet}
use open_hybrid.Grecp.Exchange.{for_attributes-message}

-- What an accept message can assign to a session.
pub record Grant : Type 0 where
  pub ip : List ℕ
  pub session_id : ℕ
  pub bonding_key : ℕ
  pub active_hello_interval : ℕ
  pub hello_retry_times : ℕ
  pub bypass_bandwidth_check_interval : ℕ

abbrev pub IsGrant : Grant → Type 0
IsGrant g =
    (length g.ip ≡ 16)
    × IsU32 g.session_id
    × IsU32 g.bonding_key
    × IsU32 g.active_hello_interval
    × IsU32 g.hello_retry_times
    × IsU32 g.bypass_bandwidth_check_interval

abbrev pub grant_list : Grant → List (ℕ × List ℕ)
grant_list g =
    (grecp_msgattr_h_ipv6_address, g.ip)
    ∷ (grecp_msgattr_session_id, htonl g.session_id)
    ∷ (grecp_msgattr_active_hello_interval, htonl g.active_hello_interval)
    ∷ (grecp_msgattr_hello_retry_times, htonl g.hello_retry_times)
    ∷ (grecp_msgattr_bonding_key_value, htonl g.bonding_key)
    ∷ (grecp_msgattr_bypass_bandwidth_check_interval, htonl g.bypass_bandwidth_check_interval)
    ∷ (grecp_msgattr_padding, [])
    ∷ []

-- A setting that the configuration made stays.
abbrev pub unless_set : ℕ → ℕ → ℕ
unless_set old new = if old == 0 then new else old

abbrev pub granted : Grant → Haap → Haap
granted g h = record h {
  ip = g.ip;
  session_id = g.session_id;
  bonding_key = g.bonding_key;
  active_hello_interval = unless_set h.active_hello_interval g.active_hello_interval;
  hello_retry_times = unless_set h.hello_retry_times g.hello_retry_times;
  bypass_bandwidth_check_interval = g.bypass_bandwidth_check_interval;
}

memcpy_u32-htonl : (x n : ℕ) (r : List ℕ) → IsU32 n → memcpy_u32 x (htonl n ++ r) 4 ≡ ok n
unfolding memcpy_u32 htonl load32 host_bytes
memcpy_u32-htonl x n r h =
    let e : ntohl (n / 16777216 % 256) (n / 65536 % 256) (n / 256 % 256) (n % 256) ≡ n =
      omega arith in
    let fits : leb 4 (suc (suc (suc (suc (length r))))) ≡ true = ground arith in rw (fits, e) refl

drop-all : (xs : List ℕ) → drop (length xs) xs ≡ []
drop-all xs = ap (drop (length xs)) (sym (append-nil xs)) ∙ drop-append xs []

memcpy_in6-append :
    (ip new r : List ℕ) → length ip ≡ 16 → length new ≡ 16 → memcpy_in6 ip (new ++ r) 16 ≡ ok new
unfolding memcpy_in6
memcpy_in6-append ip new r h k =
    let fits : leb 16 (length (new ++ r)) ≡ true = ground (arith, length-append new r) in
    let taken : take 16 (new ++ r) ≡ new = rw (sym k) (take-append new r) in
    let gone : drop 16 ip ≡ [] = rw (sym h) (drop-all ip) in
    rw (fits, taken, gone) (ap ok (append-nil new))

run_attributes_step :
    (id : ℕ) (value : List ℕ) (attrs : List (ℕ × List ℕ)) (rest : List ℕ) (s : State)
    {s' s'' : State}
    → accept_attribute (attr_at id value (append_attributes attrs ++ rest)) s ≡ ok s'
    → run_attributes accept_attribute attrs rest s' ≡ ok s''
    → run_attributes accept_attribute ((id, value) ∷ attrs) rest s ≡ ok s''
unfolding run_attributes
run_attributes_step id value attrs rest s e f = rw e f

accept_ip :
    (ip rest : List ℕ) (s : State)
    → length ip ≡ 16
    → length s.runtime.haap.ip ≡ 16
    → accept_attribute (attr_at grecp_msgattr_h_ipv6_address ip rest) s
      ≡ ok (set_haap s (record s.runtime.haap { ip = ip }))
unfolding accept_attribute
accept_ip ip rest s h k = rw h (rw (memcpy_in6-append s.runtime.haap.ip ip rest k h) refl)

module _ (n : ℕ) (rest : List ℕ) (s : State) (h : IsU32 n) where
  open s.runtime use {haap}

  accept_session_id :
      accept_attribute (attr_at grecp_msgattr_session_id (htonl n) rest) s
      ≡ ok (set_haap s (record haap { session_id = n }))
  unfolding accept_attribute memcpy_u32 htonl
  accept_session_id = rw (memcpy_u32-htonl haap.session_id n rest h) refl

  accept_active_hello_interval :
      accept_attribute (attr_at grecp_msgattr_active_hello_interval (htonl n) rest) s
      ≡ ok (
          set_haap s
            (record haap { active_hello_interval = unless_set haap.active_hello_interval n }))
  unfolding accept_attribute memcpy_u32 htonl
  accept_active_hello_interval = elim (Bool-cases (haap.active_hello_interval == 0)) [
    | inl e ↦ rw e (rw (memcpy_u32-htonl haap.active_hello_interval n rest h) refl)
    | inr e ↦ rw e refl
  ]

  accept_hello_retry_times :
      accept_attribute (attr_at grecp_msgattr_hello_retry_times (htonl n) rest) s
      ≡ ok (set_haap s (record haap { hello_retry_times = unless_set haap.hello_retry_times n }))
  unfolding accept_attribute memcpy_u32 htonl
  accept_hello_retry_times = elim (Bool-cases (haap.hello_retry_times == 0)) [
    | inl e ↦ rw e (rw (memcpy_u32-htonl haap.hello_retry_times n rest h) refl)
    | inr e ↦ rw e refl
  ]

  accept_bonding_key :
      accept_attribute (attr_at grecp_msgattr_bonding_key_value (htonl n) rest) s
      ≡ ok (set_haap s (record haap { bonding_key = n }))
  unfolding accept_attribute memcpy_u32 htonl
  accept_bonding_key = rw (memcpy_u32-htonl haap.bonding_key n rest h) refl

  accept_bypass_interval :
      accept_attribute (attr_at grecp_msgattr_bypass_bandwidth_check_interval (htonl n) rest) s
      ≡ ok (set_haap s (record haap { bypass_bandwidth_check_interval = n }))
  unfolding accept_attribute memcpy_u32 htonl
  accept_bypass_interval = rw (memcpy_u32-htonl haap.bypass_bandwidth_check_interval n rest h) refl

accept_padding :
    (rest : List ℕ) (s : State) → accept_attribute (attr_at grecp_msgattr_padding [] rest) s ≡ ok s
unfolding accept_attribute
accept_padding rest s = refl

run_attributes_end : (rest : List ℕ) (s : State) → run_attributes accept_attribute [] rest s ≡ ok s
unfolding run_attributes
run_attributes_end rest s = refl

run-grant :
    (g : Grant) (rest : List ℕ) (s : State)
    → IsGrant g
    → length s.runtime.haap.ip ≡ 16
    → run_attributes accept_attribute (grant_list g) rest s
      ≡ ok (set_haap s (granted g s.runtime.haap))
run-grant g rest s (i, a, b, c, d, e) h =
    run_attributes_step _ _ _ rest _ (accept_ip g.ip _ s i h) (
      run_attributes_step _ _ _ rest _ (accept_session_id g.session_id _ _ a) (
        run_attributes_step _ _ _ rest _
          (accept_active_hello_interval g.active_hello_interval _ _ c)
          (run_attributes_step _ _ _ rest _ (accept_hello_retry_times g.hello_retry_times _ _ d) (
            run_attributes_step _ _ _ rest _ (accept_bonding_key g.bonding_key _ _ b) (
              run_attributes_step _ _ _ rest _
                (accept_bypass_interval g.bypass_bandwidth_check_interval _ _ e)
                (run_attributes_step _ _ _ rest _ (accept_padding _ _)
                  (run_attributes_end _ _)))))))

grant_FitsU16 : (g : Grant) → IsGrant g → All FitsU16 (grant_list g)
unfolding htonl
grant_FitsU16 g (i, a, b, c, d, e) = (
  omega arith,
  (omega arith, (omega arith, (omega arith, (omega arith, (omega arith, (omega arith, tt)))))),
)

process-accept_grant :
    (os : Os) (key tuntype : ℕ) (g : Grant) (rest : List ℕ) (s : State)
    → IsU32 key
    → IsTunnel tuntype
    → IsGrant g
    → length s.runtime.haap.ip ≡ 16
    → process_grecpmessage os
        (grecp_packet key grecp_msgtype_accept tuntype (append_attributes (grant_list g)) ++ rest)
        (9 + length (append_attributes (grant_list g)))
        s
      ≡ ok (accept_established os tuntype (set_haap s (granted g s.runtime.haap)))
unfolding dispatch handle_grecpaccept
process-accept_grant os key tuntype g rest s k t i h =
    process-grecp_packet os key grecp_msgtype_accept tuntype (append_attributes (grant_list g)) rest
      s k (omega arith) t (inr refl)
    ∙ rw
        (for_attributes-message accept_attribute (grant_list g) rest s (grant_FitsU16 g i)
          (run-grant g rest s i h))
        refl

-- When the last hello of a tunnel was sent, and when it was answered.
abbrev pub hello_times : ℕ → State → ℕ × ℕ
hello_times tuntype s =
    if tuntype == grecp_tuntype_lte
    then (s.runtime.lte.last_hello_sent, s.runtime.lte.last_hello_received)
    else (s.runtime.dsl.last_hello_sent, s.runtime.dsl.last_hello_received)

accept_established-tunnels :
    (os : Os) (tuntype : ℕ) (s : State)
    → IsTunnel tuntype
    → tunnels (accept_established os tuntype s)
      ≡ tunnels_after grecp_msgtype_accept tuntype (tunnels s)
unfolding accept_established
accept_established-tunnels os tuntype s t = ground arith

accept_established-hello_times :
    (os : Os) (tuntype : ℕ) (s : State)
    → hello_times tuntype (accept_established os tuntype s)
      ≡ (os.clock_sec s.trace, os.clock_sec s.trace)
unfolding accept_established
accept_established-hello_times os tuntype s = elim (Bool-cases (tuntype == grecp_tuntype_lte)) [
  | inl e ↦ simp e refl
  | inr e ↦ simp e refl
]

accept_established-haap :
    (os : Os) (tuntype : ℕ) (s : State)
    → (accept_established os tuntype s).runtime.haap ≡ s.runtime.haap
unfolding accept_established
accept_established-haap os tuntype s = elim (Bool-cases (tuntype == grecp_tuntype_lte)) [
  | inl e ↦ simp e refl
  | inr e ↦ simp e refl
]

-- An accept message for a tunnel, under any key, with the seven attributes of a session, each as
-- long as the variable that it is for: handling it ends without an access to memory that C leaves
-- undefined. The session takes all of them, except that an interval or a retry count that is already
-- set stays. That tunnel is up after it, and the other one as before; and the last hello of the tunnel
-- counts as sent and as answered now.
pub process-accept :
    (os : Os) (key tuntype : ℕ) (g : Grant) (rest : List ℕ) (s : State)
    → IsU32 key
    → IsTunnel tuntype
    → IsGrant g
    → length s.runtime.haap.ip ≡ 16
    → Post ⊥
        (λ t.
          (t.runtime.haap ≡ granted g s.runtime.haap)
          × (tunnels t ≡ tunnels_after grecp_msgtype_accept tuntype (tunnels s))
          × (hello_times tuntype t ≡ (os.clock_sec s.trace, os.clock_sec s.trace)))
        (process_grecpmessage os
          (grecp_packet key grecp_msgtype_accept tuntype (append_attributes (grant_list g)) ++ rest)
          (9 + length (append_attributes (grant_list g)))
          s)
process-accept os key tuntype g rest s k t i h =
    let taken = set_haap s (granted g s.runtime.haap) in
    rw (process-accept_grant os key tuntype g rest s k t i h) (
      accept_established-haap os tuntype taken,
      accept_established-tunnels os tuntype taken t,
      accept_established-hello_times os tuntype taken,
    )
