-- ===== src/Grecp/Answered.antt =====
-- A hello message sent by send_grecphello (src/grecp_hello.c) that comes back to
-- process_grecpmessage (src/grecp.c).
use open_hybrid.Base.{
  ℕ, ◌+◌, ◌/◌, ◌≡◌, inl, inr, refl, ◌∙◌, false, List, ◌∷◌, ◌++◌, ok, length, arith, Bool-cases,
  Post, sym, ap, bytes_eq, ◌==◌, if◌then◌else◌,
}
use mathlib.Core.Path.{subst}
use open_hybrid.Bytes.{u32, IsU32, htons, htonl}
use open_hybrid.Runtime.{Call, State}
use open_hybrid.Os.{Os, no_ip6}
use open_hybrid.Grecp.{grecp_tuntype_lte, grecp_tuntype_dsl, grecp_msgtype_hello}
use open_hybrid.Grecp.Message.{
  grecp_packet, source_ip, hello_attributes, send_grecphello, send_grecpmessage,
}
use open_hybrid.Grecp.Process.{process_grecpmessage}
use open_hybrid.Grecp.Packets.{IsTunnel}
use open_hybrid.Grecp.Exchange.{hello_answered, process-hello}

-- The seconds and the milliseconds that the two readings of the clock put into the message.
abbrev pub hello_seconds : Os → State → ℕ
hello_seconds os s = u32 (os.clock_sec s.trace)

abbrev pub hello_milliseconds : Os → State → ℕ
hello_milliseconds os s = u32 (os.clock_nsec (Call.clock_gettime ∷ s.trace) / 1000 / 1000)

abbrev pub hello_packet : Os → ℕ → State → List ℕ
hello_packet os tuntype s =
    grecp_packet s.runtime.haap.bonding_key grecp_msgtype_hello tuntype
      (hello_attributes (hello_seconds os s) (hello_milliseconds os s))

abbrev pub last_hello_sent : ℕ → State → ℕ
last_hello_sent tuntype s =
    if tuntype == grecp_tuntype_lte
    then s.runtime.lte.last_hello_sent
    else s.runtime.dsl.last_hello_sent

abbrev pub last_hello_received : ℕ → State → ℕ
last_hello_received tuntype s =
    if tuntype == grecp_tuntype_lte
    then s.runtime.lte.last_hello_received
    else s.runtime.dsl.last_hello_received

abbrev pub missed_hellos : ℕ → State → ℕ
missed_hellos tuntype s =
    if tuntype == grecp_tuntype_lte
    then s.runtime.lte.missed_hellos
    else s.runtime.dsl.missed_hellos

-- The packet goes to the concentrator, and its time is kept.
abbrev pub IsSent : Os → State → ℕ → Type 0
IsSent os s tuntype =
    let t = (send_grecphello os tuntype s).1 in
    (t.trace
      ≡ Call.sendmsg (source_ip tuntype s) s.runtime.haap.ip (hello_packet os tuntype s)
        ∷ Call.clock_gettime
        ∷ Call.clock_gettime
        ∷ s.trace)
    × (last_hello_sent tuntype t ≡ hello_seconds os s)
    × (t.runtime.haap ≡ s.runtime.haap)

lte-IsSent :
    (os : Os) (s : State)
    → bytes_eq s.runtime.lte.interface_ip no_ip6 ≡ false
    → IsSent os s grecp_tuntype_lte
unfolding send_grecphello send_grecpmessage
lte-IsSent os s b = simp b (refl, refl, refl)

dsl-IsSent :
    (os : Os) (s : State)
    → bytes_eq s.runtime.dsl.interface_ip no_ip6 ≡ false
    → IsSent os s grecp_tuntype_dsl
unfolding send_grecphello send_grecpmessage
dsl-IsSent os s b = simp b (refl, refl, refl)

source-IsSent :
    (os : Os) (tuntype : ℕ) (s : State)
    → IsTunnel tuntype
    → bytes_eq (source_ip tuntype s) no_ip6 ≡ false
    → IsSent os s tuntype
source-IsSent os tuntype s (inl e) =
    subst (λ x. bytes_eq (source_ip x s) no_ip6 ≡ false → IsSent os s x) (sym e) (lte-IsSent os s)
source-IsSent os tuntype s (inr e) =
    subst (λ x. bytes_eq (source_ip x s) no_ip6 ≡ false → IsSent os s x) (sym e) (dsl-IsSent os s)

answered :
    (os : Os) (tuntype seconds milliseconds : ℕ) (s : State)
    → (last_hello_received tuntype (hello_answered os tuntype seconds milliseconds s) ≡ seconds)
      × (missed_hellos tuntype (hello_answered os tuntype seconds milliseconds s) ≡ 0)
      × (last_hello_sent tuntype (hello_answered os tuntype seconds milliseconds s)
          ≡ last_hello_sent tuntype s)
answered os tuntype seconds milliseconds s = elim (Bool-cases (tuntype == grecp_tuntype_lte)) [
  | inl e ↦ simp e (refl, refl, refl)
  | inr e ↦ simp e (refl, refl, refl)
]

length-grecp_packet :
    (key msgtype tuntype : ℕ) (attributes : List ℕ)
    → length (grecp_packet key msgtype tuntype attributes) ≡ 9 + length attributes
unfolding grecp_packet htons htonl
length-grecp_packet key msgtype tuntype attributes = omega arith

process-hello_packet :
    (os : Os) (tuntype seconds milliseconds key : ℕ) (rest : List ℕ) (s : State)
    → IsTunnel tuntype
    → IsU32 key
    → IsU32 seconds
    → IsU32 milliseconds
    → s.runtime.haap.bonding_key ≡ key
    → let packet =
        grecp_packet key grecp_msgtype_hello tuntype (hello_attributes seconds milliseconds) in
      process_grecpmessage os (packet ++ rest) (length packet) s
      ≡ ok (hello_answered os tuntype seconds milliseconds s)
process-hello_packet os tuntype seconds milliseconds key rest s k u v w e =
    let attrs = hello_attributes seconds milliseconds in
    ap
      (λ n.
        process_grecpmessage os (grecp_packet key grecp_msgtype_hello tuntype attrs ++ rest) n s)
      (length-grecp_packet key grecp_msgtype_hello tuntype attrs)
    ∙ subst
        (λ x.
          process_grecpmessage os (grecp_packet x grecp_msgtype_hello tuntype attrs ++ rest)
            (9 + length attrs) s
          ≡ ok (hello_answered os tuntype seconds milliseconds s))
        e (process-hello os tuntype seconds milliseconds rest s k (omega (arith, e)) v w)

-- A hello is sent for a tunnel whose interface has an address. The packet goes to the concentrator; if
-- it comes in right then, unchanged, under the same bonding key and whatever stands behind it in the
-- buffer, its handling ends without an access to memory that C leaves undefined, and takes it as the
-- answer to the last hello: none is missed any more.
pub send-process_hello :
    (os : Os) (tuntype : ℕ) (rest : List ℕ) (s : State)
    → IsTunnel tuntype
    → IsU32 s.runtime.haap.bonding_key
    → bytes_eq (source_ip tuntype s) no_ip6 ≡ false
    → let t = (send_grecphello os tuntype s).1 in
      (t.trace
        ≡ Call.sendmsg (source_ip tuntype s) s.runtime.haap.ip (hello_packet os tuntype s)
          ∷ Call.clock_gettime
          ∷ Call.clock_gettime
          ∷ s.trace)
      × Post ⊥
          (λ r.
            (last_hello_received tuntype r ≡ last_hello_sent tuntype r)
            × (last_hello_sent tuntype r ≡ last_hello_sent tuntype t)
            × (missed_hellos tuntype r ≡ 0))
          (process_grecpmessage os
            (hello_packet os tuntype s ++ rest)
            (length (hello_packet os tuntype s))
            t)
send-process_hello os tuntype rest s k u b =
    let t = (send_grecphello os tuntype s).1 in
    let (a, c, d) = source-IsSent os tuntype s k b in
    let (x, y, z) = answered os tuntype (hello_seconds os s) (hello_milliseconds os s) t in
    let done =
      process-hello_packet os tuntype (hello_seconds os s) (hello_milliseconds os s)
        s.runtime.haap.bonding_key rest t k u (omega arith) (omega arith)
        (ap (λ h. h.bonding_key) d) in
    (a, rw done (x ∙ sym c ∙ sym z, z, y))
