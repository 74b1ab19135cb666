-- ===== src/Timers/Reset.antt =====
-- What execute_timers (src/openhybrid.c) resets when both tunnels are down, and the request that
-- starts the next session.
use open_hybrid.Base.{
  List, ℕ, ◌≡◌, refl, ap, ◌∙◌, false, ◌∷◌, ◌!=◌, inl, inr, Bool-cases, bytes_eq, arith,
}
use open_hybrid.Runtime.{Call, State, dhcpdown_ip, dhcpdown_ip6, set_dhcp, set_dhcp6}
use open_hybrid.Os.{Os, no_ip6}
use open_hybrid.Event.Frame.{trigger_event-runtime}
use open_hybrid.Dhcp.{kill_udhcpc, kill_udhcpc6}
use open_hybrid.Grecp.{grecp_tuntype_lte, grecp_msgtype_request}
use open_hybrid.Grecp.Message.{
  grecp_packet, request_attributes, send_grecprequest, send_grecpmessage,
}
use open_hybrid.Timers.Tunnels.{connect}
use open_hybrid.Timers.Session.{
  no_ip, reset_lte, reset_dsl, reset_haap, reset_dhcp, reset_dhcp6, reset_session, reset_stats,
}

pub kill_udhcpc-runtime : (os : Os) (s : State) → (kill_udhcpc os s).1.runtime ≡ s.runtime
unfolding kill_udhcpc
kill_udhcpc-runtime os s = elim (Bool-cases (s.runtime.dhcp.udhcpc_pid != 0)) [
  | inl e ↦ simp e refl
  | inr e ↦ simp e refl
]

pub kill_udhcpc6-runtime : (os : Os) (s : State) → (kill_udhcpc6 os s).1.runtime ≡ s.runtime
unfolding kill_udhcpc6
kill_udhcpc6-runtime os s = elim (Bool-cases (s.runtime.dhcp.udhcpc_pid != 0)) [
  | inl e ↦ simp e refl
  | inr e ↦ simp e refl
]

-- No client runs, and there is no lease.
abbrev pub dhcp_reset : State → State
dhcp_reset s =
    set_dhcp s
      (record s.runtime.dhcp { udhcpc_pid = 0; ip = no_ip; lease_time = 0; lease_obtained = 0 })

pub reset_dhcp-runtime : (os : Os) (s : State) → (reset_dhcp os s).runtime ≡ (dhcp_reset s).runtime
unfolding reset_dhcp
reset_dhcp-runtime os s = elim (Bool-cases (s.runtime.dhcp.udhcpc_pid != 0)) [
  | inl e ↦ simp (e, kill_udhcpc-runtime os s) refl
  | inr e ↦
      let none : s.runtime.dhcp.udhcpc_pid ≡ 0 = ground arith in
      elim (Bool-cases (s.runtime.dhcp.lease_time != 0)) [
        | inl k ↦ simp (e, k, trigger_event-runtime dhcpdown_ip s, none) refl
        | inr k ↦ simp (e, k, none) refl
      ]
]

abbrev pub dhcp6_reset : State → State
dhcp6_reset s = set_dhcp6 s (record s.runtime.dhcp6 {
  udhcpc6_pid = 0;
  prefix_address = no_ip6;
  prefix_length = 0;
  lease_time = 0;
  lease_obtained = 0;
})

pub reset_dhcp6-runtime :
    (os : Os) (s : State) → (reset_dhcp6 os s).runtime ≡ (dhcp6_reset s).runtime
unfolding reset_dhcp6
reset_dhcp6-runtime os s = elim (Bool-cases (s.runtime.dhcp6.udhcpc6_pid != 0)) [
  | inl e ↦ simp (e, kill_udhcpc6-runtime os s) refl
  | inr e ↦
      let none : s.runtime.dhcp6.udhcpc6_pid ≡ 0 = ground arith in
      elim (Bool-cases (s.runtime.dhcp.lease_time != 0)) [
        | inl k ↦ simp (e, k, trigger_event-runtime dhcpdown_ip6 s, none) refl
        | inr k ↦ simp (e, k, none) refl
      ]
]

-- What a reset sets: the concentrator, the keys and numbers of the session, the state of its filter
-- list, and what is known of the two clients and their leases. The intervals and the retry times, which
-- an accept message may have set, are not among it.
abbrev pub IsFresh : State → Type 0
IsFresh s =
    (s.runtime.haap.ip ≡ s.runtime.haap.anycast_ip)
    × (s.runtime.haap.bonding_key ≡ 0)
    × (s.runtime.haap.session_id ≡ 0)
    × (s.runtime.haap.commit_count ≡ 0)
    × (s.runtime.filter_list_acked ≡ false)
    × (s.runtime.dhcp.udhcpc_pid ≡ 0)
    × (s.runtime.dhcp.lease_time ≡ 0)
    × (s.runtime.dhcp.ip ≡ no_ip)
    × (s.runtime.dhcp6.udhcpc6_pid ≡ 0)
    × (s.runtime.dhcp6.lease_time ≡ 0)
    × (s.runtime.dhcp6.prefix_address ≡ no_ip6)
    × (s.runtime.dhcp6.prefix_length ≡ 0)

reset_session-runtime :
    (os : Os) (s : State)
    → s.runtime.lte.tunnel_established ≡ false
    → s.runtime.dsl.tunnel_established ≡ false
    → (reset_session os s).runtime ≡ (dhcp6_reset (dhcp_reset (reset_haap s))).runtime
unfolding reset_session
reset_session-runtime os s l d =
    let t = reset_haap s in
    simp (l, d)
      (reset_dhcp6-runtime os (reset_dhcp os t)
        ∙ ap (λ r. (dhcp6_reset (record t { runtime = r })).runtime) (reset_dhcp-runtime os t))

reset_session-IsFresh :
    (os : Os) (s : State)
    → s.runtime.lte.tunnel_established ≡ false
    → s.runtime.dsl.tunnel_established ≡ false
    → IsFresh (reset_session os s)
unfolding reset_haap
reset_session-IsFresh os s l d =
    rw (reset_session-runtime os s l d)
      (refl, refl, refl, refl, refl, refl, refl, refl, refl, refl, refl, refl)

abbrev AreDown : List ℕ → State → Type 0
AreDown ip s =
    (s.runtime.lte.tunnel_established ≡ false)
    × (s.runtime.dsl.tunnel_established ≡ false)
    × (s.runtime.lte.interface_ip ≡ ip)

reset_lte-AreDown : (ip : List ℕ) (s : State) → AreDown ip s → AreDown ip (reset_lte s)
unfolding reset_lte
reset_lte-AreDown ip s (l, d, i) = elim (Bool-cases s.runtime.tunnel_interface_created) [
  | inl e ↦ simp (l, e) (refl, d, i)
  | inr e ↦ simp (l, e) (refl, d, i)
]

reset_dsl-AreDown : (ip : List ℕ) (s : State) → AreDown ip s → AreDown ip (reset_dsl s)
unfolding reset_dsl
reset_dsl-AreDown ip s (l, d, i) = elim (Bool-cases s.runtime.tunnel_interface_created) [
  | inl e ↦ simp (d, e) (l, refl, i)
  | inr e ↦ simp (d, e) (l, refl, i)
]

connect-IsFresh :
    (os : Os) (s : State)
    → IsFresh s
    → s.runtime.lte.tunnel_established ≡ false
    → bytes_eq s.runtime.lte.interface_ip no_ip6 ≡ false
    → (connect os s).trace
      ≡ Call.sendmsg s.runtime.lte.interface_ip s.runtime.haap.anycast_ip (
          grecp_packet 0 grecp_msgtype_request grecp_tuntype_lte
            (request_attributes grecp_tuntype_lte 0))
        ∷ s.trace
unfolding connect send_grecprequest send_grecpmessage
connect-IsFresh os s (ip, key, session, c, f, p, t, a, p6, t6, a6, n6) l b =
    simp (l, b, ip, key, session) refl

-- Both tunnels are down, and the LTE interface has an address. After the reset of execute_timers the
-- address of the concentrator is its anycast address again, the bonding key, the session id and the
-- count of commits are 0, and the filter list counts as not acknowledged; the pids and the lease times
-- of both clients, the IPv4 address and the prefix with its length are 0 as well. The next request is
-- then one for the LTE tunnel without a key or a session, to the anycast address. Nothing is said of
-- the intervals and the retry times, nor of a process that a forgotten pid belonged to.
pub reset_stats-connect :
    (os : Os) (s : State)
    → s.runtime.lte.tunnel_established ≡ false
    → s.runtime.dsl.tunnel_established ≡ false
    → bytes_eq s.runtime.lte.interface_ip no_ip6 ≡ false
    → let t = reset_stats os s in
      IsFresh t
      × ((connect os t).trace
          ≡ Call.sendmsg s.runtime.lte.interface_ip t.runtime.haap.anycast_ip (
              grecp_packet 0 grecp_msgtype_request grecp_tuntype_lte
                (request_attributes grecp_tuntype_lte 0))
            ∷ t.trace)
unfolding reset_stats reset_haap
reset_stats-connect os s l d b =
    let ip = s.runtime.lte.interface_ip in
    let s' = reset_dsl (reset_lte s) in
    let (l', d', i') = reset_dsl-AreDown ip (reset_lte s) (reset_lte-AreDown ip s (l, d, refl)) in
    let fresh = reset_session-IsFresh os s' l' d' in
    let same = ap (λ r. r.lte) (reset_session-runtime os s' l' d') in
    let from = ap (λ x. x.interface_ip) same ∙ i' in
    (
      fresh,
      connect-IsFresh os (reset_session os s') fresh (ap (λ x. x.tunnel_established) same ∙ l')
            (ap (λ x. bytes_eq x no_ip6) from ∙ b)
          ∙ ap
              (λ x.
                Call.sendmsg x (reset_session os s').runtime.haap.anycast_ip (
                  grecp_packet 0 grecp_msgtype_request grecp_tuntype_lte
                    (request_attributes grecp_tuntype_lte 0))
                ∷ (reset_session os s').trace)
              from,
    )
