-- ===== src/Grecp/Table.antt =====
-- The two tunnels by a table of the message types, what no message touches, and that the bodies of
-- the loops over the attributes (src/grecp_*.c) keep to it.
use open_hybrid.Base.{
  ℕ, ◌≡◌, inl, inr, refl, Bool, true, false, Outcome, ok, ◌>>=◌, drop, ◌==◌, if◌then◌else◌, arith,
  Bool-cases, Post, Post-bind,
}
use open_hybrid.Bytes.{load32, memcpy_u32, memcpy_in6}
use open_hybrid.Bytes.Total.{
  IsStraight, Post-map, load32-IsStraight, memcpy_u32-IsStraight, memcpy_in6-IsStraight,
}
use open_hybrid.Runtime.{State, Haap, set_haap, settings_of, other_calls}
use open_hybrid.Os.{Os}
use open_hybrid.Grecp.{
  grecp_tuntype_lte, grecp_msgtype_accept, grecp_msgtype_teardown, grecp_msgattr_h_ipv6_address,
  grecp_msgattr_session_id, grecp_msgattr_active_hello_interval, grecp_msgattr_hello_retry_times,
  grecp_msgattr_bonding_key_value, grecp_msgattr_bypass_bandwidth_check_interval,
  grecp_msgattr_timestamp, grecp_msgattr_filter_list_package, grecp_msgattr_tunnel_verification,
}
use open_hybrid.Grecp.Attribute.{Attr}
use open_hybrid.Grecp.Handlers.{
  accept_attribute, accept_established, hello_attribute, notify_attribute,
}

-- Whether the LTE tunnel and the DSL tunnel are up.
abbrev pub tunnels : State → Bool × Bool
tunnels s = (s.runtime.lte.tunnel_established, s.runtime.dsl.tunnel_established)

-- The table: an accept message brings its tunnel up, a tear down message takes both down, and no
-- other message changes either.
abbrev pub tunnels_after : ℕ → ℕ → Bool × Bool → Bool × Bool
tunnels_after msgtype tuntype (lte, dsl) =
    if msgtype == grecp_msgtype_accept
    then (if tuntype == grecp_tuntype_lte then (true, dsl) else (lte, true))
    else if msgtype == grecp_msgtype_teardown
    then (false, false)
    else (lte, dsl)

-- What no message touches: the configuration, the device, the addresses, the leases and the sockets.
-- Nor does it make a call, but for readings of the clock.
pub record Keeps (s s' : State) : Type 0 where
  pub settings : settings_of s'.runtime ≡ settings_of s.runtime
  pub bonding : s'.runtime.bonding ≡ s.runtime.bonding
  pub created : s'.runtime.tunnel_interface_created ≡ s.runtime.tunnel_interface_created
  pub anycast_ip : s'.runtime.haap.anycast_ip ≡ s.runtime.haap.anycast_ip
  pub lte_ip : s'.runtime.lte.interface_ip ≡ s.runtime.lte.interface_ip
  pub dsl_ip : s'.runtime.dsl.interface_ip ≡ s.runtime.dsl.interface_ip
  pub dhcp : s'.runtime.dhcp ≡ s.runtime.dhcp
  pub dhcp6 : s'.runtime.dhcp6 ≡ s.runtime.dhcp6
  pub signal : s'.runtime.signal ≡ s.runtime.signal
  pub sockfd_gre : s'.sockfd_gre ≡ s.sockfd_gre
  pub calls : other_calls s'.trace ≡ other_calls s.trace

-- `t` is where the tunnels are to be.
abbrev pub Reaches : Bool × Bool → State → State → Type 0
Reaches t s s' = (tunnels s' ≡ t) × Keeps s s'

pub Reaches-self : (s : State) → Reaches (tunnels s) s s
Reaches-self s = (
  refl,
  record {
    settings = refl;
    bonding = refl;
    created = refl;
    anycast_ip = refl;
    lte_ip = refl;
    dsl_ip = refl;
    dhcp = refl;
    dhcp6 = refl;
    signal = refl;
    sockfd_gre = refl;
    calls = refl;
  },
)

module _ (s : State) where
  pub Reaches-set_haap :
      (t : Bool × Bool) (x : State) (h : Haap)
      → h.anycast_ip ≡ x.runtime.haap.anycast_ip
      → Reaches t s x
      → Reaches t s (set_haap x h)
  Reaches-set_haap t x h e r = ground arith

  -- Copying into a field of `haap`.
  pub copy-Reaches :
      (x : State) (m : Outcome ℕ) (f : ℕ → Haap)
      → IsStraight m
      → ((v : ℕ) → (f v).anycast_ip ≡ x.runtime.haap.anycast_ip)
      → Reaches (tunnels s) s x
      → Post Unit (Reaches (tunnels s) s) (m >>= λ v. ok (set_haap x (f v)))
  copy-Reaches x m f h e r =
      Post-map (Reaches (tunnels s) s) m (λ v. set_haap x (f v)) h
        (λ v. Reaches-set_haap (tunnels s) x (f v) (e v) r)

  pub accept_attribute-Reaches :
      (a : Attr) (x : State)
      → Reaches (tunnels s) s x
      → Post Unit (Reaches (tunnels s) s) (accept_attribute a x)
  unfolding accept_attribute
  accept_attribute-Reaches a x r = elim (Bool-cases (a.id == grecp_msgattr_h_ipv6_address)) [
    | inl e ↦ rw e (
        Post-map (Reaches (tunnels s) s) (memcpy_in6 haap.ip a.value a.length)
          (λ v. set_haap x (record haap { ip = v }))
          (memcpy_in6-IsStraight haap.ip a.value a.length)
          (λ v. Reaches-set_haap (tunnels s) x (record haap { ip = v }) refl r))
    | inr e0 ↦ elim (Bool-cases (a.id == grecp_msgattr_session_id)) [
      | inl e ↦ rw (e0, e) (copy haap.session_id (λ v. record haap { session_id = v }) (λ v. refl))
      | inr e1 ↦ elim (Bool-cases (a.id == grecp_msgattr_active_hello_interval)) [
        | inl e ↦
            rw (e0, e1, e)
              (elim (Bool-cases (haap.active_hello_interval == 0)) [
                | inl z ↦ rw z (
                    copy haap.active_hello_interval (λ v. record haap { active_hello_interval = v })
                      (λ v. refl))
                | inr z ↦ rw z r
              ])
        | inr e2 ↦ elim (Bool-cases (a.id == grecp_msgattr_hello_retry_times)) [
          | inl e ↦
              rw (e0, e1, e2, e)
                (elim (Bool-cases (haap.hello_retry_times == 0)) [
                  | inl z ↦ rw z (
                      copy haap.hello_retry_times (λ v. record haap { hello_retry_times = v })
                        (λ v. refl))
                  | inr z ↦ rw z r
                ])
          | inr e3 ↦ elim (Bool-cases (a.id == grecp_msgattr_bonding_key_value)) [
            | inl e ↦
                rw (e0, e1, e2, e3, e)
                  (copy haap.bonding_key (λ v. record haap { bonding_key = v }) (λ v. refl))
            | inr e4 ↦ elim (Bool-cases (a.id == grecp_msgattr_bypass_bandwidth_check_interval)) [
              | inl e ↦
                  rw (e0, e1, e2, e3, e4, e)
                    (copy haap.bypass_bandwidth_check_interval
                      (λ v. record haap { bypass_bandwidth_check_interval = v }) (λ v. refl))
              | inr e5 ↦ rw (e0, e1, e2, e3, e4, e5) r
            ]
          ]
        ]
      ]
    ]
  ]
    where
      open x.runtime use {haap}

      copy :
          (old : ℕ) (f : ℕ → Haap)
          → ((v : ℕ) → (f v).anycast_ip ≡ x.runtime.haap.anycast_ip)
          → Post Unit
              (Reaches (tunnels s) s)
              (memcpy_u32 old a.value a.length >>= λ v. ok (set_haap x (f v)))
      copy old f e =
          copy-Reaches x (memcpy_u32 old a.value a.length) f
            (memcpy_u32-IsStraight old a.value a.length) e r

  pub notify_attribute-Reaches :
      (a : Attr) (x : State)
      → Reaches (tunnels s) s x
      → Post Unit (Reaches (tunnels s) s) (notify_attribute a x)
  unfolding notify_attribute
  notify_attribute-Reaches a x r = elim (Bool-cases (a.id == grecp_msgattr_filter_list_package)) [
    | inl e ↦ rw e (
        Post-map (Reaches (tunnels s) s) (load32 a.value) _ (load32-IsStraight a.value)
          (λ v. ground arith))
    | inr e0 ↦ elim (Bool-cases (a.id == grecp_msgattr_tunnel_verification)) [
      | inl e ↦ rw (e0, e) (ground arith)
      | inr e1 ↦ rw (e0, e1) r
    ]
  ]

  pub accept_established-Reaches :
      (os : Os) (tuntype : ℕ) (x : State)
      → Reaches (tunnels s) s x
      → Reaches
          (tunnels_after grecp_msgtype_accept tuntype (tunnels s))
          s
          (accept_established os tuntype x)
  unfolding accept_established
  accept_established-Reaches os tuntype x r = ground arith

  pub hello_attribute-Reaches :
      (os : Os) (tuntype : ℕ) (a : Attr) (x : State)
      → Reaches (tunnels s) s x
      → Post Unit (Reaches (tunnels s) s) (hello_attribute os tuntype a x)
  unfolding hello_attribute
  hello_attribute-Reaches os tuntype a x r = elim (Bool-cases (a.id == grecp_msgattr_timestamp)) [
    | inl e ↦ rw e (
        Post-bind Unit (λ _. Unit {0}) (Reaches (tunnels s) s) (load32 a.value) _
          (load32-IsStraight a.value)
          (λ v _.
            Post-bind Unit (λ _. Unit {0}) (Reaches (tunnels s) s) (load32 (drop 4 a.value)) _
              (load32-IsStraight (drop 4 a.value))
              (λ w _. elim (Bool-cases (tuntype == grecp_tuntype_lte)) [
                | inl lte ↦ rw lte (ground arith)
                | inr dsl ↦ rw dsl (ground arith)
              ])))
    | inr e0 ↦ rw e0 r
  ]
