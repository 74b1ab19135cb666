-- ===== src/Filter/Accepts.antt =====
-- What the packet filters of the two sockets let through (src/openhybrid.c, src/tundev.c).
use open_hybrid.Base.{
  ℕ, ◌∷◌, [], List, Bool, false, ◌&&◌, ◌||◌, Outcome, ok, fault, stuck, drop, ◌==◌, if◌then◌else◌,
  ◌≡◌, refl, ◌∙◌, Bool-cases, inl, inr, arith,
}
use open_hybrid.Bytes.{load16, load32}
use open_hybrid.Grecp.{grecp_proto}
use open_hybrid.Sender.{ethertype_ip, ethertype_ipv6}
use open_hybrid.Filter.{
  Instruction, ld_h, jeq, ret, everything, grecp_filter, gre_filter, loaded_or, Machine,
}

-- What is read is a value.
abbrev pub reads : Outcome ℕ → ℕ → Bool
reads (ok v) k = v == k
reads fault k = false
reads stuck k = false

abbrev pub is_control : List ℕ → Bool
is_control packet = reads (load16 (drop 2 packet)) grecp_proto

abbrev pub is_data : ℕ → List ℕ → Bool
is_data bonding_key packet =
    reads (load32 (drop 4 packet)) bonding_key
    && (reads (load16 (drop 2 packet)) ethertype_ip
        || reads (load16 (drop 2 packet)) ethertype_ipv6)

-- The two returns at the end of both filters, and the tail that looks for IPv4 and IPv6.
abbrev returns : List Instruction
returns = ret everything ∷ ret 0 ∷ []

abbrev ip_tail : List Instruction
ip_tail = jeq ethertype_ip 1 0 ∷ jeq ethertype_ipv6 0 1 ∷ returns

module _ (m : Machine) (packet : List ℕ) where
  -- A comparison that is followed by the returns.
  returns-accepted :
      (k v : ℕ) → m.accepted (jeq k 0 1 ∷ returns) v packet ≡ (if v == k then everything else 0)
  returns-accepted k v = m.on_jeq k 0 1 returns v packet ∙ (elim (Bool-cases (v == k)) [
    | inl e ↦ simp e (m.on_ret everything (ret 0 ∷ []) v packet)
    | inr e ↦ simp e (m.on_ret 0 [] v packet)
  ])

  control_tail :
      (o : Outcome ℕ)
      → loaded_or o (λ v. m.accepted (jeq grecp_proto 0 1 ∷ returns) v packet)
        ≡ (if reads o grecp_proto then everything else 0)
  control_tail (ok v) = returns-accepted grecp_proto v
  control_tail fault = refl
  control_tail stuck = refl

  ip_tail-accepted :
      (v : ℕ)
      → m.accepted ip_tail v packet
        ≡ (if v == ethertype_ip || v == ethertype_ipv6 then everything else 0)
  ip_tail-accepted v =
      m.on_jeq ethertype_ip 1 0 (jeq ethertype_ipv6 0 1 ∷ returns) v packet
      ∙ (elim (Bool-cases (v == ethertype_ip)) [
        | inl e ↦ simp e (m.on_ret everything (ret 0 ∷ []) v packet)
        | inr e ↦ simp e (returns-accepted ethertype_ipv6 v)
      ])

  data_tail :
      (o : Outcome ℕ)
      → loaded_or o (λ v. m.accepted ip_tail v packet)
        ≡ (if reads o ethertype_ip || reads o ethertype_ipv6 then everything else 0)
  data_tail (ok v) = ip_tail-accepted v
  data_tail fault = refl
  data_tail stuck = refl

  key_tail :
      (key : ℕ) (o : Outcome ℕ)
      → loaded_or o (λ v. m.accepted (jeq key 0 4 ∷ ld_h 2 ∷ ip_tail) v packet) ≡ (
          if reads o key
            && (reads (load16 (drop 2 packet)) ethertype_ip
                || reads (load16 (drop 2 packet)) ethertype_ipv6)
          then everything
          else 0)
  key_tail key (ok v) =
      m.on_jeq key 0 4 (ld_h 2 ∷ ip_tail) v packet ∙ (elim (Bool-cases (v == key)) [
        | inl e ↦ simp e (m.on_ld_h 2 ip_tail v packet ∙ data_tail (load16 (drop 2 packet)))
        | inr e ↦ simp e (m.on_ret 0 [] v packet)
      ])
  key_tail key fault = refl
  key_tail key stuck = refl

  apart :
      (o : Outcome ℕ) (b : Bool)
      → (reads o grecp_proto && (b && (reads o ethertype_ip || reads o ethertype_ipv6))) ≡ false
  apart (ok v) b = ground arith
  apart fault b = refl
  apart stuck b = ground arith

  -- On any machine that does what is documented of the instructions, and on any packet: the filter of
  -- the control socket lets the whole packet through if its protocol is that of control messages, and
  -- the filter of the data socket if its key is the bonding key and its protocol is IPv4 or IPv6. Else
  -- both let nothing through, a packet that is too short included, and no packet passes both.
  pub filters_accept :
      (bonding_key : ℕ)
      → (m.accepted grecp_filter 0 packet ≡ (if is_control packet then everything else 0))
        × (m.accepted (gre_filter bonding_key) 0 packet
            ≡ (if is_data bonding_key packet then everything else 0))
        × ((is_control packet && is_data bonding_key packet) ≡ false)
  filters_accept bonding_key = (
    m.on_ld_h 2 (jeq grecp_proto 0 1 ∷ returns) 0 packet ∙ control_tail (load16 (drop 2 packet)),
    m.on_ld_w 4 (jeq bonding_key 0 4 ∷ ld_h 2 ∷ ip_tail) 0 packet
        ∙ key_tail bonding_key (load32 (drop 4 packet)),
    apart (load16 (drop 2 packet)) (reads (load32 (drop 4 packet)) bonding_key),
  )
