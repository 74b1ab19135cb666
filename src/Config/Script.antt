-- ===== src/Config/Script.antt =====
-- What the bounds of the configuration are worth to the environment that trigger_event of src/event.c
-- builds.
use open_hybrid.Base.{
  ℕ, leb, leb→le, if◌then◌else◌, ◌≤◌, ◌<◌, [], ◌++◌, length, All, ok, fault, arith, ◌≡◌, Bool-cases,
  inl, inr,
}
use open_hybrid.Base.Text.{codes, length-decimal}
use open_hybrid.Runtime.{Runtime}
use open_hybrid.Os.{Os}
use open_hybrid.Config.Sizes.{IsSized}
use open_hybrid.Event.Environment.{
  env_texts_ip, env_texts, environment, add_vars-short, add_vars-long,
}

env_texts-short :
    (n : ℕ) (os : Os) (r : Runtime)
    → IsSized n r
    → length (os.inet_ntop r.dhcp.ip) ≤ 15
    → length (os.inet_ntop6 r.dhcp6.prefix_address) ≤ 42
    → (length (env_texts os r) ≤ 9) × All (λ text. length text < 64) (env_texts os r)
unfolding env_texts env_texts_ip
env_texts-short n os r (l, d, t, _, _) four six =
    let mtu = length-decimal r.tunnel_interface_mtu in
    let lease = length-decimal r.dhcp.lease_time in
    let bits = length-decimal r.dhcp6.prefix_length in
    let lease6 = length-decimal r.dhcp6.lease_time in
    elim (Bool-cases r.bonding) [ inl e ↦ simp (e) (omega arith) | inr e ↦ simp (e) (omega arith) ]

-- An IPv6 prefix that is shown in 43 characters or more, which INET6_ADDRSTRLEN allows, makes
-- sprintf write behind the end of its array.
environment_overflow :
    (os : Os) (r : Runtime)
    → 43 ≤ length (os.inet_ntop6 r.dhcp6.prefix_address)
    → environment os r ≡ fault
unfolding environment env_texts
environment_overflow os r long =
    add_vars-long (env_texts_ip os r) _ []
      (codes "dhcp6_prefix_address=" ++ os.inet_ntop6 r.dhcp6.prefix_address) (omega arith)

-- The interface names are within the bounds that read_config keeps, and the IPv4 address is shown in
-- at most 15 characters, as INET_ADDRSTRLEN says: if the IPv6 prefix is shown in at most 42 characters,
-- the environment of the event script is built without a write behind an array, and is the list of its
-- texts; if it is shown in more, of which INET6_ADDRSTRLEN allows 45, sprintf writes behind an array.
pub environment_fits :
    (n : ℕ) (os : Os) (r : Runtime)
    → IsSized n r
    → length (os.inet_ntop r.dhcp.ip) ≤ 15
    → environment os r ≡ (
        if leb (length (os.inet_ntop6 r.dhcp6.prefix_address)) 42
        then ok (env_texts os r)
        else fault)
unfolding environment
environment_fits n os r sized four =
    elim (Bool-cases (leb (length (os.inet_ntop6 r.dhcp6.prefix_address)) 42)) [
      | inl e ↦
          let (room, short) = env_texts-short n os r sized four (leb→le _ 42 e) in
          rw e (add_vars-short (env_texts os r) [] (omega arith) short)
      | inr e ↦ rw e (environment_overflow os r (ground arith))
    ]
