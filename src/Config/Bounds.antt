-- ===== src/Config/Bounds.antt =====
-- What the configuration of src/config.c is bounded by, whatever the file holds.
use open_hybrid.Base.{
  ℕ, ◌≤◌, List, [], ◌∷◌, some, length, drop, All, leb, leb→le, ◌<◌, ◌==◌, bytes_eq, Bool-cases,
  arith, ◌≡◌, refl, inl, inr, length-append, length-drop, replicate,
}
use open_hybrid.Base.Text.{codes}
use open_hybrid.Runtime.{Runtime}
use open_hybrid.Os.{Os}
use open_hybrid.Dhcp.Printed.{length-or_else}
use open_hybrid.Config.{
  loaded, overwrite, get_lines, read_lines, defaults_first, default_anycast_ip, default_tunnel_name,
  default_mtu, defaults_last, read_config,
}
use open_hybrid.Config.Sizes.{GivesSixteen, IsSound, IsComplete, Within, Within-bind}
use open_hybrid.Config.Lines.{settings-Keeps, HasRoom, read_lines-Within}

length-overwrite :
    (n : ℕ) (text old : List ℕ) → length text ≤ n → length old ≤ n → length (overwrite text old) ≤ n
length-overwrite n text old h g =
    omega (arith, length-append text (drop (length text) old), length-drop (length text) old)

defaults_first-IsSound : (n : ℕ) (r : Runtime) → IsSound n r → IsSound n (defaults_first r)
unfolding defaults_first
defaults_first-IsSound n r ((l, d, t, p, a), m) = (
  (
    length-overwrite 14 (codes "wwan0") r.lte.interface_name (omega arith) l,
    length-overwrite 14 (codes "ppp0") r.dsl.interface_name (omega arith) d,
    t,
    p,
    a,
  ),
  m,
)

default_anycast_ip-IsSound :
    (n : ℕ) (os : Os) (r : Runtime)
    → GivesSixteen os
    → IsSound n r
    → IsSound n (default_anycast_ip os r)
unfolding default_anycast_ip
default_anycast_ip-IsSound n os r h6 ((l, d, t, p, a), m) =
    elim (Bool-cases (bytes_eq r.haap.anycast_ip (replicate 16 0))) [
      | inl e ↦
          simp (e)
            ((l, d, t, p, length-or_else 16 (os.inet_pton6 (codes "2003:6::1")) _ (h6 _) a), m)
      | inr e ↦ simp (e) ((l, d, t, p, a), m)
    ]

default_tunnel_name-IsSound :
    (n : ℕ) (r : Runtime)
    → IsSound n r
    → IsSound n (default_tunnel_name r) × (1 ≤ length (default_tunnel_name r).tunnel_interface_name)
unfolding default_tunnel_name
default_tunnel_name-IsSound n r ((l, d, t, p, a), m) =
    elim (Bool-cases (length r.tunnel_interface_name == 0)) [
      | inl e ↦ elim (Bool-cases r.bonding) [
        | inl b ↦ simp (e, b) (((l, d, omega arith, p, a), m), omega arith)
        | inr b ↦ simp (e, b) (((l, d, omega arith, p, a), m), omega arith)
      ]
      | inr e ↦ simp (e) (((l, d, t, p, a), m), ground arith)
    ]

default_mtu-IsComplete :
    (n : ℕ) (r : Runtime)
    → IsSound n r
    → 1 ≤ length r.tunnel_interface_name
    → r.haap.ip ≡ r.haap.anycast_ip
    → IsComplete n (default_mtu r)
unfolding default_mtu
default_mtu-IsComplete n r (z, m) t e = elim (Bool-cases (r.tunnel_interface_mtu == 0)) [
  | inl g ↦ elim (Bool-cases r.bonding) [
    | inl b ↦ simp (g, b) (z, t, omega arith, omega arith, e)
    | inr b ↦ simp (g, b) (z, t, omega arith, omega arith, e)
  ]
  | inr g ↦ simp (g) (z, t, ground arith, ground arith, e)
]

defaults_last-IsComplete :
    (n : ℕ) (os : Os) (r : Runtime)
    → GivesSixteen os
    → IsSound n r
    → IsComplete n (defaults_last os r)
unfolding defaults_last
defaults_last-IsComplete n os r h6 s =
    let (r1, named) =
      default_tunnel_name-IsSound n (default_anycast_ip os r)
        (default_anycast_ip-IsSound n os r h6 s) in
    default_mtu-IsComplete n _ r1 named refl

read_config-Within :
    (F : Type 0) (n : ℕ)
    → ((value : List ℕ) → (127 < length value → F) → length value ≤ 128 → length value ≤ n)
    → (os : Os) (text : List ℕ) (r : Runtime) → GivesSixteen os
    → All (HasRoom F) (get_lines text)
    → IsSound n r
    → Within F (IsComplete n) (read_config os (some text) r)
unfolding read_config
read_config-Within F n fits os text r h6 rooms s =
    Within-bind F (IsSound n) (IsComplete n) (read_lines os (get_lines text) (defaults_first r))
      (λ r1. loaded (defaults_last os r1))
      (read_lines-Within F (IsSound n) os
        (λ line value long. settings-Keeps F n os line value h6 (λ e. fits value (long e)) long)
        (get_lines text) (defaults_first r) rooms (defaults_first-IsSound n r s))
      (λ r1 s1. defaults_last-IsComplete n os r1 h6 s1)

pub HasRoom-Unit : (lines : List (List ℕ)) → All (HasRoom Unit) lines
HasRoom-Unit [] = tt
HasRoom-Unit (line ∷ lines) = (λ _. tt, HasRoom-Unit lines)

HasRoom-short :
    (lines : List (List ℕ)) → All (λ line. length line ≤ 147) lines → All (HasRoom ⊥) lines
HasRoom-short [] h = tt
HasRoom-short (line ∷ lines) (h, hs) = (λ long. omega arith, HasRoom-short lines hs)

-- Whatever the configuration file holds: if the struct that reading starts from is within its
-- bounds, then so is a struct that is loaded. Each interface name has at most 14 characters and the
-- script path at most 128, which is the length of its array, the anycast address has 16 bytes and is
-- also the first address of the HAAP, the tunnel interface has a name, and its MTU is between 1280 and
-- 1448.
pub read_config-IsComplete :
    (os : Os) (text : List ℕ) (r : Runtime)
    → GivesSixteen os
    → IsSound 128 r
    → Within Unit (IsComplete 128) (read_config os (some text) r)
read_config-IsComplete os text r h6 s =
    read_config-Within Unit 128 (λ value long h. h) os text r h6 (HasRoom-Unit (get_lines text)) s

short_enough : (n : ℕ) → (127 < n → ⊥) → n ≤ 128 → n ≤ 127
short_enough n long h = elim (Bool-cases (leb n 127)) [
  | inl e ↦ leb→le n 127 e
  | inr e ↦ absurd (long (ground arith))
]

-- A configuration file with no line of more than 147 characters overflows no array: if the struct
-- that reading starts from is within its bounds, the script path with at most 127 characters, then
-- reading ends in LOG_FATAL or in a complete struct, whose script path has at most 127 characters too.
pub read_config_short :
    (os : Os) (text : List ℕ) (r : Runtime)
    → GivesSixteen os
    → IsSound 127 r
    → All (λ line. length line ≤ 147) (get_lines text)
    → Within ⊥ (IsComplete 127) (read_config os (some text) r)
read_config_short os text r h6 s short =
    read_config-Within ⊥ 127 (λ value. short_enough (length value)) os text r h6
      (HasRoom-short (get_lines text) short) s
