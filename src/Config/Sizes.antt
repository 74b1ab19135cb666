-- ===== src/Config/Sizes.antt =====
-- The sizes of the arrays and the bounds of the numbers that read_config of src/config.c fills, as
-- predicates.
use open_hybrid.Base.{ℕ, ◌≤◌, Bool, true, false, List, some, length, if◌then◌else◌, ◌≡◌, refl, ◌⊎◌}
use open_hybrid.Runtime.{Runtime}
use open_hybrid.Os.{Os}
use open_hybrid.Config.{Loading, loaded, exited, overflow, and_then}

-- inet_pton(AF_INET6) gives 16 bytes where it gives any.
abbrev pub GivesSixteen : Os → Type 0
GivesSixteen os = (text ip : List ℕ) → os.inet_pton6 text ≡ some ip → length ip ≡ 16

-- The texts and the address have room in their arrays, the ends of the strings included. An
-- interface name of 15 characters would still fit. The script path has at most n characters: with 127
-- its end fits too, and with 128 it may fill its array.
abbrev pub IsSized : ℕ → Runtime → Type 0
IsSized n r =
    (length r.lte.interface_name ≤ 14)
    × (length r.dsl.interface_name ≤ 14)
    × (length r.tunnel_interface_name ≤ 14)
    × (length r.event_script_path ≤ n)
    × (length r.haap.anycast_ip ≡ 16)

-- The MTU is not set, or between 1280 and 1448.
abbrev pub IsMtu : ℕ → Type 0
IsMtu n = (n ≡ 0) ⊎ ((1280 ≤ n) × (n ≤ 1448))

abbrev pub IsSound : ℕ → Runtime → Type 0
IsSound n r = IsSized n r × IsMtu r.tunnel_interface_mtu

-- A struct with `P`, or the end of the process, or an overflow where `F` allows it.
abbrev pub Within : Type 0 → (Runtime → Type 0) → Loading → Type 0
Within F P (loaded r) = P r
Within F P exited = Unit
Within F P overflow = F

pub Within-bind :
    (F : Type 0) (P Q : Runtime → Type 0) (m : Loading) (f : Runtime → Loading)
    → Within F P m
    → ((r : Runtime) → P r → Within F Q (f r))
    → Within F Q (and_then m f)
Within-bind F P Q (loaded r) f h g = g r h
Within-bind F P Q exited f h g = tt
Within-bind F P Q overflow f h g = h

pub Within-if :
    (F : Type 0) (P : Runtime → Type 0) (b : Bool) (x y : Loading)
    → (b ≡ true → Within F P x)
    → (b ≡ false → Within F P y)
    → Within F P (if b then x else y)
Within-if F P true x y h g = h refl
Within-if F P false x y h g = g refl

-- What the rest of the program is given: the bounds, a name and an MTU for the tunnel, and the
-- anycast address as the first address of the HAAP.
abbrev pub IsComplete : ℕ → Runtime → Type 0
IsComplete n r =
    IsSized n r
    × (1 ≤ length r.tunnel_interface_name)
    × (1280 ≤ r.tunnel_interface_mtu)
    × (r.tunnel_interface_mtu ≤ 1448)
    × (r.haap.ip ≡ r.haap.anycast_ip)
