-- ===== src/Calls.antt =====
-- Which calls the main thread may make under a configuration: the calls of src/*.c with their
-- arguments, as `Permitted` says, and states in which all calls so far were of this kind. The threads
-- of the data plane are not bound to it: they send data.
pub mod Runs
use open_hybrid.Base.{
  ℕ, ◌≤◌, ◌≡◌, ◌≢◌, Bool, if◌then◌else◌, true, false, List, [], ◌∷◌, ◌++◌, length, take, All, sym,
  ◌∙◌,
}
use mathlib.Core.Path.{subst}
use open_hybrid.Bytes.{htons}
use open_hybrid.Grecp.{grecp_proto, grecp_flagsandversion}
use open_hybrid.Runtime.{
  Call, State, Settings, settings_of, ifname, mtu, sendmsg, fork_event, waitpid, kill, netlink_open,
  netlink_newlink, netlink_dellink, open_tun, ioctl_tunsetiff, ioctl_mtu, ioctl_flags, close_tun,
  close_gre, pthread_create, pthread_cancel,
}
use open_hybrid.Os.{called, no_ip6}

-- The longest message: two headers of 8 and 1 bytes, and attributes of 43, 7 and 3 bytes.
abbrev pub longest_message : ℕ
longest_message = 62

-- A control message by its first four bytes, from an address, and not too long.
abbrev pub IsControl : List ℕ → List ℕ → Type 0
IsControl source bytes =
    (source ≢ no_ip6)
    × (take 4 bytes ≡ htons grecp_flagsandversion ++ htons grecp_proto)
    × (length bytes ≤ longest_message)

-- What is asked of a call: a message is a control message with a source; an event is triggered only
-- if there is a script; no pid of 0 is waited for or killed; the netlink requests are made without
-- bonding, and all that has to do with the tun device and the threads only with it; and whatever
-- names the device, or its MTU, takes those of the configuration.
abbrev pub Permitted : Settings → Call → Type 0
Permitted c (sendmsg source destination bytes) = IsControl source bytes
Permitted c (fork_event name) = c.event_script_path ≢ []
Permitted c (waitpid pid) = pid ≢ 0
Permitted c (kill pid) = pid ≢ 0
Permitted c netlink_open = c.bonding ≡ false
Permitted c (netlink_newlink request) =
    (c.bonding ≡ false)
    × (take 2 request ≡ ifname c.tunnel_interface_name ∷ mtu c.tunnel_interface_mtu ∷ [])
Permitted c (netlink_dellink request) =
    (c.bonding ≡ false) × (request ≡ ifname c.tunnel_interface_name ∷ [])
Permitted c open_tun = c.bonding ≡ true
Permitted c (ioctl_tunsetiff name) = (c.bonding ≡ true) × (name ≡ c.tunnel_interface_name)
Permitted c (ioctl_mtu n) = (c.bonding ≡ true) × (n ≡ c.tunnel_interface_mtu)
Permitted c (ioctl_flags up) = c.bonding ≡ true
Permitted c close_tun = c.bonding ≡ true
Permitted c close_gre = c.bonding ≡ true
Permitted c pthread_create = c.bonding ≡ true
Permitted c (pthread_cancel thread) = (c.bonding ≡ true) × (thread ≢ 0)
Permitted c _ = Unit

-- The configuration is `c`, and every call so far was permitted under it.
unfoldable pub IsLawful : Settings → State → Type 0
IsLawful c s = (settings_of s.runtime ≡ c) × All (Permitted c) s.trace

module _ (c : Settings) where
  pub IsLawful-settings : (s : State) → IsLawful c s → settings_of s.runtime ≡ c
  unfolding IsLawful
  IsLawful-settings s h = h.0

  pub IsLawful-calls : (s : State) → IsLawful c s → All (Permitted c) s.trace
  unfolding IsLawful
  IsLawful-calls s h = h.1
