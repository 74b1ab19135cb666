-- ===== src/Event/Environment.antt =====
-- The processes that trigger_event in src/event.c makes for the script, and the environment that is
-- built for it: up to 16 texts in arrays of 64 bytes. sprintf behind the end of one is a fault.
use open_hybrid.Base.{
  ℕ, ◌+◌, ◌≤◌, ◌<◌, true, ◌&&◌, List, [], ◌∷◌, ◌++◌, length, All, ltb, if◌then◌else◌, Outcome, ok,
  fault, ◌>>=◌, arith, append-nil, append_assoc, ap, ◌≡◌, refl, ◌∙◌, length-append, Bool-cases, inl,
  inr,
}
use open_hybrid.Base.Text.{codes, decimal}
use open_hybrid.Runtime.{
  Runtime, Event, startup, shutdown, tunnelup, tunneldown, dhcpup_ip, dhcpup_ip6, dhcpdown_ip,
  dhcpdown_ip6,
}
use open_hybrid.Os.{Os}

abbrev pub max_env_vars : ℕ
max_env_vars = 16

abbrev pub max_env_var_length : ℕ
max_env_var_length = 64

-- sprintf(env[i++], ...) of a text, where `env` holds the first i entries.
unfoldable pub add_var : List ℕ → List (List ℕ) → Outcome (List (List ℕ))
add_var text env =
    if ltb (length env) max_env_vars && ltb (length text) max_env_var_length
    then ok (env ++ text ∷ [])
    else fault

-- env[i++] = NULL.
unfoldable pub end_env : List (List ℕ) → Outcome (List (List ℕ))
end_env env = if ltb (length env) max_env_vars then ok env else fault

-- The texts in the order in which they are written: the interfaces, the MTU and the first client's
-- lease, and then the prefix.
unfoldable pub env_texts_ip : Os → Runtime → List (List ℕ)
env_texts_ip os r =
    (codes "lte_interface_name=" ++ r.lte.interface_name)
      ∷ (if r.bonding then (codes "dsl_interface_name=" ++ r.dsl.interface_name) ∷ [] else [])
    ++ (codes "tunnel_interface_name=" ++ r.tunnel_interface_name)
      ∷ (codes "tunnel_interface_mtu=" ++ decimal r.tunnel_interface_mtu)
      ∷ (codes "dhcp_ip=" ++ os.inet_ntop r.dhcp.ip)
      ∷ (codes "dhcp_lease_time=" ++ decimal r.dhcp.lease_time)
      ∷ []

unfoldable pub env_texts : Os → Runtime → List (List ℕ)
unfolding env_texts_ip
env_texts os r =
    env_texts_ip os r
    ++ (codes "dhcp6_prefix_address=" ++ os.inet_ntop6 r.dhcp6.prefix_address)
      ∷ (codes "dhcp6_prefix_length=" ++ decimal r.dhcp6.prefix_length)
      ∷ (codes "dhcp6_lease_time=" ++ decimal r.dhcp6.lease_time)
      ∷ []

unfoldable pub add_vars : List (List ℕ) → List (List ℕ) → Outcome (List (List ℕ))
add_vars [] env = end_env env
add_vars (text ∷ texts) env = add_var text env >>= add_vars texts

unfoldable pub environment : Os → Runtime → Outcome (List (List ℕ))
unfolding add_vars env_texts
environment os r = add_vars (env_texts os r) []

-- The argument that the script gets.
abbrev pub event_name : Event → List ℕ
event_name startup = codes "startup"
event_name shutdown = codes "shutdown"
event_name tunnelup = codes "tunnelup"
event_name tunneldown = codes "tunneldown"
event_name dhcpup_ip = codes "dhcpup_ip"
event_name dhcpup_ip6 = codes "dhcpup_ip6"
event_name dhcpdown_ip = codes "dhcpdown_ip"
event_name dhcpdown_ip6 = codes "dhcpdown_ip6"

-- What the second fork comes to, which the child of the first one makes: a failure, or one of the two
-- processes that go on from there.
pub data Forked : Type 0 where
  failed : Forked
  child : Forked
  parent : Forked

-- How such a process ends: by an exit, or by turning into the script, with its path, the name of the
-- event and the environment.
pub data Fate : Type 0 where
  exits : ℕ → Fate
  executes : List ℕ → List ℕ → List (List ℕ) → Fate

-- The size of the array event_script_path in `runtime`. A path that fills it has no end there.
abbrev pub max_script_path : ℕ
max_script_path = 128

-- The child of the first fork, from the second one on. execle reads the path to its end. Where execle
-- fails, the child of the second one exits with 1; that is not modelled.
unfoldable pub child_process : Os → Runtime → Event → Forked → Outcome Fate
child_process os r name failed = ok (exits 1)
child_process os r name child = environment os r >>= λ env.
    if ltb (length r.event_script_path) max_script_path
    then ok (executes r.event_script_path (event_name name) env)
    else fault
child_process os r name parent = ok (exits 0)

add_var-short :
    (text : List ℕ) (env : List (List ℕ))
    → length env < 16
    → length text < 64
    → add_var text env ≡ ok (env ++ text ∷ [])
unfolding add_var
add_var-short text env room h = ground arith

-- Short texts are all written, if there is room for them and for the end.
pub add_vars-short :
    (texts env : List (List ℕ))
    → length texts + length env < 16
    → All (λ text. length text < 64) texts
    → add_vars texts env ≡ ok (env ++ texts)
unfolding add_vars end_env
add_vars-short [] env room h =
    let last : ltb (length env) 16 ≡ true = ground arith in simp (last, append-nil env) refl
add_vars-short (text ∷ texts) env room (h, hs) =
    let more : length texts + length (env ++ text ∷ []) < 16 =
      omega (arith, length-append env (text ∷ [])) in
    ap (λ m. m >>= add_vars texts) (add_var-short text env (omega arith) h)
    ∙ add_vars-short texts (env ++ text ∷ []) more hs
    ∙ ap ok (append_assoc env (text ∷ []) texts)

-- A text of 64 characters is a fault, whatever is written before it.
add_var-long : (text : List ℕ) (env : List (List ℕ)) → 64 ≤ length text → add_var text env ≡ fault
unfolding add_var
add_var-long text env h = ground arith

pub add_vars-long :
    (before after env : List (List ℕ)) (text : List ℕ)
    → 64 ≤ length text
    → add_vars (before ++ text ∷ after) env ≡ fault
unfolding add_vars add_var
add_vars-long [] after env text h = ap (λ m. m >>= add_vars after) (add_var-long text env h)
add_vars-long (b ∷ before) after env text h =
    elim (Bool-cases (ltb (length env) max_env_vars && ltb (length b) max_env_var_length)) [
      | inl e ↦ simp (e) (add_vars-long before after (env ++ b ∷ []) text h)
      | inr e ↦ simp (e) refl
    ]
