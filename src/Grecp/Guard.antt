-- ===== src/Grecp/Guard.antt =====
-- The checks that stand before every handler: the sender in the main loop (src/openhybrid.c), the
-- flags, the key and the tunnel type in process_grecpmessage (src/grecp.c).
use open_hybrid.Base.{
  ℕ, ◌-◌, ◌/◌, ◌%◌, ◌≤◌, ◌≡◌, ◌⊎◌, inl, inr, refl, ◌∙◌, ap, true, false, ◌&&◌, List, [], ◌∷◌,
  Outcome, ok, fault, stuck, ◌>>=◌, drop, length, length-drop, length-append, ◌==◌, ==_iff, ◌!=◌,
  if◌then◌else◌, arith, Bool-cases, Post, Post-bind, Post-weaken, bytes_eq,
}
use open_hybrid.Bytes.{load16, load32}
use open_hybrid.Bytes.Total.{
  load16-long, load32-long, IsStraight, load16-IsStraight, load32-IsStraight,
}
use open_hybrid.Runtime.{State}
use open_hybrid.Os.{Os}
use open_hybrid.Grecp.{
  grecp_flagsandversion, grecp_tuntype_lte, grecp_tuntype_dsl, grecp_msgtype_accept,
}
use open_hybrid.Grecp.Attribute.{load8}
use open_hybrid.Grecp.Process.{packet, fill, receive, dispatch, process_grecpmessage}
use open_hybrid.Grecp.Table.{Keeps, Reaches-self}
use open_hybrid.Grecp.Tunnels.{dispatch-tunnels}

pub load8-IsStraight : (b : List ℕ) → IsStraight (load8 b)
unfolding load8
load8-IsStraight [] = tt
load8-IsStraight (a ∷ r) = tt

pub load8-long : (b : List ℕ) → 1 ≤ length b → (n : ℕ) × (load8 b ≡ ok n)
unfolding load8
load8-long [] h = absurd (omega arith)
load8-long (x ∷ b) h = (x, refl)

-- A value that was computed is what it was computed as.
Post-self : (m : Outcome ℕ) → IsStraight m → Post Unit (λ x. m ≡ ok x) m
Post-self (ok x) h = refl
Post-self fault h = tt
Post-self stuck h = absurd h

Post-known : (F : Type 0) (m : Outcome ℕ) → (n : ℕ) × (m ≡ ok n) → Post F (λ x. m ≡ ok x) m
Post-known F (ok x) h = refl
Post-known F fault (n, e) = ground arith
Post-known F stuck (n, e) = ground arith

-- A fault is allowed where there is a reason for it.
Post-excuse :
    (F G : Type 0) (P : State → Type 0) (m : Outcome State) → Post F P m → (F → G) → Post G P m
Post-excuse F G P (ok x) h g = h
Post-excuse F G P fault h g = g h
Post-excuse F G P stuck h g = h

-- The message type that a packet carries.
abbrev pub load_msgtype : List ℕ → Outcome ℕ
load_msgtype buffer = load8 (drop 8 buffer) >>= λ byte. ok (byte / 16)

-- A packet that may change the state: the right flags, and the bonding key or an accept message.
abbrev pub IsAdmitted : List ℕ → State → Type 0
IsAdmitted buffer s =
    (load16 buffer ≡ ok grecp_flagsandversion)
    × ((load32 (drop 4 buffer) ≡ ok s.runtime.haap.bonding_key)
        ⊎ (load_msgtype buffer ≡ ok grecp_msgtype_accept))

-- What a packet does: nothing at all, unless it is admitted, and never more than `Keeps` allows.
abbrev pub IsGuarded : List ℕ → State → State → Type 0
IsGuarded buffer s s' = Keeps s s' × ((s' ≡ s) ⊎ IsAdmitted buffer s)

IsGuarded-self : (buffer : List ℕ) (s : State) → IsGuarded buffer s s
IsGuarded-self buffer s = ((Reaches-self s).1, inl refl)

-- The headers can be read, or there is a reason for a fault.
abbrev IsReadable : Type 0 → List ℕ → Type 0
IsReadable F buffer =
    Post F (λ x. load16 buffer ≡ ok x) (load16 buffer)
    × Post F (λ x. load32 (drop 4 buffer) ≡ ok x) (load32 (drop 4 buffer))
    × Post F (λ x. load8 (drop 8 buffer) ≡ ok x) (load8 (drop 8 buffer))

any-IsReadable : (buffer : List ℕ) → IsReadable Unit buffer
any-IsReadable buffer = (
  Post-self _ (load16-IsStraight buffer),
  Post-self _ (load32-IsStraight (drop 4 buffer)),
  Post-self _ (load8-IsStraight (drop 8 buffer)),
)

long-IsReadable : (F : Type 0) (buffer : List ℕ) → 9 ≤ length buffer → IsReadable F buffer
long-IsReadable F buffer h = (
  Post-known F _ (load16-long buffer (omega arith)),
  Post-known F _ (load32-long (drop 4 buffer) (omega (arith, length-drop 4 buffer))),
  Post-known F _ (load8-long (drop 8 buffer) (omega (arith, length-drop 8 buffer))),
)

module _ (os : Os) (buffer : List ℕ) (size : ℕ) (s : State) (h : size ≤ length buffer) (F : Type 0)
    (readable : IsReadable F buffer) (excuse : IsAdmitted buffer s → F) where
  -- The part behind the check of the flags, which reads the key and the types.
  typed :
      (key byte : ℕ)
      → load16 buffer ≡ ok grecp_flagsandversion
      → load32 (drop 4 buffer) ≡ ok key
      → load8 (drop 8 buffer) ≡ ok byte
      → Post F (IsGuarded buffer s) (
          if (key != s.runtime.haap.bonding_key) && (byte / 16 != grecp_msgtype_accept)
          then ok s
          else if (byte % 16 != grecp_tuntype_lte) && (byte % 16 != grecp_tuntype_dsl)
          then ok s
          else dispatch os (byte / 16) (byte % 16) (drop 9 buffer) (size - 8 - 1) s)
  typed key byte f k b =
      elim (Bool-cases
        ((key != s.runtime.haap.bonding_key) && (byte / 16 != grecp_msgtype_accept))) [
          | inl foreign ↦ rw foreign (IsGuarded-self buffer s)
          | inr known ↦
              elim (Bool-cases
                ((byte % 16 != grecp_tuntype_lte) && (byte % 16 != grecp_tuntype_dsl))) [
                  | inl other ↦ rw (known, other) (IsGuarded-self buffer s)
                  | inr tunnel ↦
                      rw (known, tunnel)
                        (Post-excuse Unit F (IsGuarded buffer s) _
                          (Post-weaken Unit _ (IsGuarded buffer s) _
                            (dispatch-tunnels (drop 9 buffer) (size - 8 - 1)
                              (omega (arith, length-drop 9 buffer)) s os (byte % 16) (byte / 16))
                            (λ s' (_, keeps). (keeps, inr (f, admitted known))))
                          (λ _. excuse (f, admitted known)))
                ]
        ]
    where
      admitted :
          ((key != s.runtime.haap.bonding_key) && (byte / 16 != grecp_msgtype_accept)) ≡ false
          → (load32 (drop 4 buffer) ≡ ok s.runtime.haap.bonding_key)
            ⊎ (load_msgtype buffer ≡ ok grecp_msgtype_accept)
      admitted e = elim (Bool-cases (key == s.runtime.haap.bonding_key)) [
        | inl same ↦ inl (k ∙ ap ok ((==_iff _ _).0 same))
        | inr differs ↦ inr (rw b (ap ok (ground arith)))
      ]

  process_grecpmessage-IsGuarded :
      Post F (IsGuarded buffer s) (process_grecpmessage os buffer size s)
  unfolding process_grecpmessage
  process_grecpmessage-IsGuarded =
      Post-bind F (λ f. load16 buffer ≡ ok f) (IsGuarded buffer s) (load16 buffer) _ (readable.0)
        (λ f ef. elim (Bool-cases (f != grecp_flagsandversion)) [
          | inl other ↦ rw other (IsGuarded-self buffer s)
          | inr flags ↦ rw flags (
              Post-bind F (λ key. load32 (drop 4 buffer) ≡ ok key) (IsGuarded buffer s)
                (load32 (drop 4 buffer)) _ (readable.1)
                (λ key k.
                  Post-bind F (λ byte. load8 (drop 8 buffer) ≡ ok byte) (IsGuarded buffer s)
                    (load8 (drop 8 buffer)) _ (readable.2)
                    (λ byte b. typed key byte (ef ∙ ap ok (ground arith)) k b)))
        ])

whole : (bytes buffer : List ℕ) → length bytes ≤ length (fill bytes buffer)
unfolding fill
whole bytes buffer = omega (arith, length-append bytes (drop (length bytes) buffer))

-- What the reception of a packet comes to.
abbrev pub IsReceivedAs : List ℕ → List ℕ → List ℕ → State → List ℕ × State → Type 0
IsReceivedAs sender bytes buffer s r =
    (r.0 ≡ fill bytes buffer)
    × Keeps s (r.1)
    × ((r.1 ≡ s) ⊎ ((bytes_eq sender s.runtime.haap.ip ≡ true) × IsAdmitted (fill bytes buffer) s))

module _ (os : Os) (sender bytes buffer : List ℕ) (s : State) where
  receive-guarded :
      (F : Type 0)
      → IsReadable F (fill bytes buffer)
      → (bytes_eq sender s.runtime.haap.ip ≡ true → IsAdmitted (fill bytes buffer) s → F)
      → Post F (IsReceivedAs sender bytes buffer s) (receive os (packet sender bytes) buffer s)
  unfolding receive
  receive-guarded F readable excuse = elim (Bool-cases (bytes_eq sender s.runtime.haap.ip)) [
    | inl haap ↦ rw haap (
        Post-bind F (IsGuarded (fill bytes buffer) s) _ _ _
          (process_grecpmessage-IsGuarded os (fill bytes buffer) (length bytes) s
            (whole bytes buffer) F readable (excuse haap))
          (λ s' (keeps, reason).
            (refl, keeps, elim reason [ inl e ↦ inl e | inr a ↦ inr (haap, a) ])))
    | inr other ↦ rw other (refl, (Reaches-self s).1, inl refl)
  ]

  -- Without a bound on the buffer.
  pub receive-IsReceivedAs :
      Post Unit (IsReceivedAs sender bytes buffer s) (receive os (packet sender bytes) buffer s)
  receive-IsReceivedAs = receive-guarded Unit (any-IsReadable (fill bytes buffer)) (λ _ _. tt)

  -- A packet arrives at the main loop, from any sender and with any bytes, into a buffer of at least 9
  -- bytes: its handling ends. Unless the packet comes from the concentrator with the right flags, and
  -- has the bonding key or is an accept message, it changes nothing of the state and accesses no
  -- memory that C leaves undefined. If it accesses none, it keeps all that the record `Keeps` lists.
  pub receive-IsGuarded :
      9 ≤ length buffer
      → Post
          ((bytes_eq sender s.runtime.haap.ip ≡ true) × IsAdmitted (fill bytes buffer) s)
          (IsReceivedAs sender bytes buffer s)
          (receive os (packet sender bytes) buffer s)
  unfolding fill
  receive-IsGuarded room =
      receive-guarded _
        (long-IsReadable _ (fill bytes buffer) (
          omega (
            arith,
            length-append bytes (drop (length bytes) buffer),
            length-drop (length bytes) buffer,
          )))
        (λ haap admitted. (haap, admitted))
