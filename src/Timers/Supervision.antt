-- ===== src/Timers/Supervision.antt =====
-- The supervision of the LTE tunnel by hello messages, in execute_timers (src/openhybrid.c), over
-- any number of rounds without an answer.
use open_hybrid.Base.{
  ℕ, zero, suc, ◌+◌, ◌≤◌, ◌<◌, ◌≡◌, refl, ◌∙◌, inl, inr, true, false, List, ◌∷◌, ltb, leb, ltb→lt,
  ◌!=◌, arith, Bool-cases, ap, bytes_eq,
}
use mathlib.Core.Path.{ap₂}
use open_hybrid.Bytes.{u8, u32, IsU32}
use open_hybrid.Runtime.{Call, State, set_lte}
use open_hybrid.Os.{Os, called, no_ip6}
use open_hybrid.Grecp.{grecp_tuntype_lte}
use open_hybrid.Grecp.Message.{send_grecphello, send_grecpmessage}
use open_hybrid.Timers.Tunnels.{hello_lte, check_lte}

-- One round of execute_timers, as far as the supervision of the LTE tunnel goes.
abbrev pub supervise : Os → State → State
supervise os s = check_lte (hello_lte os s)

unfoldable pub supervise_times : Os → ℕ → State → State
supervise_times os zero s = s
supervise_times os (suc n) s = supervise_times os n (supervise os s)

-- CLOCK_MONOTONIC never goes back, and the host has been up for less than 2^32 seconds.
abbrev pub IsClock : Os → Type 0
IsClock os =
    ((c : Call) (t : List Call) → os.clock_sec t ≤ os.clock_sec (c ∷ t))
    × ((t : List Call) → IsU32 (os.clock_sec t))

-- In each of n rounds, a hello message is due if the tunnel is still up.
unfoldable pub IsDue : Os → ℕ → State → Type 0
IsDue os zero s = Unit
IsDue os (suc n) s =
    (s.runtime.lte.tunnel_established ≡ true
      → s.runtime.lte.last_hello_sent + s.runtime.haap.active_hello_interval < os.clock_sec s.trace)
    × IsDue os n (supervise os s)

-- send_grecphello leaves everything but the time of the last hello, and the calls, as it was.
send_grecphello-lte :
    (os : Os) (s : State)
    → IsClock os
    → let t = (send_grecphello os grecp_tuntype_lte s).1 in
      (t.runtime.lte.tunnel_established ≡ s.runtime.lte.tunnel_established)
      × (t.runtime.lte.missed_hellos ≡ s.runtime.lte.missed_hellos)
      × (t.runtime.haap ≡ s.runtime.haap)
      × (t.runtime.lte.last_hello_received ≡ s.runtime.lte.last_hello_received)
      × (t.runtime.lte.last_hello_sent ≡ os.clock_sec s.trace)
unfolding send_grecphello send_grecpmessage
send_grecphello-lte os s (mono, u) =
    let e : u32 (os.clock_sec s.trace) ≡ os.clock_sec s.trace = omega (arith, u s.trace) in
    elim (Bool-cases (bytes_eq s.runtime.lte.interface_ip no_ip6)) [
      | inl b ↦ rw b (refl, refl, refl, refl, e)
      | inr b ↦ rw b (refl, refl, refl, refl, e)
    ]

pub hello_lte_step :
    (os : Os) (s : State)
    → s.runtime.lte.tunnel_established ≡ true
    → ltb
        (s.runtime.lte.last_hello_sent + s.runtime.haap.active_hello_interval)
        (os.clock_sec s.trace)
      ≡ true
    → s.runtime.lte.last_hello_received != s.runtime.lte.last_hello_sent ≡ true
    → hello_lte os s
      ≡ (send_grecphello os grecp_tuntype_lte (
          set_lte
            (called Call.clock_gettime s)
            (record s.runtime.lte { missed_hellos = u8 (s.runtime.lte.missed_hellos + 1) }))).1
unfolding hello_lte
hello_lte_step os s up is_due unanswered = simp (up, is_due, unanswered) refl

pub check_lte_step :
    (s : State)
    → s.runtime.lte.tunnel_established ≡ true
    → let t = check_lte s in
      (t.runtime.lte.tunnel_established
        ≡ ltb s.runtime.lte.missed_hellos s.runtime.haap.hello_retry_times)
      × (t.runtime.lte.missed_hellos ≡ s.runtime.lte.missed_hellos)
      × (t.runtime.haap ≡ s.runtime.haap)
      × (t.runtime.lte.last_hello_received ≡ s.runtime.lte.last_hello_received)
      × (t.runtime.lte.last_hello_sent ≡ s.runtime.lte.last_hello_sent)
unfolding check_lte
check_lte_step s up =
    elim (Bool-cases (leb s.runtime.haap.hello_retry_times s.runtime.lte.missed_hellos)) [
      | inl k ↦ simp (up, k) (ground arith, refl, refl, refl, refl)
      | inr k ↦ simp (up, k) (ground arith, refl, refl, refl, refl)
    ]

-- A due hello on a tunnel that is up and has one outstanding.
pub hello_lte-due :
    (os : Os) (s : State)
    → IsClock os
    → s.runtime.lte.tunnel_established ≡ true
    → s.runtime.lte.last_hello_received < s.runtime.lte.last_hello_sent
    → s.runtime.lte.missed_hellos < 255
    → s.runtime.lte.last_hello_sent + s.runtime.haap.active_hello_interval < os.clock_sec s.trace
    → let t = hello_lte os s in
      (t.runtime.lte.tunnel_established ≡ true)
      × (t.runtime.lte.missed_hellos ≡ s.runtime.lte.missed_hellos + 1)
      × (t.runtime.haap ≡ s.runtime.haap)
      × (t.runtime.lte.last_hello_received ≡ s.runtime.lte.last_hello_received)
      × (s.runtime.lte.last_hello_sent < t.runtime.lte.last_hello_sent)
hello_lte-due os s (mono, u) up out m due =
    let is_due : ltb (s.runtime.lte.last_hello_sent + s.runtime.haap.active_hello_interval)
          (os.clock_sec s.trace)
        ≡ true =
      ground arith in
    let unanswered : s.runtime.lte.last_hello_received != s.runtime.lte.last_hello_sent ≡ true =
      ground arith in
    let missed : u8 (s.runtime.lte.missed_hellos + 1) ≡ s.runtime.lte.missed_hellos + 1 =
      omega arith in
    let s1 = called Call.clock_gettime s in
    let s2 =
      set_lte s1
        (record (s1.runtime.lte) { missed_hellos = u8 (s.runtime.lte.missed_hellos + 1) }) in
    let (a, b, c, d, e) = send_grecphello-lte os s2 (mono, u) in
    let later : os.clock_sec s.trace ≤ os.clock_sec (Call.clock_gettime ∷ s.trace) =
      mono Call.clock_gettime s.trace in
    rw (hello_lte_step os s up is_due unanswered)
      (a ∙ up, b ∙ missed, c, d, omega (arith, e, later))

-- What a round without an answer does to a tunnel that is up and has a hello outstanding.
supervise_silent :
    (os : Os) (s : State)
    → IsClock os
    → s.runtime.lte.tunnel_established ≡ true
    → s.runtime.lte.last_hello_received < s.runtime.lte.last_hello_sent
    → s.runtime.lte.missed_hellos < s.runtime.haap.hello_retry_times
    → s.runtime.haap.hello_retry_times < 256
    → s.runtime.lte.last_hello_sent + s.runtime.haap.active_hello_interval < os.clock_sec s.trace
    → let t = supervise os s in
      (t.runtime.lte.tunnel_established
        ≡ ltb (s.runtime.lte.missed_hellos + 1) s.runtime.haap.hello_retry_times)
      × (t.runtime.lte.missed_hellos ≡ s.runtime.lte.missed_hellos + 1)
      × (t.runtime.haap ≡ s.runtime.haap)
      × (t.runtime.lte.last_hello_received < t.runtime.lte.last_hello_sent)
supervise_silent os s c up out m r due =
    let (a, b, h, d, e) = hello_lte-due os s c up out (omega arith) due in
    let (a', b', h', d', e') = check_lte_step (hello_lte os s) a in
    (a' ∙ ap₂ ltb b (ap (λ x. x.hello_retry_times) h), b' ∙ b, h' ∙ h, omega (arith, d, e, d', e'))

-- Down is down: supervision does nothing more.
supervise_down :
    (os : Os) (s : State)
    → s.runtime.lte.tunnel_established ≡ false
    → (supervise os s).runtime.lte.tunnel_established ≡ false
unfolding hello_lte check_lte
supervise_down os s e = simp e refl

supervise_times_down :
    (os : Os) (n : ℕ) (s : State)
    → s.runtime.lte.tunnel_established ≡ false
    → (supervise_times os n s).runtime.lte.tunnel_established ≡ false
unfolding supervise_times
supervise_times_down os zero s e = e
supervise_times_down os (suc n) s e =
    supervise_times_down os n (supervise os s) (supervise_down os s e)

-- The LTE tunnel is up with a hello outstanding and fewer missed than the retry times, the retry
-- times fit the 8 bits of the counter, the clock never goes back nor beyond 32 bits of seconds, and
-- no answer comes. After n rounds, in each of which a hello is due if the tunnel is still up, it is
-- up exactly if the hellos missed before and these n are fewer than the retry times.
pub supervise_times-silent :
    (os : Os) (n : ℕ) (s : State)
    → IsClock os
    → s.runtime.lte.tunnel_established ≡ true
    → s.runtime.lte.last_hello_received < s.runtime.lte.last_hello_sent
    → s.runtime.lte.missed_hellos < s.runtime.haap.hello_retry_times
    → s.runtime.haap.hello_retry_times < 256
    → IsDue os n s
    → (supervise_times os n s).runtime.lte.tunnel_established
      ≡ ltb (s.runtime.lte.missed_hellos + n) s.runtime.haap.hello_retry_times
unfolding supervise_times IsDue
supervise_times-silent os zero s c up out m r d = up ∙ ground arith
supervise_times-silent os (suc n) s c up out m r (d, ds) =
    let (a, b, h, o) = supervise_silent os s c up out m r (d up) in
    let h' = ap (λ x. x.hello_retry_times) h in
    elim (Bool-cases (ltb (s.runtime.lte.missed_hellos + 1) s.runtime.haap.hello_retry_times)) [
      | inl k ↦
          supervise_times-silent os n (supervise os s) c (a ∙ k) o
            (omega (arith, b, h', ltb→lt _ _ k)) (omega (arith, h')) ds
          ∙ ap₂ ltb (omega (arith, b)) h'
      | inr k ↦ supervise_times_down os n (supervise os s) (a ∙ k) ∙ ground arith
    ]
