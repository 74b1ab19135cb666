-- ===== src/Sections/Watched.antt =====
-- What a round of execute_timers (src/openhybrid.c) does to the supervision of the LTE tunnel.
use open_hybrid.Base.{
  ℕ, ◌+◌, ◌<◌, ◌≡◌, refl, ap, ◌∙◌, ◌⊎◌, inl, inr, Bool, true, false, ltb, Bool-cases, arith,
}
use mathlib.Core.Path.{ap₂}
use open_hybrid.Runtime.{State}
use open_hybrid.Os.{Os}
use open_hybrid.Timers.{execute_timers}
use open_hybrid.Timers.Tunnels.{
  hello_lte, hello_dsl, check_lte, check_dsl, bypass_bandwidth, keep_tunnels,
}
use open_hybrid.Timers.Session.{reset_lte, reset_haap, reset_stats}
use open_hybrid.Timers.Supervision.{IsClock, hello_lte-due, check_lte_step}
use open_hybrid.Sections.{IsClosed, IsClosedLte}
use open_hybrid.Sections.Tunnels.{
  before_hello, before_hello-keeps, hello_dsl-keeps, after_check-keeps,
}
use open_hybrid.Sections.Session.{last_state, reset_lte-keeps}
use open_hybrid.Sections.Whole.{after_lte, after_lte-keeps}

-- What the supervision of the LTE tunnel goes by.
abbrev pub watched : State → Bool × ℕ × ℕ × ℕ × ℕ
watched s = (
  s.runtime.lte.tunnel_established, s.runtime.lte.missed_hellos, s.runtime.lte.last_hello_sent,
  s.runtime.lte.last_hello_received, s.runtime.haap.hello_retry_times,
)

-- Every update but those of the hello messages keeps whatever is said of this.
pub watched-IsClosed :
    (os : Os) (Q : Bool × ℕ × ℕ × ℕ × ℕ → Type 0) → IsClosed os (λ s. Q (watched s))
unfolding reset_haap
watched-IsClosed os Q = record {
  call = λ c s p h. h;
  lte_ip = λ s h. h;
  dsl_ip = λ s h. h;
  acked = λ b s h. h;
  verification = λ b s h. h;
  dsl_missed = λ n s h. h;
  dsl_sent = λ n s h. h;
  dsl_down = λ s h. h;
  dsl_reset = λ s h. h;
  bypass = λ n s h. h;
  session = λ s h. h;
  dhcp = λ d s h. h;
  dhcp6 = λ d s h. h;
  created = λ b s h. h;
  gre2tun = λ n s h. h;
  tun2gre = λ n s h. h;
  gre_socket = λ n s h. h;
  tun_socket = λ fd s h. h;
}

-- The tunnel is down.
abbrev pub IsDown : State → Type 0
IsDown s = s.runtime.lte.tunnel_established ≡ false

pub IsDown-IsClosed : (os : Os) → IsClosed os IsDown
IsDown-IsClosed os = watched-IsClosed os (λ w. w.0 ≡ false)

pub IsDown-IsClosedLte : IsClosedLte IsDown
IsDown-IsClosedLte = record {
  hello = record { missed = λ n s h. h; sent = λ n s h. h };
  down = λ s h. refl;
  reset = λ s h. refl;
}

-- The tunnel is up with a hello outstanding and fewer missed than the retry times.
abbrev pub IsWaiting : State → Type 0
IsWaiting s =
    (s.runtime.lte.tunnel_established ≡ true)
    × (s.runtime.lte.last_hello_received < s.runtime.lte.last_hello_sent)
    × (s.runtime.lte.missed_hellos < s.runtime.haap.hello_retry_times)
    × (s.runtime.haap.hello_retry_times < 256)

-- One more hello is missed, and the tunnel is up exactly if there are still fewer than the retry times.
abbrev IsNext : State → State → Type 0
IsNext s t =
    (t.runtime.lte.tunnel_established
      ≡ ltb (s.runtime.lte.missed_hellos + 1) s.runtime.haap.hello_retry_times)
    × (t.runtime.lte.missed_hellos ≡ s.runtime.lte.missed_hellos + 1)
    × (t.runtime.lte.last_hello_received < t.runtime.lte.last_hello_sent)
    × (t.runtime.haap.hello_retry_times ≡ s.runtime.haap.hello_retry_times)

IsWaiting-watched : (s t : State) → watched t ≡ watched s → IsWaiting s → IsWaiting t
IsWaiting-watched s t e h = ground arith

IsNext-before : (s s' t : State) → watched s' ≡ watched s → IsNext s' t → IsNext s t
IsNext-before s s' t e h = ground arith

IsNext-after : (s t t' : State) → watched t' ≡ watched t → IsNext s t → IsNext s t'
IsNext-after s t t' e h = ground arith

module _ (os : Os) (c : IsClock os) where
  -- The hello message and the check, with that of the DSL tunnel in between.
  supervised-IsNext :
      (s : State)
      → IsWaiting s
      → s.runtime.lte.last_hello_sent + s.runtime.haap.active_hello_interval < os.clock_sec s.trace
      → IsNext s (check_lte (hello_dsl os (hello_lte os s)))
  supervised-IsNext s (up, out, m, r) due =
      let s1 = hello_lte os s in
      let s2 = hello_dsl os s1 in
      let (a, b, h, d, e) = hello_lte-due os s c up out (omega arith) due in
      let same = hello_dsl-keeps os _ (watched-IsClosed os (λ w. w ≡ watched s1)) s1 refl in
      let (a', b', h', d', e') = check_lte_step s2 (ap (λ w. w.0) same ∙ a) in
      let retries = ap (λ x. x.hello_retry_times) h in
      let retries' = ap (λ x. x.hello_retry_times) h' in
      let missed = ap (λ w. w.1) same ∙ b in
      let kept = ap (λ w. w.4) same ∙ retries in
      (
        a' ∙ ap₂ ltb missed kept,
        b' ∙ missed,
        omega (arith, d', e', ap (λ w. w.2) same, ap (λ w. w.3) same, d, e),
        retries' ∙ kept,
      )

  -- The sections up to the reset.
  keep_tunnels-IsNext :
      (s : State)
      → IsWaiting s
      → (let t = before_hello os s in
          t.runtime.lte.last_hello_sent + t.runtime.haap.active_hello_interval
          < os.clock_sec t.trace)
      → IsNext s (keep_tunnels os s)
  unfolding keep_tunnels before_hello
  keep_tunnels-IsNext s h due =
      let s4 = before_hello os s in
      let same = before_hello-keeps os _ (watched-IsClosed os (λ w. w ≡ watched s)) s refl in
      let s7 = check_lte (hello_dsl os (hello_lte os s4)) in
      IsNext-after s s7 (bypass_bandwidth os (check_dsl s7))
        (after_check-keeps os _ (watched-IsClosed os (λ w. w ≡ watched s7)) s7 refl)
        (IsNext-before s s4 s7 same (supervised-IsNext s4 (IsWaiting-watched s s4 same h) due))

  -- What a round leaves: the tunnel is down, or waits for one more hello message.
  abbrev pub Follows : State → State → Type 0
  Follows s t =
      (IsDown t × (ltb (s.runtime.lte.missed_hellos + 1) s.runtime.haap.hello_retry_times ≡ false))
      ⊎ (IsWaiting t
          × (t.runtime.lte.missed_hellos ≡ s.runtime.lte.missed_hellos + 1)
          × (t.runtime.haap.hello_retry_times ≡ s.runtime.haap.hello_retry_times))

  pub execute_timers-Follows :
      (s : State)
      → IsWaiting s
      → (let t = before_hello os s in
          t.runtime.lte.last_hello_sent + t.runtime.haap.active_hello_interval
          < os.clock_sec t.trace)
      → Follows s (last_state (execute_timers os s))
  unfolding execute_timers reset_stats after_lte reset_lte
  execute_timers-Follows s h due =
      let s1 = keep_tunnels os s in
      let next = keep_tunnels-IsNext s h due in
      elim (Bool-cases (ltb (s.runtime.lte.missed_hellos + 1) s.runtime.haap.hello_retry_times)) [
        | inl more ↦
            let up : s1.runtime.lte.tunnel_established ≡ true = next.0 ∙ more in
            let same : watched (reset_lte s1) ≡ watched s1 = simp up refl in
            let last = last_state (after_lte os (reset_lte s1)) in
            let kept =
              after_lte-keeps os _ (watched-IsClosed os (λ w. w ≡ watched s1)) (λ x h. h)
                (reset_lte s1) same in
            inr (waits s s1 last h next more kept)
        | inr fewer ↦
            let down =
              reset_lte-keeps os IsDown (IsDown-IsClosed os) s1 IsDown-IsClosedLte
                (next.0 ∙ fewer) in
            inl
              (after_lte-keeps os IsDown (IsDown-IsClosed os) (λ x h. h) (reset_lte s1) down, fewer)
      ]
    where
      waits :
          (s s1 t : State)
          → IsWaiting s
          → IsNext s s1
          → ltb (s.runtime.lte.missed_hellos + 1) s.runtime.haap.hello_retry_times ≡ true
          → watched t ≡ watched s1
          → IsWaiting t
            × (t.runtime.lte.missed_hellos ≡ s.runtime.lte.missed_hellos + 1)
            × (t.runtime.haap.hello_retry_times ≡ s.runtime.haap.hello_retry_times)
      waits s s1 t h next more kept = ground arith
