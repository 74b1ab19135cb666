-- ===== src/Grecp/Tunnels.antt =====
-- What a control message does to the two tunnels (src/grecp.c, src/grecp_*.c), against a table of
-- the message types, and what no message touches.
use open_hybrid.Base.{
  ℕ, ◌≤◌, ◌≡◌, inl, inr, refl, Bool, false, List, ok, ◌>>=◌, length, ◌==◌, arith, Bool-cases, Post,
  Post-bind,
}
use open_hybrid.Bytes.Total.{IsStraight, Post-map, load32-IsStraight}
use open_hybrid.Runtime.{State}
use open_hybrid.Os.{Os}
use open_hybrid.Grecp.{
  grecp_msgtype_accept, grecp_msgtype_deny, grecp_msgtype_hello, grecp_msgtype_teardown,
  grecp_msgtype_notify,
}
use open_hybrid.Grecp.Attribute.{Attr, for_attributes}
use open_hybrid.Grecp.Attribute.Loop.{for_attributes-Post}
use open_hybrid.Grecp.Handlers.{
  accept_attribute, handle_grecpaccept, errorcode_attribute, handle_grecpdeny, handle_grecpteardown,
  hello_attribute, handle_grecphello, notify_attribute, handle_grecpnotify,
}
use open_hybrid.Grecp.Process.{dispatch}
use open_hybrid.Grecp.Table.{
  tunnels, tunnels_after, Keeps, Reaches, Reaches-self, accept_attribute-Reaches,
  notify_attribute-Reaches, accept_established-Reaches, hello_attribute-Reaches,
}

pub errorcode_attribute-IsStraight :
    (a : Attr) (errorcode : ℕ)
    → a.length ≤ length a.value
    → Unit {0}
    → IsStraight (errorcode_attribute a errorcode)
unfolding errorcode_attribute
errorcode_attribute-IsStraight a errorcode h _ = elim (Bool-cases (a.id == 17)) [
  | inl e ↦ rw e (load32-IsStraight a.value)
  | inr e ↦ rw e tt
]

after_other :
    (msgtype tuntype : ℕ) (t : Bool × Bool)
    → (msgtype == grecp_msgtype_accept) ≡ false
    → (msgtype == grecp_msgtype_teardown) ≡ false
    → tunnels_after msgtype tuntype t ≡ t
after_other msgtype tuntype (lte, dsl) e f = rw (e, f) refl

module _ (buffer : List ℕ) (size : ℕ) (h : size ≤ length buffer) (s : State) where
  errorcode-IsStraight : IsStraight (for_attributes errorcode_attribute buffer size 0)
  errorcode-IsStraight =
      for_attributes-Post Unit (λ _. Unit) errorcode_attribute errorcode_attribute-IsStraight buffer
        size 0 h tt

  deny-Reaches :
      Post Unit (Reaches (tunnels s) s) (handle_grecpdeny buffer size s >>= λ (_, s'). ok s')
  unfolding handle_grecpdeny
  deny-Reaches =
      Post-bind Unit (λ r. Reaches (tunnels s) s (r.1)) (Reaches (tunnels s) s)
        (handle_grecpdeny buffer size s) _
        (Post-map (λ r. Reaches (tunnels s) s (r.1))
          (for_attributes errorcode_attribute buffer size 0) (λ errorcode. (errorcode, s))
          errorcode-IsStraight (λ errorcode. Reaches-self s))
        (λ r reaches. reaches)

  teardown-Reaches :
      Post Unit (Reaches (false, false) s) (handle_grecpteardown buffer size s >>= λ (_, s'). ok s')
  unfolding handle_grecpteardown
  teardown-Reaches =
      Post-bind Unit (λ r. Reaches (false, false) s (r.1)) (Reaches (false, false) s)
        (handle_grecpteardown buffer size s) _
        (Post-map (λ r. Reaches (false, false) s (r.1))
          (for_attributes errorcode_attribute buffer size 0) _ errorcode-IsStraight
          (λ errorcode. ground arith))
        (λ r reaches. reaches)

  notify-Reaches : Post Unit (Reaches (tunnels s) s) (handle_grecpnotify buffer size s)
  unfolding handle_grecpnotify
  notify-Reaches =
      for_attributes-Post Unit (Reaches (tunnels s) s) notify_attribute
        (λ a x _ r. notify_attribute-Reaches s a x r) buffer size s h (Reaches-self s)

  module _ (os : Os) (tuntype : ℕ) where
    hello-Reaches : Post Unit (Reaches (tunnels s) s) (handle_grecphello os tuntype buffer size s)
    unfolding handle_grecphello
    hello-Reaches =
        for_attributes-Post Unit (Reaches (tunnels s) s) (hello_attribute os tuntype)
          (λ a x _ r. hello_attribute-Reaches s os tuntype a x r) buffer size s h (Reaches-self s)

    accept-Reaches :
        Post Unit
          (Reaches (tunnels_after grecp_msgtype_accept tuntype (tunnels s)) s)
          (handle_grecpaccept os tuntype buffer size s)
    unfolding handle_grecpaccept
    accept-Reaches =
        Post-bind Unit (Reaches (tunnels s) s)
          (Reaches (tunnels_after grecp_msgtype_accept tuntype (tunnels s)) s) _ _
          (for_attributes-Post Unit (Reaches (tunnels s) s) accept_attribute
            (λ a x _ r. accept_attribute-Reaches s a x r) buffer size s h (Reaches-self s))
          (λ x r. accept_established-Reaches s os tuntype x r)

    -- The attributes of a message of any type for any tunnel, in a buffer that holds them: its
    -- handler ends, moves the two tunnels as the table says, and keeps all that the record `Keeps`
    -- lists; or it accesses memory that C leaves undefined.
    pub dispatch-tunnels :
        (msgtype : ℕ)
        → Post Unit
            (λ s'. (tunnels s' ≡ tunnels_after msgtype tuntype (tunnels s)) × Keeps s s')
            (dispatch os msgtype tuntype buffer size s)
    unfolding dispatch
    dispatch-tunnels msgtype = elim (Bool-cases (msgtype == grecp_msgtype_accept)) [
      | inl e ↦ rw e accept-Reaches
      | inr e0 ↦ elim (Bool-cases (msgtype == grecp_msgtype_deny)) [
        | inl e ↦ rw (after_other msgtype tuntype _ e0 (ground arith)) (rw (e0, e) deny-Reaches)
        | inr e1 ↦ elim (Bool-cases (msgtype == grecp_msgtype_hello)) [
          | inl e ↦
              rw (after_other msgtype tuntype _ e0 (ground arith)) (rw (e0, e1, e) hello-Reaches)
          | inr e2 ↦ elim (Bool-cases (msgtype == grecp_msgtype_teardown)) [
            | inl e ↦ rw (e0, e1, e2, e) teardown-Reaches
            | inr e3 ↦ elim (Bool-cases (msgtype == grecp_msgtype_notify)) [
              | inl e ↦
                  rw (after_other msgtype tuntype _ e0 e3) (rw (e0, e1, e2, e3, e) notify-Reaches)
              | inr e4 ↦
                  rw (after_other msgtype tuntype _ e0 e3)
                    (rw (e0, e1, e2, e3, e4) (Reaches-self s))
            ]
          ]
        ]
      ]
    ]
