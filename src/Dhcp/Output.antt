-- ===== src/Dhcp/Output.antt =====
-- What the script of the DHCP clients echoes, and what process_udhcpc_output and
-- process_udhcpc6_output of src/dhcp.c make of it.
use mathlib.Core.List.{reverse, reverse_aux, reverse-reverse}
use open_hybrid.Base.{
  ℕ, zero, suc, ◌≤◌, List, [], ◌∷◌, ◌++◌, some, ◌==◌, ◌!=◌, false, true, length, take, All,
  All-append, ◌≡◌, refl, ap, ◌∙◌, arith,
}
use open_hybrid.Base.Text.{codes, IsPlain}
use open_hybrid.Event.Frame.{trigger_event-runtime}
use open_hybrid.Dhcp.Printed.{printed, printed6}
use open_hybrid.Runtime.{dhcpup_ip, dhcpup_ip6, State, Call, set_dhcp, set_dhcp6}
use open_hybrid.Os.{Os, called}
use open_hybrid.Dhcp.{
  end_line, strtok_lines, after_prefix, to_u32, to_u8, or_else, udhcpc_line, udhcpc_lines,
  udhcpc6_line, udhcpc6_lines, udhcpc_obtained, udhcpc6_obtained, process_udhcpc_output,
  process_udhcpc6_output,
}

-- What the script echoes on "bound" for an address, and for a prefix.
abbrev pub udhcpc_output : List ℕ → List ℕ → List ℕ
udhcpc_output ip lease = (codes "ip=" ++ ip) ++ 10 ∷ ((codes "lease=" ++ lease) ++ 10 ∷ [])

abbrev pub udhcpc6_output : List ℕ → List ℕ → List ℕ → List ℕ
udhcpc6_output address bits lease =
    (codes "prefix_address=" ++ address)
    ++ 10 ∷ ((codes "prefix_length=" ++ bits) ++ 10 ∷ ((codes "lease=" ++ lease) ++ 10 ∷ []))

take-all : (n : ℕ) (xs : List ℕ) → length xs ≤ n → take n xs ≡ xs
take-all zero [] h = refl
take-all zero (x ∷ xs) h = absurd (omega arith)
take-all (suc n) [] h = refl
take-all (suc n) (x ∷ xs) h = ap (◌∷◌ x) (take-all n xs (omega arith))

strtok_lines-plain :
    (line text back : List ℕ)
    → All IsPlain line
    → strtok_lines (line ++ 10 ∷ text) back
      ≡ end_line (reverse_aux line back) (strtok_lines text [])
unfolding strtok_lines
strtok_lines-plain [] text back h = refl
strtok_lines-plain (c ∷ line) text back ((z, n), h) =
    ground (arith, strtok_lines-plain line text (c ∷ back) h)

end_line-aux :
    (back : List ℕ) (x : ℕ) (xs : List ℕ) (rest : List (List ℕ))
    → reverse back ≡ x ∷ xs
    → end_line back rest ≡ (x ∷ xs) ∷ rest
unfolding end_line
end_line-aux [] x xs rest e = ground arith
end_line-aux (b ∷ back) x xs rest e = ap (λ p. p ∷ rest) e

-- A line that is not empty is a piece.
strtok_lines-line :
    (c : ℕ) (line text : List ℕ)
    → All IsPlain (c ∷ line)
    → strtok_lines ((c ∷ line) ++ 10 ∷ text) [] ≡ (c ∷ line) ∷ strtok_lines text []
strtok_lines-line c line text h =
    strtok_lines-plain (c ∷ line) text [] h
    ∙ end_line-aux (reverse (c ∷ line)) c line (strtok_lines text []) (reverse-reverse (c ∷ line))

strtok_lines-nil : strtok_lines [] [] ≡ []
unfolding strtok_lines end_line
strtok_lines-nil = refl

-- A line behind a name that the script echoes.
strtok_lines-echo :
    (name v text : List ℕ)
    → 1 ≤ length name
    → All IsPlain name
    → All IsPlain v
    → strtok_lines ((name ++ v) ++ 10 ∷ text) [] ≡ (name ++ v) ∷ strtok_lines text []
strtok_lines-echo [] v text n p h = absurd (omega arith)
strtok_lines-echo (c ∷ name) v text n p h =
    strtok_lines-line c (name ++ v) text (All-append IsPlain (c ∷ name) v p h)

udhcpc_output-lines :
    (ip lease : List ℕ)
    → All IsPlain ip
    → All IsPlain lease
    → strtok_lines (udhcpc_output ip lease) []
      ≡ (codes "ip=" ++ ip) ∷ (codes "lease=" ++ lease) ∷ []
udhcpc_output-lines ip lease h g =
    let last = (codes "lease=" ++ lease) ++ 10 ∷ [] in
    strtok_lines-echo (codes "ip=") ip last (omega arith) (omega arith) h
    ∙ ap (λ lines. (codes "ip=" ++ ip) ∷ lines)
        (strtok_lines-echo (codes "lease=") lease [] (omega arith) (omega arith) g
          ∙ ap (λ lines. (codes "lease=" ++ lease) ∷ lines) strtok_lines-nil)

udhcpc6_output-lines :
    (address bits lease : List ℕ)
    → All IsPlain address
    → All IsPlain bits
    → All IsPlain lease
    → strtok_lines (udhcpc6_output address bits lease) []
      ≡ (codes "prefix_address=" ++ address)
        ∷ (codes "prefix_length=" ++ bits)
        ∷ (codes "lease=" ++ lease)
        ∷ []
udhcpc6_output-lines address bits lease h k g =
    let last = (codes "lease=" ++ lease) ++ 10 ∷ [] in
    let middle = (codes "prefix_length=" ++ bits) ++ 10 ∷ last in
    strtok_lines-echo (codes "prefix_address=") address middle (omega arith) (omega arith) h
    ∙ ap (λ lines. (codes "prefix_address=" ++ address) ∷ lines)
        (strtok_lines-echo (codes "prefix_length=") bits last (omega arith) (omega arith) k
          ∙ ap (λ lines. (codes "prefix_length=" ++ bits) ∷ lines)
              (strtok_lines-echo (codes "lease=") lease [] (omega arith) (omega arith) g
                ∙ ap (λ lines. (codes "lease=" ++ lease) ∷ lines) strtok_lines-nil))

-- A lease that was read starts now.
udhcpc_obtained-runtime :
    (os : Os) (s : State)
    → (s.runtime.dhcp.lease_time == 0) ≡ false
    → (udhcpc_obtained os s).runtime
      ≡ (set_dhcp s (record s.runtime.dhcp { lease_obtained = os.clock_sec s.trace })).runtime
unfolding udhcpc_obtained
udhcpc_obtained-runtime os s nonzero =
    let n : (s.runtime.dhcp.lease_time != 0) ≡ true = ground arith in
    simp (n, trigger_event-runtime dhcpup_ip) refl

udhcpc_lines-runtime :
    (os : Os) (s : State) (ip lease : List ℕ)
    → (to_u32 (os.atoi lease) == 0) ≡ false
    → (udhcpc_obtained os
        (udhcpc_lines os ((codes "ip=" ++ ip) ∷ (codes "lease=" ++ lease) ∷ []) s)).runtime
      ≡ (set_dhcp s (record s.runtime.dhcp {
        ip = or_else (os.inet_pton ip) s.runtime.dhcp.ip;
        lease_time = to_u32 (os.atoi lease);
        lease_obtained = os.clock_sec s.trace;
      })).runtime
unfolding udhcpc_lines udhcpc_line after_prefix
udhcpc_lines-runtime os s ip lease nonzero = udhcpc_obtained-runtime os _ nonzero

-- The script echoes an address and a lease time, both without a zero or an end of line, in at most
-- 1023 characters, and the lease time is read as a number other than 0: the address is taken over, if
-- inet_pton reads it, and so is the lease time; the lease starts now; nothing else of `runtime` changes.
pub process-udhcpc_output :
    (os : Os) (s : State) (ip lease : List ℕ)
    → All IsPlain ip
    → All IsPlain lease
    → length (udhcpc_output ip lease) ≤ 1023
    → os.pipe_bytes s.trace ≡ some (udhcpc_output ip lease)
    → (to_u32 (os.atoi lease) == 0) ≡ false
    → (process_udhcpc_output os s).runtime
      ≡ (set_dhcp s (record s.runtime.dhcp {
        ip = or_else (os.inet_pton ip) s.runtime.dhcp.ip;
        lease_time = to_u32 (os.atoi lease);
        lease_obtained = os.clock_sec (Call.read_pipe ∷ s.trace);
      })).runtime
unfolding process_udhcpc_output printed
process-udhcpc_output os s ip lease h g short e nonzero =
    let s1 = called Call.read_pipe s in
    ap (λ o. (printed os o s).runtime) e
    ∙ ap
        (λ bytes.
          (udhcpc_obtained os
            (udhcpc_lines os (strtok_lines bytes []) (called Call.read_pipe s))).runtime)
        (take-all 1023 (udhcpc_output ip lease) short)
    ∙ ap (λ lines. (udhcpc_obtained os (udhcpc_lines os lines (called Call.read_pipe s))).runtime)
        (udhcpc_output-lines ip lease h g)
    ∙ udhcpc_lines-runtime os s1 ip lease nonzero

udhcpc6_obtained-runtime :
    (os : Os) (s : State)
    → (s.runtime.dhcp6.lease_time == 0) ≡ false
    → (udhcpc6_obtained os s).runtime
      ≡ (set_dhcp6 s (record s.runtime.dhcp6 { lease_obtained = os.clock_sec s.trace })).runtime
unfolding udhcpc6_obtained
udhcpc6_obtained-runtime os s nonzero =
    let n : (s.runtime.dhcp6.lease_time != 0) ≡ true = ground arith in
    simp (n, trigger_event-runtime dhcpup_ip6) refl

udhcpc6_lines-runtime :
    (os : Os) (s : State) (address bits lease : List ℕ)
    → (to_u32 (os.atoi lease) == 0) ≡ false
    → (udhcpc6_obtained os (
        udhcpc6_lines os
          ((codes "prefix_address=" ++ address)
            ∷ (codes "prefix_length=" ++ bits)
            ∷ (codes "lease=" ++ lease)
            ∷ [])
          s)).runtime
      ≡ (set_dhcp6 s (record s.runtime.dhcp6 {
        prefix_address = or_else (os.inet_pton6 address) s.runtime.dhcp6.prefix_address;
        prefix_length = to_u8 (os.atoi bits);
        lease_time = to_u32 (os.atoi lease);
        lease_obtained = os.clock_sec s.trace;
      })).runtime
unfolding udhcpc6_lines udhcpc6_line after_prefix
udhcpc6_lines-runtime os s address bits lease nonzero = udhcpc6_obtained-runtime os _ nonzero

-- The script echoes a prefix, its length and a lease time, without a zero or an end of line, in at
-- most 1023 characters, and the lease time is read as a number other than 0: the prefix is taken over,
-- if inet_pton reads it, and so are its length, modulo 256, and the lease time; the lease starts now;
-- nothing else of `runtime` changes.
pub process-udhcpc6_output :
    (os : Os) (s : State) (address bits lease : List ℕ)
    → All IsPlain address
    → All IsPlain bits
    → All IsPlain lease
    → length (udhcpc6_output address bits lease) ≤ 1023
    → os.pipe_bytes s.trace ≡ some (udhcpc6_output address bits lease)
    → (to_u32 (os.atoi lease) == 0) ≡ false
    → (process_udhcpc6_output os s).runtime
      ≡ (set_dhcp6 s (record s.runtime.dhcp6 {
        prefix_address = or_else (os.inet_pton6 address) s.runtime.dhcp6.prefix_address;
        prefix_length = to_u8 (os.atoi bits);
        lease_time = to_u32 (os.atoi lease);
        lease_obtained = os.clock_sec (Call.read_pipe ∷ s.trace);
      })).runtime
unfolding process_udhcpc6_output printed6
process-udhcpc6_output os s address bits lease h k g short e nonzero =
    let s1 = called Call.read_pipe s in
    ap (λ o. (printed6 os o s).runtime) e
    ∙ ap
        (λ bytes.
          (udhcpc6_obtained os
            (udhcpc6_lines os (strtok_lines bytes []) (called Call.read_pipe s))).runtime)
        (take-all 1023 (udhcpc6_output address bits lease) short)
    ∙ ap (λ lines. (udhcpc6_obtained os (udhcpc6_lines os lines (called Call.read_pipe s))).runtime)
        (udhcpc6_output-lines address bits lease h k g)
    ∙ udhcpc6_lines-runtime os s1 address bits lease nonzero
