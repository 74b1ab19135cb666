-- ===== src/Filter.antt =====
-- The packet filters of the two raw sockets: open_grecp_socket in src/openhybrid.c and
-- open_gre_socket in src/tundev.c. The machine that runs them is the kernel's, and a parameter.
pub mod Accepts
use open_hybrid.Base.{
  ℕ, ◌∷◌, [], List, Bool, true, false, ◌&&◌, ◌||◌, Outcome, ok, fault, stuck, drop, ◌==◌,
  if◌then◌else◌, ◌≡◌, refl, ap, ◌∙◌, Bool-cases, inl, inr, arith,
}
use open_hybrid.Bytes.{load16, load32}
use open_hybrid.Grecp.{grecp_proto}
use open_hybrid.Sender.{ethertype_ip, ethertype_ipv6}

-- BPF_STMT and BPF_JUMP, with the codes that the filters use: a word or a half word at a fixed place
-- is loaded, compared with a constant with jumps for both outcomes, and the number of bytes that are
-- let through is returned.
pub data Instruction : Type 0 where
  ld_w : ℕ → Instruction
  ld_h : ℕ → Instruction
  jeq : ℕ → ℕ → ℕ → Instruction
  ret : ℕ → Instruction

-- The whole packet: -1 as a number of 32 bits.
abbrev pub everything : ℕ
everything = 4294967295

-- Only control messages.
abbrev pub grecp_filter : List Instruction
grecp_filter = ld_h 2 ∷ jeq grecp_proto 0 1 ∷ ret everything ∷ ret 0 ∷ []

-- Only data of the session, which is IPv4 or IPv6.
abbrev pub gre_filter : ℕ → List Instruction
gre_filter bonding_key =
    ld_w 4
    ∷ jeq bonding_key 0 4
    ∷ ld_h 2
    ∷ jeq ethertype_ip 1 0
    ∷ jeq ethertype_ipv6 0 1
    ∷ ret everything
    ∷ ret 0
    ∷ []

-- A load that leaves the packet lets nothing through.
abbrev pub loaded_or : Outcome ℕ → (ℕ → ℕ) → ℕ
loaded_or (ok v) f = f v
loaded_or fault f = 0
loaded_or stuck f = 0

-- The kernel's machine: how many bytes the rest of a program lets through, with an accumulator, and
-- what is documented of each instruction.
pub record Machine : Type 0 where
  pub accepted : List Instruction → ℕ → List ℕ → ℕ
  pub on_ld_w :
      (n : ℕ) (rest : List Instruction) (a : ℕ) (packet : List ℕ)
      → accepted (ld_w n ∷ rest) a packet
        ≡ loaded_or (load32 (drop n packet)) (λ v. accepted rest v packet)
  pub on_ld_h :
      (n : ℕ) (rest : List Instruction) (a : ℕ) (packet : List ℕ)
      → accepted (ld_h n ∷ rest) a packet
        ≡ loaded_or (load16 (drop n packet)) (λ v. accepted rest v packet)
  pub on_jeq :
      (k hit miss : ℕ) (rest : List Instruction) (a : ℕ) (packet : List ℕ)
      → accepted (jeq k hit miss ∷ rest) a packet
        ≡ accepted (drop (if a == k then hit else miss) rest) a packet
  pub on_ret :
      (k : ℕ) (rest : List Instruction) (a : ℕ) (packet : List ℕ)
      → accepted (ret k ∷ rest) a packet ≡ k
