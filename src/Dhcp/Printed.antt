-- ===== src/Dhcp/Printed.antt =====
-- What is read from a DHCP client (src/dhcp.c), by the cases of what may be missing.
use open_hybrid.Base.{ℕ, ◌-◌, List, [], Option, none, some, length, ◌≡◌, refl, ◌⊎◌, inl, inr, take}
use open_hybrid.Runtime.{State, Call}
use open_hybrid.Os.{Os, called}
use open_hybrid.Dhcp.{
  strtok_lines, or_else, udhcpc_lines, udhcpc6_lines, udhcpc_obtained, udhcpc6_obtained,
  max_udhcpc_output,
}

-- A value that may be missing, with the equation.
pub Option-cases : (o : Option (List ℕ)) → (o ≡ none) ⊎ ((x : List ℕ) × (o ≡ some x))
Option-cases none = inl refl
Option-cases (some x) = inr (x, refl)

pub length-or_else :
    (n : ℕ) (o : Option (List ℕ)) (old : List ℕ)
    → ((x : List ℕ) → o ≡ some x → length x ≡ n)
    → length old ≡ n
    → length (or_else o old) ≡ n
length-or_else n none old h e = e
length-or_else n (some x) old h e = h x refl

-- process_udhcpc_output and process_udhcpc6_output, from the bytes on.
unfoldable pub printed : Os → Option (List ℕ) → State → State
printed os o s = elim o [
  | none ↦ called Call.read_pipe s
  | some bytes ↦ udhcpc_obtained os (
      udhcpc_lines os (strtok_lines (take (max_udhcpc_output - 1) bytes) [])
        (called Call.read_pipe s))
]

unfoldable pub printed6 : Os → Option (List ℕ) → State → State
printed6 os o s = elim o [
  | none ↦ called Call.read_pipe s
  | some bytes ↦ udhcpc6_obtained os (
      udhcpc6_lines os (strtok_lines (take (max_udhcpc_output - 1) bytes) [])
        (called Call.read_pipe s))
]
