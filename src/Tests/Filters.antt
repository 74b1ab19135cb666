-- ===== src/Tests/Filters.antt =====
-- The theorem on the packet filters, on a concrete machine and packet.
use open_hybrid.Base.{
  ℕ, zero, suc, ◌∷◌, [], List, false, ◌&&◌, drop, ◌==◌, if◌then◌else◌, ◌≡◌, refl,
}
use open_hybrid.Bytes.{load16, load32}
use open_hybrid.Filter.{
  Instruction, ld_h, ld_w, jeq, ret, everything, grecp_filter, gre_filter, loaded_or, Machine,
}
use open_hybrid.Filter.Accepts.{is_control, is_data, filters_accept}

-- A machine that skips instructions one by one.
unfoldable run : ℕ → List Instruction → ℕ → List ℕ → ℕ
run skip [] a packet = 0
run (suc skip) (i ∷ rest) a packet = run skip rest a packet
run zero (ld_w n ∷ rest) a packet = loaded_or (load32 (drop n packet)) (λ v. run 0 rest v packet)
run zero (ld_h n ∷ rest) a packet = loaded_or (load16 (drop n packet)) (λ v. run 0 rest v packet)
run zero (jeq k hit miss ∷ rest) a packet = run (if a == k then hit else miss) rest a packet
run zero (ret k ∷ rest) a packet = k

run-drop :
    (skip : ℕ) (rest : List Instruction) (a : ℕ) (packet : List ℕ)
    → run skip rest a packet ≡ run 0 (drop skip rest) a packet
unfolding run
run-drop zero rest a packet = refl
run-drop (suc skip) [] a packet = refl
run-drop (suc skip) (i ∷ rest) a packet = run-drop skip rest a packet

unfoldable machine : Machine
unfolding run
machine = record {
  accepted = run 0;
  on_ld_w = λ n rest a packet. refl;
  on_ld_h = λ n rest a packet. refl;
  on_jeq = λ k hit miss rest a packet. run-drop (if a == k then hit else miss) rest a packet;
  on_ret = λ k rest a packet. refl;
}

-- The headers of an IPv4 packet under the key 22.
abbrev ip_packet : List ℕ
ip_packet = 48 ∷ 0 ∷ 8 ∷ 0 ∷ 0 ∷ 0 ∷ 0 ∷ 22 ∷ 0 ∷ 0 ∷ 0 ∷ 1 ∷ []

filters_run :
    (run 0 grecp_filter 0 ip_packet ≡ 0)
    × (run 0 (gre_filter 22) 0 ip_packet ≡ everything)
    × (run 0 (gre_filter 23) 0 ip_packet ≡ 0)
    × (run 0 (gre_filter 22) 0 (48 ∷ 0 ∷ []) ≡ 0)
unfolding run load16 load32
filters_run = (refl, refl, refl, refl)

filters_accept_example :
    (machine.accepted grecp_filter 0 ip_packet ≡ (if is_control ip_packet then everything else 0))
    × (machine.accepted (gre_filter 22) 0 ip_packet
        ≡ (if is_data 22 ip_packet then everything else 0))
    × ((is_control ip_packet && is_data 22 ip_packet) ≡ false)
filters_accept_example = filters_accept machine ip_packet 22
