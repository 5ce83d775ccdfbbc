-- ===== src/Packet/Frames.antt =====
-- The messages that `LocalPackToNetBuffer_…` write, as `RecvPackage` reads them.
use simutgw_src.Common.{
  ℕ, ◌+◌, ◌%◌, ◌<◌, ◌≡◌, ap, ◌∙◌, some, List, ◌++◌, arith, length, take, take-all, add32, u32_mod,
}
use simutgw_src.Packet.{read32, write32}
use simutgw_src.Packet.Size.{head_size}
use simutgw_src.Packet.CheckSum.{sum, generate_check_sum_lem}
use simutgw_src.Packet.Send.{push_check_sum, head}

-- A message on the wire: head, body and check sum.
abbrev pub frame : ℕ → List ℕ → List ℕ
frame msg_type body =
    head msg_type (length body)
    ++ (body ++ write32 (sum (head msg_type (length body) ++ body) % 256))

pub push_check_sum-frame :
    (msg_type : ℕ) (body : List ℕ)
    → length body + 12 < u32_mod
    → push_check_sum (length body) (head msg_type (length body) ++ body)
      ≡ some (frame msg_type body)
unfolding push_check_sum
push_check_sum-frame msg_type body h =
    let bytes = head msg_type (length body) ++ body in
    let n : add32 (length body) head_size ≡ length bytes = omega (arith, h) in
    let all : take (add32 (length body) head_size) bytes ≡ bytes =
      ap (λ k. take k bytes) n ∙ take-all bytes in
    let cks = generate_check_sum_lem bytes 0 (add32 (length body) head_size) (omega arith) in
    rw (cks, push_check_sum) (ap (λ l. some (bytes ++ write32 (sum l % 256))) all)

pub read32-write32 : (x : ℕ) (rest : List ℕ) → x < u32_mod → read32 (write32 x ++ rest) ≡ x
unfolding read32
read32-write32 x rest h = omega (arith, h)
