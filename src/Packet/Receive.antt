-- ===== src/Packet/Receive.antt =====
-- `BinaryPacketAssembler::RecvPackage` and `IsPackageCheckSumValid`.
use simutgw_src.Common.{
  ℕ, zero, suc, Bool, false, Option, none, some, List, [], ◌∷◌, ◌++◌, ltb, leb, ◌==◌, if◌then◌else◌,
  length, take, drop, add32,
}
use simutgw_src.Packet.{BinaryNetPack, read32}
use simutgw_src.Packet.Size.{head_size, tail_size}

-- What the function returns: 0 when the buffer is used up, 1 when more has to come.
pub data RecvCode : Type 0 where
  all_read need_more : RecvCode

-- The code, the buffer that is left and the packages received so far.
abbrev pub Received : Type 0
Received = RecvCode × List ℕ × List BinaryNetPack

-- `HEAD_SIZE + uiBodyLength + TAIL_SIZE` in `uint32_t`.
abbrev pub net_pack_len : ℕ → ℕ
net_pack_len body_length = add32 (add32 head_size body_length) tail_size

-- One round of the loop: it returns, or it has taken a package off the buffer.
pub data Round : Type 0 where
  returns : RecvCode → Round
  takes : BinaryNetPack → List ℕ → Round

unfoldable pub net_pack : ℕ → ℕ → List ℕ → BinaryNetPack
net_pack msg_type body_length buf = record {
  msg_type = msg_type;
  body_length = body_length;
  buffer = if ltb 0 body_length then take (net_pack_len body_length) buf else [];
}

unfoldable pub recv_round : List ℕ → Round
unfolding read32 net_pack
recv_round buf =
    let msg_type = read32 buf in
    let body_length = read32 (drop 4 buf) in
    if length buf == 0
    then returns all_read
    else if ltb (length buf) head_size
    then returns need_more
    else if ltb (length buf) (net_pack_len body_length)
    then returns need_more
    else takes (net_pack msg_type body_length buf) (drop (net_pack_len body_length) buf)

-- The loop, on fuel; `none` when it runs out.
unfoldable pub recv_loop : ℕ → List ℕ → List BinaryNetPack → Option Received
recv_loop zero buf recved = none
recv_loop (suc fuel) buf recved = elim (recv_round buf) [
  | returns code ↦ some (code, buf, recved)
  | takes p rest ↦ recv_loop fuel rest (recved ++ (p ∷ []))
]

unfoldable pub recv_package : List ℕ → List BinaryNetPack → Option Received
recv_package buf recved =
    if ltb (length buf) head_size
    then some (need_more, buf, recved)
    else recv_loop (suc (length buf)) buf recved

-- The pointer can be null.
unfoldable pub is_package_check_sum_valid : Option BinaryNetPack → Bool
is_package_check_sum_valid none = false
is_package_check_sum_valid (some p) =
    if p.body_length == 0
    then length p.buffer == 0
    else if leb (length p.buffer) 4
    then false
    else length p.buffer == add32 (add32 head_size tail_size) p.body_length
