-- ===== src/Packet/Validity.antt =====
-- What `IsPackageCheckSumValid` tests.
use simutgw_src.Common.{
  ℕ, ◌<◌, ◌≡◌, refl, ◌∙◌, ◌↔◌, ◌⊎◌, true, some, List, arith, length, take, drop, length-take,
}
use simutgw_src.Packet.{BinaryNetPack, read32}
use simutgw_src.Packet.Receive.{
  net_pack_len, takes, net_pack, recv_round, is_package_check_sum_valid,
}
use simutgw_src.Packet.Progress.{recv_round-Taken}

-- A package that `RecvPackage` took off a buffer is valid exactly if it has no body or the length of the
-- whole, which is taken modulo 2^32, is more than 4.
pub is_package_check_sum_valid-takes :
    (buf : List ℕ) (p : BinaryNetPack) (rest : List ℕ)
    → recv_round buf ≡ takes p rest
    → (is_package_check_sum_valid (some p) ≡ true)
      ↔ ((p.body_length ≡ 0) ⊎ (4 < net_pack_len p.body_length))
unfolding is_package_check_sum_valid net_pack
is_package_check_sum_valid-takes buf p rest h =
    let t = recv_round-Taken buf p rest h in
    let n = net_pack_len (read32 (drop 4 buf)) in
    let long : length (take n buf) ≡ n = length-take n buf ∙ omega (arith, t.has_all) in
    rw t.is_pack (ground arith)

-- The function looks at lengths only: two packages whose body lengths and buffer lengths agree are
-- both valid or both not, whatever their bytes, the check sum among them.
pub is_package_check_sum_valid-lengths :
    (p q : BinaryNetPack)
    → p.body_length ≡ q.body_length
    → length p.buffer ≡ length q.buffer
    → is_package_check_sum_valid (some p) ≡ is_package_check_sum_valid (some q)
unfolding is_package_check_sum_valid
is_package_check_sum_valid-lengths p q h k = rw h (rw k refl)
