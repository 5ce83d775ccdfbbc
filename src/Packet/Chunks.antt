-- ===== src/Packet/Chunks.antt =====
-- Whether `RecvPackage` ends, and that it does not matter how the bytes come in.
use simutgw_src.Common.{
  ℕ, zero, suc, ◌+◌, ◌≤◌, ◌<◌, ◌≡◌, refl, ap, ◌∙◌, subst, ◌⊎◌, inl, inr, none, some, List, [], ◌∷◌,
  ◌++◌, arith, le-or-lt, le→not_ltb, lt→ltb, length, drop, length-drop, drop-drop,
}
use simutgw_src.Packet.{BinaryNetPack, read32}
use simutgw_src.Packet.Size.{head_size}
use simutgw_src.Packet.Receive.{
  need_more, Received, net_pack_len, takes, net_pack, recv_round, recv_loop, recv_package,
}
use simutgw_src.Packet.Progress.{
  Round-cases, recv_round-Taken, Taken-recv_round, recv_loop-returns, recv_loop-takes,
  recv_loop-same,
}

-- A head whose declared length makes the length of the whole package wrap to 0.
pub record Wraps (buf : List ℕ) : Type 0 where
  pub has_head : head_size ≤ length buf
  pub is_zero : net_pack_len (read32 (drop 4 buf)) ≡ 0

-- If the buffer begins with a head for which the length of the whole package wraps to 0, as for a body
-- of 2^32 - 12 bytes, no number of rounds ends the loop.
pub recv_loop-endless :
    (buf : List ℕ)
    → Wraps buf
    → (fuel : ℕ) (recved : List BinaryNetPack) → recv_loop fuel buf recved ≡ none
recv_loop-endless buf w =
    let round = Taken-recv_round buf w.has_head (omega (arith, w.is_zero)) in
    let p = net_pack (read32 buf) (read32 (drop 4 buf)) buf in
    recv_loop-same buf p (round ∙ ap (λ n. takes p (drop n buf)) w.is_zero)

-- Somewhere in the buffer stands a head that wraps.
pub record WrapsAt (buf : List ℕ) : Type 0 where
  pub start : ℕ
  pub wraps : Wraps (drop start buf)

WrapsAt-drop : (n : ℕ) (buf : List ℕ) → WrapsAt (drop n buf) → WrapsAt buf
WrapsAt-drop n buf w = record {
  start = n + w.start;
  wraps = subst Wraps (drop-drop w.start n buf) w.wraps;
}

recv_loop-Ends :
    (fuel : ℕ) (buf : List ℕ) (recved : List BinaryNetPack)
    → length buf < fuel
    → ((r : Received) × (recv_loop fuel buf recved ≡ some r)) ⊎ WrapsAt buf
recv_loop-Ends zero buf recved h = absurd (omega (arith, h))
recv_loop-Ends (suc fuel) buf recved h = elim (Round-cases (recv_round buf)) [
  | inl (code, e) ↦ inl ((code, buf, recved), recv_loop-returns fuel buf recved code e)
  | inr (p, rest, e) ↦
      let t = recv_round-Taken buf p rest e in
      let n = net_pack_len (read32 (drop 4 buf)) in
      elim (le-or-lt n 0) [
        | inl z ↦ inr (record {
          start = 0;
          wraps = record { has_head = t.has_head; is_zero = omega (arith, z) };
        })
        | inr pos ↦
            let less : length (drop n buf) < fuel =
              rw (length-drop n buf) (omega (arith, pos, t.has_head, h)) in
            let next = recved ++ (p ∷ []) in
            elim (recv_loop-Ends fuel (drop n buf) next less) [
              | inl (r, e') ↦ inl (
                r,
                recv_loop-takes fuel buf recved p rest e
                    ∙ ap (λ l. recv_loop fuel l next) t.remains
                    ∙ e',
              )
              | inr w ↦ inr (WrapsAt-drop n buf w)
            ]
      ]
]

-- `RecvPackage` ends for every buffer in which no head stands, at any place, for which the length of
-- the whole package wraps to 0.
pub recv_package-Ends :
    (buf : List ℕ) (recved : List BinaryNetPack)
    → ¬ WrapsAt buf
    → (r : Received) × (recv_package buf recved ≡ some r)
unfolding recv_package
recv_package-Ends buf recved w = elim (le-or-lt head_size (length buf)) [
  | inl h ↦ elim (recv_loop-Ends (suc (length buf)) buf recved (omega arith)) [
    | inl (r, e) ↦ (r, rw (le→not_ltb (length buf) head_size h) e)
    | inr a ↦ absurd (w a)
  ]
  | inr h ↦ ((need_more, buf, recved), rw (lt→ltb (length buf) head_size h) refl)
]
