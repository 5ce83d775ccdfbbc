-- ===== src/Packet/Progress.antt =====
-- When `RecvPackage` ends: a round takes bytes off the buffer, or the loop never ends.
use simutgw_src.Common.{
  ℕ, zero, suc, ◌≤◌, ◌<◌, ◌≡◌, refl, sym, ap, ◌∙◌, subst, ◌⊎◌, inl, inr, none, some, List, [], ◌∷◌,
  ◌++◌, arith, le-or-lt, none≢some, length, drop, length-drop,
}
use simutgw_src.Packet.{BinaryNetPack, read32}
use simutgw_src.Packet.Size.{head_size}
use simutgw_src.Packet.Receive.{
  RecvCode, Received, net_pack_len, Round, returns, takes, net_pack, recv_round, recv_loop,
}

pub Round-cases :
    (r : Round)
    → ((code : RecvCode) × (r ≡ returns code))
      ⊎ ((p : BinaryNetPack) × (rest : List ℕ) × (r ≡ takes p rest))
Round-cases (returns code) = inl (code, refl)
Round-cases (takes p rest) = inr (p, rest, refl)

-- What a round that takes a package says of the buffer.
pub record Taken (buf : List ℕ) (p : BinaryNetPack) (rest : List ℕ) : Type 0 where
  pub has_head : head_size ≤ length buf
  pub has_all : net_pack_len (read32 (drop 4 buf)) ≤ length buf
  pub is_pack : p ≡ net_pack (read32 buf) (read32 (drop 4 buf)) buf
  pub remains : rest ≡ drop (net_pack_len (read32 (drop 4 buf))) buf

pub recv_round-Taken :
    (buf : List ℕ) (p : BinaryNetPack) (rest : List ℕ)
    → recv_round buf ≡ takes p rest
    → Taken buf p rest
unfolding recv_round
recv_round-Taken buf p rest h = ground arith

pub Taken-recv_round :
    (buf : List ℕ)
    → head_size ≤ length buf
    → net_pack_len (read32 (drop 4 buf)) ≤ length buf
    → recv_round buf
      ≡ takes
          (net_pack (read32 buf) (read32 (drop 4 buf)) buf)
          (drop (net_pack_len (read32 (drop 4 buf))) buf)
unfolding recv_round
Taken-recv_round buf h k = ground arith

pub recv_loop-zero : (buf : List ℕ) (recved : List BinaryNetPack) → recv_loop zero buf recved ≡ none
unfolding recv_loop
recv_loop-zero buf recved = refl

pub recv_loop-returns :
    (fuel : ℕ) (buf : List ℕ) (recved : List BinaryNetPack) (code : RecvCode)
    → recv_round buf ≡ returns code
    → recv_loop (suc fuel) buf recved ≡ some (code, buf, recved)
unfolding recv_loop
recv_loop-returns fuel buf recved code e = rw (e, recv_loop) refl

pub recv_loop-takes :
    (fuel : ℕ) (buf : List ℕ) (recved : List BinaryNetPack) (p : BinaryNetPack) (rest : List ℕ)
    → recv_round buf ≡ takes p rest
    → recv_loop (suc fuel) buf recved ≡ recv_loop fuel rest (recved ++ (p ∷ []))
unfolding recv_loop
recv_loop-takes fuel buf recved p rest e = rw (e, recv_loop) refl

-- A package of length 0 leaves the buffer as it was, and every further round takes it again.
pub recv_loop-same :
    (buf : List ℕ) (p : BinaryNetPack)
    → recv_round buf ≡ takes p buf
    → (fuel : ℕ) (recved : List BinaryNetPack) → recv_loop fuel buf recved ≡ none
recv_loop-same buf p h zero recved = recv_loop-zero buf recved
recv_loop-same buf p h (suc fuel) recved =
    recv_loop-takes fuel buf recved p buf h ∙ recv_loop-same buf p h fuel (recved ++ (p ∷ []))

-- A round either shortens the buffer or is repeated for ever.
pub Taken-cases :
    (buf : List ℕ) (p : BinaryNetPack) (rest : List ℕ)
    → recv_round buf ≡ takes p rest
    → (length rest < length buf)
      ⊎ ((fuel : ℕ) (recved : List BinaryNetPack) → recv_loop fuel rest recved ≡ none)
Taken-cases buf p rest h =
    let t = recv_round-Taken buf p rest h in
    let n = net_pack_len (read32 (drop 4 buf)) in
    elim (le-or-lt n 0) [
      | inl z ↦
          let empty : n ≡ 0 = omega (arith, z) in
          let same : rest ≡ buf = t.remains ∙ ap (λ k. drop k buf) empty in
          inr (
            subst (λ r. (fuel : ℕ) (recved : List BinaryNetPack) → recv_loop fuel r recved ≡ none)
              (sym same) (recv_loop-same buf p (subst (λ r. recv_round buf ≡ takes p r) same h)))
      | inr pos ↦
          inl (rw t.remains (rw (length-drop n buf) (omega (arith, pos, t.has_head, t.has_all))))
    ]

-- Two amounts of fuel that both exceed the length of the buffer do the same.
pub recv_loop-enough :
    (f g : ℕ) (buf : List ℕ) (recved : List BinaryNetPack)
    → length buf < f
    → length buf < g
    → recv_loop f buf recved ≡ recv_loop g buf recved
recv_loop-enough zero g buf recved h k = absurd (omega (arith, h))
recv_loop-enough (suc f) zero buf recved h k = absurd (omega (arith, k))
recv_loop-enough (suc f) (suc g) buf recved h k = elim (Round-cases (recv_round buf)) [
  | inl (code, e) ↦
      recv_loop-returns f buf recved code e ∙ sym (recv_loop-returns g buf recved code e)
  | inr (p, rest, e) ↦
      let next = recved ++ (p ∷ []) in
      let same : recv_loop f rest next ≡ recv_loop g rest next = elim (Taken-cases buf p rest e) [
        | inl less ↦
            recv_loop-enough f g rest next (omega (arith, less, h)) (omega (arith, less, k))
        | inr endless ↦ endless f next ∙ sym (endless g next)
      ] in
      recv_loop-takes f buf recved p rest e ∙ same ∙ sym (recv_loop-takes g buf recved p rest e)
]

-- What any amount of fuel gives, a fuel beyond the length of the buffer gives too.
pub recv_loop-some :
    (f g : ℕ) (buf : List ℕ) (recved : List BinaryNetPack) (r : Received)
    → recv_loop f buf recved ≡ some r
    → length buf < g
    → recv_loop g buf recved ≡ some r
recv_loop-some zero g buf recved r h k = absurd (none≢some (sym (recv_loop-zero buf recved) ∙ h))
recv_loop-some (suc f) zero buf recved r h k = absurd (omega (arith, k))
recv_loop-some (suc f) (suc g) buf recved r h k = elim (Round-cases (recv_round buf)) [
  | inl (code, e) ↦
      recv_loop-returns g buf recved code e ∙ sym (recv_loop-returns f buf recved code e) ∙ h
  | inr (p, rest, e) ↦
      let next = recved ++ (p ∷ []) in
      let h' = sym (recv_loop-takes f buf recved p rest e) ∙ h in
      recv_loop-takes g buf recved p rest e ∙ elim (Taken-cases buf p rest e) [
        | inl less ↦ recv_loop-some f g rest next r h' (omega (arith, less, k))
        | inr endless ↦ absurd (none≢some (sym (endless f next) ∙ h'))
      ]
]
