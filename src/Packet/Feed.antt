-- ===== src/Packet/Feed.antt =====
-- It does not matter to `RecvPackage` how the bytes come in.
use simutgw_src.Common.{
  ℕ, zero, suc, ◌+◌, ◌≤◌, ◌<◌, ◌≡◌, refl, sym, ap, ◌∙◌, inl, inr, Option, some, List, [], ◌∷◌, ◌++◌,
  arith, le-or-lt, le→not_ltb, lt→ltb, none≢some, length, drop, length-append, length-drop,
  take-prefix, drop-prefix,
}
use simutgw_src.Packet.{BinaryNetPack, read32}
use simutgw_src.Packet.Size.{head_size}
use simutgw_src.Packet.Receive.{
  RecvCode, need_more, Received, net_pack_len, returns, takes, net_pack, recv_round, recv_loop,
  recv_package,
}
use simutgw_src.Packet.Progress.{
  Round-cases, recv_round-Taken, Taken-recv_round, recv_loop-zero, recv_loop-returns,
  recv_loop-takes, Taken-cases, recv_loop-enough,
}

read32-append : (xs ys : List ℕ) → 4 ≤ length xs → read32 (xs ++ ys) ≡ read32 xs
unfolding read32
read32-append (a ∷ b ∷ c ∷ d ∷ xs) ys h = refl
read32-append [] ys h = absurd (omega (arith, h))
read32-append (a ∷ []) ys h = absurd (omega (arith, h))
read32-append (a ∷ b ∷ []) ys h = absurd (omega (arith, h))
read32-append (a ∷ b ∷ c ∷ []) ys h = absurd (omega (arith, h))

declared-append :
    (xs ys : List ℕ) → head_size ≤ length xs → read32 (drop 4 (xs ++ ys)) ≡ read32 (drop 4 xs)
declared-append xs ys h =
    ap (λ l. read32 l) (drop-prefix 4 xs ys (omega (arith, h)))
    ∙ read32-append (drop 4 xs) ys (rw (length-drop 4 xs) (omega (arith, h)))

net_pack-append :
    (t b : ℕ) (xs ys : List ℕ)
    → net_pack_len b ≤ length xs
    → net_pack t b (xs ++ ys) ≡ net_pack t b xs
unfolding net_pack
net_pack-append t b xs ys h = rw (take-prefix (net_pack_len b) xs ys h) refl

-- A round takes the same package if more bytes follow, and leaves them behind the rest.
pub recv_round-append :
    (xs ys : List ℕ) (p : BinaryNetPack) (rest : List ℕ)
    → recv_round xs ≡ takes p rest
    → recv_round (xs ++ ys) ≡ takes p (rest ++ ys)
recv_round-append xs ys p rest h =
    let t = recv_round-Taken xs p rest h in
    let b : read32 (drop 4 (xs ++ ys)) ≡ read32 (drop 4 xs) = declared-append xs ys t.has_head in
    let m : read32 (xs ++ ys) ≡ read32 xs = read32-append xs ys (omega (arith, t.has_head)) in
    let n = net_pack_len (read32 (drop 4 xs)) in
    let long : length (xs ++ ys) ≡ length xs + length ys = length-append xs ys in
    let round =
      Taken-recv_round (xs ++ ys) (omega (arith, long, t.has_head))
        (rw b (omega (arith, long, t.has_all))) in
    let same : takes (net_pack (read32 (xs ++ ys)) (read32 (drop 4 (xs ++ ys))) (xs ++ ys))
          (drop (net_pack_len (read32 (drop 4 (xs ++ ys)))) (xs ++ ys))
        ≡ takes p (rest ++ ys) =
      rw b (
        rw m (
          rw t.is_pack (
            rw t.remains (
              rw (net_pack-append (read32 xs) (read32 (drop 4 xs)) xs ys t.has_all)
                (rw (drop-prefix n xs ys t.has_all) refl))))) in
    round ∙ same

same_result :
    (c d : RecvCode) (xs rest : List ℕ) (ps qs : List BinaryNetPack)
    → Path (Option Received) (some (c, xs, ps)) (some (d, rest, qs))
    → (xs ≡ rest) × (ps ≡ qs)
same_result c d xs rest ps qs h = (cc, cc)

recv_loop-append :
    (f g k : ℕ) (xs ys : List ℕ) (recved : List BinaryNetPack) (code : RecvCode) (rest : List ℕ)
    (recved' : List BinaryNetPack)
    → recv_loop f xs recved ≡ some (code, rest, recved')
    → length (xs ++ ys) < g
    → length (rest ++ ys) < k
    → recv_loop g (xs ++ ys) recved ≡ recv_loop k (rest ++ ys) recved'
recv_loop-append zero g k xs ys recved code rest recved' e lg lk =
    absurd (none≢some (sym (recv_loop-zero xs recved) ∙ e))
recv_loop-append (suc f) zero k xs ys recved code rest recved' e lg lk = absurd (omega (arith, lg))
recv_loop-append (suc f) (suc g) k xs ys recved code rest recved' e lg lk =
    elim (Round-cases (recv_round xs)) [
      | inl (c, r) ↦
          let (sx, sp) =
            same_result c code xs rest recved recved'
              (sym (recv_loop-returns f xs recved c r) ∙ e) in
          recv_loop-enough (suc g) k (xs ++ ys) recved lg (rw sx lk)
          ∙ ap (λ l. recv_loop k (l ++ ys) recved) sx
          ∙ ap (λ l. recv_loop k (rest ++ ys) l) sp
      | inr (p, xs', r) ↦
          let next = recved ++ (p ∷ []) in
          let e' = sym (recv_loop-takes f xs recved p xs' r) ∙ e in
          elim (Taken-cases xs p xs' r) [
            | inl less ↦
                recv_loop-takes g (xs ++ ys) recved p (xs' ++ ys) (recv_round-append xs ys p xs' r)
                ∙ recv_loop-append f g k xs' ys next code rest recved' e'
                    (omega (arith, less, lg, length-append xs ys, length-append xs' ys)) lk
            | inr endless ↦ absurd (none≢some (sym (endless f next) ∙ e'))
          ]
    ]

recv_round-short :
    (buf : List ℕ) → 1 ≤ length buf → length buf < head_size → recv_round buf ≡ returns need_more
unfolding recv_round
recv_round-short buf h k = ground arith

recv_package-short :
    (buf : List ℕ) (recved : List BinaryNetPack)
    → length buf < head_size
    → recv_package buf recved ≡ some (need_more, buf, recved)
unfolding recv_package
recv_package-short buf recved h = rw (lt→ltb (length buf) head_size h) refl

-- Once there is a byte, the test before the loop changes nothing.
pub recv_package-loop :
    (k : ℕ) (buf : List ℕ) (recved : List BinaryNetPack)
    → 1 ≤ length buf
    → length buf < k
    → recv_package buf recved ≡ recv_loop k buf recved
unfolding recv_package
recv_package-loop zero buf recved h l = absurd (omega (arith, l))
recv_package-loop (suc k) buf recved h l = elim (le-or-lt head_size (length buf)) [
  | inl a ↦
      rw (le→not_ltb (length buf) head_size a)
        (recv_loop-enough (suc (length buf)) (suc k) buf recved (omega arith) l)
  | inr b ↦
      rw (lt→ltb (length buf) head_size b)
        (sym (recv_loop-returns k buf recved need_more (recv_round-short buf h b)))
]

-- If a call of `RecvPackage` has ended, then a call with more bytes, at least one, behind the buffer it
-- left goes on as one call with all the bytes would: it gives the same code, the same rest and the same
-- packages, or neither ends.
pub recv_package-append :
    (xs ys : List ℕ) (y : ℕ) (recved : List BinaryNetPack) (code : RecvCode) (rest : List ℕ)
    (recved' : List BinaryNetPack)
    → recv_package xs recved ≡ some (code, rest, recved')
    → recv_package (rest ++ (y ∷ ys)) recved' ≡ recv_package (xs ++ (y ∷ ys)) recved
recv_package-append xs ys y recved code rest recved' h = elim (le-or-lt head_size (length xs)) [
  | inl a ↦
      let zs = y ∷ ys in
      let k = suc (length (rest ++ zs)) in
      let g = suc (length (xs ++ zs)) in
      recv_package-loop k (rest ++ zs) recved' (omega (arith, length-append rest zs)) (omega arith)
      ∙ sym (
          recv_loop-append (suc (length xs)) g k xs zs recved code rest recved'
            (sym (recv_package-loop (suc (length xs)) xs recved (omega (arith, a)) (omega arith))
              ∙ h)
            (omega arith) (omega arith))
      ∙ sym
          (recv_package-loop g (xs ++ zs) recved (omega (arith, length-append xs zs)) (omega arith))
  | inr b ↦
      let (sx, sp) =
        same_result need_more code xs rest recved recved'
          (sym (recv_package-short xs recved b) ∙ h) in
      ap (λ l. recv_package (l ++ (y ∷ ys)) recved') (sym sx)
      ∙ ap (λ l. recv_package (xs ++ (y ∷ ys)) l) (sym sp)
]
