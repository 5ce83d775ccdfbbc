-- ===== src/Packet/RoundTrip.antt =====
-- `RecvPackage` gives back the messages that `LocalPackToNetBuffer_…` wrote.
use simutgw_src.Common.{
  ℕ, zero, suc, ◌+◌, ◌*◌, ◌%◌, ◌≤◌, ◌<◌, ◌≡◌, refl, sym, ap, ◌∙◌, subst, ◌⊎◌, some, List, [], ◌∷◌,
  ◌++◌, arith, ltb, ◌==◌, if◌then◌else◌, some-inj, map, length, take, drop, length-append,
  take-append, append_assoc, append-nil, drop-append, u32_mod,
}
use simutgw_src.Packet.{BinaryNetPack, read32, write32}
use simutgw_src.Packet.Size.{head_size}
use simutgw_src.Packet.CheckSum.{sum}
use simutgw_src.Packet.Receive.{
  RecvCode, all_read, need_more, net_pack_len, returns, takes, net_pack, recv_round, recv_loop,
  recv_package,
}
use simutgw_src.Packet.Progress.{Taken-recv_round, recv_loop-returns, recv_loop-takes}
use simutgw_src.Packet.Feed.{recv_package-loop}
use simutgw_src.Packet.Send.{head}
use simutgw_src.Packet.Messages.{
  Message, pack, type_of, body_of, IsSized, pack-frame, type_of-Fits, body_of-Fits,
}
use simutgw_src.Packet.Frames.{frame, read32-write32}

-- The package that is to come of a message: it has the bytes of the whole message, but for a message
-- without a body it has an empty buffer.
abbrev pub received : ℕ → List ℕ → BinaryNetPack
received msg_type body = record {
  msg_type = msg_type;
  body_length = length body;
  buffer = if ltb 0 (length body) then frame msg_type body else [];
}

length-frame : (t : ℕ) (body : List ℕ) → length (frame t body) ≡ length body + 12
length-frame t body =
    omega (arith, length-append body (write32 (sum (head t (length body) ++ body) % 256)))

recv_round-frame :
    (t : ℕ) (body rest : List ℕ)
    → t < u32_mod
    → length body + 12 < u32_mod
    → recv_round (frame t body ++ rest) ≡ takes (received t body) rest
unfolding net_pack
recv_round-frame t body rest h k =
    let buf = frame t body ++ rest in
    let m : read32 buf ≡ t = read32-write32 t _ h in
    let b : read32 (drop 4 buf) ≡ length body = read32-write32 (length body) _ (omega (arith, k)) in
    let n : net_pack_len (length body) ≡ length (frame t body) =
      omega (arith, k, length-frame t body) in
    let long = length-append (frame t body) rest in
    let whole : take (net_pack_len (length body)) buf ≡ frame t body =
      ap (λ j. take j buf) n ∙ take-append (frame t body) rest in
    let left : drop (net_pack_len (length body)) buf ≡ rest =
      ap (λ j. drop j buf) n ∙ drop-append (frame t body) rest in
    Taken-recv_round buf (omega (arith, long, length-frame t body)) (rw b (omega (arith, n, long)))
    ∙ rw m (rw b (rw left (rw whole refl)))

abbrev pub package_of : Message → BinaryNetPack
package_of m = received (type_of m) (body_of m)

-- The bytes of messages that were packed one after the other.
pub data Sent : List Message → List ℕ → Type 0 where
  nothing : Sent [] []
  sends :
      (m : Message) (bytes : List ℕ) (ms : List Message) (tail : List ℕ)
      → IsSized m
      → pack m ≡ some bytes
      → Sent ms tail
      → Sent (m ∷ ms) (bytes ++ tail)

-- Less than a head, or less than the message that the head declares.
abbrev pub IsIncomplete : List ℕ → Type 0
IsIncomplete rest = (length rest < head_size) ⊎ (length rest < net_pack_len (read32 (drop 4 rest)))

abbrev pub code_at : List ℕ → RecvCode
code_at rest = if length rest == 0 then all_read else need_more

recv_round-incomplete :
    (rest : List ℕ) → IsIncomplete rest → recv_round rest ≡ returns (code_at rest)
unfolding recv_round
recv_round-incomplete rest h = ground arith

recv_round-pack :
    (m : Message) (bytes rest : List ℕ)
    → IsSized m
    → pack m ≡ some bytes
    → recv_round (bytes ++ rest) ≡ takes (package_of m) rest
recv_round-pack m bytes rest s e =
    let same : frame (type_of m) (body_of m) ≡ bytes = some-inj (sym (pack-frame m s) ∙ e) in
    subst (λ l. recv_round (l ++ rest) ≡ takes (package_of m) rest) same
      (recv_round-frame (type_of m) (body_of m) rest (type_of-Fits m) (body_of-Fits m s))

recv_loop-Sent :
    (fuel : ℕ) (ms : List Message) (bytes rest : List ℕ) (recved : List BinaryNetPack)
    → Sent ms bytes
    → IsIncomplete rest
    → length ms < fuel
    → recv_loop fuel (bytes ++ rest) recved ≡ some (code_at rest, rest, recved ++ map package_of ms)
recv_loop-Sent zero ms bytes rest recved s i h = absurd (omega (arith, h))
recv_loop-Sent (suc fuel) [] bytes rest recved nothing i h =
    recv_loop-returns fuel rest recved (code_at rest) (recv_round-incomplete rest i)
    ∙ ap (λ l. some (code_at rest, rest, l)) (sym (append-nil recved))
recv_loop-Sent (suc fuel) (m ∷ ms) bytes rest recved (sends _ b _ tail z e s) i h =
    let next = recved ++ (package_of m ∷ []) in
    ap (λ l. recv_loop (suc fuel) l recved) (append_assoc b tail rest)
    ∙ recv_loop-takes fuel (b ++ (tail ++ rest)) recved (package_of m) (tail ++ rest)
        (recv_round-pack m b (tail ++ rest) z e)
    ∙ recv_loop-Sent fuel ms tail rest next s i (omega (arith, h))
    ∙ ap (λ l. some (code_at rest, rest, l))
        (append_assoc recved (package_of m ∷ []) (map package_of ms))

length-Sent : (ms : List Message) (bytes : List ℕ) → Sent ms bytes → length ms * 12 ≤ length bytes
length-Sent [] bytes nothing = omega arith
length-Sent (m ∷ ms) bytes (sends _ b _ tail z e s) =
    let same : frame (type_of m) (body_of m) ≡ b = some-inj (sym (pack-frame m z) ∙ e) in
    let long : length b ≡ length (body_of m) + 12 =
      ap (λ l. length l) (sym same) ∙ length-frame (type_of m) (body_of m) in
    omega (arith, long, length-append b tail, length-Sent ms tail s)

-- Messages that the functions `LocalPackToNetBuffer_…` packed, at least one and each from structs of
-- the sizes of their types, come out of `RecvPackage` as they went in: with bytes behind them that are
-- no whole message yet, it ends and has appended one package for each message, in the order sent, with
-- its type and the length of its body. The package has the bytes of the whole message if the message has
-- a body, and an empty buffer if it has none, as the heartbeat. `RecvPackage` leaves the bytes behind the
-- messages, and returns 0 if there are none and 1 otherwise.
pub recv_package-Sent :
    (m : Message) (ms : List Message) (bytes rest : List ℕ) (recved : List BinaryNetPack)
    → Sent (m ∷ ms) bytes
    → IsIncomplete rest
    → recv_package (bytes ++ rest) recved
      ≡ some (code_at rest, rest, recved ++ map package_of (m ∷ ms))
recv_package-Sent m ms bytes rest recved s i =
    let buf = bytes ++ rest in
    let many : 12 + length ms * 12 ≤ length buf =
      omega (arith, length-Sent (m ∷ ms) bytes s, length-append bytes rest) in
    recv_package-loop (suc (length buf)) buf recved (omega (arith, many)) (omega arith)
    ∙ recv_loop-Sent (suc (length buf)) (m ∷ ms) bytes rest recved s i (omega (arith, many))
