-- ===== src/Packet/Messages.antt =====
-- The messages that `LocalPackToNetBuffer_…` write, as frames.
use simutgw_src.Common.{
  ℕ, ◌+◌, ◌<◌, ◌≡◌, sym, ap, ◌∙◌, subst, Option, some, List, [], ◌++◌, arith, length, take,
  length-append, take-all, u32_mod,
}
use simutgw_src.Packet.Size.{
  logon_size, platform_state_info_size, report_synchronization_size, new_order_size,
  new_order_ext_size, execution_report_size, execution_report_ext_size,
  execution_report_matched_size, execution_report_matched_ext_size,
}
use simutgw_src.Packet.Send.{
  push_check_sum, head, pack_logon, pack_platform_state_info, pack_heartbeat, pack_report_synch,
  pack_new_order_100101, pack_exec_report_200102, pack_exec_report_matched_200115,
}
use simutgw_src.Packet.Frames.{frame, push_check_sum-frame}

-- The messages, by the structs they are made of.
pub data Message : Type 0 where
  logon platform_state_info report_synch : List ℕ → Message
  heartbeat : Message
  new_order exec_report exec_report_matched : List ℕ → List ℕ → Message

-- The function for each message.
abbrev pub pack : Message → Option (List ℕ)
pack (logon msg) = pack_logon msg
pack (platform_state_info msg) = pack_platform_state_info msg
pack (report_synch msg) = pack_report_synch msg
pack heartbeat = pack_heartbeat
pack (new_order msg ext) = pack_new_order_100101 msg ext
pack (exec_report msg ext) = pack_exec_report_200102 msg ext
pack (exec_report_matched msg ext) = pack_exec_report_matched_200115 msg ext

abbrev pub type_of : Message → ℕ
type_of (logon _) = 1
type_of (platform_state_info _) = 6
type_of (report_synch _) = 5
type_of heartbeat = 3
type_of (new_order _ _) = 100101
type_of (exec_report _ _) = 200102
type_of (exec_report_matched _ _) = 200115

abbrev pub body_of : Message → List ℕ
body_of (logon msg) = msg
body_of (platform_state_info msg) = msg
body_of (report_synch msg) = msg
body_of heartbeat = []
body_of (new_order msg ext) = msg ++ ext
body_of (exec_report msg ext) = msg ++ ext
body_of (exec_report_matched msg ext) = msg ++ ext

-- Each struct has the number of bytes of its type.
abbrev pub IsSized : Message → Type 0
IsSized (logon msg) = length msg ≡ logon_size
IsSized (platform_state_info msg) = length msg ≡ platform_state_info_size
IsSized (report_synch msg) = length msg ≡ report_synchronization_size
IsSized heartbeat = Unit
IsSized (new_order msg ext) = (length msg ≡ new_order_size) × (length ext ≡ new_order_ext_size)
IsSized (exec_report msg ext) =
    (length msg ≡ execution_report_size) × (length ext ≡ execution_report_ext_size)
IsSized (exec_report_matched msg ext) =
    (length msg ≡ execution_report_matched_size) × (length ext ≡ execution_report_matched_ext_size)

take-whole : (n : ℕ) (xs : List ℕ) → length xs ≡ n → take n xs ≡ xs
take-whole n xs h = ap (λ k. take k xs) (sym h) ∙ take-all xs

-- A function with one struct, and with two.
pushed-one :
    (t n : ℕ) (msg : List ℕ)
    → length msg ≡ n
    → n + 12 < u32_mod
    → push_check_sum n (head t n ++ take n msg) ≡ some (frame t msg)
pushed-one t n msg h k =
    ap (λ l. push_check_sum n (head t n ++ l)) (take-whole n msg h)
    ∙ subst (λ j. push_check_sum j (head t j ++ msg) ≡ some (frame t msg)) h
        (push_check_sum-frame t msg (omega (arith, h, k)))

pushed-two :
    (t m n : ℕ) (msg ext : List ℕ)
    → length msg ≡ m
    → length ext ≡ n
    → m + n + 12 < u32_mod
    → push_check_sum (m + n) (head t (m + n) ++ (take m msg ++ take n ext))
      ≡ some (frame t (msg ++ ext))
pushed-two t m n msg ext h k l =
    let long : length (msg ++ ext) ≡ m + n = omega (arith, h, k, length-append msg ext) in
    ap (λ x. push_check_sum (m + n) (head t (m + n) ++ (x ++ take n ext))) (take-whole m msg h)
    ∙ ap (λ x. push_check_sum (m + n) (head t (m + n) ++ (msg ++ x))) (take-whole n ext k)
    ∙ subst (λ j. push_check_sum j (head t j ++ (msg ++ ext)) ≡ some (frame t (msg ++ ext))) long
        (push_check_sum-frame t (msg ++ ext) (omega (arith, long, l)))

pub pack-frame : (m : Message) → IsSized m → pack m ≡ some (frame (type_of m) (body_of m))
unfolding pack_logon pack_platform_state_info pack_heartbeat pack_report_synch pack_new_order_100101
    pack_exec_report_200102 pack_exec_report_matched_200115
pack-frame (logon msg) s = pushed-one 1 logon_size msg s (omega arith)
pack-frame (platform_state_info msg) s = pushed-one 6 platform_state_info_size msg s (omega arith)
pack-frame (report_synch msg) s = pushed-one 5 report_synchronization_size msg s (omega arith)
pack-frame heartbeat s = push_check_sum-frame 3 [] (omega arith)
pack-frame (new_order msg ext) s =
    pushed-two 100101 new_order_size new_order_ext_size msg ext s.0 s.1 (omega arith)
pack-frame (exec_report msg ext) s =
    pushed-two 200102 execution_report_size execution_report_ext_size msg ext s.0 s.1 (omega arith)
pack-frame (exec_report_matched msg ext) s =
    pushed-two 200115 execution_report_matched_size execution_report_matched_ext_size msg ext s.0
      s.1 (omega arith)

pub type_of-Fits : (m : Message) → type_of m < u32_mod
type_of-Fits (logon msg) = omega arith
type_of-Fits (platform_state_info msg) = omega arith
type_of-Fits (report_synch msg) = omega arith
type_of-Fits heartbeat = omega arith
type_of-Fits (new_order msg ext) = omega arith
type_of-Fits (exec_report msg ext) = omega arith
type_of-Fits (exec_report_matched msg ext) = omega arith

pub body_of-Fits : (m : Message) → IsSized m → length (body_of m) + 12 < u32_mod
body_of-Fits (logon msg) s = omega (arith, s)
body_of-Fits (platform_state_info msg) s = omega (arith, s)
body_of-Fits (report_synch msg) s = omega (arith, s)
body_of-Fits heartbeat s = omega arith
body_of-Fits (new_order msg ext) s = omega (arith, s.0, s.1, length-append msg ext)
body_of-Fits (exec_report msg ext) s = omega (arith, s.0, s.1, length-append msg ext)
body_of-Fits (exec_report_matched msg ext) s = omega (arith, s.0, s.1, length-append msg ext)
