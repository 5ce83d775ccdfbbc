-- ===== src/Packet/Send.antt =====
-- The functions `LocalPackToNetBuffer_…`, with the message types of BinaryMsgTypeDefine.h. A struct is
-- given by its bytes in memory, of which `sizeof` are copied.
use simutgw_src.Common.{ℕ, ◌+◌, Option, none, some, List, ◌++◌, take, add32}
use simutgw_src.Packet.{write32}
use simutgw_src.Packet.Size.{
  head_size, logon_size, platform_state_info_size, report_synchronization_size, new_order_size,
  new_order_ext_size, execution_report_size, execution_report_ext_size,
  execution_report_matched_size, execution_report_matched_ext_size,
}
use simutgw_src.Packet.CheckSum.{generate_check_sum}

-- The end that the functions share: the check sum of head and body, pushed back byte by byte.
unfoldable pub push_check_sum : ℕ → List ℕ → Option (List ℕ)
unfolding generate_check_sum
push_check_sum body_length bytes = elim (generate_check_sum bytes 0 (add32 body_length head_size)) [
  | none ↦ none
  | some cks ↦ some (bytes ++ write32 cks)
]

abbrev pub head : ℕ → ℕ → List ℕ
head msg_type body_length = write32 msg_type ++ write32 body_length

unfoldable pub pack_logon : List ℕ → Option (List ℕ)
unfolding push_check_sum
pack_logon msg = push_check_sum logon_size (head 1 logon_size ++ take logon_size msg)

unfoldable pub pack_platform_state_info : List ℕ → Option (List ℕ)
unfolding push_check_sum
pack_platform_state_info msg =
    push_check_sum platform_state_info_size
      (head 6 platform_state_info_size ++ take platform_state_info_size msg)

unfoldable pub pack_heartbeat : Option (List ℕ)
unfolding push_check_sum
pack_heartbeat = push_check_sum 0 (head 3 0)

unfoldable pub pack_report_synch : List ℕ → Option (List ℕ)
unfolding push_check_sum
pack_report_synch msg =
    push_check_sum report_synchronization_size
      (head 5 report_synchronization_size ++ take report_synchronization_size msg)

unfoldable pub pack_new_order_100101 : List ℕ → List ℕ → Option (List ℕ)
unfolding push_check_sum
pack_new_order_100101 msg ext = push_check_sum (new_order_size + new_order_ext_size) (
    head 100101 (new_order_size + new_order_ext_size)
    ++ (take new_order_size msg ++ take new_order_ext_size ext))

unfoldable pub pack_exec_report_200102 : List ℕ → List ℕ → Option (List ℕ)
unfolding push_check_sum
pack_exec_report_200102 msg ext =
    push_check_sum (execution_report_size + execution_report_ext_size) (
      head 200102 (execution_report_size + execution_report_ext_size)
      ++ (take execution_report_size msg ++ take execution_report_ext_size ext))

unfoldable pub pack_exec_report_matched_200115 : List ℕ → List ℕ → Option (List ℕ)
unfolding push_check_sum
pack_exec_report_matched_200115 msg ext =
    push_check_sum (execution_report_matched_size + execution_report_matched_ext_size) (
      head 200115 (execution_report_matched_size + execution_report_matched_ext_size)
      ++ (take execution_report_matched_size msg ++ take execution_report_matched_ext_size ext))
