-- ===== src/Packet/Size.antt =====
-- The sizes of the packed structs of tool_net_binary/BinaryMessageStructDefine.h, field by field.
use simutgw_src.Common.{ℕ, ◌+◌}

abbrev pub head_size : ℕ
head_size = 4 + 4

abbrev pub tail_size : ℕ
tail_size = 4

abbrev pub logon_size : ℕ
logon_size = 20 + 20 + 4 + 16 + 32

abbrev pub platform_state_info_size : ℕ
platform_state_info_size = 2 + 2

abbrev pub report_synchronization_size : ℕ
report_synchronization_size = 8

abbrev pub new_order_size : ℕ
new_order_size = 3 + 6 + 8 + 4 + 2 + 2 + 8 + 8 + 10 + 12 + 4 + 4 + 1 + 1 + 8 + 8

abbrev pub new_order_ext_size : ℕ
new_order_ext_size = 8 + 8 + 2 + 1 + 1

abbrev pub execution_report_size : ℕ
execution_report_size =
    8 + 3 + 6 + 6 + 8 + 4 + 2 + 2 + 8 + 8 + 16 + 10 + 10 + 16 + 1 + 1 + 2 + 8 + 8 + 1 + 1 + 8 + 8
    + 12 + 4 + 4

abbrev pub execution_report_ext_size : ℕ
execution_report_ext_size = 8 + 8 + 2 + 1 + 1

abbrev pub execution_report_matched_size : ℕ
execution_report_matched_size =
    8 + 3 + 6 + 6 + 8 + 4 + 2 + 2 + 8 + 8 + 16 + 10 + 16 + 1 + 1 + 8 + 8 + 8 + 8 + 1 + 12 + 4

abbrev pub execution_report_matched_ext_size : ℕ
execution_report_matched_ext_size = 1
