-- ===== src/Packet/Examples.antt =====
-- Concrete buffers: a heartbeat, a message of the platform's state, and a head whose length wraps.
use simutgw_src.Common.{
  ℕ, zero, suc, ◌≤◌, ◌≡◌, refl, ◌≢◌, inl, none, some, List, [], ◌∷◌, ◌++◌, arith, length, take,
  drop, length-drop,
}
use simutgw_src.Packet.{BinaryNetPack, read32}
use simutgw_src.Packet.Size.{head_size}
use simutgw_src.Packet.CheckSum.{generate_check_sum, check_sum_loop}
use simutgw_src.Packet.Receive.{
  all_read, need_more, Received, net_pack_len, takes, net_pack, recv_round, recv_loop, recv_package,
}
use simutgw_src.Packet.Send.{push_check_sum, pack_heartbeat, pack_platform_state_info}
use simutgw_src.Packet.Messages.{heartbeat, platform_state_info, pack}
use simutgw_src.Packet.Chunks.{WrapsAt, recv_loop-endless, recv_package-Ends}
use simutgw_src.Packet.Feed.{recv_package-append}
use simutgw_src.Packet.RoundTrip.{nothing, sends, recv_package-Sent}

abbrev beat : List ℕ
beat = 0 ∷ 0 ∷ 0 ∷ 3 ∷ 0 ∷ 0 ∷ 0 ∷ 0 ∷ 0 ∷ 0 ∷ 0 ∷ 3 ∷ []

abbrev state : List ℕ
state = 0 ∷ 0 ∷ 0 ∷ 6 ∷ 0 ∷ 0 ∷ 0 ∷ 4 ∷ 0 ∷ 1 ∷ 0 ∷ 2 ∷ 0 ∷ 0 ∷ 0 ∷ 13 ∷ []

abbrev state_pack : BinaryNetPack
state_pack = record { msg_type = 6; body_length = 4; buffer = state }

abbrev beat_pack : BinaryNetPack
beat_pack = record { msg_type = 3; body_length = 0; buffer = [] }

beat_sent : pack heartbeat ≡ some beat
unfolding pack_heartbeat push_check_sum generate_check_sum check_sum_loop
beat_sent = refl

state_sent : pack (platform_state_info (0 ∷ 1 ∷ 0 ∷ 2 ∷ [])) ≡ some state
unfolding pack_platform_state_info push_check_sum generate_check_sum check_sum_loop
state_sent = refl

recv_package-Sent_example :
    recv_package ((beat ++ (state ++ [])) ++ (0 ∷ 0 ∷ [])) []
    ≡ some (need_more, 0 ∷ 0 ∷ [], beat_pack ∷ state_pack ∷ [])
recv_package-Sent_example =
    recv_package-Sent heartbeat (platform_state_info (0 ∷ 1 ∷ 0 ∷ 2 ∷ []) ∷ [])
      (beat ++ (state ++ [])) (0 ∷ 0 ∷ []) []
      (sends heartbeat beat (platform_state_info (0 ∷ 1 ∷ 0 ∷ 2 ∷ []) ∷ []) (state ++ []) tt
        beat_sent
        (sends (platform_state_info (0 ∷ 1 ∷ 0 ∷ 2 ∷ [])) state [] [] refl state_sent nothing))
      (inl (omega arith))

first_part :
    recv_package (take 18 (beat ++ state)) [] ≡ some (need_more, take 6 state, beat_pack ∷ [])
unfolding recv_package recv_loop recv_round net_pack read32
first_part = refl

recv_package-append_example :
    recv_package (take 6 state ++ (0 ∷ 4 ∷ [])) (beat_pack ∷ [])
    ≡ recv_package (take 18 (beat ++ state) ++ (0 ∷ 4 ∷ [])) []
recv_package-append_example =
    recv_package-append (take 18 (beat ++ state)) (4 ∷ []) 0 [] need_more (take 6 state)
      (beat_pack ∷ []) first_part

no_wrap :
    (k : ℕ) → head_size ≤ length (drop k beat) → net_pack_len (read32 (drop 4 (drop k beat))) ≢ 0
unfolding read32
no_wrap zero h e = omega (arith, e)
no_wrap (suc zero) h e = omega (arith, e)
no_wrap (suc (suc zero)) h e = omega (arith, e)
no_wrap (suc (suc (suc zero))) h e = omega (arith, e)
no_wrap (suc (suc (suc (suc zero)))) h e = omega (arith, e)
no_wrap (suc (suc (suc (suc (suc k))))) h e =
    omega (arith, h, length-drop (suc (suc (suc (suc (suc k))))) beat)

beat_never_wraps : ¬ WrapsAt beat
beat_never_wraps w = no_wrap w.start w.wraps.has_head w.wraps.is_zero

recv_package-Ends_example : (r : Received) × (recv_package beat [] ≡ some r)
recv_package-Ends_example = recv_package-Ends beat [] beat_never_wraps

abbrev wrapping : List ℕ
wrapping = 0 ∷ 0 ∷ 0 ∷ 1 ∷ 255 ∷ 255 ∷ 255 ∷ 244 ∷ []

wraps_to_zero : net_pack_len (read32 (drop 4 wrapping)) ≡ 0
unfolding read32
wraps_to_zero = refl

recv_loop-endless_example : recv_loop 1000 wrapping [] ≡ none
recv_loop-endless_example =
    recv_loop-endless wrapping (record { has_head = omega arith; is_zero = wraps_to_zero }) 1000 []

two_rounds : recv_loop 2 beat [] ≡ some (all_read, [], beat_pack ∷ [])
unfolding recv_loop recv_round net_pack read32
two_rounds = refl

state_round : recv_round state ≡ takes state_pack []
unfolding recv_round net_pack read32
state_round = refl

-- The same message with another check sum.
abbrev bad_pack : BinaryNetPack
bad_pack = record { msg_type = 6; body_length = 4; buffer = take 15 state ++ (14 ∷ []) }
