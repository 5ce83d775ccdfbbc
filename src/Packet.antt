-- ===== src/Packet.antt =====
-- `BinaryNetPack` and the network byte order of shared_src/tool_net_binary/. A byte is a number below
-- 256, and a vector of bytes a list.
pub mod Size
pub mod Receive
pub mod CheckSum
pub mod Send
pub mod Progress
pub mod Chunks
pub mod Feed
pub mod Frames
pub mod Messages
pub mod RoundTrip
pub mod Validity
mod Examples
use simutgw_src.Common.{ℕ, ◌+◌, ◌*◌, ◌/◌, ◌%◌, ◌^◌, List, [], ◌∷◌}

-- A received package; `buffer` is the whole message.
pub record BinaryNetPack : Type 0 where
  pub msg_type : ℕ
  pub body_length : ℕ
  pub buffer : List ℕ

-- `memcpy` of `htonl(x)`.
abbrev pub write32 : ℕ → List ℕ
write32 x = (x / 2 ^ 24) % 256 ∷ (x / 2 ^ 16) % 256 ∷ (x / 2 ^ 8) % 256 ∷ x % 256 ∷ []

-- `ntohl` of the first four bytes, which the callers have.
unfoldable pub read32 : List ℕ → ℕ
read32 (a ∷ b ∷ c ∷ d ∷ bytes) = a * 2 ^ 24 + b * 2 ^ 16 + c * 2 ^ 8 + d
read32 _ = 0
