-- ===== src/Kabu/Codec.antt =====
-- The codec, mysdk/protocol/kabu/codec/KaBuCodec.h and KaBuCodec.cc. A connection and what stands
-- behind the callbacks is a state that the callbacks change.
pub mod Frame
pub mod Frames
pub mod Stuck
mod Tests
use cpp_game_frame.Prelude.{
  ℕ, zero, suc, ◌+◌, ◌/◌, ◌%◌, Bool, true, false, Option, none, some, List, [], ◌∷◌, ◌++◌, ltb, leb,
  ◌==◌, if◌then◌else◌, ◌>>=◌, ◌>>◌, assert,
}
use cpp_game_frame.Prelude.Words.{u16, u32, bytes16, bytes32}
use cpp_game_frame.Net.Buffer.{
  Buffer, contents, readable_bytes, peek_int32, read_int16, read_int32, retrieve, append_int16,
  append_int32,
}
use cpp_game_frame.Net.Buffer
use cpp_game_frame.Kabu.Packet.{Packet, Head, of_block, get_content_len, get_op, get_param}
use cpp_game_frame.Kabu.Packet

pub data ErrorCode : Type 0 where
  no_error invalid_length parse_error unsupport_error : ErrorCode

-- `'S' << 8 | 'D'` and `'S' << 8 | 'C'`.
abbrev pub packet_magic_d : ℕ
packet_magic_d = 21316

abbrev pub packet_magic_c : ℕ
packet_magic_c = 21315

abbrev pub header_len : ℕ
header_len = 12

abbrev pub max_message_len : ℕ
max_message_len = 64512

abbrev pub get_low16 : ℕ → ℕ
get_low16 t = t % 65536

abbrev pub get_height16 : ℕ → ℕ
get_height16 t = t / 65536 % 65536

-- One round of the loop in `onMessage`: it leaves the loop, goes round again, or faults.
pub data Round {ℓ} (S : Type ℓ) : Type ℓ where
  leave : Round S
  fault : Round S
  again : S → Buffer → Round S

-- How a call of `onMessage` ends; `running` is a loop that still goes on when the fuel is used up.
pub data Outcome {ℓ} (S : Type ℓ) : Type ℓ where
  returned : S → Buffer → Outcome S
  faulted : Outcome S
  running : Outcome S

after_error {ℓ} : {S : Type ℓ} → S × Buffer → Round S
after_error (s, b) = again s b

after_packet {ℓ} : {S : Type ℓ} → Option (S × Buffer) → Round S
after_packet none = fault
after_packet (some (s, b)) = again s b

module _ {ℓ} {S : Type ℓ} (message_callback : S → Packet → S)
    (error_callback : S → Buffer → ErrorCode → S × Buffer) where
  -- The branch that reads a whole packet.
  read_packet : S → Buffer → Option (S × Buffer)
  read_packet s b0 = do
    (magic, b1) ← read_int16 b0
    (len, b2) ← read_int16 b1
    (op, b3) ← read_int32 b2
    (param, b4) ← read_int32 b3
    block ← Buffer.get len b4
    p ← of_block (record { magic = magic; len = len; op = op; param = param }) block
    b5 ← retrieve len b4
    some (message_callback s p, b5)

  on_header : S → Buffer → ℕ → ℕ → Round S
  unfolding read_packet after_error after_packet
  on_header s b magic len =
      if magic == packet_magic_c
      then after_error (error_callback s b unsupport_error)
      else if ltb max_message_len len
      then after_error (error_callback s b invalid_length)
      else if leb (len + header_len) (readable_bytes b)
      then after_packet (read_packet s b)
      else leave

  unfoldable pub round : S → Buffer → Round S
  unfolding on_header
  round s b =
      if leb header_len (readable_bytes b)
      then elim (peek_int32 b) [
        | none ↦ fault
        | some tmp ↦ on_header s b (get_low16 tmp) (get_height16 tmp)
      ]
      else leave

  unfoldable pub on_message : ℕ → S → Buffer → Outcome S
  on_message zero s b = running
  on_message (suc fuel) s b = elim (round s b) [
    | leave ↦ returned s b
    | fault ↦ faulted
    | again s' b' ↦ on_message fuel s' b'
  ]

-- `defaultErrorCallback` shuts the connection down, if it is connected, and leaves the buffer alone.
unfoldable pub default_error_callback {ℓ} :
    {S : Type ℓ} → (S → Bool) → (S → S) → S → Buffer → ErrorCode → S × Buffer
default_error_callback connected shutdown s b code = (if connected s then shutdown s else s, b)

-- `send` gives the connection the bytes that it writes, and leaves the head in the packet's buffer.
unfoldable pub send : Packet → Option (List ℕ × Packet)
send p =
    if leb header_len (Packet.prependable_bytes p)
    then (do
      b1 ← append_int16 packet_magic_d Buffer.new
      b2 ← append_int16 (get_content_len p) b1
      b3 ← append_int32 (get_op p) b2
      b4 ← append_int32 (get_param p) b3
      q ← Packet.prepend (contents b4) p
      some (contents q.buffer, q))
    else some (contents p.buffer, p)
