-- ===== src/Protobuf.antt =====
-- The codec of protobuf messages, mysdk/protocol/protobuf/codec/codec.h and codec.cc. What protobuf and zlib do is an
-- interface; a connection and what stands behind the callbacks is a state that the callbacks change. `none` is a failed
-- assertion or an access out of range.
pub mod Frame
pub mod Deliver
pub mod Fill
pub mod Refused
mod Tests
use cpp_game_frame.Prelude.{
  ℕ, zero, suc, ◌+◌, ◌-◌, ◌*◌, ◌/◌, ◌%◌, Bool, true, false, ◌&&◌, ◌||◌, Option, none, some, List,
  [], ◌∷◌, ◌++◌, ltb, leb, ◌==◌, if◌then◌else◌, ◌>>=◌, ◌>>◌, assert, length, take, drop,
}
use cpp_game_frame.Prelude.Windows.{overwrite, window}
use cpp_game_frame.Prelude.Words.{u32, bytes32, word32, add_size}
use cpp_game_frame.Net.Buffer
use cpp_game_frame.Net.Buffer.{
  Buffer, contents, readable_bytes, peek_int32, retrieve, append, append_int32,
  ensure_writable_bytes, has_written, prepend,
}
use cpp_game_frame.Kabu.Codec.{Round, leave, fault, again, Outcome, returned, faulted, running}

pub data ErrorCode : Type 0 where
  no_error invalid_length check_sum_error invalid_name_len unknown_message_type parse_error :
      ErrorCode

-- What the codec asks of its libraries: the name of a message's type and its bytes, whether a type of some name was
-- generated, what a message of that type reads from bytes, and the checksum.
pub record Library (M : Type 0) : Type 0 where
  pub type_name : M → List ℕ
  pub serialize : M → List ℕ
  pub is_known : List ℕ → Bool
  pub parse_from : List ℕ → List ℕ → Option M
  pub adler32 : List ℕ → ℕ

abbrev pub header_len : ℕ
header_len = 4

abbrev pub min_message_len : ℕ
min_message_len = 4

abbrev pub max_message_len : ℕ
max_message_len = 67108864

-- `hostToNetwork32` and `networkToHost32`: the bytes of a word in the other order.
abbrev pub swap32 : ℕ → ℕ
swap32 x = x % 256 * 16777216 + x / 256 % 256 * 65536 + x / 65536 % 256 * 256 + x / 16777216 % 256

abbrev pub as_int32 : List ℕ → Option ℕ
as_int32 buf = do x ← word32 buf; some (swap32 x)

-- A word as an `int32` lies between two bounds that are not negative.
abbrev pub between : ℕ → ℕ → ℕ → Bool
between lo x hi = leb lo x && leb x hi && ltb x 2147483648

-- What `parse` gives: a message that was read, or an error.
pub data Parsed (M : Type 0) : Type 0 where
  message : M → Parsed M
  error : ErrorCode → Parsed M

module _ {M : Type 0} (lib : Library M) where
  -- The bytes of the message, once its type is known.
  unfoldable pub read_message : List ℕ → List ℕ → Parsed M
  read_message name data_bytes = elim (lib.parse_from name data_bytes) [
    | none ↦ error parse_error
    | some m ↦ message m
  ]

  -- `buf` is the memory from the pointer on.
  unfoldable pub parse : List ℕ → ℕ → Option (Parsed M)
  unfolding read_message
  parse buf len = do
    expected_check_sum ← as_int32 (drop (len - header_len) buf)
    if u32 (lib.adler32 (take (len - header_len) buf)) == expected_check_sum
        then (do
          name_len ← as_int32 buf
          if leb 2 name_len && leb (name_len + 2 * header_len) len && ltb name_len 2147483648
              then (let name = window header_len (name_len - 1) buf in
                  if lib.is_known name
                  then some (
                      read_message name
                        (window (header_len + name_len) (len - name_len - 2 * header_len) buf))
                  else some (error unknown_message_type))
              else some (error invalid_name_len))
        else some (error check_sum_error)

  unfoldable pub fill_empty_buff : Buffer → M → Option Buffer
  fill_empty_buff b m = do
    assert (readable_bytes b == 0)
    let name = lib.type_name m ++ (0 ∷ [])
    let bytes = lib.serialize m
    b1 ← append_int32 (u32 (length name)) b
    b2 ← append b1 name
    b3 ← ensure_writable_bytes (length bytes) b2
    let b4 = has_written (length bytes) (record b3 { bytes = overwrite b3.bytes b3.writer bytes })
    b5 ← append_int32 (u32 (lib.adler32 (contents b4))) b4
    assert (readable_bytes b5 == 4 + length name + length bytes + 4)
    prepend (bytes32 (swap32 (u32 (readable_bytes b5)))) b5

  module _ {S : Type 0} (message_callback : S → M → S)
      (error_callback : S → Buffer → ErrorCode → S × Buffer) where
    unfoldable pub failed : S → Buffer → ErrorCode → Round S
    failed s b code = let (t, c) = error_callback s b code in again t c

    unfoldable pub delivered : S → Buffer → ℕ → Parsed M → Round S
    unfolding failed
    delivered s b len (error code) = failed s b code
    delivered s b len (message m) = elim (retrieve (header_len + len) b) [
      | none ↦ fault
      | some c ↦ again (message_callback s m) c
    ]

    -- The branches on the length.
    unfoldable pub on_length : S → Buffer → ℕ → Round S
    unfolding failed delivered
    on_length s b len =
        if between min_message_len len max_message_len
        then (if leb (len + header_len) (readable_bytes b)
            then elim (parse (drop (b.reader + header_len) b.bytes) len) [
              | none ↦ fault
              | some p ↦ delivered s b len p
            ]
            else leave)
        else failed s b invalid_length

    -- One round of the loop of `onMessage`.
    unfoldable pub round : S → Buffer → Round S
    unfolding on_length
    round s b =
        if leb (min_message_len + header_len) (readable_bytes b)
        then elim (peek_int32 b) [ none ↦ fault | some len ↦ on_length s b len ]
        else leave

    unfoldable pub on_message : ℕ → S → Buffer → Outcome S
    on_message zero s b = running
    on_message (suc fuel) s b = elim (round s b) [
      | leave ↦ returned s b
      | fault ↦ faulted
      | again t c ↦ on_message fuel t c
    ]

-- `defaultErrorCallback` shuts the connection down, if it is connected, and leaves the buffer alone.
unfoldable pub default_error_callback :
    {S : Type 0} → (S → Bool) → (S → S) → S → Buffer → ErrorCode → S × Buffer
default_error_callback connected shutdown s b code = (if connected s then shutdown s else s, b)
