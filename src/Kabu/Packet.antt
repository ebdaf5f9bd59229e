-- ===== src/Kabu/Packet.antt =====
-- A packet and its content, mysdk/protocol/kabu/codec/PacketBase.h and PacketBase.cc. The words of
-- the head are bit patterns of their width; `none` is a failed assertion or an access out of range.
pub mod Text
use cpp_game_frame.Prelude.{
  ℕ, ◌+◌, ◌-◌, ◌%◌, ◌≤◌, ◌<◌, ◌≡◌, refl, Bool, true, false, ◌||◌, Option, none, some, List, [], ◌∷◌,
  ◌++◌, ltb, leb, if◌then◌else◌, length, take, ◌>>=◌, ◌>>◌,
}
use cpp_game_frame.Prelude.Int.{ℤ, pos, negsuc, signed16, ltb_ℤ, leb_ℤ, bits16}
use cpp_game_frame.Prelude.Words.{u16}
use cpp_game_frame.Net.Buffer.{
  Buffer, contents, readable_bytes, append, append_int16, append_int32, read_int16, read_int32,
  retrieve,
}
use cpp_game_frame.Net.Buffer

-- `tagKaBuHead_t`.
pub record Head : Type 0 where
  pub magic : ℕ
  pub len : ℕ
  pub op : ℕ
  pub param : ℕ

pub record Packet : Type 0 where
  pub head : Head
  pub buffer : Buffer

-- The constructor that copies a block, for both its forms.
unfoldable pub of_block : Head → List ℕ → Option Packet
of_block h block = do b ← append Buffer.new block; some (record { head = h; buffer = b })

-- The constructor from an operation and its parameter.
unfoldable pub of_op : ℕ → ℕ → Packet
of_op op param = record {
  head = record { magic = 0; len = 0; op = op; param = param };
  buffer = Buffer.new;
}

unfoldable pub get_op : Packet → ℕ
get_op p = p.head.op

unfoldable pub get_param : Packet → ℕ
get_param p = p.head.param

unfoldable pub set_op : ℕ → Packet → Packet
set_op op p = record p {
  head = record { magic = p.head.magic; len = p.head.len; op = op; param = p.head.param };
}

unfoldable pub set_param : ℕ → Packet → Packet
set_param param p = record p {
  head = record { magic = p.head.magic; len = p.head.len; op = p.head.op; param = param };
}

-- With too few bytes left these answer 0 and take nothing.
unfoldable pub get_int32 : Packet → Option (ℕ × Packet)
get_int32 p =
    if leb 4 (readable_bytes p.buffer)
    then (do (x, b) ← read_int32 p.buffer; some (x, record p { buffer = b }))
    else some (0, p)

unfoldable pub get_int16 : Packet → Option (ℕ × Packet)
get_int16 p =
    if leb 2 (readable_bytes p.buffer)
    then (do (x, b) ← read_int16 p.buffer; some (x, record p { buffer = b }))
    else some (0, p)

-- The copy into the caller's array, of a length that is an `int`: a negative one is a copy of a
-- range that ends before it begins.
take_text : ℤ → Packet → Option (Option (List ℕ) × Packet)
take_text (negsuc n) p = none
take_text (pos n) p = do
  text ← Buffer.get n p.buffer
  b ← retrieve n p.buffer
  some (some text, record p { buffer = b })

-- The first part of the answer is what is written to the caller's array; `none` is the answer false.
unfoldable pub get_utf : ℤ → Packet → Option (Option (List ℕ) × Packet)
unfolding take_text
get_utf max_len p = if ltb (readable_bytes p.buffer) 2 then some (none, p) else do
  (word, b) ← read_int16 p.buffer
  let len = signed16 word
  let q = record p { buffer = b }
  if leb_ℤ max_len len || ltb_ℤ (signed16 (u16 (readable_bytes b))) len
      then some (none, q)
      else take_text len q

unfoldable pub put_int16 : ℕ → Packet → Option Packet
put_int16 x p = do b ← append_int16 x p.buffer; some (record p { buffer = b })

unfoldable pub put_int32 : ℕ → Packet → Option Packet
put_int32 x p = do b ← append_int32 x p.buffer; some (record p { buffer = b })

-- `putUTF(std::string)`: the length field keeps 16 bits of the length.
unfoldable pub put_utf : List ℕ → Packet → Option Packet
put_utf utf p = do
  b ← append_int16 (u16 (length utf)) p.buffer
  c ← append b utf
  some (record p { buffer = c })

-- `putUTF(char*, int16)`: a negative length becomes one that no vector has.
unfoldable pub put_utf_n : List ℕ → ℤ → Packet → Option Packet
put_utf_n utf (negsuc n) p = none
put_utf_n utf (pos n) p = do
  b ← append_int16 n p.buffer
  c ← append b (take n utf)
  some (record p { buffer = c })

-- `getContentLen`, an `int16` as its bit pattern.
unfoldable pub get_content_len : Packet → ℕ
get_content_len p = u16 (readable_bytes p.buffer)

unfoldable pub prepend : List ℕ → Packet → Option Packet
prepend block p = do b ← Buffer.prepend block p.buffer; some (record p { buffer = b })

unfoldable pub prependable_bytes : Packet → ℕ
prependable_bytes p = Buffer.prependable_bytes p.buffer
