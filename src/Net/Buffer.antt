-- ===== src/Net/Buffer.antt =====
-- The byte buffer, mysdk/net/Buffer.h and mysdk/net/Buffer.cc. A pointer into the storage is an
-- index; `none` is an assertion that fails or an access outside the storage.
pub mod Inv
pub mod Refine
pub mod Words
pub mod Moves
mod Tests
use cpp_game_frame.Prelude.{
  ℕ, zero, suc, ◌+◌, ◌-◌, ◌≤◌, ◌<◌, ◌≡◌, refl, Bool, true, false, ◌&&◌, Option, none, some, List,
  [], ◌∷◌, ◌++◌, ltb, leb, ◌==◌, if◌then◌else◌, length, take, drop, replicate, assert, ◌>>=◌, ◌>>◌,
}
use cpp_game_frame.Prelude.Windows.{overwrite, window}
use cpp_game_frame.Prelude.Words.{add_size, sub_size, bytes16, bytes32, word16, word32}

pub record Buffer : Type 0 where
  pub bytes : List ℕ
  pub reader : ℕ
  pub writer : ℕ

abbrev pub cheap_prepend : ℕ
cheap_prepend = 12

abbrev pub initial_size : ℕ
initial_size = 1012

unfoldable pub new : Buffer
new = record {
  bytes = replicate (cheap_prepend + initial_size) 0;
  reader = cheap_prepend;
  writer = cheap_prepend;
}

unfoldable pub swap : Buffer → Buffer → Buffer × Buffer
swap a b = (b, a)

abbrev pub readable_bytes : Buffer → ℕ
readable_bytes b = sub_size b.writer b.reader

abbrev pub writeable_bytes : Buffer → ℕ
writeable_bytes b = sub_size (length b.bytes) b.writer

abbrev pub prependable_bytes : Buffer → ℕ
prependable_bytes b = b.reader

unfoldable pub retrieve : ℕ → Buffer → Option Buffer
retrieve len b = do
  assert (leb len (readable_bytes b))
  some (record b { reader = add_size b.reader len })

unfoldable pub retrieve_int16 : Buffer → Option Buffer
retrieve_int16 b = retrieve 2 b

unfoldable pub retrieve_int32 : Buffer → Option Buffer
retrieve_int32 b = retrieve 4 b

unfoldable pub retrieve_until : ℕ → Buffer → Option Buffer
retrieve_until end b = do
  assert (leb b.reader end)
  assert (leb end b.writer)
  retrieve (end - b.reader) b

unfoldable pub retrieve_all : Buffer → Buffer
retrieve_all b = record b { reader = cheap_prepend; writer = cheap_prepend }

unfoldable pub retrieve_as_string : Buffer → List ℕ × Buffer
unfolding retrieve_all
retrieve_as_string b = (window b.reader (readable_bytes b) b.bytes, retrieve_all b)

-- `std::vector::resize`: cells that are added hold 0.
abbrev pub resize : ℕ → List ℕ → List ℕ
resize n bytes = take n bytes ++ replicate (n - length bytes) 0

-- `std::copy` moves the readable bytes as a block.
unfoldable pub make_space : Buffer → ℕ → Buffer
make_space b more =
    if ltb (add_size (writeable_bytes b) (prependable_bytes b)) (add_size more cheap_prepend)
    then record b { bytes = resize (add_size b.writer more) b.bytes }
    else record {
      bytes = overwrite b.bytes cheap_prepend (window b.reader (readable_bytes b) b.bytes);
      reader = cheap_prepend;
      writer = add_size cheap_prepend (readable_bytes b);
    }

unfoldable pub ensure_writable_bytes : ℕ → Buffer → Option Buffer
unfolding make_space
ensure_writable_bytes len b =
    let room = if ltb (writeable_bytes b) len then make_space b len else b in
    do assert (leb len (writeable_bytes room)); some room

unfoldable pub append : Buffer → List ℕ → Option Buffer
unfolding make_space
append b ds =
    let len = length ds in
    let room = if ltb (writeable_bytes b) len then make_space b len else b in
    do
      assert (leb len (writeable_bytes room))
      some (record room {
        bytes = overwrite room.bytes room.writer ds;
        writer = add_size room.writer len;
      })

unfoldable pub append_int32 : ℕ → Buffer → Option Buffer
append_int32 x b = append b (bytes32 x)

unfoldable pub append_int16 : ℕ → Buffer → Option Buffer
append_int16 x b = append b (bytes16 x)

unfoldable pub peek_int32 : Buffer → Option ℕ
peek_int32 b = word32 (drop b.reader b.bytes)

unfoldable pub peek_int16 : Buffer → Option ℕ
peek_int16 b = word16 (drop b.reader b.bytes)

unfoldable pub read_int32 : Buffer → Option (ℕ × Buffer)
read_int32 b = do x ← peek_int32 b; b' ← retrieve_int32 b; some (x, b')

unfoldable pub read_int16 : Buffer → Option (ℕ × Buffer)
read_int16 b = do x ← peek_int16 b; b' ← retrieve_int16 b; some (x, b')

-- `get` copies `len` bytes out, whether they are readable or not.
unfoldable pub get : ℕ → Buffer → Option (List ℕ)
get len b = do assert (leb (b.reader + len) (length b.bytes)); some (window b.reader len b.bytes)

unfoldable pub prepend : List ℕ → Buffer → Option Buffer
prepend ds b = do
  assert (leb (length ds) (prependable_bytes b))
  some (record b {
    bytes = overwrite b.bytes (sub_size b.reader (length ds)) ds;
    reader = sub_size b.reader (length ds);
  })

-- The indices are left as they were.
unfoldable pub shrink : ℕ → Buffer → Buffer
shrink reserve b = record b {
  bytes =
      overwrite (replicate (add_size (add_size cheap_prepend (readable_bytes b)) reserve) 0)
        cheap_prepend (window b.reader (readable_bytes b) b.bytes);
}

unfoldable pub has_written : ℕ → Buffer → Buffer
has_written len b = record b { writer = add_size b.writer len }

-- What `readv` answers: the error number, or the bytes that came.
pub data Readv : Type 0 where
  failed : ℕ → Readv
  received : List ℕ → Readv

-- `readv` fills the writable cells first and the 64 KB on the stack with what is left; `append`
-- takes that part over.
unfoldable pub read_fd : Readv → Buffer → Option Buffer
read_fd (failed errno) b = some b
read_fd (received ds) b =
    let writeable = writeable_bytes b in
    let filled = overwrite b.bytes b.writer (take writeable ds) in
    if leb (length ds) writeable
    then some (record b { bytes = filled; writer = add_size b.writer (length ds) })
    else append (record b { bytes = filled; writer = length b.bytes }) (drop writeable ds)

-- The readable bytes, which is what a client is promised.
abbrev pub contents : Buffer → List ℕ
contents b = window b.reader (b.writer - b.reader) b.bytes

-- `std::search` for CR LF in a block that starts at index `i`; its end if there is none.
search_crlf : ℕ → List ℕ → ℕ
search_crlf i [] = i
search_crlf i (c ∷ []) = i + 1
search_crlf i (c ∷ d ∷ rest) =
    let later = search_crlf (i + 1) (d ∷ rest) in if c == 13 && d == 10 then i else later

-- A pointer, `none` for NULL.
abbrev begin_write : Buffer → Option ℕ
begin_write b = some b.writer

-- `return crlf = beginWrite() ? NULL : crlf;` assigns, and tests the pointer `beginWrite()`.
unfoldable pub find_crlf : Buffer → Option ℕ
unfolding search_crlf
find_crlf b =
    let crlf = search_crlf b.reader (contents b) in
    elim (begin_write b) [ some _ ↦ none | none ↦ some crlf ]
