-- ===== src/Net/Buffer/Inv.antt =====
-- The invariant of the indices of `Buffer`, and that the operations keep it.
use cpp_game_frame.Prelude.{
  Bool-cases, ltb→lt, inl, inr, ◌⊎◌, take, ℕ, ◌+◌, ◌-◌, ◌≤◌, ◌<◌, ◌≡◌, refl, some, List, ltb, arith,
  length, replicate, length-replicate, length-append, length-take,
}
use cpp_game_frame.Prelude.Windows.{overwrite, length-overwrite, window}
use cpp_game_frame.Prelude.Words.{add_size}
use cpp_game_frame.Net.Buffer.{
  Buffer, readable_bytes, new, retrieve, make_space, append, writeable_bytes, resize,
}

pub record IsValid (b : Buffer) : Type 0 where
  pub ordered : b.reader ≤ b.writer
  pub inside : b.writer ≤ length b.bytes
  -- A vector of bytes is shorter than 2 ^ 63.
  pub small : length b.bytes < 9223372036854775808

pub new-IsValid : IsValid new
unfolding new
new-IsValid = ground arith

pub retrieve-IsValid : {b c : Buffer} (n : ℕ) → IsValid b → retrieve n b ≡ some c → IsValid c
unfolding retrieve
retrieve-IsValid n v e = ground arith

pub sizes :
    {b : Buffer}
    → IsValid b
    → (readable_bytes b ≡ b.writer - b.reader) × (writeable_bytes b ≡ length b.bytes - b.writer)
sizes v = omega arith

length-resize : (n : ℕ) (bytes : List ℕ) → length bytes ≤ n → length (resize n bytes) ≡ n
length-resize n bytes h = omega (
  arith,
  length-append (take n bytes) (replicate (n - length bytes) 0),
  length-take n bytes,
  length-replicate {A = ℕ} (n - length bytes) 0,
)

-- Where a block does not fit, `make_space` keeps the buffer valid and makes the block fit.
pub make_space-IsValid :
    (b : Buffer) (more : ℕ)
    → IsValid b
    → writeable_bytes b < more
    → b.writer + more < 9223372036854775808
    → IsValid (make_space b more) × (more ≤ writeable_bytes (make_space b more))
unfolding make_space
make_space-IsValid b more v h k = ground (
  arith,
  length-resize (add_size b.writer more) b.bytes,
  length-overwrite b.bytes 12 (window b.reader (readable_bytes b) b.bytes),
)

-- What `append` does once the block fits.
abbrev pub written : Buffer → List ℕ → Buffer
written b ds = record b {
  bytes = overwrite b.bytes b.writer ds;
  writer = add_size b.writer (length ds);
}

pub written-IsValid :
    (b : Buffer) (ds : List ℕ) → IsValid b → length ds ≤ writeable_bytes b → IsValid (written b ds)
written-IsValid b ds v h = omega (arith, length-overwrite b.bytes b.writer ds)

-- `append` runs `written` on a valid buffer with room, and its assertion holds.
pub append_cases :
    (b : Buffer) (ds : List ℕ)
    → IsValid b
    → b.writer + length ds < 9223372036854775808
    → (room : Buffer) × IsValid room
      × (length ds ≤ writeable_bytes room)
      × (append b ds ≡ some (written room ds))
      × ((room ≡ b) ⊎ ((writeable_bytes b < length ds) × (room ≡ make_space b (length ds))))
unfolding append
append_cases b ds v h = elim (Bool-cases (ltb (writeable_bytes b) (length ds))) [
  | inl over ↦
      let made = make_space-IsValid b (length ds) v (ltb→lt _ _ over) h in
      (
        make_space b (length ds),
        made.0,
        made.1,
        ground (arith, made.1, over),
        inr (ltb→lt _ _ over, refl),
      )
  | inr fits ↦ (b, v, ground arith, ground arith, inl refl)
]

-- A block that fits is written in place.
pub append_fits :
    (b : Buffer) (ds : List ℕ) → length ds ≤ writeable_bytes b → append b ds ≡ some (written b ds)
unfolding append
append_fits b ds h = ground arith

make_space-writer : (b : Buffer) (more : ℕ) → IsValid b → (make_space b more).writer ≤ b.writer + 12
unfolding make_space
make_space-writer b more v = ground arith

-- `append` moves the writer by the block, and by at most the 12 cells in front of the contents.
pub append-writer :
    (b : Buffer) (ds : List ℕ) {b' : Buffer}
    → IsValid b
    → b.writer + length ds < 9223372036854775796
    → append b ds ≡ some b'
    → b'.writer ≤ b.writer + 12 + length ds
unfolding append
append-writer b ds v h e = ground (arith, make_space-writer b (length ds) v)
