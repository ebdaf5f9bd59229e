-- ===== src/Net/Buffer/Refine.antt =====
-- The operations of `Buffer` seen as operations on its contents.
use cpp_game_frame.Prelude.{
  false, ℕ, ◌+◌, ◌-◌, ◌≤◌, ◌<◌, ◌≡◌, refl, sym, ◌∙◌, ap, ◌⊎◌, inl, inr, Bool-cases, some, List,
  ◌++◌, ltb, arith, length, drop, take-all,
}
use cpp_game_frame.Prelude.Windows.{
  overwrite, length-overwrite, window, length-window, window-overwrite, window-overwrite_front,
  window-append, drop-window,
}
use cpp_game_frame.Prelude.Words.{add_size}
use cpp_game_frame.Net.Buffer.{
  Buffer, contents, readable_bytes, writeable_bytes, prependable_bytes, resize, retrieve,
  make_space, append, prepend,
}
use cpp_game_frame.Net.Buffer.Inv.{IsValid, sizes, written, written-IsValid, append_cases}

pub length-contents : {b : Buffer} → IsValid b → length (contents b) ≡ readable_bytes b
length-contents {b} v =
    length-window b.reader (b.writer - b.reader) b.bytes (omega arith) ∙ sym (sizes v).0

pub written-contents :
    (b : Buffer) (ds : List ℕ)
    → IsValid b
    → length ds ≤ writeable_bytes b
    → contents (written b ds) ≡ contents b ++ ds
written-contents b ds v h =
    window-overwrite b.bytes b.reader (b.writer - b.reader) b.writer _ ds (omega arith)
      (omega arith) (omega arith)

make_space_grow-contents :
    (b : Buffer) (n : ℕ)
    → IsValid b
    → length b.bytes ≤ n
    → window b.reader (b.writer - b.reader) (resize n b.bytes) ≡ contents b
make_space_grow-contents b n v h =
    rw (take-all n b.bytes h) (window-append b.bytes _ b.reader (b.writer - b.reader) (omega arith))

make_space_move-contents :
    (b : Buffer) (m : ℕ) (ds : List ℕ)
    → m ≡ length ds
    → 12 + m ≤ length b.bytes
    → window 12 m (overwrite b.bytes 12 ds) ≡ ds
make_space_move-contents b m ds e h = window-overwrite b.bytes 12 0 12 m ds refl (omega arith) h

move_room :
    {b : Buffer} {more : ℕ}
    → IsValid b
    → ltb (add_size (writeable_bytes b) b.reader) (add_size more 12) ≡ false
    → more < 9223372036854775808
    → 12 + more + (b.writer - b.reader) ≤ length b.bytes
move_room v e h = ground arith

-- Making room leaves the contents alone, whether the storage grows or the block is moved.
pub make_space-contents :
    (b : Buffer) (more : ℕ)
    → IsValid b
    → writeable_bytes b < more
    → b.writer + more < 9223372036854775808
    → contents (make_space b more) ≡ contents b
unfolding make_space
make_space-contents b more v h k =
    let block = length-window b.reader (readable_bytes b) b.bytes (omega arith) in
    elim (Bool-cases (ltb (add_size (writeable_bytes b) b.reader) (add_size more 12))) [
      | inl grow ↦ rw grow (make_space_grow-contents b (add_size b.writer more) v (omega arith))
      | inr move ↦ rw move (
          make_space_move-contents b (add_size 12 (readable_bytes b) - 12)
            (window b.reader (readable_bytes b) b.bytes) (omega (arith, block))
            (omega (arith, move_room v move (omega arith)))
          ∙ ap (λ n. window b.reader n b.bytes) (sizes v).0)
    ]

-- On a valid buffer, where writer index plus block length is below 2^63, append succeeds (its
-- assertion holds, whether the block fits, the storage grows or the contents are moved), the
-- buffer stays valid, and its contents are the old ones followed by the block.
pub append_refines :
    (b : Buffer) (ds : List ℕ)
    → IsValid b
    → b.writer + length ds < 9223372036854775808
    → (b' : Buffer) × (append b ds ≡ some b') × IsValid b' × (contents b' ≡ contents b ++ ds)
append_refines b ds v h =
    let (room, ok, fits, e, how) = append_cases b ds v h in
    (
      written room ds,
      e,
      written-IsValid room ds ok fits,
      written-contents room ds ok fits ∙ ap (λ xs. xs ++ ds) (same room how),
    )
  where
    same :
        (room : Buffer)
        → ((room ≡ b) ⊎ ((writeable_bytes b < length ds) × (room ≡ make_space b (length ds))))
        → contents room ≡ contents b
    same room (inl e) = ap contents e
    same room (inr (short, e)) = ap contents e ∙ make_space-contents b (length ds) v short h

-- On a valid buffer, retrieve of at most as many bytes as are readable succeeds, keeps the buffer
-- valid and drops exactly those bytes from the front of the contents.
pub retrieve_refines :
    (n : ℕ) {b : Buffer}
    → IsValid b
    → n ≤ length (contents b)
    → (b' : Buffer) × (retrieve n b ≡ some b') × IsValid b' × (contents b' ≡ drop n (contents b))
unfolding retrieve
retrieve_refines n {b} v h =
    let l = length-contents v in
    (
      record b { reader = b.reader + n },
      ground arith,
      omega arith,
      sym (
          drop-window b.reader (b.writer - b.reader) n _ _ b.bytes refl (omega arith)
            (omega arith)),
    )

-- On a valid buffer, prepend of a block that is not longer than the space in front of the contents
-- succeeds, keeps the buffer valid and puts the block before the contents.
pub prepend_refines :
    (ds : List ℕ) {b : Buffer}
    → IsValid b
    → length ds ≤ prependable_bytes b
    → (b' : Buffer) × (prepend ds b ≡ some b') × IsValid b' × (contents b' ≡ ds ++ contents b)
unfolding prepend
prepend_refines ds {b} v h = (
  record b { bytes = overwrite b.bytes (b.reader - length ds) ds; reader = b.reader - length ds },
  ground arith,
  omega (arith, length-overwrite b.bytes (b.reader - length ds) ds),
  window-overwrite_front b.bytes (b.reader - length ds) b.reader (b.writer - b.reader) _ ds
      (omega arith) (omega arith) (omega arith),
)
