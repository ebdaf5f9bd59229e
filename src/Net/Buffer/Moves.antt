-- ===== src/Net/Buffer/Moves.antt =====
-- Reading from a socket into a `Buffer`, taking everything out, shrinking, and the search for a line end.
use cpp_game_frame.Prelude.{
  ℕ, ◌+◌, ◌-◌, ◌≤◌, ◌<◌, ◌≡◌, ◌↔◌, refl, sym, ◌∙◌, ap, some, none, Bool-cases, inl, inr, List, [],
  ◌++◌, leb, leb→le, arith, length, take, drop, replicate, take-all, length-take, length-drop,
  length-replicate, length-append, take-append, take-append-drop,
}
use mathlib.Core.List.{append_assoc}
use cpp_game_frame.Prelude.Windows.{
  overwrite, length-overwrite, window, length-window, window-overwrite, take-window,
}
use cpp_game_frame.Prelude.Words.{add_size}
use cpp_game_frame.Net.Buffer.{
  Buffer, received, contents, readable_bytes, writeable_bytes, cheap_prepend, retrieve_as_string,
  get, read_fd, shrink, find_crlf,
}
use cpp_game_frame.Net.Buffer.Inv.{IsValid, sizes}
use cpp_game_frame.Net.Buffer.Refine.{length-contents, append_refines}

-- `get` copies the head of the contents out.
pub get_refines :
    (body rest : List ℕ) {b : Buffer}
    → IsValid b
    → contents b ≡ body ++ rest
    → get (length body) b ≡ some body
unfolding get
get_refines body rest {b} v e =
    let total : length (contents b) ≡ length body + length rest =
      ap length e ∙ length-append body rest in
    let shown : window b.reader (length body) b.bytes ≡ body =
      sym (
        take-window b.reader (b.writer - b.reader) (length body) b.bytes
          (omega (arith, length-contents v)))
      ∙ ap (take (length body)) e
      ∙ take-append body rest in
    ground (arith, shown, total, length-contents v)

-- `retrieve_as_string` hands out the whole contents and leaves a valid buffer with none.
pub retrieve_as_string_refines :
    {b : Buffer}
    → IsValid b
    → 12 ≤ length b.bytes
    → ((retrieve_as_string b).0 ≡ contents b)
      × IsValid (retrieve_as_string b).1
      × (contents (retrieve_as_string b).1 ≡ [])
unfolding retrieve_as_string
retrieve_as_string_refines {b} v h =
    (ap (λ n. window b.reader n b.bytes) (sizes v).0, omega arith, refl)

fits-contents :
    (b : Buffer) (ds : List ℕ)
    → IsValid b
    → length ds ≤ writeable_bytes b
    → contents
        (record b { bytes = overwrite b.bytes b.writer ds; writer = add_size b.writer (length ds) })
      ≡ contents b ++ ds
fits-contents b ds v h =
    window-overwrite b.bytes b.reader (b.writer - b.reader) b.writer _ ds (omega arith)
      (omega arith) (omega arith)

-- The storage filled to its end, when more bytes came than fit.
abbrev filled : Buffer → List ℕ → Buffer
filled b ds = record b {
  bytes = overwrite b.bytes b.writer (take (writeable_bytes b) ds);
  writer = length b.bytes;
}

filled-IsValid : (b : Buffer) (ds : List ℕ) → IsValid b → IsValid (filled b ds)
filled-IsValid b ds v =
    omega (arith, length-overwrite b.bytes b.writer (take (writeable_bytes b) ds))

filled-contents :
    (b : Buffer) (ds : List ℕ)
    → IsValid b
    → writeable_bytes b < length ds
    → contents (filled b ds) ≡ contents b ++ take (writeable_bytes b) ds
filled-contents b ds v h =
    window-overwrite b.bytes b.reader (b.writer - b.reader) b.writer _ (take (writeable_bytes b) ds)
      (omega arith) (omega (arith, length-take (writeable_bytes b) ds)) (omega arith)

-- On a valid buffer, where storage size plus the number of bytes received is below 2^63, readFd
-- succeeds, keeps the buffer valid and puts exactly the received bytes, in order, behind the
-- contents, also when they overflow the writable cells into the stack buffer.
pub read_fd_refines :
    (ds : List ℕ) {b : Buffer}
    → IsValid b
    → length b.bytes + length ds < 9223372036854775808
    → (b' : Buffer) × (read_fd (received ds) b ≡ some b')
      × IsValid b'
      × (contents b' ≡ contents b ++ ds)
unfolding read_fd
read_fd_refines ds {b} v h = elim (Bool-cases (leb (length ds) (writeable_bytes b))) [
  | inl fits ↦
      let le = leb→le _ _ fits in
      let e : take (writeable_bytes b) ds ≡ ds = take-all (writeable_bytes b) ds le in
      (
        record b { bytes = overwrite b.bytes b.writer ds; writer = add_size b.writer (length ds) },
        rw (fits, e) refl,
        omega (arith, length-overwrite b.bytes b.writer ds),
        fits-contents b ds v le,
      )
  | inr over ↦
      let lt : writeable_bytes b < length ds = ground arith in
      let (b', e, v', c) =
        append_refines (filled b ds) (drop (writeable_bytes b) ds) (filled-IsValid b ds v)
          (omega (arith, length-drop (writeable_bytes b) ds)) in
      (b', rw over e, v', c ∙ rest lt)
]
  where
    rest :
        writeable_bytes b < length ds
        → contents (filled b ds) ++ drop (writeable_bytes b) ds ≡ contents b ++ ds
    rest lt =
        ap (λ xs. xs ++ drop (writeable_bytes b) ds) (filled-contents b ds v lt)
        ∙ append_assoc (contents b) (take (writeable_bytes b) ds) (drop (writeable_bytes b) ds)
        ∙ ap (◌++◌ (contents b)) (take-append-drop (writeable_bytes b) ds)

length-shrink :
    (reserve : ℕ) {b : Buffer}
    → IsValid b
    → length b.bytes + reserve < 9223372036854775796
    → length (shrink reserve b).bytes ≡ 12 + (b.writer - b.reader) + reserve
unfolding shrink
length-shrink reserve {b} v h = omega (
  arith,
  length-overwrite
      (replicate {A = ℕ} (add_size (add_size cheap_prepend (readable_bytes b)) reserve) 0)
      cheap_prepend (window b.reader (readable_bytes b) b.bytes),
  length-replicate {A = ℕ} (add_size (add_size cheap_prepend (readable_bytes b)) reserve) 0,
)

indices-shrink :
    (reserve : ℕ) (b : Buffer)
    → ((shrink reserve b).reader ≡ b.reader) × ((shrink reserve b).writer ≡ b.writer)
unfolding shrink
indices-shrink reserve b = (refl, refl)

-- On a valid buffer, where the storage size plus reserve is below 2^63 - 12, the buffer is valid
-- after shrink exactly when the reader index is at most 12 + reserve.
pub shrink-IsValid_iff :
    (reserve : ℕ) {b : Buffer}
    → IsValid b
    → length b.bytes + reserve < 9223372036854775796
    → IsValid (shrink reserve b) ↔ (b.reader ≤ 12 + reserve)
shrink-IsValid_iff reserve {b} v h =
    let l = length-shrink reserve v h in
    let i = indices-shrink reserve b in (λ w. omega arith, λ le. omega arith)

-- With the reader at 12 the contents are kept.
pub shrink-contents :
    (reserve : ℕ) {b : Buffer}
    → IsValid b
    → length b.bytes + reserve < 9223372036854775796
    → b.reader ≡ 12
    → contents (shrink reserve b) ≡ contents b
unfolding shrink
shrink-contents reserve {b} v h e =
    window-overwrite _ b.reader 0 12 (b.writer - b.reader)
      (window b.reader (readable_bytes b) b.bytes) (omega arith)
      (omega (arith, length-window b.reader (readable_bytes b) b.bytes (omega arith)))
      (omega (
        arith,
        length-replicate {A = ℕ} (add_size (add_size cheap_prepend (readable_bytes b)) reserve) 0,
      ))
    ∙ ap (λ n. window b.reader n b.bytes) (sizes v).0

-- The search answers NULL on every buffer, also where the contents hold a line end.
pub find_crlf-none : (b : Buffer) → find_crlf b ≡ none
unfolding find_crlf
find_crlf-none b = refl
