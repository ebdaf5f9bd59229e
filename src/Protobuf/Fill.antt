-- ===== src/Protobuf/Fill.antt =====
-- The frame that fillEmptyBuff writes.
use cpp_game_frame.Prelude.{
  ℕ, ◌+◌, ◌≤◌, ◌<◌, ◌≡◌, refl, sym, ◌∙◌, ap, Bool, true, false, some, List, [], ◌∷◌, ◌++◌, ◌==◌,
  ◌>>◌, assert, arith, length, length-append,
}
use mathlib.Core.Path.{subst}
use cpp_game_frame.Prelude.Windows.{overwrite}
use cpp_game_frame.Prelude.Words.{u32, bytes32}
use cpp_game_frame.Net.Buffer
use cpp_game_frame.Net.Buffer.{
  Buffer, contents, readable_bytes, writeable_bytes, peek_int32, append, append_int32,
  ensure_writable_bytes, has_written, prepend, make_space,
}
use cpp_game_frame.Net.Buffer.Inv.{IsValid, new-IsValid, append-writer}
use cpp_game_frame.Net.Buffer.Refine.{length-contents, append_refines, prepend_refines}
use cpp_game_frame.Protobuf.{Library, swap32, fill_empty_buff}

-- An append leaves the room in front.
append-reader :
    (b b' : Buffer) (ds : List ℕ) → append b ds ≡ some b' → 12 ≤ b.reader → 12 ≤ b'.reader
unfolding append make_space
append-reader b b' ds e h = ground arith

abbrev put : List ℕ → Buffer → Buffer
put ds c = has_written (length ds) (record c { bytes = overwrite c.bytes c.writer ds })

written_room :
    (fits : Bool) (ds : List ℕ) (room b' : Buffer)
    → (assert fits >> some (put ds room)) ≡ some b'
    → (c : Buffer) × ((assert fits >> some room) ≡ some c) × (put ds c ≡ b')
written_room true ds room b' e = (room, refl, cc)
written_room false ds room b' e = absurd (ground arith)

-- Bytes that are written behind the contents are appended.
written_bytes :
    (b b' : Buffer) (ds : List ℕ)
    → append b ds ≡ some b'
    → (c : Buffer) × (ensure_writable_bytes (length ds) b ≡ some c) × (put ds c ≡ b')
unfolding append ensure_writable_bytes has_written
written_bytes b b' ds e = written_room _ ds _ b' e

-- A buffer that is being filled with `ds`.
record IsFilled (b : Buffer) (ds : List ℕ) (top : ℕ) : Type 0 where
  valid : IsValid b
  front : 12 ≤ b.reader
  low : b.writer ≤ top
  holds : contents b ≡ ds

new-IsFilled : IsFilled Buffer.new [] 12
unfolding Buffer.new
new-IsFilled = record { valid = new-IsValid; front = omega arith; low = omega arith; holds = refl }

append-IsFilled :
    {b : Buffer} {ds : List ℕ} {top : ℕ} (es : List ℕ)
    → IsFilled b ds top
    → top + length es < 4611686018427387904
    → (b' : Buffer) × (append b es ≡ some b') × IsFilled b' (ds ++ es) (top + 12 + length es)
append-IsFilled {b} {ds} {top} es h k =
    let low = h.low in
    let (b', e, v, c) = append_refines b es h.valid (omega (arith, low, k)) in
    (
      b',
      e,
      record {
        valid = v;
        front = append-reader b b' es e h.front;
        low = omega (arith, low, append-writer b es h.valid (omega (arith, low, k)) e);
        holds = c ∙ ap (λ xs. xs ++ es) h.holds;
      },
    )

new_empty : (readable_bytes Buffer.new == 0) ≡ true
unfolding Buffer.new
new_empty = refl

module _ {M : Type 0} (lib : Library M) where
  -- The part of a frame behind its length.
  abbrev pub payload : M → List ℕ
  payload m =
      let name = lib.type_name m ++ (0 ∷ []) in
      let head = (bytes32 (u32 (length name)) ++ name) ++ lib.serialize m in
      head ++ bytes32 (u32 (lib.adler32 head))

  -- An own frame: its length is in the other order.
  abbrev pub own_frame : M → List ℕ
  own_frame m = bytes32 (swap32 (length (payload m))) ++ payload m

  pub lengths :
      (m : M)
      → length (payload m) ≡ 4 + length (lib.type_name m ++ (0 ∷ [])) + length (lib.serialize m) + 4
  lengths m =
      let name = lib.type_name m ++ (0 ∷ []) in
      let bytes = lib.serialize m in
      let head = (bytes32 (u32 (length name)) ++ name) ++ bytes in
      omega (
        arith,
        length-append head (bytes32 (u32 (lib.adler32 head))),
        length-append (bytes32 (u32 (length name)) ++ name) bytes,
        length-append (bytes32 (u32 (length name))) name,
      )

  -- The calls of fillEmptyBuff, one after the other.
  run-own_frame :
      (m : M) (b1 b2 b3 b4 b5 b6 : Buffer)
      → append Buffer.new (bytes32 (u32 (length (lib.type_name m ++ (0 ∷ []))))) ≡ some b1
      → append b1 (lib.type_name m ++ (0 ∷ [])) ≡ some b2
      → ensure_writable_bytes (length (lib.serialize m)) b2 ≡ some b3
      → put (lib.serialize m) b3 ≡ b4
      → append b4 (bytes32 (u32 (lib.adler32 (contents b4)))) ≡ some b5
      → readable_bytes b5 ≡ 4 + length (lib.type_name m ++ (0 ∷ [])) + length (lib.serialize m) + 4
      → prepend (bytes32 (swap32 (u32 (readable_bytes b5)))) b5 ≡ some b6
      → fill_empty_buff lib Buffer.new m ≡ some b6
  unfolding fill_empty_buff append_int32
  run-own_frame m b1 b2 b3 b4 b5 b6 e1 e2 e3 e4 e5 e6 e7 =
      let empty = new_empty in
      let whole : (readable_bytes b5
            == 4 + length (lib.type_name m ++ (0 ∷ [])) + length (lib.serialize m) + 4)
          ≡ true =
        ground arith in
      rw (fill_empty_buff, empty, e1, e2, e3, e4, e5, whole) e7

  filled_total :
      (m : M) (b : Buffer) (top : ℕ)
      → IsFilled b (payload m) top
      → readable_bytes b ≡ 4 + length (lib.type_name m ++ (0 ∷ [])) + length (lib.serialize m) + 4
  filled_total m b top h = sym (length-contents h.valid) ∙ ap length h.holds ∙ lengths m

  summed :
      (b4 b5 : Buffer) (ds : List ℕ) (top : ℕ)
      → contents b4 ≡ ds
      → IsFilled b5 (ds ++ bytes32 (u32 (lib.adler32 (contents b4)))) top
      → IsFilled b5 (ds ++ bytes32 (u32 (lib.adler32 ds))) top
  summed b4 b5 ds top e h = subst (λ xs. IsFilled b5 (ds ++ bytes32 (u32 (lib.adler32 xs))) top) e h

  put_length :
      (m : M) (b5 b6 : Buffer) (top : ℕ)
      → length (payload m) < 65536
      → IsFilled b5 (payload m) top
      → contents b6 ≡ bytes32 (swap32 (u32 (readable_bytes b5))) ++ contents b5
      → contents b6 ≡ own_frame m
  put_length m b5 b6 top small h e =
      let size : u32 (readable_bytes b5) ≡ length (payload m) =
        omega (arith, filled_total m b5 top h, lengths m, small) in
      e
      ∙ ap (λ n. bytes32 (swap32 n) ++ contents b5) size
      ∙ ap (λ xs. bytes32 (swap32 (length (payload m))) ++ xs) h.holds

  pub fill-own_frame :
      (m : M)
      → length (payload m) < 65536
      → (b : Buffer) × (fill_empty_buff lib Buffer.new m ≡ some b)
        × IsValid b
        × (contents b ≡ own_frame m)
  fill-own_frame m small =
      let name = lib.type_name m ++ (0 ∷ []) in
      let bytes = lib.serialize m in
      let l = lengths m in
      let (b1, e1, h1) = append-IsFilled (bytes32 (u32 (length name))) new-IsFilled (omega arith) in
      let (b2, e2, h2) = append-IsFilled name h1 (omega (arith, l, small)) in
      let (b4, e4, h4) = append-IsFilled bytes h2 (omega (arith, l, small)) in
      let (b3, e3, same) = written_bytes b2 b4 bytes e4 in
      let (b5, e5, h5) =
        append-IsFilled (bytes32 (u32 (lib.adler32 (contents b4)))) h4 (omega (arith, l, small)) in
      let h = summed b4 b5 _ _ h4.holds h5 in
      let front = h5.front in
      let (b6, e6, v6, c6) =
        prepend_refines (bytes32 (swap32 (u32 (readable_bytes b5)))) h5.valid
          (omega (arith, front)) in
      (
        b6,
        run-own_frame m b1 b2 b3 b4 b5 b6 e1 e2 e3 same e5 (filled_total m b5 _ h) e6,
        v6,
        put_length m b5 b6 _ small h c6,
      )
