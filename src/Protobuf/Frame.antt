-- ===== src/Protobuf/Frame.antt =====
-- A frame whose words are in the orders in which the receiver reads them, and the round of the loop that takes it.
use cpp_game_frame.Prelude.{
  ℕ, zero, suc, ◌+◌, ◌-◌, ◌≤◌, ◌<◌, ◌≡◌, refl, sym, ◌∙◌, ap, true, some, List, [], ◌∷◌, ◌++◌, leb,
  ltb, ◌==◌, ◌&&◌, ◌>>=◌, arith, length, take, drop, length-append, drop-append, take-append,
  take-append-drop,
}
use mathlib.Core.List.{append_assoc}
use cpp_game_frame.Prelude.Windows.{window}
use cpp_game_frame.Prelude.Words.{u32, word32, word32-bytes32, bytes32}
use cpp_game_frame.Net.Buffer.{Buffer, contents, readable_bytes, peek_int32}
use cpp_game_frame.Net.Buffer.Inv.{IsValid}
use cpp_game_frame.Net.Buffer.Refine.{length-contents, retrieve_refines}
use cpp_game_frame.Net.Buffer.Words.{peek_int32-contents}
use cpp_game_frame.Kabu.Codec.{again}
use cpp_game_frame.Protobuf.{
  Library, ErrorCode, message, swap32, as_int32, between, parse, read_message, delivered, on_length,
  round,
}

take_at : (n : ℕ) (xs ys : List ℕ) → n ≡ length xs → take n (xs ++ ys) ≡ xs
take_at n xs ys e = rw e (take-append xs ys)

drop_at : (n : ℕ) (xs ys : List ℕ) → n ≡ length xs → drop n (xs ++ ys) ≡ ys
drop_at n xs ys e = rw e (drop-append xs ys)

drop_more : (r k n : ℕ) (xs : List ℕ) → n ≡ r + k → drop n xs ≡ drop k (drop r xs)
drop_more zero k n xs e = let same : n ≡ k = omega (arith, e) in ap (λ i. drop i xs) same
drop_more (suc r) k zero xs e = absurd (omega (arith, e))
drop_more (suc r) zero (suc n) [] e = refl
drop_more (suc r) (suc k) (suc n) [] e = refl
drop_more (suc r) k (suc n) (x ∷ xs) e = drop_more r k n xs (omega (arith, e))

swap_back : (x : ℕ) → x < 4294967296 → swap32 (swap32 x) ≡ x
swap_back x h = omega arith

as_int32-bytes32 :
    (x : ℕ) (rest : List ℕ) → x < 4294967296 → as_int32 (bytes32 (swap32 x) ++ rest) ≡ some x
as_int32-bytes32 x rest h =
    ap (λ word. word >>= (λ y. some (swap32 y))) (word32-bytes32 (swap32 x) rest (omega arith))
    ∙ ap some (swap_back x h)

module _ {M : Type 0} (lib : Library M) where
  -- The part of a frame behind its length, as `parse` reads it.
  abbrev pub body : M → List ℕ
  body m =
      let name = lib.type_name m ++ (0 ∷ []) in
      let head = bytes32 (swap32 (length name)) ++ (name ++ lib.serialize m) in
      head ++ bytes32 (swap32 (u32 (lib.adler32 head)))

  abbrev pub frame : M → List ℕ
  frame m = bytes32 (length (body m)) ++ body m

  -- The type has a name and was generated, the library reads what it writes, and the frame is not too long.
  pub record IsReadable (m : M) : Type 0 where
    pub named : 1 ≤ length (lib.type_name m)
    pub known : lib.is_known (lib.type_name m) ≡ true
    pub reads : lib.parse_from (lib.type_name m) (lib.serialize m) ≡ some m
    pub fits : length (body m) ≤ 67108864

  -- Parsing memory of which every part is known.
  parse_parts :
      (m : M) (buf head name bytes : List ℕ) (len sum nl : ℕ)
      → as_int32 (drop (len - 4) buf) ≡ some sum
      → take (len - 4) buf ≡ head
      → u32 (lib.adler32 head) ≡ sum
      → as_int32 buf ≡ some nl
      → 2 ≤ nl
      → nl + 8 ≤ len
      → nl < 2147483648
      → window 4 (nl - 1) buf ≡ name
      → lib.is_known name ≡ true
      → window (4 + nl) (len - nl - 8) buf ≡ bytes
      → lib.parse_from name bytes ≡ some m
      → parse lib buf len ≡ some (message m)
  unfolding parse read_message
  parse_parts m buf head name bytes len sum nl e1 e2 e3 e4 low fits small e5 known e6 reads =
      let same : (u32 (lib.adler32 head) == sum) ≡ true = ground arith in
      let ok : (leb 2 nl && leb (nl + 8) len && ltb nl 2147483648) ≡ true = ground arith in
      rw (parse, e1, e2, same, e4, ok, e5, known, read_message, e6, reads) refl

  abbrev name0 : M → List ℕ
  name0 m = lib.type_name m ++ (0 ∷ [])

  abbrev head_of : M → List ℕ
  head_of m = bytes32 (swap32 (length (name0 m))) ++ (name0 m ++ lib.serialize m)

  body_length : (m : M) → length (body m) ≡ 9 + length (lib.type_name m) + length (lib.serialize m)
  body_length m = omega (
    arith,
    length-append (head_of m) (bytes32 (swap32 (u32 (lib.adler32 (head_of m))))),
    length-append (bytes32 (swap32 (length (name0 m)))) (name0 m ++ lib.serialize m),
    length-append (name0 m) (lib.serialize m),
    length-append (lib.type_name m) (0 ∷ []),
  )

  head_length : (m : M) → length (body m) - 4 ≡ length (head_of m)
  head_length m =
      omega (arith, length-append (head_of m) (bytes32 (swap32 (u32 (lib.adler32 (head_of m))))))

  -- The memory in its parts.
  body_parts :
      (m : M) (rest : List ℕ)
      → let sum = bytes32 (swap32 (u32 (lib.adler32 (head_of m)))) in
        body m ++ rest
        ≡ bytes32 (swap32 (length (name0 m))) ++ (name0 m ++ (lib.serialize m ++ (sum ++ rest)))
  body_parts m rest =
      let sum = bytes32 (swap32 (u32 (lib.adler32 (head_of m)))) in
      ap (λ xs. bytes32 (swap32 (length (name0 m))) ++ xs)
        (append_assoc (name0 m ++ lib.serialize m) sum rest
          ∙ append_assoc (name0 m) (lib.serialize m) (sum ++ rest))

  -- Parsing memory that begins with the body.
  parse-body :
      (m : M) (rest : List ℕ)
      → IsReadable m
      → parse lib (body m ++ rest) (length (body m)) ≡ some (message m)
  parse-body m rest h =
      let name = lib.type_name m in
      let bytes = lib.serialize m in
      let sum = bytes32 (swap32 (u32 (lib.adler32 (head_of m)))) in
      let whole = body_length m in
      let zero_end : length (name0 m) ≡ length name + 1 =
        omega (arith, length-append name (0 ∷ [])) in
      let split : body m ++ rest ≡ head_of m ++ (sum ++ rest) = append_assoc (head_of m) sum rest in
      let long = h.named in
      let fits = h.fits in
      parse_parts m (body m ++ rest) (head_of m) name bytes (length (body m))
        (u32 (lib.adler32 (head_of m))) (length (name0 m))
        (ap (λ xs. as_int32 (drop (length (body m) - 4) xs)) split
          ∙ ap as_int32 (drop_at (length (body m) - 4) (head_of m) (sum ++ rest) (head_length m))
          ∙ as_int32-bytes32 _ rest (omega arith))
        (ap (take (length (body m) - 4)) split
          ∙ take_at (length (body m) - 4) (head_of m) (sum ++ rest) (head_length m))
        refl
        (as_int32-bytes32 (length (name0 m)) (((name0 m ++ bytes) ++ sum) ++ rest)
          (omega (arith, zero_end, whole, fits)))
        (omega (arith, zero_end, long)) (omega (arith, zero_end, whole))
        (omega (arith, zero_end, whole, fits))
        (ap (window 4 (length (name0 m) - 1)) (body_parts m rest)
          ∙ ap (take (length (name0 m) - 1)) (append_assoc name (0 ∷ []) (bytes ++ (sum ++ rest)))
          ∙ take_at (length (name0 m) - 1) name ((0 ∷ []) ++ (bytes ++ (sum ++ rest)))
              (omega (arith, zero_end)))
        h.known
        (ap (window (4 + length (name0 m)) (length (body m) - length (name0 m) - 8))
            (body_parts m rest)
          ∙ ap (take (length (body m) - length (name0 m) - 8)) (
              drop_at (4 + length (name0 m)) (bytes32 (swap32 (length (name0 m))) ++ name0 m)
                (bytes ++ (sum ++ rest)) (omega arith))
          ∙ take_at (length (body m) - length (name0 m) - 8) bytes (sum ++ rest)
              (omega (arith, zero_end, whole)))
        h.reads

  -- The memory behind the length of a frame at the front of the contents.
  memory-frame :
      (m : M) (rest : List ℕ) (b : Buffer)
      → contents b ≡ frame m ++ rest
      → drop (b.reader + 4) b.bytes
        ≡ body m ++ (rest ++ drop (b.writer - b.reader) (drop b.reader b.bytes))
  memory-frame m rest b e =
      let tail = drop (b.writer - b.reader) (drop b.reader b.bytes) in
      drop_more b.reader 4 (b.reader + 4) b.bytes refl
      ∙ ap (drop 4) (sym (take-append-drop (b.writer - b.reader) (drop b.reader b.bytes)))
      ∙ ap (λ xs. drop 4 (xs ++ tail)) e
      ∙ append_assoc (body m) rest tail

  module _ {S : Type 0} (message_callback : S → M → S)
      (error_callback : S → Buffer → ErrorCode → S × Buffer) where
    pub round-frame :
        (s : S) (m : M) (rest : List ℕ) (b : Buffer)
        → IsReadable m
        → IsValid b
        → contents b ≡ frame m ++ rest
        → (b' : Buffer) × (round lib message_callback error_callback s b
            ≡ again (message_callback s m) b')
          × IsValid b'
          × (contents b' ≡ rest)
    unfolding round on_length delivered
    round-frame s m rest b h v e =
        let n = length (body m) in
        let whole : readable_bytes b ≡ 4 + n + length rest =
          omega (arith, length-contents v, ap length e, length-append (body m) rest) in
        let fits = h.fits in
        let size = body_length m in
        let many : leb 8 (readable_bytes b) ≡ true = ground arith in
        let front : peek_int32 b ≡ some n =
          peek_int32-contents v (omega (arith, length-contents v, whole))
          ∙ ap word32 e
          ∙ word32-bytes32 n (body m ++ rest) (omega (arith, fits)) in
        let inside : between 4 n 67108864 ≡ true = ground arith in
        let all : leb (n + 4) (readable_bytes b) ≡ true = ground arith in
        let parsed : parse lib (drop (b.reader + 4) b.bytes) n ≡ some (message m) =
          ap (λ xs. parse lib xs n) (memory-frame m rest b e)
          ∙ parse-body m (rest ++ drop (b.writer - b.reader) (drop b.reader b.bytes)) h in
        let (b', r, v', c) = retrieve_refines (4 + n) v (omega (arith, whole, length-contents v)) in
        (
          b',
          rw (round, many, front, on_length, inside, all, parsed, delivered, r) refl,
          v',
          c ∙ ap (drop (4 + n)) e ∙ drop_at (4 + n) (frame m) rest (omega arith),
        )
