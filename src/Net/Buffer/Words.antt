-- ===== src/Net/Buffer/Words.antt =====
-- The integers that `Buffer` reads are those that it was given.
use cpp_game_frame.Prelude.{
  ℕ, suc, ◌+◌, ◌-◌, ◌≤◌, ◌<◌, ◌≡◌, refl, sym, ◌∙◌, ap, some, List, [], ◌∷◌, ◌++◌, arith, length,
  take, drop,
}
use cpp_game_frame.Prelude.Words.{word16, word32, bytes16, bytes32, word16-bytes16, word32-bytes32}
use cpp_game_frame.Net.Buffer.{
  Buffer, contents, append_int32, peek_int16, peek_int32, read_int16, read_int32, retrieve_int16,
  retrieve_int32,
}
use cpp_game_frame.Net.Buffer.Inv.{IsValid}
use cpp_game_frame.Net.Buffer.Refine.{length-contents, append_refines, retrieve_refines}

word16-take : (n : ℕ) (xs : List ℕ) → word16 (take (suc (suc n)) xs) ≡ word16 xs
word16-take n [] = refl
word16-take n (a ∷ []) = refl
word16-take n (a ∷ b ∷ xs) = refl

word32-take : (n : ℕ) (xs : List ℕ) → word32 (take (suc (suc (suc (suc n)))) xs) ≡ word32 xs
word32-take n [] = refl
word32-take n (a ∷ []) = refl
word32-take n (a ∷ b ∷ []) = refl
word32-take n (a ∷ b ∷ c ∷ []) = refl
word32-take n (a ∷ b ∷ c ∷ d ∷ xs) = refl

-- A peek looks at the head of the contents, if these are long enough.
pub peek_int16-contents :
    {b : Buffer} → IsValid b → 2 ≤ length (contents b) → peek_int16 b ≡ word16 (contents b)
unfolding peek_int16
peek_int16-contents {b} v h =
    let e : b.writer - b.reader ≡ suc (suc (b.writer - b.reader - 2)) =
      omega (arith, length-contents v) in
    rw e (sym (word16-take _ (drop b.reader b.bytes)))

pub peek_int32-contents :
    {b : Buffer} → IsValid b → 4 ≤ length (contents b) → peek_int32 b ≡ word32 (contents b)
unfolding peek_int32
peek_int32-contents {b} v h =
    let e : b.writer - b.reader ≡ suc (suc (suc (suc (b.writer - b.reader - 4)))) =
      omega (arith, length-contents v) in
    rw e (sym (word32-take _ (drop b.reader b.bytes)))

-- Reading a 16-bit word off contents that begin with one takes just that word off.
pub read_int16_refines :
    (x : ℕ) (rest : List ℕ) {b : Buffer}
    → IsValid b
    → x < 65536
    → contents b ≡ bytes16 x ++ rest
    → (b' : Buffer) × (read_int16 b ≡ some (x, b')) × IsValid b' × (contents b' ≡ rest)
unfolding read_int16 retrieve_int16
read_int16_refines x rest {b} v h e =
    let l : 2 ≤ length (contents b) = rw e (omega arith) in
    let (b', r, v', c) = retrieve_refines 2 v l in
    let p : peek_int16 b ≡ some x =
      peek_int16-contents v l ∙ ap word16 e ∙ word16-bytes16 x rest h in
    (b', ground (arith, p, r), v', c ∙ ap (drop 2) e)

pub read_int32_refines :
    (x : ℕ) (rest : List ℕ) {b : Buffer}
    → IsValid b
    → x < 4294967296
    → contents b ≡ bytes32 x ++ rest
    → (b' : Buffer) × (read_int32 b ≡ some (x, b')) × IsValid b' × (contents b' ≡ rest)
unfolding read_int32 retrieve_int32
read_int32_refines x rest {b} v h e =
    let l : 4 ≤ length (contents b) = rw e (omega arith) in
    let (b', r, v', c) = retrieve_refines 4 v l in
    let p : peek_int32 b ≡ some x =
      peek_int32-contents v l ∙ ap word32 e ∙ word32-bytes32 x rest h in
    (b', ground (arith, p, r), v', c ∙ ap (drop 4) e)

-- On a valid buffer with nothing to read, where the writer index plus 4 is below 2^63, a 32-bit
-- word that is appended is read back unchanged, and nothing is left to read.
pub read_int32-append_int32 :
    (x : ℕ) {b : Buffer}
    → IsValid b
    → contents b ≡ []
    → x < 4294967296
    → b.writer + 4 < 9223372036854775808
    → (b' b'' : Buffer) × (append_int32 x b ≡ some b')
      × (read_int32 b' ≡ some (x, b''))
      × IsValid b''
      × (contents b'' ≡ [])
unfolding append_int32
read_int32-append_int32 x {b} v e h k =
    let (b', a, v', c) = append_refines b (bytes32 x) v k in
    let (b'', r, v'', c') = read_int32_refines x [] v' h (c ∙ ap (λ xs. xs ++ bytes32 x) e) in
    (b', b'', a, r, v'', c')
