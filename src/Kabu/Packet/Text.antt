-- ===== src/Kabu/Packet/Text.antt =====
-- Strings in a packet.
use cpp_game_frame.Prelude.{
  ℕ, ◌+◌, ◌≤◌, ◌<◌, ◌≡◌, sym, ◌∙◌, ap, some, none, List, [], ◌++◌, arith, length, drop,
  length-append, drop-append,
}
use mathlib.Core.List.{append-nil}
use cpp_game_frame.Prelude.Words.{u16, bytes16}
use cpp_game_frame.Prelude.Int.{pos}
use cpp_game_frame.Net.Buffer.{Buffer, contents, readable_bytes, append_int16}
use cpp_game_frame.Net.Buffer.Inv.{IsValid, append-writer}
use cpp_game_frame.Net.Buffer.Refine.{length-contents, append_refines, retrieve_refines}
use cpp_game_frame.Net.Buffer.Words.{read_int16_refines}
use cpp_game_frame.Net.Buffer.Moves.{get_refines}
use cpp_game_frame.Kabu.Packet.{Packet, get_utf, take_text, put_utf}

length-block :
    {b : Buffer} (xs ys : List ℕ)
    → IsValid b
    → contents b ≡ xs ++ ys
    → readable_bytes b ≡ length xs + length ys
length-block xs ys v e = sym (length-contents v) ∙ ap length e ∙ length-append xs ys

-- A string that stands at the front of the content is read as it is, and only it is taken, if it is
-- shorter than the caller's limit and the content shorter than 2 ^ 15.
pub get_utf_refines :
    (text rest : List ℕ) (max_len : ℕ) (p : Packet)
    → IsValid p.buffer
    → contents p.buffer ≡ bytes16 (length text) ++ (text ++ rest)
    → length text < max_len
    → length text + length rest < 32768
    → (q : Packet) × (get_utf (pos max_len) p ≡ some (some text, q))
      × IsValid q.buffer
      × (contents q.buffer ≡ rest)
unfolding get_utf
get_utf_refines text rest max_len p v e h k =
    let two = length-block (bytes16 (length text)) (text ++ rest) v e in
    let (b, r, w, c) = read_int16_refines (length text) (text ++ rest) v (omega arith) e in
    let l = length-block text rest w c in
    let g = get_refines text rest w c in
    let (b', r', w', c') = retrieve_refines (length text) w (omega (arith, l, length-contents w)) in
    (
      record p { buffer = b' },
      ground (arith, r, r', g, two, l),
      w',
      c' ∙ ap (drop (length text)) c ∙ drop-append text rest,
    )

-- In a packet with a valid and empty content whose writer index plus 32800 is below 2^63, a string
-- put by putUTF is got back by getUTF unchanged and nothing is left, if its length is below both
-- the reader limit and 2^15.
pub get_utf-put_utf :
    (text : List ℕ) (max_len : ℕ) (p : Packet)
    → IsValid p.buffer
    → contents p.buffer ≡ []
    → length text < max_len
    → length text < 32768
    → p.buffer.writer + 32800 < 9223372036854775808
    → (q r : Packet) × (put_utf text p ≡ some q)
      × (get_utf (pos max_len) q ≡ some (some text, r))
      × (contents r.buffer ≡ [])
unfolding put_utf append_int16
get_utf-put_utf text max_len p v e h k room =
    let (b, a, w, c) = append_refines p.buffer (bytes16 (u16 (length text))) v (omega arith) in
    let end = append-writer p.buffer (bytes16 (u16 (length text))) v (omega arith) a in
    let (b', a', w', c') = append_refines b text w (omega arith) in
    let same : u16 (length text) ≡ length text = omega arith in
    let shown : contents b' ≡ bytes16 (length text) ++ (text ++ []) =
      c'
      ∙ ap (λ xs. xs ++ text) (c ∙ ap (λ xs. xs ++ bytes16 (u16 (length text))) e)
      ∙ ap (λ n. bytes16 n ++ text) same
      ∙ ap (◌++◌ (bytes16 (length text))) (sym (append-nil text)) in
    let (r, g, _, done) =
      get_utf_refines text [] max_len (record p { buffer = b' }) w' shown h (omega arith) in
    (record p { buffer = b' }, r, ground (arith, a, a'), g, done)

-- If a valid content begins with a length word of at least 2^15 (a negative int16) and fewer than
-- 2^15 bytes follow, getUTF passes both of its tests and then faults on the copy of negative
-- length, whatever the (non-negative) limit of the caller is.
pub get_utf_negative :
    (x : ℕ) (rest : List ℕ) (max_len : ℕ) (p : Packet)
    → IsValid p.buffer
    → contents p.buffer ≡ bytes16 x ++ rest
    → 32768 ≤ x
    → x < 65536
    → length rest < 32768
    → get_utf (pos max_len) p ≡ none
unfolding get_utf take_text
get_utf_negative x rest max_len p v e lo hi k =
    let two = length-block (bytes16 x) rest v e in
    let (b, r, w, c) = read_int16_refines x rest v hi e in
    ground (arith, r, two, length-block [] rest w c)
