-- ===== src/Boss/UrlEncode/Room.antt =====
-- The room that an encoding takes, and which texts are encoded.
use cpp_game_frame.Prelude.{
  ℕ, ◌+◌, ◌*◌, ◌≤◌, ◌<◌, ◌≡◌, ◌↔◌, Bool-cases, inl, inr, not, ◌||◌, some, List, [], ◌∷◌, length,
  length-append, take, take-all, arith,
}
use cpp_game_frame.Prelude.Int.{pos, pos_part}
use cpp_game_frame.Boss.UrlEncode.{
  is_alnum, is_space, member, unsafe, encode_byte, encode_bytes, text_len, shift_left2, url_encode,
}

length-encode_byte : (c : ℕ) → length (encode_byte c) ≤ 3
unfolding encode_byte
length-encode_byte c = elim (Bool-cases (is_alnum c || not (member c unsafe))) [
  | inl e ↦ rw e (omega arith)
  | inr e ↦
      rw e
        (elim (Bool-cases (is_space c)) [ inl s ↦ rw s (omega arith) | inr s ↦ rw s (omega arith) ])
]

length-encode_bytes : (cs : List ℕ) → length (encode_bytes cs) ≤ 3 * length cs
unfolding encode_bytes
length-encode_bytes [] = omega arith
length-encode_bytes (c ∷ cs) = omega (
  arith,
  length-append (encode_byte c) (encode_bytes cs),
  length-encode_byte c,
  length-encode_bytes cs,
)

-- A text below 512 MB: its length is not cut, and four times its length does not wrap.
lengths :
    (text : List ℕ)
    → length text < 536870912
    → (take (pos_part (text_len text)) text ≡ text)
      × (shift_left2 (text_len text) ≡ pos (length text * 4))
lengths text small = (take-all (pos_part (text_len text)) text (ground arith), ground arith)

-- For a text of less than 2^29 bytes: URLEncode answers true exactly if the output has a byte and
-- four for each byte of the text, and then what it writes fits the output together with the
-- terminator.
pub url_encode_fits :
    (text : List ℕ) (out_len : ℕ)
    → length text < 536870912
    → (((out : List ℕ) × (url_encode text out_len ≡ some out))
        ↔ ((0 < out_len) × (length text * 4 ≤ out_len)))
      × ((out : List ℕ) → url_encode text out_len ≡ some out → length out + 1 ≤ out_len)
unfolding url_encode
url_encode_fits text out_len small =
    let l = lengths text small in
    rw (l.0, l.1)
      (
        (λ (out, e). ground arith, λ h. (encode_bytes text, ground arith)),
        λ out e. ground (arith, length-encode_bytes text),
      )
