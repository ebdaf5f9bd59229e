-- ===== src/Boss/UrlEncode.antt =====
-- The encoding of a text for an address, game/bosssrv/php/urlEncode.h. A text is its bytes.
pub mod Room
use cpp_game_frame.Prelude.{
  ℕ, ◌+◌, ◌*◌, ◌/◌, ◌%◌, Bool, true, false, not, ◌&&◌, ◌||◌, Option, none, some, List, [], ◌∷◌,
  ◌++◌, length, take, ltb, leb, ◌==◌, if◌then◌else◌,
}
use cpp_game_frame.Prelude.Int.{ℤ, pos, pos_part, ltb_ℤ, bits32, signed32, to_int32}

-- `isalnum` of the C locale.
unfoldable pub is_alnum : ℕ → Bool
is_alnum c =
    (leb b'0' c && leb c b'9') || ((leb b'A' c && leb c b'Z') || (leb b'a' c && leb c b'z'))

-- `isspace` of the C locale: tab to carriage return, and the space.
unfoldable pub is_space : ℕ → Bool
is_space c = (leb 9 c && leb c 13) || c == 32

-- `szUnsafe`: " < > % \ ^ [ ] ` + $ , @ : ; / ! # ? = & ' |
abbrev pub unsafe : List ℕ
unsafe =
    34 ∷ 60 ∷ 62 ∷ 37 ∷ 92 ∷ 94 ∷ 91 ∷ 93 ∷ 96 ∷ 43 ∷ 36 ∷ 44 ∷ 64 ∷ 58 ∷ 59 ∷ 47 ∷ 33 ∷ 35 ∷ 63
    ∷ 61 ∷ 38 ∷ 39 ∷ 124 ∷ []

unfoldable pub member : ℕ → List ℕ → Bool
member c [] = false
member c (x ∷ xs) = x == c || member c xs

-- `szHexChr`.
unfoldable pub hex : ℕ → ℕ
hex d = if ltb d 10 then b'0' + d else 55 + d

-- What one byte becomes.
unfoldable pub encode_byte : ℕ → List ℕ
unfolding is_alnum is_space member hex
encode_byte c =
    if is_alnum c || not (member c unsafe)
    then c ∷ []
    else if is_space c
    then b'+' ∷ []
    else b'%' ∷ hex (c / 16 % 16) ∷ hex (c % 16) ∷ []

unfoldable pub encode_bytes : List ℕ → List ℕ
unfolding encode_byte
encode_bytes [] = []
encode_bytes (c ∷ cs) = encode_byte c ++ encode_bytes cs

-- `int len = static_cast<int>(strlen(sIn))`.
abbrev pub text_len : List ℕ → ℤ
text_len text = to_int32 (pos (length text))

-- `len << 2`, in 32 bits.
abbrev pub shift_left2 : ℤ → ℤ
shift_left2 len = signed32 (bits32 len * 4 % 4294967296)

-- The text that is written, for an output of `out_len` bytes; `none` is the answer false. Whether the text fits the
-- output is not looked at.
unfoldable pub url_encode : List ℕ → ℕ → Option (List ℕ)
unfolding encode_bytes
url_encode text out_len =
    if leb out_len 0
    then none
    else if ltb_ℤ (pos out_len) (shift_left2 (text_len text))
    then none
    else some (encode_bytes (take (pos_part (text_len text)) text))
