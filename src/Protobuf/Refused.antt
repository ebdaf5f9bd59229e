-- ===== src/Protobuf/Refused.antt =====
-- What onMessage makes of the frames that fillEmptyBuff writes, whose words are in different orders.
use cpp_game_frame.Prelude.{
  ℕ, zero, suc, ◌+◌, ◌%◌, ◌≤◌, ◌<◌, ◌≡◌, refl, ◌∙◌, ap, ◌⊎◌, inl, inr, Bool-cases, Bool, true,
  false, some, [], ◌∷◌, leb, ltb, if◌then◌else◌, arith, length, length-append,
}
use cpp_game_frame.Prelude.Words.{word32, word32-bytes32}
use cpp_game_frame.Net.Buffer
use cpp_game_frame.Net.Buffer.{
  Buffer, contents, readable_bytes, writeable_bytes, peek_int32, append, append_int32,
  ensure_writable_bytes, has_written, prepend, make_space,
}
use cpp_game_frame.Net.Buffer.Inv.{IsValid}
use cpp_game_frame.Net.Buffer.Refine.{length-contents}
use cpp_game_frame.Net.Buffer.Words.{peek_int32-contents}
use cpp_game_frame.Kabu.Codec.{again, leave, running, returned}
use cpp_game_frame.Protobuf.{
  Library, swap32, between, failed, on_length, fill_empty_buff, round, on_message,
  default_error_callback,
}
use cpp_game_frame.Protobuf.Fill.{payload, own_frame, lengths, fill-own_frame}

-- The length of an own frame as it is read: over the limit, or more than there is.
read_length :
    (n : ℕ)
    → 9 ≤ n
    → n < 65536
    → (ltb 3 (n % 256) ≡ true) × (between 4 (swap32 n) 67108864 ≡ false)
      ⊎ (ltb 3 (n % 256) ≡ false) × (between 4 (swap32 n) 67108864 ≡ true) × (65536 ≤ swap32 n)
read_length n some_bytes small = elim (Bool-cases (ltb 3 (n % 256))) [
  | inl over ↦ inl (over, ground arith)
  | inr under ↦ inr (under, ground arith, ground arith)
]

module _ {M : Type 0} (lib : Library M) where
  module _ {S : Type 0} (message_callback : S → M → S) (connected : S → Bool)
      (shutdown : S → S) where
    abbrev pub shut : S → S
    shut s = if connected s then shutdown s else s

    -- A round on an own frame.
    round_ignores :
        (s : S) (m : M) (b : Buffer)
        → IsValid b
        → contents b ≡ own_frame lib m
        → length (payload lib m) < 65536
        → 9 ≤ length (payload lib m)
        → round lib message_callback (default_error_callback connected shutdown) s b
          ≡ (if ltb 3 (length (payload lib m) % 256) then again (shut s) b else leave)
    unfolding round on_length failed default_error_callback
    round_ignores s m b v e small some_bytes =
        let n = length (payload lib m) in
        let whole : readable_bytes b ≡ 4 + n = omega (arith, length-contents v, ap length e) in
        let many : leb 8 (readable_bytes b) ≡ true = ground arith in
        let front : peek_int32 b ≡ some (swap32 n) =
          peek_int32-contents v (omega (arith, length-contents v, whole))
          ∙ ap word32 e
          ∙ word32-bytes32 (swap32 n) (payload lib m) (omega arith) in
        elim (read_length n some_bytes small) [
          | inl (over, out) ↦ rw (round, many, front, on_length, out, over) refl
          | inr (under, inside, long) ↦
              let short : leb (swap32 n + 4) (readable_bytes b) ≡ false = ground arith in
              rw (round, many, front, on_length, inside, under, short) refl
        ]

    loops_on :
        (fuel : ℕ) (s : S) (m : M) (b : Buffer)
        → IsValid b
        → contents b ≡ own_frame lib m
        → length (payload lib m) < 65536
        → 9 ≤ length (payload lib m)
        → ltb 3 (length (payload lib m) % 256) ≡ true
        → on_message lib message_callback (default_error_callback connected shutdown) fuel s b
          ≡ running
    unfolding on_message
    loops_on zero s m b v e small some_bytes over = refl
    loops_on (suc fuel) s m b v e small some_bytes over =
        let r = round_ignores s m b v e small some_bytes in
        rw (on_message, r, over) (loops_on fuel (shut s) m b v e small some_bytes over)

    -- For any message whose frame without its length has n < 65536 bytes: fillEmptyBuff succeeds on a
    -- new buffer, and writes the length of the frame in network order but the length of the name and
    -- the checksum as the host has them. Given that frame and the default error callback, onMessage
    -- never delivers the message: where n % 256 is 4 or more, a round reports an error and leaves the
    -- buffer as it was, so that the loop never ends, and otherwise it leaves the loop and waits for
    -- more bytes.
    pub own_frame_ignored :
        (m : M) (s : S) (fuel : ℕ)
        → length (payload lib m) < 65536
        → let n = length (payload lib m) in
          let on_error = default_error_callback connected shutdown in
          (b : Buffer) × (fill_empty_buff lib Buffer.new m ≡ some b)
          × (contents b ≡ own_frame lib m)
          × (round lib message_callback on_error s b
              ≡ (if ltb 3 (n % 256) then again (shut s) b else leave))
          × (on_message lib message_callback on_error (suc fuel) s b
              ≡ (if ltb 3 (n % 256) then running else returned s b))
    unfolding on_message
    own_frame_ignored m s fuel small =
        let some_bytes : 9 ≤ length (payload lib m) =
          omega (arith, lengths lib m, length-append (lib.type_name m) (0 ∷ [])) in
        let (b, made, v, e) = fill-own_frame lib m small in
        let r = round_ignores s m b v e small some_bytes in
        (
          b,
          made,
          e,
          r,
          elim (Bool-cases (ltb 3 (length (payload lib m) % 256))) [
            | inl over ↦ rw over (loops_on (suc fuel) s m b v e small some_bytes over)
            | inr under ↦ rw (on_message, r, under) refl
          ],
        )
