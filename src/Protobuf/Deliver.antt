-- ===== src/Protobuf/Deliver.antt =====
-- What onMessage delivers of frames whose words are in the orders in which it reads them.
use cpp_game_frame.Prelude.{
  ℕ, zero, suc, ◌+◌, ◌<◌, ◌≡◌, refl, ◌∙◌, ◌⊎◌, inl, inr, Bool-cases, true, false, some, List, [],
  ◌∷◌, ◌++◌, leb, arith, length,
}
use mathlib.Core.List.{append_assoc}
use cpp_game_frame.Prelude.Words.{word32}
use cpp_game_frame.Net.Buffer.{Buffer, contents, readable_bytes, peek_int32}
use cpp_game_frame.Net.Buffer.Inv.{IsValid}
use cpp_game_frame.Net.Buffer.Refine.{length-contents}
use cpp_game_frame.Net.Buffer.Words.{peek_int32-contents}
use cpp_game_frame.Kabu.Codec.Frames.{All}
use cpp_game_frame.Kabu.Codec.{leave, returned}
use cpp_game_frame.Protobuf.{Library, ErrorCode, between, on_length, round, on_message}
use cpp_game_frame.Protobuf.Frame.{frame, IsReadable, round-frame}

-- The beginning of a frame that has not come whole.
abbrev pub IsPartial : List ℕ → Type 0
IsPartial tail =
    (length tail < 8)
    ⊎ ((n : ℕ) × (word32 tail ≡ some n) × (between 4 n 67108864 ≡ true) × (length tail < n + 4))

module _ {M : Type 0} (lib : Library M) where
  -- The frames of a list of messages, one after the other.
  abbrev pub stream : List M → List ℕ
  stream [] = []
  stream (m ∷ ms) = frame lib m ++ stream ms

  module _ {S : Type 0} (message_callback : S → M → S)
      (error_callback : S → Buffer → ErrorCode → S × Buffer) where
    -- The callback run on the messages, in their order.
    abbrev pub deliver : S → List M → S
    deliver s [] = s
    deliver s (m ∷ ms) = deliver (message_callback s m) ms

    round-partial :
        (s : S) (b : Buffer)
        → IsValid b
        → IsPartial (contents b)
        → round lib message_callback error_callback s b ≡ leave
    unfolding round on_length
    round-partial s b v (inl short) =
        let few : leb 8 (readable_bytes b) ≡ false = ground (arith, length-contents v) in
        rw (round, few) refl
    round-partial s b v (inr (n, e, inside, short)) = elim (Bool-cases (leb 8 (readable_bytes b))) [
      | inr few ↦ rw (round, few) refl
      | inl many ↦
          let l = length-contents v in
          let front : peek_int32 b ≡ some n = peek_int32-contents v (ground arith) ∙ e in
          let waits : leb (n + 4) (readable_bytes b) ≡ false = ground arith in
          rw (round, many, front, on_length, inside, waits) refl
    ]

    delivers :
        (ms : List M) (fuel : ℕ) (s : S) (b : Buffer) (tail : List ℕ)
        → length ms < fuel
        → All (IsReadable lib) ms
        → IsPartial tail
        → IsValid b
        → contents b ≡ stream ms ++ tail
        → (b' : Buffer) × (on_message lib message_callback error_callback fuel s b
            ≡ returned (deliver s ms) b')
          × IsValid b'
          × (contents b' ≡ tail)
    unfolding on_message
    delivers [] zero s b tail l h p v e = absurd (omega arith)
    delivers (m ∷ ms) zero s b tail l h p v e = absurd (omega arith)
    delivers [] (suc fuel) s b tail l h p v e =
        (b, rw (on_message, round-partial s b v (rw e p)) refl, v, e)
    delivers (m ∷ ms) (suc fuel) s b tail l h p v e =
        let (b1, r, v1, c) =
          round-frame lib message_callback error_callback s m (stream ms ++ tail) b h.0 v
            (e ∙ append_assoc (frame lib m) (stream ms) tail) in
        let (b2, q, v2, c2) =
          delivers ms fuel (message_callback s m) b1 tail (omega arith) h.1 p v1 c in
        (b2, rw (on_message, r) q, v2, c2)

    -- For any list of messages of generated types with a name, which protobuf reads from what it
    -- writes, and of at most 64 MB: when a valid buffer holds exactly their frames in the order of
    -- words that the receiver reads - the length as the host has it, the length of the name and the
    -- checksum in network order - followed by nothing or by the beginning of a frame that is not
    -- whole, onMessage returns (one round more than there are frames is enough fuel), the message
    -- callback has had each message once and in order, the buffer stays valid and holds just the bytes
    -- of the unfinished frame.
    pub on_message_lem :
        (ms : List M) (extra : ℕ) (s : S) (b : Buffer) (tail : List ℕ)
        → All (IsReadable lib) ms
        → IsPartial tail
        → IsValid b
        → contents b ≡ stream ms ++ tail
        → (b' : Buffer) × (on_message lib message_callback error_callback
              (suc (length ms) + extra)
              s
              b
            ≡ returned (deliver s ms) b')
          × IsValid b'
          × (contents b' ≡ tail)
    on_message_lem ms extra s b tail = delivers ms (suc (length ms) + extra) s b tail (omega arith)
