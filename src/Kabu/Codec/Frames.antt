-- ===== src/Kabu/Codec/Frames.antt =====
-- What `KaBuCodec` delivers of a stream of frames, and that `send` writes one frame.
use cpp_game_frame.Prelude.{
  ℕ, zero, suc, ◌+◌, ◌-◌, ◌≤◌, ◌<◌, ◌≡◌, refl, ◌∙◌, ap, ◌⊎◌, inl, inr, ◌≢◌, Bool-cases, some, false,
  List, [], ◌∷◌, ◌++◌, ltb, leb, ◌==◌, arith, length,
}
use mathlib.Core.List.{append_assoc}
use cpp_game_frame.Prelude.Windows.{length-overwrite}
use cpp_game_frame.Prelude.Words.{word32, bytes16, bytes32, u16}
use cpp_game_frame.Net.Buffer.{
  Buffer, contents, readable_bytes, writeable_bytes, peek_int32, read_int16, read_int32, retrieve,
  append, append_int16, append_int32,
}
use cpp_game_frame.Net.Buffer
use cpp_game_frame.Net.Buffer.Inv.{IsValid, new-IsValid, written, written-IsValid, append_fits}
use cpp_game_frame.Net.Buffer.Refine.{length-contents, prepend_refines, written-contents}
use cpp_game_frame.Net.Buffer.Words.{peek_int32-contents}
use cpp_game_frame.Kabu.Packet.{Packet, Head, of_block, of_op, get_content_len, get_op, get_param}
use cpp_game_frame.Kabu.Packet
use cpp_game_frame.Kabu.Codec.{
  leave, returned, ErrorCode, packet_magic_c, packet_magic_d, max_message_len, get_low16,
  get_height16, on_header, round, on_message, send,
}
use cpp_game_frame.Kabu.Codec.Frame.{Message, IsMessage, header, frame, packet_of, round-frame}

abbrev pub All {ℓ κ} : {A : Type ℓ} → (A → Type κ) → List A → Type κ
All P [] = Unit
All P (x ∷ xs) = P x × All P xs

-- The bytes of a list of messages, one frame after the other.
abbrev pub stream : List Message → List ℕ
stream [] = []
stream (m ∷ ms) = frame m ++ stream ms

-- The beginning of a frame that has not come whole.
abbrev pub IsPartial : List ℕ → Type 0
IsPartial tail =
    (length tail < 12)
    ⊎ ((t : ℕ) × (word32 tail ≡ some t)
        × (get_low16 t ≢ packet_magic_c)
        × (get_height16 t ≤ max_message_len)
        × (length tail < get_height16 t + 12))

abbrev Waits : ℕ → Buffer → Type 0
Waits t b =
    ((get_low16 t == packet_magic_c) ≡ false)
    × (ltb max_message_len (get_height16 t) ≡ false)
    × (leb (get_height16 t + 12) (readable_bytes b) ≡ false)

partial-Waits :
    (t : ℕ) (b : Buffer)
    → get_low16 t ≢ packet_magic_c
    → get_height16 t ≤ max_message_len
    → readable_bytes b < get_height16 t + 12
    → Waits t b
partial-Waits t b h k l = (ground arith, ground arith, ground arith)

module _ {ℓ} {S : Type ℓ} (message_callback : S → Packet → S)
    (error_callback : S → Buffer → ErrorCode → S × Buffer) where
  -- The callback run on the packets of the messages, in their order.
  abbrev pub deliver : S → List Message → S
  deliver s [] = s
  deliver s (m ∷ ms) = deliver (message_callback s (packet_of m)) ms

  round-partial :
      (s : S) (b : Buffer)
      → IsValid b
      → IsPartial (contents b)
      → round message_callback error_callback s b ≡ leave
  unfolding round on_header
  round-partial s b v (inl short) =
      let t : leb 12 (readable_bytes b) ≡ false = ground (arith, length-contents v) in rw t
  round-partial s b v (inr (t, e, magic, len, short)) =
      elim (Bool-cases (leb 12 (readable_bytes b))) [
        | inr few ↦ rw few
        | inl many ↦
            let l = length-contents v in
            let p : peek_int32 b ≡ some t = peek_int32-contents v (ground arith) ∙ e in
            let w = partial-Waits t b magic len (omega (arith, l)) in
            rw (many, p, w.0, on_header) (rw (w.1, w.2) refl)
      ]

  on_message-stream :
      (ms : List Message) (fuel : ℕ) (s : S) (b : Buffer) (tail : List ℕ)
      → length ms < fuel
      → All IsMessage ms
      → IsPartial tail
      → IsValid b
      → contents b ≡ stream ms ++ tail
      → (b' : Buffer) × (on_message message_callback error_callback fuel s b
          ≡ returned (deliver s ms) b')
        × IsValid b'
        × (contents b' ≡ tail)
  unfolding on_message
  on_message-stream [] zero s b tail l h p v e = absurd (omega arith)
  on_message-stream (m ∷ ms) zero s b tail l h p v e = absurd (omega arith)
  on_message-stream [] (suc fuel) s b tail l h p v e =
      (b, rw (round-partial s b v (rw e p), on_message) refl, v, e)
  on_message-stream (m ∷ ms) (suc fuel) s b tail l h p v e =
      let (b1, r, v1, c) =
        round-frame message_callback error_callback s m (stream ms ++ tail) b h.0 v
          (e ∙ append_assoc (frame m) (stream ms) tail) in
      let (b2, q, v2, c2) =
        on_message-stream ms fuel (message_callback s (packet_of m)) b1 tail (omega arith) h.1 p v1
          c in
      (b2, rw (r, on_message) q, v2, c2)

  -- For any list of messages that fit their fields and the length limit: when the buffer holds
  -- exactly their frames, followed by nothing or by the beginning of a frame that is not whole,
  -- onMessage returns (one round more than there are frames is enough fuel), the message callback
  -- has had the packet of each message once and in order, the buffer stays valid and holds just the
  -- bytes of the unfinished frame.
  pub on_message_delivers :
      (ms : List Message) (extra : ℕ) (s : S) (b : Buffer) (tail : List ℕ)
      → All IsMessage ms
      → IsPartial tail
      → IsValid b
      → contents b ≡ stream ms ++ tail
      → (b' : Buffer) × (on_message message_callback error_callback (suc (length ms) + extra) s b
          ≡ returned (deliver s ms) b')
        × IsValid b'
        × (contents b' ≡ tail)
  on_message_delivers ms extra s b tail =
      on_message-stream ms (suc (length ms) + extra) s b tail (omega arith)

-- The message of a packet that a server has built.
abbrev pub message_of : Packet → Message
message_of p = record { op = p.head.op; param = p.head.param; body = contents p.buffer }

-- The buffer of the head that `send` builds, by the four blocks that are appended.
record HeadBuffer (b : Buffer) (ds : List ℕ) (n : ℕ) : Type 0 where
  valid : IsValid b
  room : n ≤ writeable_bytes b
  holds : contents b ≡ ds

HeadBuffer-new : HeadBuffer Buffer.new [] 1012
unfolding Buffer.new
HeadBuffer-new = record { valid = new-IsValid; room = omega arith; holds = refl }

HeadBuffer-append :
    {b : Buffer} {ds : List ℕ} {n : ℕ} (es : List ℕ)
    → HeadBuffer b ds n
    → length es ≤ n
    → (append b es ≡ some (written b es)) × HeadBuffer (written b es) (ds ++ es) (n - length es)
HeadBuffer-append {b} {ds} {n} es h k =
    let fits : length es ≤ writeable_bytes b = omega arith in
    (
      append_fits b es fits,
      record {
        valid = written-IsValid b es h.valid fits;
        room = omega (arith, length-overwrite b.bytes b.writer es);
        holds = written-contents b es h.valid fits ∙ ap (λ xs. xs ++ es) h.holds;
      },
    )

abbrev head_buffer : Packet → Buffer
head_buffer p =
    written
      (written
        (written (written Buffer.new (bytes16 packet_magic_d))
          (bytes16 (u16 (readable_bytes p.buffer))))
        (bytes32 p.head.op))
      (bytes32 p.head.param)

-- For a valid packet whose fields fit, whose content is at most 64512 bytes and whose buffer has
-- at least 12 bytes in front of the content, send succeeds and writes the frame of its operation,
-- parameter and content, and that frame is what the packet buffer then holds.
pub send-frame :
    (p : Packet)
    → IsValid p.buffer
    → IsMessage (message_of p)
    → 12 ≤ p.buffer.reader
    → (q : Packet) × (send p ≡ some (frame (message_of p), q))
      × (contents q.buffer ≡ frame (message_of p))
unfolding send append_int16 append_int32 get_content_len get_op get_param Packet.prepend
    Packet.prependable_bytes
send-frame p v h k =
    let l = length-contents v in
    let (a1, h1) = HeadBuffer-append (bytes16 packet_magic_d) HeadBuffer-new (omega arith) in
    let (a2, h2) = HeadBuffer-append (bytes16 (u16 (readable_bytes p.buffer))) h1 (omega arith) in
    let (a3, h3) = HeadBuffer-append (bytes32 p.head.op) h2 (omega arith) in
    let (a4, h4) = HeadBuffer-append (bytes32 p.head.param) h3 (omega arith) in
    let word : u16 (readable_bytes p.buffer) ≡ length (contents p.buffer) = omega (arith, l) in
    let full = h4.holds ∙ ap (λ n. header packet_magic_d n p.head.op p.head.param) word in
    let (b, e, w, c) = prepend_refines (contents (head_buffer p)) v (rw full k) in
    let frame_eq = c ∙ ap (λ xs. xs ++ contents p.buffer) full in
    (record p { buffer = b }, ground (arith, a1, a2, a3, a4, e, frame_eq), frame_eq)
