-- ===== src/Kabu/Codec/Frame.antt =====
-- The frame of a message as `KaBuCodec` writes it, and the round of its loop that takes one frame.
use cpp_game_frame.Prelude.{
  ℕ, ◌+◌, ◌*◌, ◌≤◌, ◌<◌, ◌≡◌, refl, ◌∙◌, ap, some, none, true, false, List, ◌++◌, ltb, leb, arith,
  length, drop, length-append, drop-append,
}
use cpp_game_frame.Prelude.Words.{word32, bytes16, bytes32}
use cpp_game_frame.Net.Buffer.{
  Buffer, contents, readable_bytes, writeable_bytes, peek_int32, read_int16, read_int32, retrieve,
  append, append_int16, append_int32,
}
use cpp_game_frame.Net.Buffer
use cpp_game_frame.Net.Buffer.Inv.{IsValid, new-IsValid}
use cpp_game_frame.Net.Buffer.Refine.{length-contents, append_refines, retrieve_refines}
use cpp_game_frame.Net.Buffer.Words.{read_int16_refines, read_int32_refines, peek_int32-contents}
use cpp_game_frame.Net.Buffer.Moves.{get_refines}
use cpp_game_frame.Kabu.Packet.{Packet, Head, of_block, of_op}
use cpp_game_frame.Kabu.Codec.{
  again, ErrorCode, packet_magic_d, max_message_len, get_low16, get_height16, read_packet,
  on_header, round,
}

pub record Message : Type 0 where
  pub op : ℕ
  pub param : ℕ
  pub body : List ℕ

-- The fields fit their words, and the body is not longer than the receiver takes.
abbrev pub IsMessage : Message → Type 0
IsMessage m = (m.op < 4294967296) × (m.param < 4294967296) × (length m.body ≤ max_message_len)

-- The head of a frame, and the frame of a message as a server sends it.
abbrev pub header : ℕ → ℕ → ℕ → ℕ → List ℕ
header magic len op param = bytes16 magic ++ bytes16 len ++ bytes32 op ++ bytes32 param

abbrev pub frame : Message → List ℕ
frame m = header packet_magic_d (length m.body) m.op m.param ++ m.body

abbrev head_of : Message → Head
head_of m = record { magic = packet_magic_d; len = length m.body; op = m.op; param = m.param }

-- The packet that the callback is given for a message.
pub packet_of : Message → Packet
packet_of m = elim (of_block (head_of m) m.body) [ none ↦ of_op m.op m.param | some p ↦ p ]

-- A packet is made of any body that is not too long, and holds that body.
packet_of_lem :
    (m : Message)
    → IsMessage m
    → (of_block (head_of m) m.body ≡ some (packet_of m))
      × ((packet_of m).head ≡ head_of m)
      × (contents (packet_of m).buffer ≡ m.body)
      × IsValid (packet_of m).buffer
unfolding packet_of of_block Buffer.new
packet_of_lem m h =
    let (b, e, v, c) = append_refines Buffer.new m.body new-IsValid (omega arith) in
    (ground (arith, e), ground (arith, e), ground (arith, e, c), ground (arith, e, v))

-- The tests of the loop on the word at the front of a frame.
abbrev Passes : Message → Buffer → Type 0
Passes m b =
    (leb 12 (readable_bytes b) ≡ true)
    × (get_low16 (packet_magic_d + 65536 * length m.body) ≡ packet_magic_d)
    × (get_height16 (packet_magic_d + 65536 * length m.body) ≡ length m.body)
    × (ltb max_message_len (length m.body) ≡ false)
    × (leb (length m.body + 12) (readable_bytes b) ≡ true)

frame-Passes :
    (m : Message) (b : Buffer) → IsMessage m → 12 + length m.body ≤ readable_bytes b → Passes m b
frame-Passes m b h k = (ground arith, omega arith, omega arith, ground arith, ground arith)

module _ {ℓ} {S : Type ℓ} (message_callback : S → Packet → S)
    (error_callback : S → Buffer → ErrorCode → S × Buffer) where
  -- The branch that reads a packet hands over the packet of the frame's message and takes the frame off.
  read_packet-frame :
      (s : S) (m : Message) (rest : List ℕ) (b : Buffer)
      → IsMessage m
      → IsValid b
      → contents b ≡ frame m ++ rest
      → (b' : Buffer) × (read_packet message_callback error_callback s b
          ≡ some (message_callback s (packet_of m), b'))
        × IsValid b'
        × (contents b' ≡ rest)
  unfolding read_packet
  read_packet-frame s m rest b h v e =
      let (b1, r1, v1, c1) = read_int16_refines packet_magic_d _ v (omega arith) e in
      let (b2, r2, v2, c2) = read_int16_refines (length m.body) _ v1 (omega arith) c1 in
      let (b3, r3, v3, c3) = read_int32_refines m.op _ v2 h.0 c2 in
      let (b4, r4, v4, c4) = read_int32_refines m.param (m.body ++ rest) v3 h.1 c3 in
      let g = get_refines m.body rest v4 c4 in
      let total : length (contents b4) ≡ length m.body + length rest =
        ap length c4 ∙ length-append m.body rest in
      let (b5, r5, v5, c5) = retrieve_refines (length m.body) v4 (omega (arith, total)) in
      (
        b5,
        ground (arith, r1, r2, r3, r4, g, (packet_of_lem m h).0, r5),
        v5,
        c5 ∙ ap (drop (length m.body)) c4 ∙ drop-append m.body rest,
      )

  peek-frame :
      (m : Message) (rest : List ℕ) (b : Buffer)
      → IsMessage m
      → IsValid b
      → contents b ≡ frame m ++ rest
      → (peek_int32 b ≡ some (packet_magic_d + 65536 * length m.body))
        × (12 + length m.body ≤ readable_bytes b)
  peek-frame m rest b h v e =
      let total : length (contents b) ≡ 12 + (length m.body + length rest) =
        ap length e ∙ omega (arith, length-append m.body rest) in
      (
        peek_int32-contents v (omega (arith, total)) ∙ ap word32 e ∙ ap some (omega arith),
        omega (arith, total, length-contents v),
      )

  -- One round of the loop on contents that begin with a frame.
  pub round-frame :
      (s : S) (m : Message) (rest : List ℕ) (b : Buffer)
      → IsMessage m
      → IsValid b
      → contents b ≡ frame m ++ rest
      → (b' : Buffer) × (round message_callback error_callback s b
          ≡ again (message_callback s (packet_of m)) b')
        × IsValid b'
        × (contents b' ≡ rest)
  unfolding round on_header
  round-frame s m rest b h v e =
      let (b', r, v', c') = read_packet-frame s m rest b h v e in
      let p = peek-frame m rest b h v e in
      let t = frame-Passes m b h p.1 in
      (b', rw (t.0, p.0, t.1, t.2, on_header) (rw (t.3, t.4, r) refl), v', c')
