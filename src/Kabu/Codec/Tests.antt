-- ===== src/Kabu/Codec/Tests.antt =====
-- The codec and the packets on concrete bytes.
use cpp_game_frame.Prelude.{◌≡◌, refl, inl, true, some, none, List, [], ◌∷◌, ◌++◌, arith, replicate}
use cpp_game_frame.Prelude.Int.{pos}
use cpp_game_frame.Net.Buffer.{Buffer, contents}
use cpp_game_frame.Net.Buffer.Inv.{IsValid}
use cpp_game_frame.Kabu.Packet.{Packet, get_utf, put_utf}
use cpp_game_frame.Kabu.Packet.Text.{get_utf_refines, get_utf-put_utf, get_utf_negative}
use cpp_game_frame.Kabu.Codec.{
  returned, running, ErrorCode, on_message, send, default_error_callback,
}
use cpp_game_frame.Kabu.Codec.Frame.{Message, frame, packet_of}
use cpp_game_frame.Kabu.Codec.Frames.{stream, message_of, on_message_delivers, send-frame}
use cpp_game_frame.Kabu.Codec.Stuck.{on_message_refused}

abbrev hello : Message
hello = record { op = 1179649; param = 7; body = 104 ∷ 105 ∷ [] }

abbrev bye : Message
bye = record { op = 1179664; param = 0; body = [] }

-- Two frames and five bytes of a third.
abbrev incoming : Buffer
incoming = record {
  bytes = replicate 12 0 ++ (stream (hello ∷ bye ∷ []) ++ (68 ∷ 83 ∷ 1 ∷ 0 ∷ 9 ∷ []));
  reader = 12;
  writer = 43;
}

incoming-IsValid : IsValid incoming
incoming-IsValid = omega arith

-- The callback keeps the packets, the latest first.
abbrev keep : List Packet → Packet → List Packet
keep ps p = p ∷ ps

abbrev ignore : List Packet → Buffer → ErrorCode → List Packet × Buffer
ignore ps b code = (ps, b)

on_message_delivers_example :
    (b' : Buffer) × (on_message keep ignore 4 [] incoming
      ≡ returned (packet_of bye ∷ packet_of hello ∷ []) b')
    × IsValid b'
    × (contents b' ≡ 68 ∷ 83 ∷ 1 ∷ 0 ∷ 9 ∷ [])
on_message_delivers_example =
    on_message_delivers keep ignore (hello ∷ bye ∷ []) 1 [] incoming (68 ∷ 83 ∷ 1 ∷ 0 ∷ 9 ∷ [])
      (omega arith) (inl (omega arith)) incoming-IsValid refl

abbrev built : Packet
built = record {
  head = record { magic = 0; len = 0; op = 1310721; param = 3 };
  buffer = record { bytes = replicate 12 0 ++ (104 ∷ 105 ∷ []); reader = 12; writer = 14 };
}

built-IsValid : IsValid built.buffer
built-IsValid = omega arith

send-frame_example :
    (q : Packet) × (send built ≡ some (frame (message_of built), q))
    × (contents q.buffer ≡ frame (message_of built))
send-frame_example = send-frame built built-IsValid (omega arith) (omega arith)

-- A head with the magic of the other direction.
abbrev refused : Buffer
refused = record {
  bytes = 67 ∷ 83 ∷ 0 ∷ 0 ∷ 1 ∷ 0 ∷ 0 ∷ 0 ∷ 0 ∷ 0 ∷ 0 ∷ 0 ∷ [];
  reader = 0;
  writer = 12;
}

refused-IsValid : IsValid refused
refused-IsValid = omega arith

on_message_refused_example :
    on_message keep (default_error_callback (λ _. true) (λ ps. ps)) 1000 [] refused ≡ running
on_message_refused_example =
    on_message_refused keep (λ _. true) (λ ps. ps) 1000 [] refused 21315 refused-IsValid
      (omega arith) refl (inl refl)

abbrev named : Packet
named = record {
  head = record { magic = 0; len = 0; op = 1; param = 2 };
  buffer = record { bytes = 2 ∷ 0 ∷ 104 ∷ 105 ∷ 9 ∷ []; reader = 0; writer = 5 };
}

named-IsValid : IsValid named.buffer
named-IsValid = omega arith

get_utf_refines_example :
    (q : Packet) × (get_utf (pos 512) named ≡ some (some (104 ∷ 105 ∷ []), q))
    × IsValid q.buffer
    × (contents q.buffer ≡ 9 ∷ [])
get_utf_refines_example =
    get_utf_refines (104 ∷ 105 ∷ []) (9 ∷ []) 512 named named-IsValid refl (omega arith)
      (omega arith)

abbrev blank : Packet
blank = record {
  head = record { magic = 0; len = 0; op = 1; param = 2 };
  buffer = record { bytes = replicate 20 0; reader = 12; writer = 12 };
}

blank-IsValid : IsValid blank.buffer
blank-IsValid = omega arith

get_utf-put_utf_example :
    (q r : Packet) × (put_utf (104 ∷ 105 ∷ []) blank ≡ some q)
    × (get_utf (pos 512) q ≡ some (some (104 ∷ 105 ∷ []), r))
    × (contents r.buffer ≡ [])
get_utf-put_utf_example =
    get_utf-put_utf (104 ∷ 105 ∷ []) 512 blank blank-IsValid refl (omega arith) (omega arith)
      (omega arith)

abbrev hostile : Packet
hostile = record {
  head = record { magic = 0; len = 0; op = 1; param = 2 };
  buffer = record { bytes = 255 ∷ 255 ∷ []; reader = 0; writer = 2 };
}

hostile-IsValid : IsValid hostile.buffer
hostile-IsValid = omega arith

get_utf_negative_example : get_utf (pos 512) hostile ≡ none
get_utf_negative_example =
    get_utf_negative 65535 [] 512 hostile hostile-IsValid refl (omega arith) (omega arith)
      (omega arith)
