-- ===== src/Protobuf/Tests.antt =====
-- Witnesses for the codec: messages of one type M that are their own bytes.
use cpp_game_frame.Prelude.{
  ℕ, ◌≡◌, refl, inl, true, some, List, [], ◌∷◌, ◌++◌, length, replicate, arith,
}
use cpp_game_frame.Net.Buffer
use cpp_game_frame.Net.Buffer.{Buffer, contents}
use cpp_game_frame.Net.Buffer.Inv.{IsValid}
use cpp_game_frame.Kabu.Codec.{again, running, returned}
use cpp_game_frame.Protobuf.{
  Library, ErrorCode, fill_empty_buff, round, on_message, default_error_callback,
}
use cpp_game_frame.Protobuf.Frame.{frame, IsReadable}
use cpp_game_frame.Protobuf.Deliver.{on_message_lem}
use cpp_game_frame.Protobuf.Fill.{own_frame}
use cpp_game_frame.Protobuf.Refused.{own_frame_ignored}

abbrev plain : Library (List ℕ)
plain = record {
  type_name = λ m. 77 ∷ [];
  serialize = λ m. m;
  is_known = λ name. true;
  parse_from = λ name bytes. some bytes;
  adler32 = λ bytes. length bytes;
}

abbrev collect : List (List ℕ) → List ℕ → List (List ℕ)
collect seen m = seen ++ (m ∷ [])

abbrev ignore : List (List ℕ) → Buffer → ErrorCode → List (List ℕ) × Buffer
ignore seen b code = (seen, b)

abbrev arrived : Buffer
arrived = record { bytes = replicate 12 0 ++ frame plain (5 ∷ []); reader = 12; writer = 27 }

arrived-IsValid : IsValid arrived
arrived-IsValid = omega arith

readable : IsReadable plain (5 ∷ [])
readable = record { named = omega arith; known = refl; reads = refl; fits = omega arith }

on_message_lem_example :
    (b : Buffer) × (on_message plain collect ignore 2 [] arrived ≡ returned ((5 ∷ []) ∷ []) b)
    × IsValid b
    × (contents b ≡ [])
on_message_lem_example =
    on_message_lem plain collect ignore ((5 ∷ []) ∷ []) 0 [] arrived [] (readable, tt)
      (inl (omega arith)) arrived-IsValid refl

own_frame_ignored_example :
    (b : Buffer) × (fill_empty_buff plain Buffer.new (5 ∷ []) ≡ some b)
    × (contents b ≡ own_frame plain (5 ∷ []))
    × (round plain collect (default_error_callback (λ s. true) (λ s. s)) [] b ≡ again [] b)
    × (on_message plain collect (default_error_callback (λ s. true) (λ s. s)) 3 [] b ≡ running)
own_frame_ignored_example =
    own_frame_ignored plain collect (λ s. true) (λ s. s) (5 ∷ []) [] 2 (omega arith)
