-- ===== src/Net/Buffer/Tests.antt =====
-- The buffer on concrete blocks.
use cpp_game_frame.Prelude.{◌≤◌, ◌≡◌, ◌↔◌, refl, some, none, [], ◌∷◌, ◌++◌, arith, replicate}
use cpp_game_frame.Net.Buffer.{
  Buffer, received, contents, append, read_fd, retrieve_as_string, shrink, find_crlf,
}
use cpp_game_frame.Net.Buffer.Inv.{IsValid}
use cpp_game_frame.Net.Buffer.Refine.{append_refines}
use cpp_game_frame.Net.Buffer.Moves.{
  read_fd_refines, retrieve_as_string_refines, shrink-IsValid_iff, shrink-contents, find_crlf-none,
}

-- Twenty cells, with 1, 2, 3 to read and two cells left behind them.
abbrev sample : Buffer
sample = record { bytes = replicate 15 0 ++ (1 ∷ 2 ∷ 3 ∷ 0 ∷ 0 ∷ []); reader = 15; writer = 18 }

-- The same contents at index 12.
abbrev front : Buffer
front = record { bytes = replicate 12 0 ++ (1 ∷ 2 ∷ 3 ∷ []); reader = 12; writer = 15 }

abbrev drained : Buffer
drained = record { bytes = replicate 20 0; reader = 12; writer = 12 }

sample-IsValid : IsValid sample
sample-IsValid = omega arith

front-IsValid : IsValid front
front-IsValid = omega arith

drained-IsValid : IsValid drained
drained-IsValid = omega arith

append_moves :
    append sample (4 ∷ 5 ∷ 6 ∷ [])
    ≡ some (record {
      bytes = replicate 12 0 ++ (1 ∷ 2 ∷ 3 ∷ 4 ∷ 5 ∷ 6 ∷ 0 ∷ 0 ∷ []);
      reader = 12;
      writer = 18;
    })
unfolding append
append_moves = refl

line_end : Buffer
line_end = record { bytes = 13 ∷ 10 ∷ []; reader = 0; writer = 2 }

find_crlf_misses : find_crlf line_end ≡ none
find_crlf_misses = find_crlf-none line_end

append_refines_example :
    (b' : Buffer) × (append sample (4 ∷ 5 ∷ 6 ∷ []) ≡ some b')
    × IsValid b'
    × (contents b' ≡ 1 ∷ 2 ∷ 3 ∷ 4 ∷ 5 ∷ 6 ∷ [])
append_refines_example = append_refines sample (4 ∷ 5 ∷ 6 ∷ []) sample-IsValid (omega arith)

read_fd_refines_example :
    (b' : Buffer) × (read_fd (received (4 ∷ 5 ∷ 6 ∷ [])) sample ≡ some b')
    × IsValid b'
    × (contents b' ≡ 1 ∷ 2 ∷ 3 ∷ 4 ∷ 5 ∷ 6 ∷ [])
read_fd_refines_example = read_fd_refines (4 ∷ 5 ∷ 6 ∷ []) {b = sample} sample-IsValid (omega arith)

retrieve_as_string_refines_example :
    ((retrieve_as_string sample).0 ≡ 1 ∷ 2 ∷ 3 ∷ [])
    × IsValid (retrieve_as_string sample).1
    × (contents (retrieve_as_string sample).1 ≡ [])
retrieve_as_string_refines_example =
    retrieve_as_string_refines {b = sample} sample-IsValid (omega arith)

shrink-IsValid_iff_example : IsValid (shrink 1 sample) ↔ (15 ≤ 13)
shrink-IsValid_iff_example = shrink-IsValid_iff 1 {b = sample} sample-IsValid (omega arith)

shrink-contents_example : contents (shrink 5 front) ≡ 1 ∷ 2 ∷ 3 ∷ []
shrink-contents_example = shrink-contents 5 {b = front} front-IsValid (omega arith) refl
