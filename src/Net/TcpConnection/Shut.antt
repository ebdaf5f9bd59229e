-- ===== src/Net/TcpConnection/Shut.antt =====
-- What becomes of a shutdown while bytes wait to be written.
use cpp_game_frame.Prelude.{
  ℕ, suc, ◌+◌, ◌≡◌, refl, inl, inr, Bool-cases, Each, Each-if, Each-bind, Each-then, Each-eq, true,
  false, not, Option, some, List, [], ◌∷◌, ◌++◌, ◌==◌, ◌>>=◌, arith,
}
use cpp_game_frame.Net.Buffer.{readable_bytes, retrieve}
use cpp_game_frame.Net.TcpConnection.{
  TcpConnection, connected, disconnecting, Action, wrote, write_complete, shut_down_write,
  connection_callback, close_callback, Write, took, refused, is_connected, is_disconnecting, send,
  shutdown, take_down, handle_close, handle_write,
}
use cpp_game_frame.Net.TcpConnection.Reach.{last_call}

-- The calls that the owner of a connection and its loop can make.
pub data Call : Type 0 where
  sends : (answer : Write) (ds : List ℕ) → Call
  writes : (answer : Write) → Call
  shuts closes : Call

abbrev pub apply : Call → TcpConnection → Option (TcpConnection × List Action)
apply (sends answer ds) c = send answer ds c
apply (writes answer) c = handle_write answer c
apply shuts c = some (shutdown c)
apply closes c = some (handle_close c)

abbrev pub run : List Call → TcpConnection → Option (TcpConnection × List Action)
run [] c = some (c, [])
run (call ∷ calls) c = do (d, acts) ← apply call c; (e, more) ← run calls d; some (e, acts ++ more)

-- How often the writing side was shut down.
abbrev pub shut_downs : List Action → ℕ
shut_downs [] = 0
shut_downs (shut_down_write ∷ acts) = suc (shut_downs acts)
shut_downs (_ ∷ acts) = shut_downs acts

shut_downs-append : (xs ys : List Action) → shut_downs (xs ++ ys) ≡ shut_downs xs + shut_downs ys
shut_downs-append [] ys = omega arith
shut_downs-append (shut_down_write ∷ xs) ys = omega (arith, shut_downs-append xs ys)
shut_downs-append (wrote b ∷ xs) ys = shut_downs-append xs ys
shut_downs-append (write_complete ∷ xs) ys = shut_downs-append xs ys
shut_downs-append (connection_callback s ∷ xs) ys = shut_downs-append xs ys
shut_downs-append (close_callback ∷ xs) ys = shut_downs-append xs ys

-- No longer connected, and the writing side left open.
Open : TcpConnection × List Action → Type 0
Open (d, acts) = (is_connected d.state ≡ false) × (shut_downs acts ≡ 0)

take_down-Open : (c : TcpConnection) → is_connected c.state ≡ false → Open (take_down c)
unfolding Open take_down
take_down-Open c h = elim (Bool-cases (is_disconnecting c.state)) [
  | inl y ↦ rw (h, y) (refl, refl)
  | inr n ↦ rw (h, n) (h, refl)
]

apply-Open :
    (call : Call) (c : TcpConnection) → is_connected c.state ≡ false → Each Open (apply call c)
unfolding Open send shutdown handle_close handle_write
apply-Open (sends answer ds) c h = rw (send, h) (h, refl)
apply-Open (writes (took n)) c h =
    Each-if Open (not c.writing) _ _ (h, refl)
      (Each-if Open (n == 0) _ _ tt (
        Each-bind Open (retrieve n c.output) _ (λ output.
          Each-if Open (not (readable_bytes output == 0)) _ _ (h, refl)
            (rw (last_call (record c { output = output; writing = false })) (h, refl)))))
apply-Open (writes (refused errno)) c h = Each-if Open (not c.writing) _ _ (h, refl) tt
apply-Open shuts c h = rw h (h, refl)
apply-Open closes c h = take_down-Open c h

run-Open :
    (calls : List Call) (c : TcpConnection) → is_connected c.state ≡ false → Each Open (run calls c)
unfolding Open
run-Open [] c h = (h, refl)
run-Open (call ∷ calls) c h = Each-then Open (apply call c) _ (λ r e.
    let first = Each-eq Open e (apply-Open call c h) in
    Each-then Open (run calls r.0) _ (λ r' e'.
      let rest = Each-eq Open e' (run-Open calls r.0 first.0) in
      (rest.0, omega (arith, shut_downs-append r.1 r'.1))))

-- When shutdown is called on a connected connection of which bytes wait to be written, the writing
-- side of the socket is not shut down, and whatever calls of send, handleWrite, shutdown and
-- handleClose come then, it never is.
pub shutdown_lost :
    (c : TcpConnection) (calls : List Call)
    → c.state ≡ connected
    → c.writing ≡ true
    → Each (λ r. shut_downs r.1 ≡ 0) (run (shuts ∷ calls) c)
unfolding shutdown Open
shutdown_lost c calls s w =
    let d : TcpConnection = record c { state = disconnecting } in
    let now : shutdown c ≡ (d, []) = rw (s, w) refl in
    rw now (
      Each-then (λ r. shut_downs r.1 ≡ 0) (run calls d) _
        (λ r e. (Each-eq Open e (run-Open calls d refl)).1))
