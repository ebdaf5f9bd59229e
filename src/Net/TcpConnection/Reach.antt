-- ===== src/Net/TcpConnection/Reach.antt =====
-- What can happen to a connection that is up, and what the stream of its bytes is then.
use mathlib.Core.List.{append-nil, append_assoc}
use mathlib.Core.Path.{subst}
use cpp_game_frame.Prelude.{
  ℕ, ◌≤◌, ◌+◌, ◌<◌, ◌≡◌, refl, sym, ap, ◌∙◌, ◌⊎◌, inl, inr, Bool-cases, true, false, Option, some,
  List, [], ◌∷◌, ◌++◌, length, take, ◌==◌, ltb, take-append-drop, if◌then◌else◌, ◌||◌, arith,
}
use cpp_game_frame.Net.Buffer.{Buffer, contents, readable_bytes, retrieve}
use cpp_game_frame.Net.Buffer
use cpp_game_frame.Net.Buffer.Inv.{new-IsValid}
use cpp_game_frame.Net.Buffer.Refine.{retrieve_refines}
use cpp_game_frame.Net.TcpConnection.{
  TcpConnection, State, connected, connecting, disconnecting, disconnected, Action, wrote,
  write_complete, connection_callback, Write, took, refused, new, is_connected, is_disconnecting,
  send, shutdown, take_down, handle_close, handle_write, connect_established,
}
use cpp_game_frame.Net.TcpConnection.Stream.{
  written, CanAnswer, IsStream, Sends, send-IsStream, nothing_left,
}

-- `accepted` are the bytes of the blocks that were sent while it was connected, `out` those that the socket took. A
-- change of `input` is what a read and the callback of messages do to it; what else that callback does are calls.
pub data Reachable : List ℕ → List ℕ → TcpConnection → Type 0 where
  established :
      (c : TcpConnection) (acts : List Action)
      → connect_established new ≡ some (c, acts)
      → Reachable [] [] c
  sent :
      (a out ds : List ℕ) (answer : Write) (c d : TcpConnection) (acts : List Action)
      → Reachable a out c
      → CanAnswer (length ds) answer
      → c.output.writer + length ds < 9223372036854775808
      → send answer ds c ≡ some (d, acts)
      → Reachable (a ++ (if is_connected c.state then ds else [])) (out ++ written acts) d
  writable :
      (a out : List ℕ) (answer : Write) (c d : TcpConnection) (acts : List Action)
      → Reachable a out c
      → CanAnswer (length (contents c.output)) answer
      → handle_write answer c ≡ some (d, acts)
      → Reachable a (out ++ written acts) d
  shut : (a out : List ℕ) (c : TcpConnection) → Reachable a out c → Reachable a out (shutdown c).0
  closed :
      (a out : List ℕ) (c : TcpConnection) → Reachable a out c → Reachable a out (handle_close c).0
  got :
      (a out : List ℕ) (c : TcpConnection) (input : Buffer)
      → Reachable a out c
      → Reachable a out (record c { input = input })

-- After the last byte, `shutdown` is called in the one state in which it does nothing.
pub last_call :
    (c : TcpConnection) → (if is_disconnecting c.state then shutdown c else (c, [])) ≡ (c, [])
unfolding shutdown
last_call c = go c.state _
  where
    go :
        (s : State) (x : TcpConnection × List Action)
        → (if is_disconnecting s then (if is_connected s then x else (c, [])) else (c, []))
          ≡ (c, [])
    go disconnecting x = refl
    go disconnected x = refl
    go connecting x = refl
    go connected x = refl

some_n_test : (n : ℕ) → 1 ≤ n → (n == 0) ≡ false
some_n_test n h = ground arith

drained :
    (a out : List ℕ) (n : ℕ) (c : TcpConnection)
    → IsStream a out c
    → c.writing ≡ true
    → 1 ≤ n
    → n ≤ length (contents c.output)
    → Sends a out (handle_write (took n) c)
unfolding handle_write shutdown
drained a out n c s on some_n h =
    let (output, e, v, at) = retrieve_refines n s.valid h in
    let stream : (out ++ take n (contents c.output)) ++ contents output ≡ a =
      append_assoc out (take n (contents c.output)) (contents output)
      ∙ ap (λ xs. out ++ (take n (contents c.output) ++ xs)) at
      ∙ ap (λ xs. out ++ xs) (take-append-drop n (contents c.output))
      ∙ s.sum in
    let stream' : (out ++ (take n (contents c.output) ++ [])) ++ contents output ≡ a =
      ap (λ xs. (out ++ xs) ++ contents output) (append-nil (take n (contents c.output)))
      ∙ stream in
    elim (Bool-cases (readable_bytes output == 0)) [
      | inr more ↦ (
        record c { output = output },
        wrote (take n (contents c.output)) ∷ [],
        rw (handle_write, on, some_n_test n some_n, e, more) refl,
        record { valid = v; sum = stream'; watched = λ idle up. cc },
      )
      | inl all ↦ (
        record c { output = output; writing = false },
        wrote (take n (contents c.output)) ∷ write_complete ∷ [],
        rw
            (
              handle_write,
              on,
              some_n_test n some_n,
              e,
              all,
              last_call (record c { output = output; writing = false }),
            )
            refl,
        record { valid = v; sum = stream'; watched = λ idle up. nothing_left output v all },
      )
    ]

carry :
    (a out : List ℕ) (r : Option (TcpConnection × List Action)) (d : TcpConnection)
    (acts : List Action)
    → Sends a out r
    → r ≡ some (d, acts)
    → IsStream a (out ++ written acts) d
carry a out r d acts (x, acts', e', s) e =
    let same : some (x, acts') ≡ some (d, acts) = sym e' ∙ e in
    let before : TcpConnection × List Action = (x, acts') in
    let after : TcpConnection × List Action = (d, acts) in
    let pair : before ≡ after = cc in subst (λ p. IsStream a (out ++ written p.1) p.0) pair s

wrote_some :
    (a out : List ℕ) (answer : Write) (c d : TcpConnection) (acts : List Action)
    → IsStream a out c
    → CanAnswer (length (contents c.output)) answer
    → handle_write answer c ≡ some (d, acts)
    → IsStream a (out ++ written acts) d
unfolding handle_write
wrote_some a out answer c d acts s can e = elim (Bool-cases c.writing) [
  | inr off ↦
      carry a out (handle_write answer c) d acts
        (c, [], rw (handle_write, off) refl, rw (append-nil out) s) e
  | inl on ↦ answered answer can e on
]
  where
    answered :
        (x : Write)
        → CanAnswer (length (contents c.output)) x
        → handle_write x c ≡ some (d, acts)
        → c.writing ≡ true
        → IsStream a (out ++ written acts) d
    answered (refused errno) can e on = absurd (ground arith)
    answered (took n) can e on = elim (Bool-cases (n == 0)) [
      | inl zero_n ↦ absurd (ground arith)
      | inr some_n ↦
          carry a out (handle_write (took n) c) d acts (drained a out n c s on (ground arith) can) e
    ]

down : (a out : List ℕ) (c : TcpConnection) → IsStream a out c → IsStream a out (take_down c).0
unfolding take_down
down a out c s = elim (Bool-cases (is_connected c.state || is_disconnecting c.state)) [
  | inl y ↦ rw y (record { valid = s.valid; sum = s.sum; watched = λ idle up. absurd (up refl) })
  | inr n ↦ rw n s
]

-- The stream of a connection that can be reached.
stream : (a out : List ℕ) (c : TcpConnection) → Reachable a out c → IsStream a out c
unfolding connect_established new shutdown handle_close take_down Buffer.new
stream a out c (established c' acts e) =
    let same : some
          (record new { state = connected; reading = true }, connection_callback connected ∷ [])
        ≡ some (c', acts) =
      e in
    let made : record new { state = connected; reading = true } ≡ c' = cc in
    subst (IsStream [] []) made
      (record { valid = new-IsValid; sum = refl; watched = λ idle up. refl })
stream a out c (sent b o ds answer c' d acts r can room e) =
    carry _ o (send answer ds c') d acts (send-IsStream b o ds answer c' (stream b o c' r) can room)
      e
stream a out c (writable b o answer c' d acts r can e) =
    wrote_some b o answer c' d acts (stream b o c' r) can e
stream a out c (shut b o c' r) =
    let s = stream b o c' r in
    elim (Bool-cases (is_connected c'.state)) [
      | inl y ↦ rw y (record {
        valid = s.valid;
        sum = s.sum;
        watched = λ idle up. s.watched idle (λ q.
            let no_more : is_connected disconnected ≡ true = ap is_connected (sym q) ∙ y in cc);
      })
      | inr n ↦ rw n s
    ]
stream a out c (closed b o c' r) =
    let s = down b o c' (stream b o c' r) in
    record { valid = s.valid; sum = s.sum; watched = s.watched }
stream a out c (got b o c' input r) =
    let s = stream b o c' r in record { valid = s.valid; sum = s.sum; watched = s.watched }

written_next :
    (a out : List ℕ) (n : ℕ) (c : TcpConnection)
    → IsStream a out c
    → (c.writing ≡ false)
      ⊎ (n ≡ 0)
      ⊎ (length (contents c.output) < n)
      ⊎ ((d : TcpConnection) × (acts : List Action) × (handle_write (took n) c ≡ some (d, acts)))
written_next a out n c s = elim (Bool-cases c.writing) [
  | inr off ↦ inl off
  | inl on ↦ elim (Bool-cases (n == 0)) [
    | inl zero_n ↦ inr (inl (ground arith))
    | inr some_n ↦ elim (Bool-cases (ltb (length (contents c.output)) n)) [
      | inl more ↦ inr (inr (inl (ground arith)))
      | inr fits ↦
          let (d, acts, e, k) = drained a out n c s on (ground arith) (ground arith) in
          inr (inr (inr (d, acts, e)))
    ]
  ]
]

-- Whatever happens to a connection from its beginning on: the bytes that the socket has taken,
-- followed by those that wait, are the blocks that were sent while it was connected, in order;
-- while it is connected, bytes wait only if the session is asked to say when more can be written;
-- a further send, of any block for which the output has room below 2^63, succeeds; and while the
-- session is asked to say when more can be written, so does a further writing of at least one and
-- at most all of the bytes that wait.
pub Reachable-IsStream :
    (a out : List ℕ) (c : TcpConnection) (ds : List ℕ) (answer : Write) (n : ℕ)
    → Reachable a out c
    → CanAnswer (length ds) answer
    → c.output.writer + length ds < 9223372036854775808
    → IsStream a out c
      × ((d : TcpConnection) × (acts : List Action) × (send answer ds c ≡ some (d, acts)))
      × ((c.writing ≡ false)
          ⊎ (n ≡ 0)
          ⊎ (length (contents c.output) < n)
          ⊎ ((d : TcpConnection) × (acts : List Action) × (handle_write (took n) c
                ≡ some (d, acts))))
Reachable-IsStream a out c ds answer n r can room =
    let s = stream a out c r in
    let (d, acts, e, k) = send-IsStream a out ds answer c s can room in
    (s, (d, acts, e), written_next a out n c s)
