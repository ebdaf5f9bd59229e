-- ===== src/Net/TcpConnection/Stream.antt =====
-- What is sent on a connection arrives at the socket, once and in order.
use mathlib.Core.List.{append-nil, append_assoc}
use cpp_game_frame.Prelude.{
  ℕ, ◌+◌, ◌≤◌, ◌<◌, ◌≡◌, ◌≢◌, refl, sym, ap, ◌∙◌, ◌⊎◌, inl, inr, Bool-cases, Bool, true, false, not,
  ◌&&◌, Option, some, List, [], ◌∷◌, ◌++◌, length, take, drop, ltb, ◌==◌, length-drop,
  take-append-drop, if◌then◌else◌, ◌>>=◌, arith,
}
use cpp_game_frame.Net.Buffer.{Buffer, contents, readable_bytes}
use cpp_game_frame.Net.Buffer.Inv.{IsValid}
use cpp_game_frame.Net.Buffer.Refine.{append_refines, length-contents}
use cpp_game_frame.Net.TcpConnection.{
  TcpConnection, disconnected, Action, wrote, write_complete, Write, took, refused, is_connected,
  write_now, keep, send,
}

-- The bytes that the socket has taken.
abbrev pub written : List Action → List ℕ
written [] = []
written (wrote bytes ∷ acts) = bytes ++ written acts
written (_ ∷ acts) = written acts

-- An answer that `write` can give for a block of this length.
abbrev pub CanAnswer : ℕ → Write → Type 0
CanAnswer len (took n) = n ≤ len
CanAnswer len (refused errno) = Unit

-- The bytes `accepted` were sent, `out` of them went to the socket, and the rest waits in order; while the connection
-- is up, nothing waits unless the session is asked to say when more can be written.
pub record IsStream (accepted out : List ℕ) (c : TcpConnection) : Type 0 where
  pub valid : IsValid c.output
  pub sum : out ++ contents c.output ≡ accepted
  pub watched : c.writing ≡ false → c.state ≢ disconnected → contents c.output ≡ []

no_elements : (xs : List ℕ) → length xs ≡ 0 → xs ≡ []
no_elements [] e = refl
no_elements (x ∷ xs) e = absurd (omega arith)

pub nothing_left : (b : Buffer) → IsValid b → (readable_bytes b == 0) ≡ true → contents b ≡ []
nothing_left b v e = no_elements (contents b) (length-contents v ∙ ground arith)

keep-IsStream :
    (n : ℕ) (ds : List ℕ) (c : TcpConnection)
    → IsValid c.output
    → n ≤ length ds
    → c.output.writer + length ds < 9223372036854775808
    → (d : TcpConnection) × (keep n ds c ≡ some d)
      × IsValid d.output
      × (contents d.output ≡ contents c.output ++ drop n ds)
      × ((d.writing ≡ true) ⊎ ((d ≡ c) × (drop n ds ≡ [])))
unfolding keep
keep-IsStream n ds c v h room = elim (Bool-cases (ltb n (length ds))) [
  | inl y ↦
      let (output, e, ok, at) =
        append_refines c.output (drop n ds) v (omega (arith, length-drop n ds)) in
      (record c { output = output; writing = true }, rw (y, e) refl, ok, at, inl refl)
  | inr no_more ↦
      let none_left : drop n ds ≡ [] = no_elements (drop n ds) (ground (arith, length-drop n ds)) in
      (c, rw no_more refl, v, rw (none_left, append-nil) refl, inr (refl, none_left))
]

abbrev pub Sends : List ℕ → List ℕ → Option (TcpConnection × List Action) → Type 0
Sends accepted out r =
    (d : TcpConnection) × (acts : List Action) × (r ≡ some (d, acts))
    × IsStream accepted (out ++ written acts) d

kept :
    (a out ds : List ℕ) (n : ℕ) (acts : List Action) (c : TcpConnection)
    → IsStream a out c
    → n ≤ length ds
    → c.output.writer + length ds < 9223372036854775808
    → written acts ++ (contents c.output ++ drop n ds) ≡ contents c.output ++ ds
    → Sends (a ++ ds) out (do d ← keep n ds c; some (d, acts))
kept a out ds n acts c s h room moved =
    let (d, e, v, at, how) = keep-IsStream n ds c s.valid h room in
    (
      d,
      acts,
      rw e refl,
      record {
        valid = v;
        sum =
            append_assoc out (written acts) (contents d.output)
            ∙ ap (λ xs. out ++ (written acts ++ xs)) at
            ∙ ap (λ xs. out ++ xs) moved
            ∙ sym (append_assoc out (contents c.output) ds)
            ∙ ap (λ xs. xs ++ ds) s.sum;
        watched = λ idle up. still idle up how at;
      },
    )
  where
    still :
        {d : TcpConnection}
        → d.writing ≡ false
        → d.state ≢ disconnected
        → ((d.writing ≡ true) ⊎ ((d ≡ c) × (drop n ds ≡ [])))
        → contents d.output ≡ contents c.output ++ drop n ds
        → contents d.output ≡ []
    still idle up (inl busy) at = cc
    still {d} idle up (inr (same, none_left)) at =
        ap (λ x. contents x.output) same
        ∙ s.watched (ap (λ x. x.writing) (sym same) ∙ idle) (λ q. up (ap (λ x. x.state) same ∙ q))

-- What `write` is given at once, and what is kept, is the block.
moved_now :
    (n : ℕ) (ds : List ℕ) (more : Bool)
    → ltb n (length ds) ≡ more
    → written (if more then wrote (take n ds) ∷ [] else wrote ds ∷ write_complete ∷ []) ++ drop n ds
      ≡ ds
moved_now n ds true e = ap (λ xs. xs ++ drop n ds) (append-nil (take n ds)) ∙ take-append-drop n ds
moved_now n ds false e =
    let none_left = no_elements (drop n ds) (ground (arith, length-drop n ds)) in
    rw (none_left, append-nil) (append-nil ds)

pub send-IsStream :
    (a out ds : List ℕ) (answer : Write) (c : TcpConnection)
    → IsStream a out c
    → CanAnswer (length ds) answer
    → c.output.writer + length ds < 9223372036854775808
    → Sends (a ++ (if is_connected c.state then ds else [])) out (send answer ds c)
unfolding send write_now
send-IsStream a out ds answer c s ok room = elim (Bool-cases (is_connected c.state)) [
  | inr n ↦ (c, [], rw n refl, rw (n, append-nil a, append-nil out) s)
  | inl y ↦ elim (Bool-cases (not c.writing && (readable_bytes c.output == 0))) [
    | inr n ↦ rw (y, n) (kept a out ds 0 [] c s (omega arith) room refl)
    | inl direct ↦ rw (y, direct) (now answer ok (nothing_left c.output s.valid (ground arith)))
  ]
]
  where
    now :
        (x : Write)
        → CanAnswer (length ds) x
        → contents c.output ≡ []
        → Sends (a ++ ds) out (do d ← keep (write_now x ds).0 ds c; some (d, (write_now x ds).1))
    now (refused errno) can none_left = kept a out ds 0 [] c s (omega arith) room refl
    now (took n) can none_left =
        kept a out ds n (write_now (took n) ds).1 c s can room
          (rw none_left (moved_now n ds (ltb n (length ds)) refl))
