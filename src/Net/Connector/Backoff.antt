-- ===== src/Net/Connector/Backoff.antt =====
-- How long a connector waits between its attempts, and where its sockets go.
use cpp_game_frame.Prelude.{
  ℕ, suc, ◌*◌, min, ◌≡◌, refl, sym, ap, ◌∙◌, Bool, true, false, not, ◌||◌, Option, some, List, [],
  ◌∷◌, ◌++◌, ◌==◌, if◌then◌else◌, ◌>>=◌, arith,
}
use mathlib.Core.Path.{subst}
use cpp_game_frame.Net.Connector.{
  connected, Connector, new, Errno, success, einprogress, eintr, eisconn, eagain, eaddrinuse,
  eaddrnotavail, econnrefused, enetunreach, eacces, eperm, eafnosupport, ealready, ebadf, efault,
  enotsock, unexpected, retry, begin, close, connect, start, remove_add_reset_session,
  destroy_session, handle_write, handle_error, handle_event, do_pending_functors, Event, ready,
  timer, handle, round,
}
use cpp_game_frame.Net.Connector.Phases.{
  delay, delays, Phase, trying, waiting, given_up, done, connector_of, sockets_of, IsBackingOff,
  CanCome, opens, Reachable, begun, later,
}

-- Twice a delay is the next one.
twice : (n : ℕ) → min (delay n * 2) 30000 ≡ delay (suc n)
twice n = omega arith

abbrev Goes : Option Connector → List ℕ → Type 0
Goes o opened = (c : Connector) × (o ≡ some c) × IsBackingOff opened c

-- A call of start that the loop no longer holds, without a session.
abbrev idle : ℕ → List ℕ → Connector
idle n closed = connector_of given_up n closed

retried :
    (o : Option Connector) (n : ℕ) (closed : List ℕ) (sockfd : ℕ)
    → o
      ≡ some (record (connector_of waiting n (closed ++ (sockfd ∷ []))) {
        retry_delay = min (delay n * 2) 30000;
        asked = delays (suc n);
      })
    → Goes o (closed ++ (sockfd ∷ []))
retried o n closed sockfd e =
    let waits : ℕ → Connector =
      λ d. record (connector_of waiting (suc n) (closed ++ (sockfd ∷ []))) { retry_delay = d } in
    (_, e, (waiting, suc n, closed ++ (sockfd ∷ []), ap waits (twice n), refl))

start-Goes :
    (errno : Errno) (sockfd n : ℕ) (closed : List ℕ)
    → Goes (some (connect errno sockfd (idle n closed))) (closed ++ (sockfd ∷ []))
unfolding connect retry begin close do_pending_functors
start-Goes errno sockfd n closed = go errno
  where
    tried : Goes (some (connector_of (trying sockfd) n closed)) (closed ++ (sockfd ∷ []))
    tried = (_, refl, (trying sockfd, n, closed, refl, refl))

    quits :
        Goes (some (connector_of given_up n (closed ++ (sockfd ∷ [])))) (closed ++ (sockfd ∷ []))
    quits = (_, refl, (given_up, n, closed ++ (sockfd ∷ []), refl, refl))

    go : (x : Errno) → Goes (some (connect x sockfd (idle n closed))) (closed ++ (sockfd ∷ []))
    go success = tried
    go einprogress = tried
    go eintr = tried
    go eisconn = tried
    go eagain = retried _ n closed sockfd refl
    go eaddrinuse = retried _ n closed sockfd refl
    go eaddrnotavail = retried _ n closed sockfd refl
    go econnrefused = retried _ n closed sockfd refl
    go enetunreach = retried _ n closed sockfd refl
    go eacces = quits
    go eperm = quits
    go eafnosupport = quits
    go ealready = quits
    go ebadf = quits
    go efault = quits
    go enotsock = quits
    go (unexpected k) = quits

-- The end of the round.
abbrev after : Connector → Option Connector
unfolding do_pending_functors
after d = some (do_pending_functors d.functors d)

settled : (x : Connector) (opened : List ℕ) → Goes (some x) opened → Goes (after x) opened
unfolding do_pending_functors
settled x opened (c, e, (phase, n, closed, q, o)) =
    let same : x ≡ connector_of phase n closed = cc in
    (c, ap after same ∙ ap some (sym q), (phase, n, closed, q, o))

write-Goes :
    (bad : Bool) (sockfd n : ℕ) (closed : List ℕ)
    → let d : Connector = record (connector_of (trying sockfd) n closed) {
      session = some (record { fd = sockfd; writing = false });
      functors = 1;
    } in
      Goes
        (do
          r ←
              if bad
              then some (retry sockfd d)
              else some (record d { state = connected; handed = d.handed ++ (sockfd ∷ []) })
          some (do_pending_functors r.functors r))
        (closed ++ (sockfd ∷ []))
unfolding retry close do_pending_functors destroy_session
write-Goes true sockfd n closed = retried _ n closed sockfd refl
write-Goes false sockfd n closed = (_, refl, (done sockfd, n, closed, refl, refl))

ready-Goes :
    (hup read broken write : Bool) (error : ℕ) (self : Bool) (sockfd n : ℕ) (closed : List ℕ)
    → Goes
        (round
          (ready (record { hup = hup; read = read; error = broken; write = write }) error self)
          (connector_of (trying sockfd) n closed))
        (closed ++ (sockfd ∷ []))
unfolding round handle handle_event handle_error handle_write remove_add_reset_session retry close
    do_pending_functors destroy_session
ready-Goes true false false write error self sockfd n closed =
    (_, refl, (trying sockfd, n, closed, refl, refl))
ready-Goes true false true true error self sockfd n closed = retried _ n closed sockfd refl
ready-Goes true false true false error self sockfd n closed = retried _ n closed sockfd refl
ready-Goes true true true true error self sockfd n closed = retried _ n closed sockfd refl
ready-Goes true true true false error self sockfd n closed = retried _ n closed sockfd refl
ready-Goes false read true true error self sockfd n closed = retried _ n closed sockfd refl
ready-Goes false read true false error self sockfd n closed = retried _ n closed sockfd refl
ready-Goes true true false false error self sockfd n closed =
    (_, refl, (trying sockfd, n, closed, refl, refl))
ready-Goes false read false false error self sockfd n closed =
    (_, refl, (trying sockfd, n, closed, refl, refl))
ready-Goes true true false true error self sockfd n closed =
    write-Goes (not (error == 0) || self) sockfd n closed
ready-Goes false read false true error self sockfd n closed =
    write-Goes (not (error == 0) || self) sockfd n closed

append_none : (xs : List ℕ) → xs ++ [] ≡ xs
append_none [] = refl
append_none (x ∷ xs) = ap (λ ys. x ∷ ys) (append_none xs)

round-Goes :
    (e : Event) (phase : Phase) (n : ℕ) (closed : List ℕ)
    → CanCome e (connector_of phase n closed)
    → Goes (round e (connector_of phase n closed)) (sockets_of phase closed ++ opens e)
unfolding round handle start
round-Goes (ready fired error self) (trying sockfd) n closed h =
    rw (append_none (closed ++ (sockfd ∷ [])))
      (ready-Goes fired.hup fired.read fired.error fired.write error self sockfd n closed)
round-Goes (ready fired error self) waiting n closed (s, e, w) = absurd (ground (arith, e))
round-Goes (ready fired error self) given_up n closed (s, e, w) = absurd (ground (arith, e))
round-Goes (ready fired error self) (done sockfd) n closed (s, e, w) = absurd (ground (arith, e))
round-Goes (timer errno sockfd) waiting n closed h =
    settled (connect errno sockfd (idle n closed)) (closed ++ (sockfd ∷ []))
      (start-Goes errno sockfd n closed)
round-Goes (timer errno sockfd) (trying fd) n closed h = absurd (omega arith)
round-Goes (timer errno sockfd) given_up n closed h = absurd (omega arith)
round-Goes (timer errno sockfd) (done fd) n closed h = absurd (omega arith)

begins :
    (errno : Errno) (sockfd : ℕ) (c : Connector)
    → start errno sockfd new ≡ some c
    → IsBackingOff (sockfd ∷ []) c
unfolding start new
begins errno sockfd c e =
    let (d, e', (phase, n, closed, q, o)) = start-Goes errno sockfd 0 [] in
    let same : some d ≡ some c = sym e' ∙ e in
    let named : c ≡ d = cc in (phase, n, closed, named ∙ q, o)

-- What can come finds the connector ready for it, and leaves it so.
moves :
    (opened : List ℕ) (c : Connector) (e : Event)
    → IsBackingOff opened c
    → CanCome e c
    → Goes (round e c) (opened ++ opens e)
moves opened c e (phase, n, closed, q, o) h =
    rw (o, q) (round-Goes e phase n closed (subst (CanCome e) q h))

stays : (opened : List ℕ) (c : Connector) → Reachable opened c → IsBackingOff opened c
stays opened c (begun errno sockfd c' e) = begins errno sockfd c e
stays opened c (later before b d e r h m) =
    let (x, e', k) = moves before b e (stays before b r) h in
    let same : some x ≡ some d = sym e' ∙ m in
    let named : x ≡ d = cc in subst (IsBackingOff (before ++ opens e)) named k

-- From the first call of start on, whatever the system answers and whatever the poller says of the
-- socket: after n retries, the delays asked for are the first n of 500 milliseconds doubled each
-- time up to 30 seconds, and the next is the one after; every socket opened is closed, but for the
-- one that is being connected or was handed over, at most one; while the connector waits for a
-- retry exactly one is to come; and whatever can come next runs into no assertion.
pub Reachable-IsBackingOff :
    (opened : List ℕ) (c : Connector)
    → Reachable opened c
    → IsBackingOff opened c × ((e : Event) → CanCome e c → (d : Connector) × (round e c ≡ some d))
Reachable-IsBackingOff opened c r =
    let now = stays opened c r in (now, λ e h. let (d, m, k) = moves opened c e now h in (d, m))
