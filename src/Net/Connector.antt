-- ===== src/Net/Connector.antt =====
-- The connector of mysdk/net/Connector.cc, which tries to connect until it has a connection, with the part of the
-- event loop that it lives in: `handleEvent` of Session.cc and `doPendingFunctors` of EventLoop.cc. Sockets are their
-- numbers; what the system answers to a call is an argument. `none` is a failed assertion.
pub mod Phases
pub mod Backoff
mod Tests
use cpp_game_frame.Prelude.{
  ℕ, zero, suc, ◌+◌, ◌-◌, ◌*◌, min, Bool, true, false, not, ◌&&◌, ◌||◌, Option, none, some, List,
  [], ◌∷◌, ◌++◌, ◌==◌, if◌then◌else◌, ◌>>=◌,
}

pub data State : Type 0 where
  disconnected connecting connected : State

pub record Session : Type 0 where
  pub fd : ℕ
  pub writing : Bool

-- `timers` counts the calls of start that the loop holds, `functors` those of DestroySession. `asked`, `closed` and
-- `handed` record what has been done so far: the delays given to runAfter, the sockets closed, and those given to
-- the callback of new connections.
pub record Connector : Type 0 where
  pub state : State
  pub session : Option Session
  pub retry_delay : ℕ
  pub timers : ℕ
  pub functors : ℕ
  pub asked : List ℕ
  pub closed : List ℕ
  pub handed : List ℕ

abbrev pub max_retry_delay : ℕ
max_retry_delay = 30 * 1000

abbrev pub init_retry_delay : ℕ
init_retry_delay = 500

unfoldable pub new : Connector
new = record {
  state = disconnected;
  session = none;
  retry_delay = init_retry_delay;
  timers = 0;
  functors = 0;
  asked = [];
  closed = [];
  handed = [];
}

abbrev is_disconnected : State → Bool
is_disconnected disconnected = true
is_disconnected _ = false

abbrev is_connecting : State → Bool
is_connecting connecting = true
is_connecting _ = false

-- What `connect` leaves in errno, as far as `start` tells them apart.
pub data Errno : Type 0 where
  success einprogress eintr eisconn : Errno
  eagain eaddrinuse eaddrnotavail econnrefused enetunreach : Errno
  eacces eperm eafnosupport ealready ebadf efault enotsock : Errno
  unexpected : (errno : ℕ) → Errno

close : ℕ → Connector → Connector
close sockfd c = record c { closed = c.closed ++ (sockfd ∷ []) }

retry : ℕ → Connector → Connector
unfolding close
retry sockfd c = record (close sockfd c) {
  state = disconnected;
  timers = c.timers + 1;
  asked = c.asked ++ (c.retry_delay ∷ []);
  retry_delay = min (c.retry_delay * 2) max_retry_delay;
}

-- `connecting`.
begin : ℕ → Connector → Connector
begin sockfd c = record c {
  state = connecting;
  session = some (record { fd = sockfd; writing = true });
}

-- The switch of `start`.
unfoldable pub connect : Errno → ℕ → Connector → Connector
unfolding retry begin close
connect success sockfd c = begin sockfd c
connect einprogress sockfd c = begin sockfd c
connect eintr sockfd c = begin sockfd c
connect eisconn sockfd c = begin sockfd c
connect eagain sockfd c = retry sockfd c
connect eaddrinuse sockfd c = retry sockfd c
connect eaddrnotavail sockfd c = retry sockfd c
connect econnrefused sockfd c = retry sockfd c
connect enetunreach sockfd c = retry sockfd c
connect _ sockfd c = close sockfd c

unfoldable pub start : Errno → ℕ → Connector → Option Connector
start errno sockfd c = if is_disconnected c.state then some (connect errno sockfd c) else none

unfoldable pub restart : Errno → ℕ → Connector → Option Connector
restart errno sockfd c =
    start errno sockfd (record c { state = disconnected; retry_delay = init_retry_delay })

remove_add_reset_session : Connector → Option (ℕ × Connector)
remove_add_reset_session c = do
  s ← c.session
  some (s.fd, record c { session = some (record s { writing = false }); functors = c.functors + 1 })

unfoldable pub destroy_session : Connector → Connector
destroy_session c = record c { session = none }

-- `error` is what the socket says its error is, `self` whether it is connected to itself.
unfoldable pub handle_write : ℕ → Bool → Connector → Option Connector
unfolding remove_add_reset_session retry
handle_write error self c = if not (is_connecting c.state) then some c else (do
  (sockfd, d) ← remove_add_reset_session c
  if not (error == 0) || self
      then some (retry sockfd d)
      else some (record d { state = connected; handed = d.handed ++ (sockfd ∷ []) }))

unfoldable pub handle_error : Connector → Option Connector
unfolding remove_add_reset_session retry
handle_error c =
    if is_connecting c.state
    then (do (sockfd, d) ← remove_add_reset_session c; some (retry sockfd d))
    else none

-- What the poller says of the session.
pub record Fired : Type 0 where
  pub hup : Bool
  pub read : Bool
  pub error : Bool
  pub write : Bool

-- `Session::handleEvent`, with the callbacks that a connector sets: those of error and of write.
unfoldable pub handle_event : Fired → ℕ → Bool → Connector → Option Connector
handle_event fired error self c =
    if fired.hup && not fired.read && not fired.error then some c else (do
      d ← if fired.error then handle_error c else some c
      if fired.write then handle_write error self d else some d)

do_pending_functors : ℕ → Connector → Connector
unfolding destroy_session
do_pending_functors zero c = record c { functors = 0 }
do_pending_functors (suc n) c = do_pending_functors n (destroy_session c)

-- A round of the loop has one event for the connector: the session is ready, or a timer calls start.
pub data Event : Type 0 where
  ready : (fired : Fired) (error : ℕ) (self : Bool) → Event
  timer : (errno : Errno) (sockfd : ℕ) → Event

handle : Event → Connector → Option Connector
handle (ready fired error self) c = handle_event fired error self c
handle (timer errno sockfd) c = start errno sockfd (record c { timers = c.timers - 1 })

unfoldable pub round : Event → Connector → Option Connector
unfolding handle do_pending_functors
round e c = do d ← handle e c; some (do_pending_functors d.functors d)
