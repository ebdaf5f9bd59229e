-- ===== src/Net/Connector/Phases.antt =====
-- The connector seen from outside: its four phases, the delays between its attempts, and what can happen to it.
use cpp_game_frame.Prelude.{
  ℕ, zero, suc, ◌*◌, ◌≤◌, min, ◌≡◌, true, Option, none, some, List, [], ◌∷◌, ◌++◌,
}
use cpp_game_frame.Net.Connector.{
  State, disconnected, connecting, connected, Session, Connector, new, Errno, start, Event, ready,
  timer, round,
}

abbrev pub pow2 : ℕ → ℕ
pow2 zero = 1
pow2 (suc n) = 2 * pow2 n

-- The delay after `n` retries: half a second, twice as much each time, at most half a minute.
abbrev pub delay : ℕ → ℕ
delay n = min (500 * pow2 n) 30000

abbrev pub delays : ℕ → List ℕ
delays zero = []
delays (suc n) = delays n ++ (delay n ∷ [])

pub data Phase : Type 0 where
  trying : (sockfd : ℕ) → Phase
  waiting given_up : Phase
  done : (sockfd : ℕ) → Phase

abbrev pub state_of : Phase → State
state_of (trying sockfd) = connecting
state_of waiting = disconnected
state_of given_up = disconnected
state_of (done sockfd) = connected

abbrev pub session_of : Phase → Option Session
session_of (trying sockfd) = some (record { fd = sockfd; writing = true })
session_of _ = none

abbrev pub timers_of : Phase → ℕ
timers_of waiting = 1
timers_of _ = 0

abbrev pub handed_of : Phase → List ℕ
handed_of (done sockfd) = sockfd ∷ []
handed_of _ = []

-- The connector in a phase, after `n` retries and with these sockets closed.
abbrev pub connector_of : Phase → ℕ → List ℕ → Connector
connector_of phase n closed = record {
  state = state_of phase;
  session = session_of phase;
  retry_delay = delay n;
  timers = timers_of phase;
  functors = 0;
  asked = delays n;
  closed = closed;
  handed = handed_of phase;
}

-- All sockets opened so far.
abbrev pub sockets_of : Phase → List ℕ → List ℕ
sockets_of (trying sockfd) closed = closed ++ (sockfd ∷ [])
sockets_of (done sockfd) closed = closed ++ (sockfd ∷ [])
sockets_of _ closed = closed

abbrev pub IsBackingOff : List ℕ → Connector → Type 0
IsBackingOff opened c =
    (phase : Phase) × (n : ℕ) × (closed : List ℕ) × (c ≡ connector_of phase n closed)
    × (opened ≡ sockets_of phase closed)

-- A session is ready only while it is watched, and a timer goes off only if one was set.
abbrev pub CanCome : Event → Connector → Type 0
CanCome (ready fired error self) c = (s : Session) × (c.session ≡ some s) × (s.writing ≡ true)
CanCome (timer errno sockfd) c = 1 ≤ c.timers

abbrev pub opens : Event → List ℕ
opens (ready fired error self) = []
opens (timer errno sockfd) = sockfd ∷ []

-- What can happen from the first call of start on, with the sockets opened.
pub data Reachable : List ℕ → Connector → Type 0 where
  begun :
      (errno : Errno) (sockfd : ℕ) (c : Connector)
      → start errno sockfd new ≡ some c
      → Reachable (sockfd ∷ []) c
  later :
      (opened : List ℕ) (c d : Connector) (e : Event)
      → Reachable opened c
      → CanCome e c
      → round e c ≡ some d
      → Reachable (opened ++ opens e) d
