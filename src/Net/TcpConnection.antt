-- ===== src/Net/TcpConnection.antt =====
-- A connection, mysdk/net/TcpConnection.h and TcpConnection.cc. What the system answers to `write` and `readv` is an
-- argument; what a call does outside, in order, is its list of actions. `none` is a failed assertion, an access out of
-- range or the call of `abort`. The callbacks of connection, completed writing and closing are actions, and do not call
-- the connection again; that of messages is a parameter, which may.
pub mod Stream
pub mod Reach
pub mod Shut
mod Tests
use cpp_game_frame.Prelude.{
  ℕ, zero, suc, ◌+◌, Bool, true, false, not, ◌&&◌, ◌||◌, Option, none, some, List, [], ◌∷◌, ◌++◌,
  length, take, drop, ltb, ◌==◌, assert, if◌then◌else◌, ◌>>=◌, ◌>>◌,
}
use cpp_game_frame.Net.Buffer
use cpp_game_frame.Net.Buffer.{
  Buffer, Readv, failed, received, readable_bytes, append, retrieve, read_fd,
}

pub data State : Type 0 where
  disconnected connecting connected disconnecting : State

-- `reading` and `writing` are the events of the session; `queued` counts the calls of connectDestroyed that the loop
-- holds.
pub record TcpConnection : Type 0 where
  pub state : State
  pub reading : Bool
  pub writing : Bool
  pub input : Buffer
  pub output : Buffer
  pub recover : Bool
  pub queued : ℕ

pub data Action : Type 0 where
  wrote : (bytes : List ℕ) → Action
  shut_down_write : Action
  write_complete : Action
  connection_callback : (state : State) → Action
  close_callback : Action

-- What `write` answers.
pub data Write : Type 0 where
  took : (n : ℕ) → Write
  refused : (errno : ℕ) → Write

unfoldable pub new : TcpConnection
unfolding Buffer.new
new = record {
  state = connecting;
  reading = false;
  writing = false;
  input = Buffer.new;
  output = Buffer.new;
  recover = false;
  queued = 0;
}

abbrev pub is_connected : State → Bool
is_connected connected = true
is_connected _ = false

abbrev pub is_disconnecting : State → Bool
is_disconnecting disconnecting = true
is_disconnecting _ = false

abbrev is_connecting : State → Bool
is_connecting connecting = true
is_connecting _ = false

-- The attempt of `send` to write at once: how much was written, and what was done.
write_now : Write → List ℕ → ℕ × List Action
write_now (took n) ds =
    (n, if ltb n (length ds) then wrote (take n ds) ∷ [] else wrote ds ∷ write_complete ∷ [])
write_now (refused errno) ds = (0, [])

-- What could not be written is kept, and the session asked to say when it can be.
keep : ℕ → List ℕ → TcpConnection → Option TcpConnection
keep n ds c =
    if ltb n (length ds)
    then (do
      output ← append c.output (drop n ds)
      some (record c { output = output; writing = true }))
    else some c

unfoldable pub send : Write → List ℕ → TcpConnection → Option (TcpConnection × List Action)
unfolding write_now keep
send answer ds c =
    if not (is_connected c.state)
    then some (c, [])
    else let (n, acts) =
        if not c.writing && (readable_bytes c.output == 0) then write_now answer ds else (0, []) in
      do d ← keep n ds c; some (d, acts)

unfoldable pub shutdown : TcpConnection → TcpConnection × List Action
shutdown c =
    if is_connected c.state
    then (record c { state = disconnecting }, if not c.writing then shut_down_write ∷ [] else [])
    else (c, [])

unfoldable pub connect_established : TcpConnection → Option (TcpConnection × List Action)
connect_established c = do
  assert (is_connecting c.state)
  some (record c { state = connected; reading = true }, connection_callback connected ∷ [])

-- What handleClose and connectDestroyed do to a connection that is up.
take_down : TcpConnection → TcpConnection × List Action
take_down c =
    if is_connected c.state || is_disconnecting c.state
    then (
      record c { state = disconnected; reading = false; writing = false },
      connection_callback disconnected ∷ [],
    )
    else (c, [])

unfoldable pub connect_destroyed : TcpConnection → TcpConnection × List Action
unfolding take_down
connect_destroyed c = let (d, acts) = take_down c in (d, acts ++ (close_callback ∷ []))

unfoldable pub handle_close : TcpConnection → TcpConnection × List Action
unfolding take_down
handle_close c = let (d, acts) = take_down c in (record d { queued = d.queued + 1 }, acts)

-- `close` of the interface.
unfoldable pub close : TcpConnection → TcpConnection × List Action
unfolding handle_close
close c = handle_close c

unfoldable pub handle_write : Write → TcpConnection → Option (TcpConnection × List Action)
unfolding shutdown
handle_write answer c = if not c.writing then some (c, []) else elim answer [
  | refused errno ↦ none
  | took n ↦ if n == 0 then none else (do
    output ← retrieve n c.output
    let acts = wrote (take n (Buffer.contents c.output)) ∷ []
    let d = record c { output = output }
    if not (readable_bytes output == 0)
        then some (d, acts)
        else (let idle = record d { writing = false } in
            let (after, more) = if is_disconnecting idle.state then shutdown idle else (idle, []) in
            some (after, acts ++ (write_complete ∷ more))))
]

module _ (message_callback : TcpConnection → Option (TcpConnection × List Action)) where
  unfoldable pub handle_read : Readv → TcpConnection → Option (TcpConnection × List Action)
  unfolding handle_close
  handle_read (failed errno) c = some (c, [])
  handle_read (received []) c = some (handle_close c)
  handle_read (received (x ∷ xs)) c = do
    input ← read_fd (received (x ∷ xs)) c.input
    (d, acts) ← message_callback (record c { input = input })
    let (closed, more) = handle_close d
    if d.recover then some (closed, acts ++ more) else some (d, acts)

-- The loop runs the calls that were queued: each ends with the callback that takes the connection from its owner.
unfoldable pub destroy_queued : ℕ → TcpConnection → TcpConnection × List Action
unfolding connect_destroyed
destroy_queued zero c = (record c { queued = 0 }, [])
destroy_queued (suc n) c =
    let (d, acts) = connect_destroyed c in let (e, more) = destroy_queued n d in (e, acts ++ more)
