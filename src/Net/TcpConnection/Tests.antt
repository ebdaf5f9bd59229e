-- ===== src/Net/TcpConnection/Tests.antt =====
-- Witnesses for connections: a block of three bytes of which the socket takes two at once; and a connection that is
-- closed twice before the loop comes to it.
use cpp_game_frame.Prelude.{
  ℕ, ◌<◌, ◌≡◌, ◌⊎◌, false, refl, true, some, List, [], ◌∷◌, replicate, Each, arith,
}
use cpp_game_frame.Prelude.Windows.{overwrite}
use cpp_game_frame.Net.Buffer
use cpp_game_frame.Net.Buffer.{Buffer, contents, append, retrieve}
use cpp_game_frame.Net.TcpConnection.{
  TcpConnection, new, connected, connect_established, Action, connection_callback, close_callback,
  wrote, took, send, write_now, keep, handle_write, handle_close, take_down, destroy_queued,
  connect_destroyed,
}
use cpp_game_frame.Net.TcpConnection.Stream.{IsStream}
use cpp_game_frame.Net.TcpConnection.Reach.{Reachable, established, sent, Reachable-IsStream}
use cpp_game_frame.Net.TcpConnection.Shut.{writes, closes, shuts, run, shut_downs, shutdown_lost}

abbrev up : TcpConnection
unfolding new Buffer.new
up = record new { state = connected; reading = true }

abbrev half_sent : TcpConnection
unfolding up
half_sent = record up {
  output = record { bytes = overwrite (replicate 1024 0) 12 (3 ∷ []); reader = 12; writer = 13 };
  writing = true;
}

reached : Reachable (1 ∷ 2 ∷ 3 ∷ []) (1 ∷ 2 ∷ []) half_sent
unfolding up half_sent new Buffer.new connect_established send write_now keep append
reached =
    sent [] [] (1 ∷ 2 ∷ 3 ∷ []) (took 2) up half_sent (wrote (1 ∷ 2 ∷ []) ∷ [])
      (established up (connection_callback connected ∷ []) refl) (omega arith) (omega arith) refl

Reachable-IsStream_example :
    IsStream (1 ∷ 2 ∷ 3 ∷ []) (1 ∷ 2 ∷ []) half_sent
    × ((d : TcpConnection) × (acts : List Action) × (send (took 0) (4 ∷ []) half_sent
          ≡ some (d, acts)))
    × ((true ≡ false)
        ⊎ (◌≡◌ {A = ℕ} 1 0)
        ⊎ (1 < 1)
        ⊎ ((d : TcpConnection) × (acts : List Action) × (handle_write (took 1) half_sent
              ≡ some (d, acts))))
unfolding half_sent up
Reachable-IsStream_example =
    Reachable-IsStream (1 ∷ 2 ∷ 3 ∷ []) (1 ∷ 2 ∷ []) half_sent (4 ∷ []) (took 0) 1 reached
      (omega arith) (omega arith)

shutdown_lost_example :
    Each (λ r. shut_downs r.1 ≡ 0) (run (shuts ∷ writes (took 1) ∷ closes ∷ []) half_sent)
unfolding half_sent up
shutdown_lost_example = shutdown_lost half_sent (writes (took 1) ∷ closes ∷ []) refl refl

-- The owner is told twice to let the connection go.
closed_twice :
    let once = (handle_close up).0 in
    let twice = (handle_close once).0 in
    (destroy_queued twice.queued twice).1 ≡ close_callback ∷ close_callback ∷ []
unfolding up new handle_close take_down destroy_queued connect_destroyed
closed_twice = refl
