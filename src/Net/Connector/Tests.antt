-- ===== src/Net/Connector/Tests.antt =====
-- Witnesses for the connector: a refused attempt, then one that waits for the socket and succeeds; and what
-- `restart` does while a retry is still to come.
use cpp_game_frame.Prelude.{◌≡◌, refl, true, false, none, some, [], ◌∷◌, ◌>>=◌, arith}
use cpp_game_frame.Net.Connector.{
  Connector, new, econnrefused, einprogress, connect, start, restart, retry, begin, close,
  handle_event, handle_write, remove_add_reset_session, do_pending_functors, destroy_session,
  handle, Event, ready, timer, round,
}
use cpp_game_frame.Net.Connector.Phases.{
  connector_of, waiting, trying, done, IsBackingOff, CanCome, Reachable, begun, later,
}
use cpp_game_frame.Net.Connector.Backoff.{Reachable-IsBackingOff}

abbrev refused : Connector
refused = connector_of waiting 1 (3 ∷ [])

abbrev hoping : Connector
hoping = connector_of (trying 4) 1 (3 ∷ [])

abbrev there : Connector
there = connector_of (done 4) 1 (3 ∷ [])

first : start econnrefused 3 new ≡ some refused
unfolding start new connect retry close
first = refl

second : round (timer einprogress 4) refused ≡ some hoping
unfolding round handle start connect begin do_pending_functors
second = refl

abbrev writable : Event
writable = ready (record { hup = false; read = false; error = false; write = true }) 0 false

third : round writable hoping ≡ some there
unfolding round handle handle_event handle_write remove_add_reset_session do_pending_functors
    destroy_session
third = refl

reached : Reachable (3 ∷ 4 ∷ []) there
reached =
    later _ hoping there writable
      (later _ refused hoping (timer einprogress 4) (begun econnrefused 3 refused first)
        (omega arith) second)
      (_, refl, refl) third

Reachable-IsBackingOff_example :
    IsBackingOff (3 ∷ 4 ∷ []) there
    × ((e : Event) → CanCome e there → (d : Connector) × (round e there ≡ some d))
Reachable-IsBackingOff_example = Reachable-IsBackingOff (3 ∷ 4 ∷ []) there reached

-- The retry that was to come runs into the assertion of `start`.
restart_while_waiting : (do c ← restart einprogress 4 refused; round (timer einprogress 5) c) ≡ none
unfolding restart start connect begin round handle
restart_while_waiting = refl
