-- ===== src/Game/Server/Lost.antt =====
-- A second login on a connection leaves the entry of its first player behind.
use cpp_game_frame.Prelude.{
  ℕ, ◌+◌, ◌≤◌, ◌≡◌, refl, ap, ◌∙◌, Each, Each-eq, Each-bind, Bool, true, false, some, List, [], ◌∷◌,
  arith,
}
use cpp_game_frame.Prelude.Int.{ℤ, pos, eqb_ℤ, leb_ℤ}
use cpp_game_frame.Kabu.Packet.{Packet}
use cpp_game_frame.Game.JoinTimes.{JoinTimesMgr, get_join_times}
use cpp_game_frame.Game.Server.{
  Online, BgClient, Players, LoongBgSrv, new, get_context, has_bg_player, same_text, max_join_times,
  send,
}
use cpp_game_frame.Game.Server.Message.{Login, set_player, login_answer, log_in}
use cpp_game_frame.Game.Server.Steps.{Later}
use cpp_game_frame.Game.Server.Counts.{
  plays, one_if, count, entries, count-set_player-there, absent-entries, entries-present,
}
use cpp_game_frame.Game.Server.Held.{Onward, Onward-Keeps, Later-Onward}
use cpp_game_frame.Game.Server.Walk.{log_in-Keeps}
use cpp_game_frame.Game.Server.Once.{IsHeld, Later-IsHeld}

module _ {W : Type 0} where
  -- The token is right and the player has not joined five times today.
  abbrev pub MayLogIn : (ℤ → List ℕ → ℤ → ℤ → List ℕ) → Login → LoongBgSrv W → Type 0
  MayLogIn token_of l s =
      (same_text (token_of l.player_id l.player_name l.role_type l.times) l.token ≡ true)
      × (leb_ℤ max_join_times (get_join_times l.player_id s.join_times) ≡ false)

  abbrev pub IsLost : ℤ → LoongBgSrv W → Type 0
  IsLost id s = (has_bg_player id s.bg_player_map ≡ true) × (count id s.clients ≡ 0)

module _ {W : Type 0} (players : Players W) (token_of : ℤ → List ℕ → ℤ → ℤ → List ℕ) where
  more_entries :
      (k : ℤ) (c : BgClient) (p : Online) (con : ℕ) (o : Online) (s : LoongBgSrv W)
      → IsHeld p.id s
      → o.id ≡ k
      → get_context con s.clients ≡ some c
      → c.player ≡ some p
      → has_bg_player k s.bg_player_map ≡ false
      → 1 + count p.id (set_player con o s.clients) ≤ entries p.id ((k, con) ∷ s.bg_player_map)
  more_entries k c p con o s (one, held) of here playing absent =
      let mine : plays p.id c.player ≡ 1 = rw playing (ground arith) in
      let there : count p.id (set_player con o s.clients) + 1
          ≡ count p.id s.clients + one_if (eqb_ℤ k p.id) =
        simp (mine, of) at (count-set_player-there p.id con o s.clients c here) in
      let old = count-set_player-there p.id con p s.clients c here in
      let none_yet = absent-entries p.id k s.bg_player_map absent in ground arith

  log_in-More :
      (l : Login) (con : ℕ) (s : LoongBgSrv W) (c : BgClient) (p : Online)
      → IsHeld p.id s
      → get_context con s.clients ≡ some c
      → c.player ≡ some p
      → MayLogIn token_of l s
      → has_bg_player l.player_id s.bg_player_map ≡ false
      → Each
          (λ r. 1 + count p.id r.1.clients ≤ entries p.id r.1.bg_player_map)
          (log_in players token_of l con s)
  unfolding send log_in
  log_in-More l con s c p held here playing (right, few) absent =
      rw (log_in, right, few, absent, here)
        (Each-bind (λ r. 1 + count p.id r.1.clients ≤ entries p.id r.1.bg_player_map)
          (login_answer (pos 0)) _
          (λ op. more_entries l.player_id c p con _ s held refl here playing absent))

  refused :
      (l : Login) (con : ℕ) (s : LoongBgSrv W)
      → MayLogIn token_of l s
      → has_bg_player l.player_id s.bg_player_map ≡ true
      → log_in players token_of l con s ≡ some (false, s, [])
  unfolding log_in
  refused l con s (right, few) taken = rw (log_in, right, few, taken) refl

  -- After any connections, ends of connections, packets and calls of onTimer since the start, at
  -- times that do not go back, let a client that has a player log in once more, with a right token,
  -- fewer than five joins today and an id that is not in the map: its first player stays in the map
  -- for ever while no client plays with that id, whatever happens afterwards, and every login with
  -- that id and a right token, with fewer than five joins, is answered by closing the connection.
  pub second_login_loses :
      (joins : JoinTimesMgr) (world : W) (t t' : ℕ) (s s' s'' : LoongBgSrv W) (l : Login) (con : ℕ)
      (c : BgClient) (p : Online) (stays : Bool) (sends : List (ℕ × Packet)) (again : Login)
      (con' : ℕ)
      → Later players token_of 0 (new joins world) t s
      → get_context con s.clients ≡ some c
      → c.player ≡ some p
      → MayLogIn token_of l s
      → has_bg_player l.player_id s.bg_player_map ≡ false
      → log_in players token_of l con s ≡ some (stays, s', sends)
      → Later players token_of t s' t' s''
      → again.player_id ≡ p.id
      → MayLogIn token_of again s''
      → IsLost p.id s'' × (log_in players token_of again con' s'' ≡ some (false, s'', []))
  second_login_loses joins world t t' s s' s'' l con c p stays sends again con' history here playing
        may absent e later named may' =
      let (one, held) = Later-IsHeld players token_of joins world t s history p.id in
      let more : 1 + count p.id s'.clients ≤ entries p.id s'.bg_player_map =
        Each-eq (λ r. 1 + count p.id r.1.clients ≤ entries p.id r.1.bg_player_map) e
          (log_in-More l con s c p (one, held) here playing may absent) in
      let (one', held', kept) =
        Each-eq (λ r. Onward p.id s r.1) e
          (log_in-Keeps players t (Onward p.id) (Onward-Keeps p.id players t) token_of l con s) one
          held in
      let (one'', held'', still) = Later-Onward p.id players token_of later one' held' in
      let there : has_bg_player p.id s''.bg_player_map ≡ true =
        entries-present p.id s''.bg_player_map (omega (arith, more, one', still)) in
      (
        (there, omega (arith, more, one'', still)),
        refused again con' s'' may' (ap (λ k. has_bg_player k s''.bg_player_map) named ∙ there),
      )
