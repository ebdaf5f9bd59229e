-- ===== src/Game/Server/Held.antt =====
-- Every event of the battleground server keeps its map of players in step with its clients.
use cpp_game_frame.Prelude.{
  ℕ, ◌+◌, ◌≤◌, ◌≡◌, inl, inr, Bool-cases, Option-cases, false, not, Option, none, some, List, ◌∷◌,
  if◌then◌else◌, Each-eq, arith,
}
use cpp_game_frame.Prelude.Int.{ℤ, eqb_ℤ}
use cpp_game_frame.Game.Server.{
  Online, BgClient, Players, LoongBgSrv, get_context, erase_client, has_bg_player, erase_player,
  on_connected, drop_player, on_disconnected,
}
use cpp_game_frame.Game.Server.Message.{set_player, noted, moved}
use cpp_game_frame.Game.Server.Steps.{
  Next, connects, disconnects, says, rings, other, Later, now, after,
}
use cpp_game_frame.Game.Server.Walk.{
  Keeps, send_all-clients, send_all-map, on_timer-Keeps, on_kabu_message-Keeps,
}
use cpp_game_frame.Game.Server.Counts.{
  one_if, plays, count, entries, count-append, count-erase_client, count-set_player,
  entries-erase_player, absent-entries, count-moved,
}

-- From `e` entries and `c` clients with an id to `e'` and `c'`: the entry stays one at most, the clients stay no more
-- than the entries, and an entry without a client stays one.
abbrev pub Ahead : ℕ → ℕ → ℕ → ℕ → Type 0
Ahead e c e' c' = e ≤ 1 → c ≤ e → (e' ≤ 1) × (c' ≤ e') × (e + c' ≤ e' + c)

Ahead-trans : (e c e' c' e'' c'' : ℕ) → Ahead e c e' c' → Ahead e' c' e'' c'' → Ahead e c e'' c''
Ahead-trans e c e' c' e'' c'' f g one held = ground arith

module _ {W : Type 0} (id : ℤ) where
  abbrev pub Onward : LoongBgSrv W → LoongBgSrv W → Type 0
  Onward s s' =
      Ahead (entries id s.bg_player_map) (count id s.clients) (entries id s'.bg_player_map)
        (count id s'.clients)

  Onward-refl : (s : LoongBgSrv W) → Onward s s
  Onward-refl s one held = (one, held, omega arith)

  Onward-trans : (s t u : LoongBgSrv W) → Onward s t → Onward t u → Onward s u
  Onward-trans s t u =
      Ahead-trans (entries id s.bg_player_map) (count id s.clients) (entries id t.bg_player_map)
        (count id t.clients) (entries id u.bg_player_map) (count id u.clients)

  same_lists :
      (s s' : LoongBgSrv W)
      → s'.clients ≡ s.clients
      → s'.bg_player_map ≡ s.bg_player_map
      → Onward s s'
  same_lists s s' h k one held = rw (h, k) (one, held, omega arith)

  module _ (players : Players W) where
    dropped :
        (con : ℕ) (o : Option Online) (s : LoongBgSrv W)
        → let s' = (drop_player players con o s).0 in
          Ahead
            (entries id s.bg_player_map)
            (plays id o + count id s.clients)
            (entries id s'.bg_player_map)
            (count id s'.clients)
    unfolding drop_player
    dropped con none s one held = ground arith
    dropped con (some p) s one held =
        let (world, sends) = players.close_player p.id con s.world in
        let map = if not p.wait_close then erase_player p.id s.bg_player_map else s.bg_player_map in
        let t = record s { bg_player_map = map; world = world } in
        rw (send_all-clients sends t, send_all-map sends t)
          (elim (Bool-cases p.wait_close) [
            | inl waits ↦ rw waits (one, ground arith, ground arith)
            | inr at_once ↦
                rw (at_once, entries-erase_player id p.id s.bg_player_map) (ground arith)
          ])

    on_disconnected-Onward :
        (con : ℕ) (s : LoongBgSrv W) → Onward s (on_disconnected players con s).0
    unfolding on_disconnected
    on_disconnected-Onward con s = elim (Option-cases (get_context con s.clients)) [
      | inl gone ↦ rw (on_disconnected, gone) (Onward-refl s)
      | inr (c, here) ↦
          rw (on_disconnected, here, count-erase_client id con s.clients c here)
            (dropped con c.player (record s { clients = erase_client con s.clients }))
    ]

    entered :
        (k : ℤ) (con : ℕ) (o : Online) (world : W) (s : LoongBgSrv W)
        → o.id ≡ k
        → has_bg_player k s.bg_player_map ≡ false
        → Onward s (record s {
          world = world;
          bg_player_map = (k, con) ∷ s.bg_player_map;
          clients = set_player con o s.clients;
        })
    entered k con o world s e absent one held =
        let fewer : count id (set_player con o s.clients)
            ≤ count id s.clients + one_if (eqb_ℤ k id) =
          simp e at (count-set_player id con o s.clients) in
        let none_yet = absent-entries id k s.bg_player_map absent in ground arith

    moved-Onward :
        (t : ℕ) (con : ℕ) (old : BgClient) (packets : ℕ) (s : LoongBgSrv W)
        → get_context con s.clients ≡ some old
        → Onward s (record s { clients = moved (noted t old) s.clients; packet_num = packets })
    moved-Onward t con old packets s here one held =
        let same = count-moved id t con old s.clients here in rw same (one, held, omega arith)

    pub Onward-Keeps : (t : ℕ) → Keeps players t Onward
    Onward-Keeps t = record {
      compose = Onward-trans;
      same_lists = same_lists;
      ends = on_disconnected-Onward;
      enters = entered;
      moves = moved-Onward t;
    }

    module _ (token_of : ℤ → List ℕ → ℤ → ℤ → List ℕ) where
      pub Next-Onward :
          {t t' : ℕ} {s s' : LoongBgSrv W} → Next players token_of t s t' s' → Onward s s'
      unfolding on_connected
      Next-Onward (connects t t' s con h) =
          λ one held. rw (count-append id s.clients _) (one, ground arith, ground arith)
      Next-Onward (disconnects t s con) = on_disconnected-Onward con s
      Next-Onward (says t t' s s' limits con pb sends h e) =
          Each-eq (λ r. Onward s r.0) e
            (on_kabu_message-Keeps players t' Onward (Onward-Keeps t') token_of limits con pb s)
      Next-Onward (rings t t' s h) = on_timer-Keeps players t' Onward (Onward-Keeps t') t' s
      Next-Onward (other t s world joins packets tmp total) = Onward-refl s

      pub Later-Onward :
          {t : ℕ} {s : LoongBgSrv W} {t' : ℕ} {s' : LoongBgSrv W}
          → Later players token_of t s t' s'
          → Onward s s'
      Later-Onward {s = s} now = Onward-refl s
      Later-Onward {s = s} (after t' t'' s' s'' before step) =
          Onward-trans s s' s'' (Later-Onward before) (Next-Onward step)
