-- ===== src/Game/Server/Walk.antt =====
-- What every step of the server keeps when its parts do: the paths through `onKaBuMessage` and `onTimer`.
use cpp_game_frame.Prelude.{
  ℕ, ◌+◌, ◌-◌, ◌%◌, ◌≡◌, refl, inl, inr, Bool-cases, Option-cases, Bool, true, false, not, Option,
  none, some, List, [], ◌∷◌, ◌==◌, if◌then◌else◌, ◌>>=◌, Each, Each-if, Each-cases, Each-then,
  Each-bind, Each-eq, Each-imp, ltb,
}
use cpp_game_frame.Prelude.Int.{ℤ, pos, negsuc, ltb_ℤ, leb_ℤ}
use cpp_game_frame.Kabu.Packet.{Packet, get_op, set_op}
use cpp_game_frame.Game.JoinTimes.{get_join_times}
use cpp_game_frame.Game.Note.{op_login_request, op_ping_request, op_ping}
use cpp_game_frame.Game.Server.{
  Online, BgClient, Players, LoongBgSrv, get_context, has_bg_player, same_text, max_join_times,
  send, send_all, on_disconnected, close_con,
}
use cpp_game_frame.Game.Server.Message.{
  set_player, login_answer, noted, moved, Login, read_login, log_in, closing, dispatch, Limits,
  on_kabu_message, close_idle, on_timer,
}

module _ {W : Type 0} where
  pub send_all-clients :
      (l : List (ℕ × Packet)) (s : LoongBgSrv W) → (send_all l s).clients ≡ s.clients
  unfolding send_all send
  send_all-clients [] s = refl
  send_all-clients ((con, pb) ∷ rest) s = send_all-clients rest (send pb s)

  pub send_all-map :
      (l : List (ℕ × Packet)) (s : LoongBgSrv W) → (send_all l s).bg_player_map ≡ s.bg_player_map
  unfolding send_all send
  send_all-map [] s = refl
  send_all-map ((con, pb) ∷ rest) s = send_all-map rest (send pb s)

-- `R` relates the server before a step at time `t` to the one after it.
pub record Keeps {W : Type 0} (players : Players W) (t : ℕ)
    (R : LoongBgSrv W → LoongBgSrv W → Type 0) : Type 0 where
  pub compose : (s u v : LoongBgSrv W) → R s u → R u v → R s v
  pub same_lists :
      (s s' : LoongBgSrv W) → s'.clients ≡ s.clients → s'.bg_player_map ≡ s.bg_player_map → R s s'
  pub ends : (con : ℕ) (s : LoongBgSrv W) → R s (on_disconnected players con s).0
  pub enters :
      (id : ℤ) (con : ℕ) (o : Online) (world : W) (s : LoongBgSrv W)
      → o.id ≡ id
      → has_bg_player id s.bg_player_map ≡ false
      → R s (record s {
        world = world;
        bg_player_map = (id, con) ∷ s.bg_player_map;
        clients = set_player con o s.clients;
      })
  pub moves :
      (con : ℕ) (old : BgClient) (packets : ℕ) (s : LoongBgSrv W)
      → get_context con s.clients ≡ some old
      → R s (record s { clients = moved (noted t old) s.clients; packet_num = packets })

module _ {W : Type 0} (players : Players W) (t : ℕ) (R : LoongBgSrv W → LoongBgSrv W → Type 0)
    (keeps : Keeps players t R) where
  stays : (s : LoongBgSrv W) → R s s
  stays s = keeps.same_lists s s refl refl

  close_idle-Keeps :
      (now : ℕ) (cs : List BgClient) (s : LoongBgSrv W) → R s (close_idle players now cs s).0
  unfolding close_idle close_con
  close_idle-Keeps now [] s = stays s
  close_idle-Keeps now (c ∷ cs) s =
      let closed = (close_con players c.con s).0 in
      elim (Bool-cases (ltb 30000000 (now - c.last_recv))) [
        | inl idle ↦ rw idle (
            keeps.compose s closed (close_idle players now cs closed).0 (keeps.ends c.con s)
              (close_idle-Keeps now cs closed))
        | inr recent ↦ rw recent (stays s)
      ]

  pub on_timer-Keeps : (now : ℕ) (s : LoongBgSrv W) → R s (on_timer players now s).0
  unfolding on_timer
  on_timer-Keeps now s = close_idle-Keeps now s.clients s

  -- What holds of the server that an answer leaves.
  abbrev Left : LoongBgSrv W → LoongBgSrv W × List (ℕ × Packet) → Type 0
  Left s r = R s r.0

  closing-Keeps :
      (con : ℕ) (s u : LoongBgSrv W) (sends : List (ℕ × Packet))
      → R s u
      → Each (Left s) (closing players con (u, sends))
  unfolding closing close_con
  closing-Keeps con s u sends before =
      keeps.compose s u (on_disconnected players con u).0 before (keeps.ends con u)

  module _ (token_of : ℤ → List ℕ → ℤ → ℤ → List ℕ) where
    pub log_in-Keeps :
        (l : Login) (con : ℕ) (s : LoongBgSrv W)
        → Each (λ r. R s r.1) (log_in players token_of l con s)
    unfolding log_in send
    log_in-Keeps l con s =
        Each-if P (not (same_text (token_of l.player_id l.player_name l.role_type l.times) l.token))
          _ _ (stays s)
          (Each-if P (leb_ℤ max_join_times (get_join_times l.player_id s.join_times)) _ _
            (Each-bind P (login_answer (negsuc 1)) _
              (λ op. keeps.same_lists s (send op s) refl refl))
            (Each-cases P (has_bg_player l.player_id s.bg_player_map) _ _ (λ _. stays s)
              (λ absent.
                answered (get_context con s.clients)
                  (keeps.enters l.player_id con o world s refl absent))))
      where
        o : Online
        o = record { id = l.player_id; wait_close = false }

        world : W
        world =
            let joins = get_join_times l.player_id s.join_times in
            players.make l.player_id l.player_name l.role_type
              (if ltb_ℤ l.times joins then joins else l.times) con s.world

        entered : LoongBgSrv W
        entered = record s {
          world = world;
          bg_player_map = (l.player_id, con) ∷ s.bg_player_map;
          clients = set_player con o s.clients;
        }

        P : Bool × LoongBgSrv W × List (ℕ × Packet) → Type 0
        P r = R s r.1

        answered :
            (context : Option BgClient)
            → R s entered
            → Each P (elim context [
              | none ↦ some (false, entered, [])
              | some c ↦ do op ← login_answer (pos 0); some (true, send op entered, (con, op) ∷ [])
            ])
        answered none before = before
        answered (some c) before = Each-bind P (login_answer (pos 0)) _ (λ op.
            keeps.compose s entered (send op entered) before
              (keeps.same_lists entered (send op entered) refl refl))

    logged_in :
        (con : ℕ) (s : LoongBgSrv W) (r : Bool × LoongBgSrv W × List (ℕ × Packet))
        → R s r.1
        → Each (Left s) (if r.0 then some (r.1, r.2) else closing players con (r.1, r.2))
    logged_in con s (on, u, sends) before =
        Each-if (Left s) on _ _ before (closing-Keeps con s u sends before)

    read-Keeps :
        (con : ℕ) (s : LoongBgSrv W) (read : Option Login)
        → Each (Left s) (elim read [
          | none ↦ closing players con (s, [])
          | some l ↦ do
            (stays, t, sends) ← log_in players token_of l con s
            if stays then some (t, sends) else closing players con (t, sends)
        ])
    read-Keeps con s none = closing-Keeps con s s [] (stays s)
    read-Keeps con s (some l) =
        Each-then (Left s) (log_in players token_of l con s) _
          (λ r e. logged_in con s r (Each-eq (λ q. R s q.1) e (log_in-Keeps l con s)))

    handled :
        (con : ℕ) (pb : Packet) (o : Option Online) (s : LoongBgSrv W)
        → Each (Left s) (elim o [
          | none ↦ some (s, [])
          | some p ↦
              let (world, sends) = players.on_msg_handler p.id con pb s.world in
              some (send_all sends (record s { world = world }), sends)
        ])
    handled con pb none s = stays s
    handled con pb (some p) s =
        let (world, sends) = players.on_msg_handler p.id con pb s.world in
        let u = record s { world = world } in
        keeps.same_lists s (send_all sends u) (send_all-clients sends u) (send_all-map sends u)

    dispatch-Keeps :
        (c : BgClient) (pb : Packet) (s : LoongBgSrv W)
        → Each (Left s) (dispatch players token_of c pb s)
    unfolding dispatch send
    dispatch-Keeps c pb s =
        Each-if (Left s) (get_op pb == op_ping_request) _ _
          (keeps.same_lists s (send (set_op op_ping pb) s) refl refl)
          (Each-if (Left s) (get_op pb == op_login_request) _ _
            (Each-bind (Left s) (read_login pb) _ (read-Keeps c.con s))
            (handled c.con pb c.player s))

    pub on_kabu_message-Keeps :
        (limits : Limits) (con : ℕ) (pb : Packet) (s : LoongBgSrv W)
        → Each (Left s) (on_kabu_message players token_of limits con pb t s)
    unfolding on_kabu_message
    on_kabu_message-Keeps limits con pb s = elim (Option-cases (get_context con s.clients)) [
      | inl gone ↦ rw (on_kabu_message, gone) (stays s)
      | inr (old, here) ↦
          let c = noted t old in
          let packets = (s.packet_num + 1) % 18446744073709551616 in
          let u = record s { clients = moved c s.clients; packet_num = packets } in
          let counted : R s u = keeps.moves con old packets s here in
          rw (on_kabu_message, here)
            (Each-if (Left s) (ltb limits.min_limit c.last_seconds_packets) _ _
              (Each-if (Left s) (ltb limits.max_limit c.last_seconds_packets) _ _
                (closing-Keeps con s u [] counted) counted)
              (Each-imp (Left u) (Left s) (dispatch players token_of c pb u)
                (λ r. keeps.compose s u r.0 counted) (dispatch-Keeps c pb u)))
    ]
