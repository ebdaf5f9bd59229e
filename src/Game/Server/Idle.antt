-- ===== src/Game/Server/Idle.antt =====
-- The list of clients is in the order of their last packets, so that the loop of `onTimer` may stop at the first one that
-- is not idle.
use cpp_game_frame.Prelude.{
  ℕ, ◌-◌, ◌≤◌, ◌≡◌, refl, ap, sym, ◌∙◌, inl, inr, Bool-cases, Option-cases, true, false, Option,
  none, some, List, [], ◌∷◌, ◌++◌, ◌==◌, if◌then◌else◌, Each-eq, ltb, arith,
}
use cpp_game_frame.Prelude.Int.{ℤ}
use cpp_game_frame.Game.JoinTimes.{JoinTimesMgr}
use cpp_game_frame.Game.Server.{
  Online, BgClient, Players, LoongBgSrv, new, get_context, erase_client, on_connected, drop_player,
  on_disconnected, close_con,
}
use cpp_game_frame.Game.Server.Message.{set_player, noted, moved, close_idle, on_timer}
use cpp_game_frame.Game.Server.Steps.{
  Next, connects, disconnects, says, rings, other, Later, now, after,
}
use cpp_game_frame.Game.Server.Walk.{Keeps, send_all-clients, on_timer-Keeps, on_kabu_message-Keeps}

-- From `lo` on, in order, up to `hi`.
abbrev pub IsOrdered : ℕ → ℕ → List BgClient → Type 0
IsOrdered lo hi [] = lo ≤ hi
IsOrdered lo hi (c ∷ cs) = (lo ≤ c.last_recv) × IsOrdered c.last_recv hi cs

IsOrdered-raise :
    (lo hi hi' : ℕ) (cs : List BgClient) → hi ≤ hi' → IsOrdered lo hi cs → IsOrdered lo hi' cs
IsOrdered-raise lo hi hi' [] h o = omega (arith, h, o)
IsOrdered-raise lo hi hi' (c ∷ cs) h (le, o) = (le, IsOrdered-raise c.last_recv hi hi' cs h o)

IsOrdered-lower :
    (lo lo' hi : ℕ) (cs : List BgClient) → lo' ≤ lo → IsOrdered lo hi cs → IsOrdered lo' hi cs
IsOrdered-lower lo lo' hi [] h o = omega (arith, h, o)
IsOrdered-lower lo lo' hi (c ∷ cs) h (le, o) = (omega (arith, h, le), o)

IsOrdered-erase_client :
    (con lo hi : ℕ) (cs : List BgClient)
    → IsOrdered lo hi cs
    → IsOrdered lo hi (erase_client con cs)
unfolding erase_client
IsOrdered-erase_client con lo hi [] o = o
IsOrdered-erase_client con lo hi (c ∷ cs) (le, o) = elim (Bool-cases (c.con == con)) [
  | inl here ↦ rw here (IsOrdered-lower c.last_recv lo hi cs le o)
  | inr away ↦ rw away (le, IsOrdered-erase_client con c.last_recv hi cs o)
]

IsOrdered-set_player :
    (con lo hi : ℕ) (p : Online) (cs : List BgClient)
    → IsOrdered lo hi cs
    → IsOrdered lo hi (set_player con p cs)
IsOrdered-set_player con lo hi p [] o = o
IsOrdered-set_player con lo hi p (c ∷ cs) (le, o) = elim (Bool-cases (c.con == con)) [
  | inl here ↦ rw here (le, o)
  | inr away ↦ rw away (le, IsOrdered-set_player con c.last_recv hi p cs o)
]

IsOrdered-append :
    (lo hi : ℕ) (cs : List BgClient) (c : BgClient)
    → c.last_recv ≡ hi
    → IsOrdered lo hi cs
    → IsOrdered lo hi (cs ++ (c ∷ []))
IsOrdered-append lo hi [] c e o = (omega (arith, e, o), omega (arith, e))
IsOrdered-append lo hi (x ∷ xs) c e (le, o) = (le, IsOrdered-append x.last_recv hi xs c e o)

noted-last_recv : (t : ℕ) (c : BgClient) → (noted t c).last_recv ≡ t
unfolding noted
noted-last_recv t c = elim (Bool-cases (ltb (t - c.last_sec_packets) 1000000)) [
  | inl soon ↦ rw soon refl
  | inr late ↦ rw late refl
]

-- The clients of which something came in the last 30 seconds.
abbrev pub recent : ℕ → List BgClient → List BgClient
recent t [] = []
recent t (c ∷ cs) =
    let rest = recent t cs in if ltb 30000000 (t - c.last_recv) then rest else c ∷ rest

-- Behind a client that is not idle none is.
all_recent :
    (t lo hi : ℕ) (cs : List BgClient) → t - lo ≤ 30000000 → IsOrdered lo hi cs → recent t cs ≡ cs
all_recent t lo hi [] h o = refl
all_recent t lo hi (c ∷ cs) h (le, o) =
    let still : ltb 30000000 (t - c.last_recv) ≡ false = ground arith in
    rw still (ap (◌∷◌ c) (all_recent t c.last_recv hi cs (omega (arith, h, le)) o))

module _ {W : Type 0} (players : Players W) where
  drop_player-clients :
      (con : ℕ) (o : Option Online) (s : LoongBgSrv W)
      → (drop_player players con o s).0.clients ≡ s.clients
  unfolding drop_player
  drop_player-clients con none s = refl
  drop_player-clients con (some p) s =
      let (world, sends) = players.close_player p.id con s.world in send_all-clients sends _

  on_disconnected-clients :
      (con : ℕ) (s : LoongBgSrv W) (c : BgClient)
      → get_context con s.clients ≡ some c
      → (on_disconnected players con s).0.clients ≡ erase_client con s.clients
  unfolding on_disconnected
  on_disconnected-clients con s c here =
      rw (on_disconnected, here) (drop_player-clients con c.player _)

  first_closed :
      (c : BgClient) (cs : List BgClient) (s : LoongBgSrv W)
      → s.clients ≡ c ∷ cs
      → (on_disconnected players c.con s).0.clients ≡ cs
  unfolding get_context erase_client
  first_closed c cs s e =
      let self : (c.con == c.con) ≡ true = ground arith in
      on_disconnected-clients c.con s c (rw (e, self) refl) ∙ rw (e, self) refl

  close_idle-recent :
      (t lo hi : ℕ) (cs : List BgClient) (s : LoongBgSrv W)
      → s.clients ≡ cs
      → IsOrdered lo hi cs
      → (close_idle players t cs s).0.clients ≡ recent t cs
  unfolding close_idle close_con
  close_idle-recent t lo hi [] s e o = e
  close_idle-recent t lo hi (c ∷ cs) s e (le, o) =
      elim (Bool-cases (ltb 30000000 (t - c.last_recv))) [
        | inl idle ↦ rw idle (
            close_idle-recent t c.last_recv hi cs (close_con players c.con s).0
              (first_closed c cs s e) o)
        | inr still ↦
            rw still (e ∙ ap (◌∷◌ c) (sym (all_recent t c.last_recv hi cs (ground arith) o)))
      ]

  -- What a step at time `t` keeps.
  abbrev Ordered : ℕ → LoongBgSrv W → LoongBgSrv W → Type 0
  Ordered t s s' = IsOrdered 0 t s.clients → IsOrdered 0 t s'.clients

  end-Ordered : (t con : ℕ) (s : LoongBgSrv W) → Ordered t s (on_disconnected players con s).0
  unfolding on_disconnected
  end-Ordered t con s o = elim (Option-cases (get_context con s.clients)) [
    | inl gone ↦ rw (on_disconnected, gone) o
    | inr (c, here) ↦
        rw (on_disconnected-clients con s c here) (IsOrdered-erase_client con 0 t s.clients o)
  ]

  Ordered-Keeps : (t : ℕ) → Keeps players t (Ordered t)
  unfolding moved
  Ordered-Keeps t = record {
    compose = λ s u v f g o. g (f o);
    same_lists = λ s s' h k o. rw h o;
    ends = end-Ordered t;
    enters = λ id con o world s e absent h. IsOrdered-set_player con 0 t o s.clients h;
    moves = λ con old packets s here h.
        IsOrdered-append 0 t (erase_client (noted t old).con s.clients) (noted t old)
          (noted-last_recv t old) (IsOrdered-erase_client (noted t old).con 0 t s.clients h);
  }

  module _ (token_of : ℤ → List ℕ → ℤ → ℤ → List ℕ) where
    Next-IsOrdered :
        {t t' : ℕ} {s s' : LoongBgSrv W}
        → Next players token_of t s t' s'
        → IsOrdered 0 t s.clients
        → IsOrdered 0 t' s'.clients
    unfolding on_connected
    Next-IsOrdered (connects t t' s con h) =
        λ o. IsOrdered-append 0 t' s.clients _ refl (IsOrdered-raise 0 t t' s.clients h o)
    Next-IsOrdered (disconnects t s con) = end-Ordered t con s
    Next-IsOrdered (says t t' s s' limits con pb sends h e) = λ o.
        Each-eq (λ r. Ordered t' s r.0) e
          (on_kabu_message-Keeps players t' (Ordered t') (Ordered-Keeps t') token_of limits con pb
            s)
          (IsOrdered-raise 0 t t' s.clients h o)
    Next-IsOrdered (rings t t' s h) = λ o.
        on_timer-Keeps players t' (Ordered t') (Ordered-Keeps t') t' s
          (IsOrdered-raise 0 t t' s.clients h o)
    Next-IsOrdered (other t s world joins packets tmp total) = λ o. o

    Later-IsOrdered :
        {t : ℕ} {s : LoongBgSrv W} {t' : ℕ} {s' : LoongBgSrv W}
        → Later players token_of t s t' s'
        → IsOrdered 0 t s.clients
        → IsOrdered 0 t' s'.clients
    Later-IsOrdered now = λ o. o
    Later-IsOrdered (after t' t'' s' s'' before step) =
        λ o. Next-IsOrdered step (Later-IsOrdered before o)

    -- After any connections, ends of connections, packets and calls of onTimer since the start, at
    -- times that do not go back, and whatever time onTimer reads now: although its loop stops at the
    -- first client that is not idle, the clients that are left are, in order, exactly those of which
    -- something came in the last 30 seconds.
    pub on_timer-recent :
        (joins : JoinTimesMgr) (world : W) (t time : ℕ) (s : LoongBgSrv W)
        → Later players token_of 0 (new joins world) t s
        → (on_timer players time s).0.clients ≡ recent time s.clients
    unfolding new on_timer
    on_timer-recent joins world t time s history =
        close_idle-recent time 0 t s.clients s refl (Later-IsOrdered history (omega arith))
