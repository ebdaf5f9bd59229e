-- ===== src/Boss/Server/Once.antt =====
-- Every reachable state of the server has given the rewards at most once.
use cpp_game_frame.Prelude.{
  ℕ, ◌≡◌, refl, Each, Each-if, Each-bind, Each-eq, ap, ◌∙◌, ◌⊎◌, inl, inr, Bool-cases, Bool, true,
  false, Option, none, some, List, [], ◌∷◌, ◌++◌, leb, ◌==◌, ◌&&◌, get_elem?, ◌%◌, assert, arith,
}
use mathlib.Core.List.{append-nil}
use cpp_game_frame.Prelude.Int.{ℤ, pos, leb_ℤ}
use cpp_game_frame.Kabu.Packet.{Packet, get_op, get_param}
use cpp_game_frame.Boss.HurtMgr.{Player, HurtMgr, serialize_top}
use cpp_game_frame.Boss.Server.{
  stop_line, Effect, put, send, BossSrv, Hit, new, start, op_update_data, update_hp, on_connection,
  tell_php_boss_elem, elements, awards, tell_php_act_over, read_hit, on_hit, on_message, jiesuan,
  stop, sigterm_handler, tick_me,
}
use cpp_game_frame.Boss.Server.Award.{
  rewards-update_hp, have_award-update_hp, rewards, rewards-append, Gives, nothing, all,
  tell_php_act_over-Gives, Gives-then, on_hit-Gives,
}

abbrev NotGiven : BossSrv × List Effect → Type 0
NotGiven (s, es) = (s.have_award ≡ false) × (rewards es ≡ [])

start-NotGiven : (id : ℕ) (hp : ℤ) (random : ℕ) → Each NotGiven (start id hp random new)
unfolding start new rewards tell_php_boss_elem
start-NotGiven id hp random =
    Each-bind NotGiven (assert (leb_ℤ (pos 0) hp)) _
      (λ _. Each-bind NotGiven (get_elem? elements (random % 13)) _ (λ elem. (refl, refl)))

module _ (sort : List Player → List Player) (deserves : ℕ → ℤ → Bool) where
  abbrev G : BossSrv → BossSrv → List Effect → Type 0
  G = Gives deserves

  abbrev Does : BossSrv → BossSrv × List Effect → Type 0
  Does s (after, es) = G s after es

  relabelled :
      {s mid after : BossSrv} {es : List Effect}
      → after.have_award ≡ mid.have_award
      → G s mid es
      → G s after es
  relabelled h (nothing k o) = nothing (h ∙ k) o
  relabelled h (all random hp m before given e) = all random hp m before (h ∙ given) e

  ignored : (s : BossSrv) → G s s []
  unfolding rewards
  ignored s = nothing refl refl

  taken :
      (random : ℕ → ℕ) (s : BossSrv) (read : Option Hit)
      → Each
          (Does s)
          (elim read [ none ↦ some (s, []) | some h ↦ some (on_hit sort deserves random h s) ])
  taken random s none = ignored s
  taken random s (some h) = on_hit-Gives sort deserves random h s

  replied : (s : BossSrv) (reply : Packet) → G s s (send reply ∷ [])
  unfolding rewards
  replied s reply = nothing refl refl

  on_message-Each :
      (random : ℕ → ℕ) (pb : Packet) (s : BossSrv)
      → Each (Does s) (on_message sort deserves random pb s)
  unfolding on_message
  on_message-Each random pb s =
      Each-if (Does s) (get_op pb == op_update_data) _ _
        (Each-if (Does s) (get_param pb == 0) _ _
          (Each-if (Does s) (leb_ℤ s.boss_hp (pos 0)) _ _ (ignored s)
            (Each-bind (Does s) (read_hit pb) _ (taken random s)))
          (Each-if (Does s) (get_param pb == 3) _ _
            (Each-bind (Does s) (serialize_top s.boss_hurt_mgr pb) _ (replied s)) (ignored s)))
        (ignored s)

  jiesuan-Gives :
      (random : ℕ → ℕ) (hour minutes tm_hour tm_min : ℕ) (s : BossSrv)
      → G s
          (jiesuan deserves random hour minutes tm_hour tm_min s).0
          (jiesuan deserves random hour minutes tm_hour tm_min s).1
  unfolding jiesuan
  jiesuan-Gives random hour minutes tm_hour tm_min s = elim (Bool-cases s.is_jiesuan) [
    | inl done ↦ simp done (ignored s)
    | inr open_still ↦ elim (Bool-cases ((tm_hour == hour) && leb minutes tm_min)) [
      | inl due ↦
          simp (open_still, due)
            (relabelled {mid = (tell_php_act_over deserves random s).0} refl
              (tell_php_act_over-Gives deserves random s))
      | inr early ↦ simp (open_still, early) (ignored s)
    ]
  ]

  stop-Gives :
      (random : ℕ → ℕ) (s : BossSrv) → G s (stop deserves random s).0 (stop deserves random s).1
  unfolding stop rewards
  stop-Gives random s =
      Gives-then deserves (put stop_line ∷ []) refl refl (tell_php_act_over-Gives deserves random s)

  rewards-on_connection :
      (connected : Bool) (s : BossSrv) → rewards (on_connection connected s) ≡ []
  unfolding on_connection rewards
  rewards-on_connection true s = refl
  rewards-on_connection false s = refl

  rewards-tick_me : (s : BossSrv) → rewards (tick_me s) ≡ []
  unfolding tick_me rewards
  rewards-tick_me s = ground arith

  signal-Gives : (s : BossSrv) → G s (sigterm_handler s) []
  unfolding sigterm_handler rewards
  signal-Gives s = nothing refl refl

  -- What happens to the server after its start: messages of any kind and content, settlements at any
  -- time of the day, the timer of the hp, connections, the signal, the end.
  pub data Step (s : BossSrv) : BossSrv → List Effect → Type 0 where
    message :
        (random : ℕ → ℕ) (pb : Packet) {after : BossSrv} {es : List Effect}
        → on_message sort deserves random pb s ≡ some (after, es)
        → Step s after es
    settle :
        (random : ℕ → ℕ) (hour minutes tm_hour tm_min : ℕ)
        → Step s
            (jiesuan deserves random hour minutes tm_hour tm_min s).0
            (jiesuan deserves random hour minutes tm_hour tm_min s).1
    show_hp : Step s (update_hp s).0 (update_hp s).1
    connection : (connected : Bool) → Step s s (on_connection connected s)
    signal : Step s (sigterm_handler s) []
    tick : Step s s (tick_me s)
    end : (random : ℕ → ℕ) → Step s (stop deserves random s).0 (stop deserves random s).1

  -- A server that has been started, and all its effects so far.
  pub data IsReachable : BossSrv → List Effect → Type 0 where
    begin :
        (id : ℕ) (hp : ℤ) (random : ℕ) {s : BossSrv} {es : List Effect}
        → start id hp random new ≡ some (s, es)
        → IsReachable s es
    next :
        {s after : BossSrv} {es fs : List Effect}
        → IsReachable s es
        → Step s after fs
        → IsReachable after (es ++ fs)

  Step-Gives : {s after : BossSrv} {es : List Effect} → Step s after es → G s after es
  Step-Gives {s} (message random pb h) = Each-eq (Does s) h (on_message-Each random pb s)
  Step-Gives {s} (settle random hour minutes tm_hour tm_min) =
      jiesuan-Gives random hour minutes tm_hour tm_min s
  Step-Gives {s} show_hp = nothing (have_award-update_hp s) (rewards-update_hp s)
  Step-Gives {s} (connection connected) = nothing refl (rewards-on_connection connected s)
  Step-Gives {s} signal = signal-Gives s
  Step-Gives {s} tick = nothing refl (rewards-tick_me s)
  Step-Gives {s} (end random) = stop-Gives random s

  -- The rewards have not been given and no line speaks of them, or they have been given in one go.
  abbrev pub GivenOnce : BossSrv → List Effect → Type 0
  GivenOnce s es =
      ((s.have_award ≡ false) × (rewards es ≡ []))
      ⊎ ((s.have_award ≡ true)
          × (random : ℕ → ℕ) × (hp : ℤ) × (m : HurtMgr) × (rewards es
              ≡ awards deserves random hp m))

  GivenOnce-append :
      {s after : BossSrv} (es fs : List Effect)
      → GivenOnce s es
      → G s after fs
      → GivenOnce after (es ++ fs)
  GivenOnce-append es fs (inl (h, o)) (nothing k n) =
      inl (k ∙ h, rewards-append es fs ∙ ap (λ xs. xs ++ rewards fs) o ∙ n)
  GivenOnce-append es fs (inl (h, o)) (all random hp m before given e) =
      inr (given, random, hp, m, rewards-append es fs ∙ ap (λ xs. xs ++ rewards fs) o ∙ e)
  GivenOnce-append es fs (inr (h, random, hp, m, e)) (nothing k n) = inr (
    k ∙ h,
    random,
    hp,
    m,
    rewards-append es fs ∙ ap (λ xs. rewards es ++ xs) n ∙ append-nil _ ∙ e,
  )
  GivenOnce-append es fs (inr (h, random, hp, m, e)) (all random' hp' m' before given e') = cc

  -- In every state after the start, whatever messages come, whoever connects and whenever the
  -- settlement falls due or the server stops: either the rewards have not been given and no line
  -- about them was put into the queue, or they have been given, and the lines about rewards of the
  -- whole run are those of one hand-out.
  pub rewards_once : {s : BossSrv} {es : List Effect} → IsReachable s es → GivenOnce s es
  rewards_once (begin id hp random h) = inl (Each-eq NotGiven h (start-NotGiven id hp random))
  rewards_once (next r step) = GivenOnce-append _ _ (rewards_once r) (Step-Gives step)
