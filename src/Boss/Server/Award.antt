-- ===== src/Boss/Server/Award.antt =====
-- The rewards are given once, whatever ends the event.
use cpp_game_frame.Prelude.{
  ℕ, ◌+◌, ◌≡◌, refl, sym, ap, ◌∙◌, inl, inr, Bool-cases, Bool, true, false, List, [], ◌∷◌, ◌++◌,
  if◌then◌else◌, arith,
}
use mathlib.Core.List.{append-nil}
use cpp_game_frame.Prelude.Int.{ℤ, pos, leb_ℤ}
use cpp_game_frame.Boss.HurtMgr.{Player, HurtMgr, add_hurt}
use cpp_game_frame.Boss.Server.{
  boss_elem_line, hurt_line, win_line, top_mail, mail, stop_line, Effect, put, broad_msg, send_note,
  send, quit, BossSrv, Hit, update_hp, sub_hp, tell_php_player_hurt, tell_php_top, top_mails, mails,
  awards, tell_php_act_over, on_hit,
}

-- The lines about rewards: the mails and the lines of the winners.
abbrev pub is_reward : Effect → Bool
is_reward (put (win_line _ _ _ _)) = true
is_reward (put (top_mail _ _ _)) = true
is_reward (put (mail _ _ _)) = true
is_reward (put (boss_elem_line _ _)) = false
is_reward (put (hurt_line _ _ _ _ _)) = false
is_reward (put stop_line) = false
is_reward (broad_msg _) = false
is_reward (send_note _) = false
is_reward (send _) = false
is_reward quit = false

unfoldable pub rewards : List Effect → List Effect
rewards [] = []
rewards (e ∷ es) = if is_reward e then e ∷ rewards es else rewards es

pub rewards-append : (xs ys : List Effect) → rewards (xs ++ ys) ≡ rewards xs ++ rewards ys
unfolding rewards
rewards-append [] ys = refl
rewards-append (x ∷ xs) ys = ground (arith, rewards-append xs ys)

rewards-top_mails :
    (random : ℕ → ℕ) (i : ℕ) (top : List Player)
    → rewards (top_mails random i top) ≡ top_mails random i top
unfolding rewards top_mails
rewards-top_mails random i [] = refl
rewards-top_mails random i (x ∷ xs) = ground (arith, rewards-top_mails random (i + 1) xs)

rewards-tell_php_top :
    (hp : ℤ) (top : List Player) → rewards (tell_php_top hp top) ≡ tell_php_top hp top
unfolding rewards tell_php_top
rewards-tell_php_top hp [] = refl
rewards-tell_php_top hp (x ∷ xs) = ground (arith, rewards-tell_php_top hp xs)

rewards-player_hurt :
    (uid hurt : ℕ) (name : List ℕ) (flag : ℕ) (s : BossSrv)
    → rewards (tell_php_player_hurt uid hurt name flag s) ≡ []
unfolding rewards tell_php_player_hurt
rewards-player_hurt uid hurt name flag s = ground arith

pub rewards-update_hp : (s : BossSrv) → rewards (update_hp s).1 ≡ []
unfolding rewards update_hp
rewards-update_hp s = elim (Bool-cases s.update_flag) [ inl e ↦ rw e | inr e ↦ rw e ]

pub have_award-update_hp : (s : BossSrv) → (update_hp s).0.have_award ≡ s.have_award
unfolding update_hp
have_award-update_hp s = ground arith

module _ (deserves : ℕ → ℤ → Bool) where
  rewards-mails : (hp : ℤ) (m : List (ℕ × ℕ)) → rewards (mails deserves hp m) ≡ mails deserves hp m
  unfolding rewards mails
  rewards-mails hp [] = refl
  rewards-mails hp ((uid, hurt) ∷ rest) = ground (arith, rewards-mails hp rest)

  rewards-awards :
      (random : ℕ → ℕ) (hp : ℤ) (m : HurtMgr)
      → rewards (awards deserves random hp m) ≡ awards deserves random hp m
  unfolding awards
  rewards-awards random hp m =
      simp (rewards-append, rewards-top_mails, rewards-mails, rewards-tell_php_top)

  -- What a call may do about the rewards: nothing, or give them all if they have not been given.
  pub data Gives (s after : BossSrv) (es : List Effect) : Type 0 where
    nothing : after.have_award ≡ s.have_award → rewards es ≡ [] → Gives s after es
    all :
        (random : ℕ → ℕ) (hp : ℤ) (m : HurtMgr)
        → s.have_award ≡ false
        → after.have_award ≡ true
        → rewards es ≡ awards deserves random hp m
        → Gives s after es

  pub tell_php_act_over-Gives :
      (random : ℕ → ℕ) (s : BossSrv)
      → Gives s (tell_php_act_over deserves random s).0 (tell_php_act_over deserves random s).1
  unfolding tell_php_act_over rewards
  tell_php_act_over-Gives random s = elim (Bool-cases s.have_award) [
    | inl e ↦ simp e (nothing refl refl)
    | inr e ↦ simp e (
        all random s.init_boss_hp s.boss_hurt_mgr e refl
          (rewards-awards random s.init_boss_hp s.boss_hurt_mgr))
  ]

  Gives-append :
      {s mid after : BossSrv} (es : List Effect) {fs : List Effect}
      → mid.have_award ≡ s.have_award
      → rewards es ≡ []
      → Gives mid after fs
      → Gives s after (es ++ fs)
  Gives-append es {fs} h n (nothing k o) =
      nothing (k ∙ h) (rewards-append es fs ∙ ap (λ xs. xs ++ rewards fs) n ∙ o)
  Gives-append es {fs} h n (all random hp m before given e) =
      all random hp m (sym h ∙ before) given
        (rewards-append es fs ∙ ap (λ xs. xs ++ rewards fs) n ∙ e)

  pub Gives-then :
      {s mid after : BossSrv} {es : List Effect} (fs : List Effect)
      → after.have_award ≡ mid.have_award
      → rewards fs ≡ []
      → Gives s mid es
      → Gives s after (es ++ fs)
  Gives-then {es} fs h n (nothing k o) =
      nothing (h ∙ k) (rewards-append es fs ∙ ap (λ xs. rewards es ++ xs) n ∙ append-nil _ ∙ o)
  Gives-then {es} fs h n (all random hp m before given e) =
      all random hp m before (h ∙ given)
        (rewards-append es fs ∙ ap (λ xs. rewards es ++ xs) n ∙ append-nil _ ∙ e)

module _ (sort : List Player → List Player) (deserves : ℕ → ℤ → Bool) where
  pub on_hit-Gives :
      (random : ℕ → ℕ) (h : Hit) (s : BossSrv)
      → Gives deserves s (on_hit sort deserves random h s).0 (on_hit sort deserves random h s).1
  unfolding on_hit
  on_hit-Gives random h s = elim (Bool-cases (leb_ℤ hp (pos 0))) [
    | inl dies ↦ rw dies (
        Gives-append deserves {mid = (update_hp hit).0}
          (tell_php_player_hurt h.uid h.hurtvalue h.username h.flag s) (have_award-update_hp hit)
          told
          (Gives-append deserves {mid = record (update_hp hit).0 { boss_hp = pos 0 }}
            (update_hp hit).1 refl (rewards-update_hp hit)
            (tell_php_act_over-Gives deserves random
              (record (update_hp hit).0 { boss_hp = pos 0 }))))
    | inr lives ↦ rw lives (nothing refl told)
  ]
    where
      hp : ℤ
      hp = sub_hp s.boss_hp h.hurtvalue

      hit : BossSrv
      hit = record s {
        boss_hurt_mgr = add_hurt sort h.uid h.hurtvalue h.username s.boss_hurt_mgr;
        boss_hp = hp;
        update_flag = true;
      }

      told : rewards (tell_php_player_hurt h.uid h.hurtvalue h.username h.flag s) ≡ []
      told = rewards-player_hurt h.uid h.hurtvalue h.username h.flag s
