-- ===== src/Game/Body/Hurt.antt =====
-- What damage does to the hit points.
use cpp_game_frame.Prelude.{ℕ, ◌-◌, ◌≤◌, ◌<◌, ◌≡◌, ◌↔◌, refl, ap, ◌≢◌, true, false, arith}
use cpp_game_frame.Prelude.Int.{ℤ, pos, ◌-ℤ◌}
use cpp_game_frame.Game.Body.{
  Body, Kind, player, building, flower, is_dead, cut, dec_hp, can_skill_hurt, can_skill_hurt_of,
  on_hurt, on_buf_hurt, buf_hurt_of,
}

dec_hp-cut :
    (b : Body) (h d : ℕ)
    → b.hp ≡ pos h
    → h < 2147483648
    → (dec_hp (cut b (pos d)) b).hp ≡ pos (h - d)
unfolding dec_hp ◌-ℤ◌
dec_hp-cut b h d e k = ground arith

-- Damage d on h hit points (below 2^31) leaves h - d, and none where d is more; the body is dead
-- exactly when d is at least h; the attacker is told of a kill exactly when a player is dead
-- afterwards.
pub on_hurt_lem :
    (attacker skill kind : ℤ) (d h : ℕ) (b : Body)
    → b.hp ≡ pos h
    → h < 2147483648
    → let (after, notes, killed) = on_hurt attacker (pos d) skill kind b in
      (after.hp ≡ pos (h - d))
      × ((is_dead after ≡ true) ↔ (h ≤ d))
      × ((killed ≡ true) ↔ ((b.kind ≡ player) × (h ≤ d)))
unfolding on_hurt
on_hurt_lem attacker skill kind d h b e k =
    let p = dec_hp-cut b h d e k in
    let dead : (is_dead (dec_hp (cut b (pos d)) b) ≡ true) ↔ (h ≤ d) = ground (arith, p) in
    (p, dead, killed b.kind refl dead)
  where
    killed :
        (who : Kind)
        → b.kind ≡ who
        → ((is_dead (dec_hp (cut b (pos d)) b) ≡ true) ↔ (h ≤ d))
        → (elim who [
          | player ↦ is_dead (dec_hp (cut b (pos d)) b)
          | building ↦ false
          | flower ↦ false
        ]
            ≡ true)
          ↔ ((b.kind ≡ player) × (h ≤ d))
    killed player w dead = (λ t. (w, dead.0 t), λ t. dead.1 t.1)
    killed building w dead = (λ t. cc, λ t. cc)
    killed flower w dead = (λ t. cc, λ t. cc)

-- Damage by a buff on a player or a flower: the hit points fall by it and stop at none, and nothing
-- else of the body changes.
pub on_buf_hurt_lem :
    (id : ℤ) (d h : ℕ) (b : Body)
    → b.kind ≢ building
    → b.hp ≡ pos h
    → h < 2147483648
    → (on_buf_hurt (pos d) id b).0 ≡ record b { hp = pos (h - d) }
unfolding on_buf_hurt buf_hurt_of dec_hp
on_buf_hurt_lem id d h b n e k = left b.kind n
  where
    left :
        (who : Kind)
        → who ≢ building
        → (buf_hurt_of who (pos d) id b).0 ≡ record b { hp = pos (h - d) }
    left player w = ap (λ x. record b { hp = x }) (dec_hp-cut b h d e k)
    left building w = absurd (w refl)
    left flower w = ap (λ x. record b { hp = x }) (dec_hp-cut b h d e k)

-- Being open to damage does not depend on the hit points.
pub open_still : (b : Body) (h : ℤ) → can_skill_hurt (record b { hp = h }) ≡ can_skill_hurt b
unfolding can_skill_hurt can_skill_hurt_of
open_still b h = go b.kind
  where
    go : (who : Kind) → can_skill_hurt_of who (record b { hp = h }) ≡ can_skill_hurt_of who b
    go player = refl
    go building = refl
    go flower = refl

-- Being hurt does not change who it is.
pub unit_id-on_hurt :
    (attacker d id kind : ℤ) (b : Body) → (on_hurt attacker d id kind b).0.unit_id ≡ b.unit_id
unfolding on_hurt dec_hp
unit_id-on_hurt attacker d id kind b = refl

pub unit_id-on_buf_hurt : (d id : ℤ) (b : Body) → (on_buf_hurt d id b).0.unit_id ≡ b.unit_id
unfolding on_buf_hurt buf_hurt_of dec_hp
unit_id-on_buf_hurt d id b = go b.kind
  where
    go : (k : Kind) → (buf_hurt_of k d id b).0.unit_id ≡ b.unit_id
    go building = refl
    go player = refl
    go flower = refl

pub only_hp-on_buf_hurt :
    (d id : ℤ) (b : Body) → (h : ℤ) × ((on_buf_hurt d id b).0 ≡ record b { hp = h })
unfolding on_buf_hurt buf_hurt_of dec_hp
only_hp-on_buf_hurt d id b = go b.kind
  where
    go : (k : Kind) → (h : ℤ) × ((buf_hurt_of k d id b).0 ≡ record b { hp = h })
    go building = (_, refl)
    go player = (_, refl)
    go flower = (_, refl)
