-- ===== src/Game/Buf/Burn.antt =====
-- `Buf::run` ends, and how often a buff ticks.
use cpp_game_frame.Prelude.{
  ℕ, zero, suc, ◌+◌, ◌-◌, ◌*◌, ◌/◌, ◌≤◌, ◌<◌, ◌≡◌, ◌≢◌, refl, sym, ap, ◌∙◌, inl, inr, ◌&&◌, true,
  Bool-cases, some, List, [], ◌∷◌, ◌++◌, ltb, leb, ltb→lt, leb→le, arith, if◌then◌else◌,
}
use cpp_game_frame.Prelude.Int.{pos, leb_ℤ, ltb_ℤ}
use cpp_game_frame.Game.Note.{Note}
use cpp_game_frame.Game.Base.{BufBase, param, get_buf_base_info}
use cpp_game_frame.Game.Body.{Body, building, is_dead, can_skill_hurt}
use cpp_game_frame.Game.Body.Hurt.{on_buf_hurt_lem, open_still}
use cpp_game_frame.Game.Buf.{
  Buf, BufKind, plain, add_speed, stun, immune, burn, Running, Actor, on_tick, tick_loop, on_delete,
  expire, advance, tick_of, burn_tick, run, remove_note, run_bufs, run_buf,
}

-- A tick leaves the times of the buff alone.
tick_times :
    (rows : List BufBase) (r : Running)
    → ((on_tick rows r).buf.tick_time ≡ r.buf.tick_time)
      × ((on_tick rows r).buf.last_time ≡ r.buf.last_time)
unfolding on_tick tick_of burn_tick
tick_times rows r = kept r.buf.kind
  where
    kept :
        (k : BufKind)
        → ((tick_of k rows r).buf.tick_time ≡ r.buf.tick_time)
          × ((tick_of k rows r).buf.last_time ≡ r.buf.last_time)
    kept plain = (refl, refl)
    kept add_speed = (refl, refl)
    kept stun = (refl, refl)
    kept immune = (refl, refl)
    kept burn = ground arith

tick_loop_ends :
    (fuel : ℕ) (rows : List BufBase) (cur : ℕ) (r : Running)
    → 0 < r.buf.tick_time
    → cur - r.buf.last_time < fuel
    → (s : Running) × (tick_loop fuel rows cur r ≡ some s)
      × (cur < s.buf.last_time + r.buf.tick_time)
unfolding tick_loop
tick_loop_ends zero rows cur r h k = absurd (omega arith)
tick_loop_ends (suc fuel) rows cur r h k =
    let next = on_tick rows (record r { buf = advance r.buf }) in
    let (tick, last) = tick_times rows (record r { buf = advance r.buf }) in
    elim (Bool-cases (leb (r.buf.tick_time + r.buf.last_time) cur)) [
      | inl more ↦
          let le = leb→le (r.buf.tick_time + r.buf.last_time) cur more in
          let (s, e, l) =
            tick_loop_ends fuel rows cur next (omega (arith, tick)) (omega (arith, tick, last)) in
          (s, rw more e, omega (arith, tick, l))
      | inr done ↦ (r, rw done refl, ground arith)
    ]

-- Running a buff always ends, whatever its times are.
pub run_total :
    (rows : List BufBase) (cur : ℕ) (r : Running) → (s : Running) × (run rows cur r ≡ some s)
unfolding run
run_total rows cur r = elim (Bool-cases (ltb 0 r.buf.tick_time)) [
  | inl ticks ↦
      let (s, e, l) =
        tick_loop_ends (suc (cur - r.buf.last_time)) rows cur r (ltb→lt 0 r.buf.tick_time ticks)
          (omega arith) in
      (expire cur s, rw (ticks, e) refl)
  | inr still ↦ (expire cur r, rw still refl)
]

-- A tick of the burn on what can be hurt takes the damage and leaves the buff as it is.
tick_hurts :
    (rows : List BufBase) (r : Running) (d h : ℕ)
    → r.buf.kind ≡ burn
    → param (get_buf_base_info rows r.buf.buf_id) 0 ≡ pos d
    → r.me.kind ≢ building
    → can_skill_hurt r.me ≡ true
    → r.me.hp ≡ pos h
    → h < 2147483648
    → ((on_tick rows r).me ≡ record (r.me) { hp = pos (h - d) }) × ((on_tick rows r).buf ≡ r.buf)
unfolding on_tick tick_of burn_tick
tick_hurts rows r d h kind p n can e k =
    let hurt = on_buf_hurt_lem (get_buf_base_info rows r.buf.buf_id).id d h r.me n e k in
    rw (kind, can, p) (hurt, refl)

more_hurt : (h d ticks : ℕ) → h - d - ticks * d ≡ h - suc ticks * d
more_hurt h d ticks = omega arith

burns :
    (fuel : ℕ) (rows : List BufBase) (cur d h : ℕ) (r : Running)
    → r.buf.kind ≡ burn
    → param (get_buf_base_info rows r.buf.buf_id) 0 ≡ pos d
    → r.me.kind ≢ building
    → can_skill_hurt r.me ≡ true
    → r.me.hp ≡ pos h
    → h < 2147483648
    → r.buf.tick_time ≡ 1000
    → r.buf.last_time ≤ cur
    → cur - r.buf.last_time < fuel
    → (s : Running) × (ticks : ℕ) × (tick_loop fuel rows cur r ≡ some s)
      × (s.me ≡ record (r.me) { hp = pos (h - ticks * d) })
      × (s.buf ≡ record (r.buf) { last_time = r.buf.last_time + 1000 * ticks })
      × (s.buf.last_time ≤ cur)
      × (cur < s.buf.last_time + 1000)
unfolding tick_loop
burns zero rows cur d h r kind p n can e k t l f = absurd (omega arith)
burns (suc fuel) rows cur d h r kind p n can e k t l f =
    elim (Bool-cases (leb (r.buf.tick_time + r.buf.last_time) cur)) [
      | inl more ↦
          let le = leb→le (r.buf.tick_time + r.buf.last_time) cur more in
          let r' = record r { buf = advance r.buf } in
          let (me, buf) = tick_hurts rows r' d h kind p n can e k in
          let next = on_tick rows r' in
          let (s, ticks, eq, me', buf', lo, hi) =
            burns fuel rows cur d (h - d) next (ap (λ b. b.kind) buf ∙ kind)
              (ap (λ b. param (get_buf_base_info rows b.buf_id) 0) buf ∙ p)
              (λ q. n (sym (ap (λ b. b.kind) me) ∙ q))
              (ap can_skill_hurt me ∙ open_still r.me (pos (h - d)) ∙ can) (ap (λ b. b.hp) me)
              (omega arith) (ap (λ b. b.tick_time) buf ∙ t) (rw buf (omega arith))
              (rw buf (omega arith)) in
          (
            s,
            suc ticks,
            rw more eq,
            me'
                ∙ ap {A = Body} (λ b. record b { hp = pos (h - d - ticks * d) }) me
                ∙ ap (λ x. record (r.me) { hp = pos x }) (more_hurt h d ticks),
            buf'
                ∙ ap {A = Buf} (λ b. record b { last_time = b.last_time + 1000 * ticks }) buf
                ∙ ap (λ x. record (r.buf) { last_time = x }) (omega (arith, t)),
            lo,
            hi,
          )
      | inr done ↦ (
        r,
        0,
        rw done refl,
        ap (λ x. record (r.me) { hp = x }) (e ∙ ap pos (omega arith)),
        ap (λ x. record (r.buf) { last_time = x }) (omega arith),
        l,
        ground arith,
      )
    ]

-- The end of a burn leaves the object and the time of the last tick as they are.
expire-burn :
    (cur : ℕ) (s : Running)
    → s.buf.kind ≡ burn
    → ((expire cur s).me ≡ s.me) × ((expire cur s).buf.last_time ≡ s.buf.last_time)
unfolding expire on_delete
expire-burn cur s kind =
    elim (Bool-cases (ltb_ℤ (pos 0) s.buf.buffer_time && leb_ℤ s.buf.buffer_time (pos cur))) [
      | inl over ↦ rw (over, kind) (refl, refl)
      | inr still ↦ rw still (refl, refl)
    ]

-- A burn with a tick of a second that is due for the time cur: on a player or flower that can be
-- hurt and has h hit points (below 2^31), run ends, takes the damage d of the table once for every
-- whole second since the last tick, down to none and no further, and moves the time of the last
-- tick on by those seconds.
pub run_burns :
    (rows : List BufBase) (cur d h : ℕ) (r : Running)
    → r.buf.kind ≡ burn
    → param (get_buf_base_info rows r.buf.buf_id) 0 ≡ pos d
    → r.me.kind ≢ building
    → can_skill_hurt r.me ≡ true
    → r.me.hp ≡ pos h
    → h < 2147483648
    → r.buf.tick_time ≡ 1000
    → r.buf.last_time ≤ cur
    → let ticks = (cur - r.buf.last_time) / 1000 in
      (s : Running) × (run rows cur r ≡ some s)
      × (s.me ≡ record (r.me) { hp = pos (h - ticks * d) })
      × (s.buf.last_time ≡ r.buf.last_time + 1000 * ticks)
unfolding run
run_burns rows cur d h r kind p n can e k t l =
    let (s, ticks, eq, me, buf, lo, hi) =
      burns (suc (cur - r.buf.last_time)) rows cur d h r kind p n can e k t l (omega arith) in
    let count : ticks ≡ (cur - r.buf.last_time) / 1000 = omega (arith, ap (λ b. b.last_time) buf) in
    let (same, last) = expire-burn cur s (ap (λ b. b.kind) buf ∙ kind) in
    let ticking : ltb 0 r.buf.tick_time ≡ true = ground (arith, t) in
    (
      expire cur s,
      rw (ticking, eq) refl,
      same ∙ me ∙ ap (λ x. record (r.me) { hp = pos (h - x * d) }) count,
      last ∙ ap (λ b. b.last_time) buf ∙ ap (λ x. r.buf.last_time + 1000 * x) count,
    )

run_bufs_total :
    (rows : List BufBase) (cur : ℕ) (me : Body) (bs : List Buf)
    → (out : Body × List Buf × List Note) × (run_bufs rows cur me bs ≡ some out)
unfolding run_bufs
run_bufs_total rows cur me [] = ((me, [], []), refl)
run_bufs_total rows cur me (b ∷ bs) =
    let (r, e) = run_total rows cur (record { me = me; buf = b; notes = [] }) in
    let (out, e') = run_bufs_total rows cur r.me bs in (kept r out, rw (e, e') refl)
  where
    kept : Running → Body × List Buf × List Note → Body × List Buf × List Note
    kept r out =
        if r.buf.wait_del
        then (out.0, out.1, r.notes ++ (remove_note me b.buf_id ∷ out.2))
        else (out.0, r.buf ∷ out.1, r.notes ++ out.2)

-- Whatever its buffs and their times are, an object always gets through its list of buffs.
pub run_buf_total :
    (rows : List BufBase) (cur : ℕ) (a : Actor)
    → (out : Actor × List Note) × (run_buf rows cur a ≡ some out)
unfolding run_buf
run_buf_total rows cur a = elim (Bool-cases (is_dead a.body)) [
  | inl dead ↦ ((a, []), rw dead refl)
  | inr alive ↦
      let (out, e) = run_bufs_total rows cur a.body a.bufs in
      ((record { body = out.0; bufs = out.1 }, out.2), rw (alive, e) refl)
]
