-- ===== src/Game/Buf.antt =====
-- The buffs, game/LoongBgSrv/skill/Buf.cc and its subclasses, how an object runs its list of buffs
-- (BgPlayer.cc, BgFlower.cc), and the handlers that put buffs on, skill/BufHandler.cc.
pub mod Burn
pub mod Apply
mod Tests
use cpp_game_frame.Prelude.{
  ℕ, zero, suc, ◌+◌, ◌-◌, Bool, true, false, not, ◌&&◌, ◌||◌, Option, none, some, List, [], ◌∷◌,
  ◌++◌, ltb, leb, if◌then◌else◌, ◌>>=◌,
}
use cpp_game_frame.Prelude.Int.{ℤ, pos, negsuc, ◌+ℤ◌, ltb_ℤ, leb_ℤ, eqb_ℤ}
use cpp_game_frame.Game.Note.{Note, int, op_remove_buf, op_add_buf}
use cpp_game_frame.Game.Base.{BufBase, param, get_buf_base_info}
use cpp_game_frame.Game.Body.{
  Body, Kind, player, building, flower, can_skill_hurt, on_buf_hurt, is_dead,
}

-- The subclass of a buff: the base class, AddSpeedBuf, HunXuanBuf, MianYiBuf, ZhouShangBuf.
pub data BufKind : Type 0 where
  plain add_speed stun immune burn : BufKind

pub record Buf : Type 0 where
  pub kind : BufKind
  pub buf_id : ℤ
  pub wait_del : Bool
  pub tick_time : ℕ
  pub last_time : ℕ
  pub buffer_time : ℤ

unfoldable pub on_cacl : BufKind → Body → Body
on_cacl stun me = record me { operation = false }
on_cacl immune me = record me { can_skill_hurt_flag = false }
on_cacl _ me = me

unfoldable pub on_delete : BufKind → Body → Body
on_delete stun me = record me { operation = true }
on_delete immune me = record me { can_skill_hurt_flag = true }
on_delete _ me = me

-- A buff at work on an object, with what has been broadcast.
pub record Running : Type 0 where
  pub me : Body
  pub buf : Buf
  pub notes : List Note

burn_tick : List BufBase → Running → Running
burn_tick rows r =
    let base = get_buf_base_info rows r.buf.buf_id in
    let (me, notes) = on_buf_hurt (param base 0) base.id r.me in
    if can_skill_hurt r.me
    then record r { me = me; notes = r.notes ++ notes }
    else record r { buf = record (r.buf) { wait_del = true } }

tick_of : BufKind → List BufBase → Running → Running
unfolding burn_tick
tick_of burn rows r = burn_tick rows r
tick_of _ rows r = r

unfoldable pub on_tick : List BufBase → Running → Running
unfolding tick_of
on_tick rows r = tick_of r.buf.kind rows r

abbrev advance : Buf → Buf
advance b = record b { last_time = b.last_time + b.tick_time }

-- The loop of `Buf::run`; `none` means that the fuel is used up.
pub tick_loop : ℕ → List BufBase → ℕ → Running → Option Running
tick_loop zero rows cur r = none
tick_loop (suc fuel) rows cur r =
    let rest = tick_loop fuel rows cur (on_tick rows (record r { buf = advance r.buf })) in
    if leb (r.buf.tick_time + r.buf.last_time) cur then rest else some r

-- The end of `Buf::run`.
expire : ℕ → Running → Running
unfolding on_delete
expire cur r =
    if ltb_ℤ (pos 0) r.buf.buffer_time && leb_ℤ r.buf.buffer_time (pos cur)
    then record r { me = on_delete r.buf.kind r.me; buf = record (r.buf) { wait_del = true } }
    else r

unfoldable pub run : List BufBase → ℕ → Running → Option Running
unfolding expire
run rows cur r =
    if ltb 0 r.buf.tick_time
    then (do ticked ← tick_loop (suc (cur - r.buf.last_time)) rows cur r; some (expire cur ticked))
    else some (expire cur r)

-- An object that carries buffs: a player or a flower.
pub record Actor : Type 0 where
  pub body : Body
  pub bufs : List Buf

-- The unit type in the packets about buffs.
actor_type : Kind → ℤ
actor_type player = pos 0
actor_type building = pos 0
actor_type flower = pos 3

remove_note : Body → ℤ → Note
unfolding actor_type
remove_note me id = record {
  op = op_remove_buf;
  param = me.unit_id;
  words = int me.unit_id ∷ int (actor_type me.kind) ∷ int id ∷ [];
}

-- The loop of `runBuf` over the list: the buffs that are to go are taken out.
run_bufs : List BufBase → ℕ → Body → List Buf → Option (Body × List Buf × List Note)
unfolding remove_note
run_bufs rows cur me [] = some (me, [], [])
run_bufs rows cur me (b ∷ bs) = do
  r ← run rows cur (record { me = me; buf = b; notes = [] })
  (me', bs', notes) ← run_bufs rows cur r.me bs
  some (
      if r.buf.wait_del
      then (me', bs', r.notes ++ (remove_note me b.buf_id ∷ notes))
      else (me', r.buf ∷ bs', r.notes ++ notes))

-- `runBuf`: the dead run no buffs.
unfoldable pub run_buf : List BufBase → ℕ → Actor → Option (Actor × List Note)
unfolding run_bufs
run_buf rows cur a = if is_dead a.body then some (a, []) else (do
  (me, bs, notes) ← run_bufs rows cur a.body a.bufs
  some (record { body = me; bufs = bs }, notes))

-- `getBuf`: the first buff of an id.
unfoldable pub get_buf : ℤ → List Buf → Option Buf
get_buf id [] = none
get_buf id (b ∷ bs) = if eqb_ℤ b.buf_id id then some b else get_buf id bs

-- `setLastTime` and `setBufferTime` on the first buff of an id.
renew : ℤ → ℕ → ℤ → List Buf → List Buf
renew id cur end [] = []
renew id cur end (b ∷ bs) =
    if eqb_ℤ b.buf_id id
    then record b { last_time = cur; buffer_time = end } ∷ bs
    else b ∷ renew id cur end bs

add_note : Body → ℤ → Note
unfolding actor_type
add_note me id = record {
  op = op_add_buf;
  param = me.unit_id;
  words = int me.unit_id ∷ int (actor_type me.kind) ∷ int id ∷ int me.x ∷ int me.y ∷ [];
}

add_buf_of : Kind → Buf → Actor → Actor × List Note
unfolding add_note
add_buf_of building b a = (a, [])
add_buf_of _ b a = (record a { bufs = a.bufs ++ (b ∷ []) }, add_note a.body b.buf_id ∷ [])

-- `addBuf`; a building takes no buffs.
unfoldable pub add_buf : Buf → Actor → Actor × List Note
unfolding add_buf_of
add_buf b a = add_buf_of a.body.kind b a

tick_time_of : BufKind → ℕ
tick_time_of burn = 1000
tick_time_of _ = 0

-- What the handlers of the four buffs that last do: a buff that is there already is renewed.
put_buf : BufKind → ℤ → ℕ → ℤ → Actor → Actor × List Note
unfolding get_buf renew on_cacl add_buf tick_time_of
put_buf kind id cur end a = elim (get_buf id a.bufs) [
  | none ↦
      add_buf
        (record {
          kind = kind;
          buf_id = id;
          wait_del = false;
          tick_time = tick_time_of kind;
          last_time = cur;
          buffer_time = end;
        })
        (record a { body = on_cacl kind a.body })
  | some _ ↦ (record a { bufs = renew id cur end a.bufs }, [])
]

-- The parameter that holds how long a buff lasts.
abbrev pub seconds_of : BufKind → ℕ
seconds_of burn = 1
seconds_of _ = 0

-- `hunXuanBufHandler`, `zhouShangBufHandler`, `mianYiBufHandler` and `addSpeedBufHandler`, on the
-- object that they put the buff on.
unfoldable pub buf_handler : BufKind → List BufBase → ℤ → ℕ → Actor → Actor × List Note
unfolding put_buf
buf_handler kind rows id cur a =
    put_buf kind id cur (pos cur +ℤ param (get_buf_base_info rows id) (seconds_of kind)) a
