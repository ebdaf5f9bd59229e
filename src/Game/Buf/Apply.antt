-- ===== src/Game/Buf/Apply.antt =====
-- Putting a buff on an object, and what getBuf finds afterwards.
use cpp_game_frame.Prelude.{
  ap, ℕ, suc, ◌≤◌, ◌≡◌, ◌≢◌, refl, sym, ◌∙◌, inl, inr, true, false, none, some, Option-cases, List,
  [], ◌∷◌, ◌++◌, arith, if◌then◌else◌,
}
use cpp_game_frame.Prelude.Int.{ℤ, pos, ◌+ℤ◌, eqb_ℤ}
use cpp_game_frame.Game.Base.{BufBase, param, get_buf_base_info}
use cpp_game_frame.Game.Body.{Body, Kind, player, building, flower}
use cpp_game_frame.Game.Buf.{
  Buf, BufKind, plain, add_speed, stun, immune, burn, Actor, get_buf, renew, put_buf, add_buf,
  add_buf_of, on_cacl, seconds_of, tick_time_of, buf_handler,
}

-- How many buffs of an id there are.
abbrev pub copies : ℤ → List Buf → ℕ
copies id [] = 0
copies id (b ∷ bs) = let rest = copies id bs in if eqb_ℤ b.buf_id id then suc rest else rest

get_buf-append_new :
    (id : ℤ) (bs : List Buf) (b : Buf)
    → get_buf id bs ≡ none
    → eqb_ℤ b.buf_id id ≡ true
    → get_buf id (bs ++ (b ∷ [])) ≡ some b
unfolding get_buf
get_buf-append_new id [] b h e = ground arith
get_buf-append_new id (x ∷ xs) b h e = ground (arith, get_buf-append_new id xs b)

get_buf-append_other :
    (j : ℤ) (bs : List Buf) (b : Buf)
    → eqb_ℤ b.buf_id j ≡ false
    → get_buf j (bs ++ (b ∷ [])) ≡ get_buf j bs
unfolding get_buf
get_buf-append_other j [] b e = ground arith
get_buf-append_other j (x ∷ xs) b e = ground (arith, get_buf-append_other j xs b e)

copies-append :
    (j : ℤ) (bs : List Buf) (b : Buf)
    → copies j (bs ++ (b ∷ [])) ≡ (if eqb_ℤ b.buf_id j then suc (copies j bs) else copies j bs)
copies-append j [] b = ground arith
copies-append j (x ∷ xs) b = ground (arith, copies-append j xs b)

copies-get_buf : (id : ℤ) (bs : List Buf) → get_buf id bs ≡ none → copies id bs ≡ 0
unfolding get_buf
copies-get_buf id [] h = refl
copies-get_buf id (x ∷ xs) h = ground (arith, copies-get_buf id xs)

get_buf-renew :
    (id end : ℤ) (cur : ℕ) (bs : List Buf) (b : Buf)
    → get_buf id bs ≡ some b
    → get_buf id (renew id cur end bs) ≡ some (record b { last_time = cur; buffer_time = end })
unfolding get_buf renew
get_buf-renew id end cur [] b h = cc
get_buf-renew id end cur (x ∷ xs) b h = ground (arith, get_buf-renew id end cur xs b)

get_buf-renew_other :
    (id j end : ℤ) (cur : ℕ) (bs : List Buf)
    → eqb_ℤ id j ≡ false
    → get_buf j (renew id cur end bs) ≡ get_buf j bs
unfolding get_buf renew
get_buf-renew_other id j end cur [] h = refl
get_buf-renew_other id j end cur (x ∷ xs) h = ground (arith, get_buf-renew_other id j end cur xs h)

copies-renew :
    (id j end : ℤ) (cur : ℕ) (bs : List Buf) → copies j (renew id cur end bs) ≡ copies j bs
unfolding renew
copies-renew id j end cur [] = refl
copies-renew id j end cur (x ∷ xs) = ground (arith, copies-renew id j end cur xs)

on_cacl-kind : (k : BufKind) (b : Body) → (on_cacl k b).kind ≡ b.kind
unfolding on_cacl
on_cacl-kind plain b = refl
on_cacl-kind add_speed b = refl
on_cacl-kind stun b = refl
on_cacl-kind immune b = refl
on_cacl-kind burn b = refl

add_buf-bufs :
    (b : Buf) (a : Actor) → a.body.kind ≢ building → (add_buf b a).0.bufs ≡ a.bufs ++ (b ∷ [])
unfolding add_buf add_buf_of
add_buf-bufs b a n = go a.body.kind n
  where
    go : (k : Kind) → k ≢ building → (add_buf_of k b a).0.bufs ≡ a.bufs ++ (b ∷ [])
    go player m = refl
    go building m = absurd (m refl)
    go flower m = refl

abbrev fresh : BufKind → ℤ → ℕ → ℤ → Buf
unfolding tick_time_of
fresh kind id cur end = record {
  kind = kind;
  buf_id = id;
  wait_del = false;
  tick_time = tick_time_of kind;
  last_time = cur;
  buffer_time = end;
}

put_buf-new :
    (kind : BufKind) (id : ℤ) (cur : ℕ) (end : ℤ) (a : Actor)
    → a.body.kind ≢ building
    → get_buf id a.bufs ≡ none
    → (put_buf kind id cur end a).0.bufs ≡ a.bufs ++ (fresh kind id cur end ∷ [])
unfolding put_buf fresh
put_buf-new kind id cur end a n h =
    rw (put_buf, h)
      (add_buf-bufs (fresh kind id cur end) (record a { body = on_cacl kind a.body })
        (λ q. n (sym (on_cacl-kind kind a.body) ∙ q)))

put_buf-there :
    (kind : BufKind) (id : ℤ) (cur : ℕ) (end : ℤ) (a : Actor) (b : Buf)
    → get_buf id a.bufs ≡ some b
    → (put_buf kind id cur end a).0.bufs ≡ renew id cur end a.bufs
unfolding put_buf
put_buf-there kind id cur end a b h = rw (put_buf, h) refl

copies-some : (id : ℤ) (bs : List Buf) (b : Buf) → get_buf id bs ≡ some b → 1 ≤ copies id bs
unfolding get_buf
copies-some id [] b h = cc
copies-some id (x ∷ xs) b h = ground (arith, copies-some id xs b)

eqb_self : (id : ℤ) → eqb_ℤ id id ≡ true
eqb_self id = ground arith

-- The handler of a lasting buff, on a player or flower that has the buff at most once: afterwards
-- it has it exactly once, getBuf finds it, started at cur and lasting for the time in the table,
-- and every other buff is found as before and held as often as before.
pub buf_handler_lem :
    (kind : BufKind) (rows : List BufBase) (id : ℤ) (cur : ℕ) (a : Actor)
    → a.body.kind ≢ building
    → copies id a.bufs ≤ 1
    → let after = (buf_handler kind rows id cur a).0.bufs in
      ((b : Buf) × (get_buf id after ≡ some b)
        × (b.last_time ≡ cur)
        × (b.buffer_time ≡ pos cur +ℤ param (get_buf_base_info rows id) (seconds_of kind)))
      × (copies id after ≡ 1)
      × ((j : ℤ)
          → eqb_ℤ id j ≡ false
          → (get_buf j after ≡ get_buf j a.bufs) × (copies j after ≡ copies j a.bufs))
unfolding buf_handler
buf_handler_lem kind rows id cur a n once =
    let end = pos cur +ℤ param (get_buf_base_info rows id) (seconds_of kind) in
    let same = eqb_self id in
    elim (Option-cases (get_buf id a.bufs)) [
      | inl h ↦
          let new = fresh kind id cur end in
          let none_yet = copies-get_buf id a.bufs h in
          let count = copies-append id a.bufs new in
          rw (put_buf-new kind id cur end a n h) (
            (new, get_buf-append_new id a.bufs new h same, refl, refl),
            ground (arith, count, none_yet),
            λ j m. (get_buf-append_other j a.bufs new m, copies-append j a.bufs new ∙ rw m refl),
          )
      | inr (b, h) ↦ rw (put_buf-there kind id cur end a b h) (
        (
          record b { last_time = cur; buffer_time = end },
          get_buf-renew id end cur a.bufs b h,
          refl,
          refl,
        ),
        omega (arith, copies-renew id id end cur a.bufs, copies-some id a.bufs b h),
        λ j m. (get_buf-renew_other id j end cur a.bufs m, copies-renew id j end cur a.bufs),
      )
    ]

-- Who it is does not change.
add_buf-body : (b : Buf) (a : Actor) → (add_buf b a).0.body ≡ a.body
unfolding add_buf add_buf_of
add_buf-body b a = go a.body.kind
  where
    go : (k : Kind) → (add_buf_of k b a).0.body ≡ a.body
    go building = refl
    go player = refl
    go flower = refl

pub unit_id-on_cacl : (k : BufKind) (b : Body) → (on_cacl k b).unit_id ≡ b.unit_id
unfolding on_cacl
unit_id-on_cacl stun b = refl
unit_id-on_cacl immune b = refl
unit_id-on_cacl _ b = refl

pub hp-on_cacl : (k : BufKind) (b : Body) → (on_cacl k b).hp ≡ b.hp
unfolding on_cacl
hp-on_cacl stun b = refl
hp-on_cacl immune b = refl
hp-on_cacl _ b = refl

pub team-on_cacl : (k : BufKind) (b : Body) → (on_cacl k b).team ≡ b.team
unfolding on_cacl
team-on_cacl stun b = refl
team-on_cacl immune b = refl
team-on_cacl _ b = refl

-- What a buff that begins leaves alone, putting it on leaves alone.
put_buf-keeps {ℓ} :
    {A : Type ℓ} (v : Body → A) (h : (k : BufKind) (b : Body) → v (on_cacl k b) ≡ v b)
    (kind : BufKind) (id : ℤ) (cur : ℕ) (end : ℤ) (a : Actor)
    → v (put_buf kind id cur end a).0.body ≡ v a.body
unfolding put_buf
put_buf-keeps v h kind id cur end a = elim (Option-cases (get_buf id a.bufs)) [
  | inl n ↦ rw (n, put_buf) (ap v (add_buf-body _ _) ∙ h kind a.body)
  | inr (b, e) ↦ rw (e, put_buf) refl
]

pub buf_handler-keeps {ℓ} :
    {A : Type ℓ} (v : Body → A) (h : (k : BufKind) (b : Body) → v (on_cacl k b) ≡ v b)
    (kind : BufKind) (rows : List BufBase) (id : ℤ) (cur : ℕ) (a : Actor)
    → v (buf_handler kind rows id cur a).0.body ≡ v a.body
unfolding buf_handler
buf_handler-keeps v h kind rows id cur a = put_buf-keeps v h kind id cur _ a
