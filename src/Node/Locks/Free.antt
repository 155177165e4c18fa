-- ===== src/Node/Locks/Free.antt =====
-- A shared mutex that lets readers in while a writer waits.
use vimbax_ros2_driver.Common.{
  ℕ, zero, suc, ◌+◌, ◌≤◌, ◌≡◌, refl, Bool, true, false, none, some, List, [], ◌∷◌, length, arith,
  ap, Option-cases, inl, inr, ◌⊎◌,
}
use vimbax_ros2_driver.Node.Locks.{
  Locks, StreamHandler, outside, entered, waiting, within, back, Writer, away, asking, inside, Turn,
  enter, call, lock_both, unlock_both, leave, graph_lock, graph_unlock, other_enter, other_leave,
  ask, write, finish, take_turn, take_turns, may_share, unlocked, call_at, lock_both_at,
  unlock_both_at, leave_at, graph_unlock_at, other_leave_at, write_at, finish_at,
}
use vimbax_ros2_driver.Node.Locks.Sound.{Sound, take_turns-Sound, unlocked-Sound, held_by}

-- A turn that goes on with what its thread has begun.
abbrev pub Working : Turn → Type 0
Working enter = ⊥
Working graph_lock = ⊥
Working other_enter = ⊥
Working ask = ⊥
Working u = Unit {0}

abbrev pub AllWorking : List Turn → Type 0
AllWorking [] = Unit {0}
AllWorking (u ∷ us) = Working u × AllWorking us

-- The turns that are left to those who have begun.
abbrev handler_work : StreamHandler → ℕ
handler_work outside = 0
handler_work back = 1
handler_work within = 2
handler_work waiting = 3
handler_work entered = 4

abbrev writer_work : Writer → ℕ
writer_work away = 0
writer_work inside = 1
writer_work asking = 2

abbrev pub work : Locks → ℕ
work s = handler_work s.handler + held_by s.graph + s.others + writer_work s.writer

abbrev pub Idle : Locks → Type 0
Idle s = (s.handler ≡ outside) × (s.graph ≡ false) × (s.others ≡ 0) × (s.writer ≡ away)

abbrev pub GoesOn : Locks → Type 0
GoesOn s = (u : Turn) × (t : Locks) × Working u × (take_turn false u s ≡ some t)

moves : (u : Turn) (s : Locks) → Working u → (take_turn false u s ≡ none → ⊥) → GoesOn s
moves u s w n = elim (Option-cases (take_turn false u s)) [
  | inl e ↦ absurd (n e)
  | inr (t, e) ↦ (u, t, w, e)
]

writer_moves :
    (w : Writer) (s : Locks)
    → s.writer ≡ w
    → s.handler ≡ outside
    → s.graph ≡ false
    → s.others ≡ 0
    → Sound s
    → Idle s ⊎ GoesOn s
unfolding take_turn
writer_moves away s e h g o v = inl (h, g, o, e)
writer_moves asking s e h g o v = inr (moves write s tt (λ n. ground arith))
writer_moves inside s e h g o v = inr (moves finish s tt (λ n. ground arith))

others_move :
    (n : ℕ) (s : Locks)
    → s.others ≡ n
    → s.handler ≡ outside
    → s.graph ≡ false
    → Sound s
    → Idle s ⊎ GoesOn s
unfolding take_turn
others_move zero s e h g v = writer_moves s.writer s refl h g e v
others_move (suc n) s e h g v = inr (moves other_leave s tt (λ r. ground arith))

graph_moves :
    (g : Bool) (s : Locks) → s.graph ≡ g → s.handler ≡ outside → Sound s → Idle s ⊎ GoesOn s
unfolding take_turn
graph_moves true s e h v = inr (moves graph_unlock s tt (λ r. ground arith))
graph_moves false s e h v = others_move s.others s refl h e v

waiting_moves : (g : Bool) (s : Locks) → s.graph ≡ g → s.handler ≡ waiting → Sound s → GoesOn s
unfolding take_turn may_share
waiting_moves true s e h v = moves graph_unlock s tt (λ r. ground arith)
waiting_moves false s e h v = moves lock_both s tt (λ r. ground arith)

handler_moves : (h : StreamHandler) (s : Locks) → s.handler ≡ h → Sound s → Idle s ⊎ GoesOn s
unfolding take_turn
handler_moves outside s e v = graph_moves s.graph s refl e v
handler_moves entered s e v = inr (moves call s tt (λ r. ground arith))
handler_moves waiting s e v = inr (waiting_moves s.graph s refl e v)
handler_moves within s e v = inr (moves unlock_both s tt (λ r. ground arith))
handler_moves back s e v = inr (moves leave s tt (λ r. ground arith))

abbrev Less : Locks → Locks → Type 0
Less s t = suc (work t) ≤ work s

handler_work_falls :
    (h : StreamHandler) (s t : Locks)
    → s.handler ≡ h
    → (call_at h s ≡ some t → Less s t)
      × (lock_both_at false h s ≡ some t → Less s t)
      × (unlock_both_at h s ≡ some t → Less s t)
      × (leave_at h s ≡ some t → Less s t)
unfolding may_share
handler_work_falls outside s t e =
    ((λ r. ground arith), (λ r. ground arith), (λ r. ground arith), (λ r. ground arith))
handler_work_falls entered s t e =
    ((λ r. ground arith), (λ r. ground arith), (λ r. ground arith), (λ r. ground arith))
handler_work_falls waiting s t e =
    ((λ r. ground arith), (λ r. ground arith), (λ r. ground arith), (λ r. ground arith))
handler_work_falls within s t e =
    ((λ r. ground arith), (λ r. ground arith), (λ r. ground arith), (λ r. ground arith))
handler_work_falls back s t e =
    ((λ r. ground arith), (λ r. ground arith), (λ r. ground arith), (λ r. ground arith))

graph_work_falls : (g : Bool) (s t : Locks) → s.graph ≡ g → graph_unlock_at g s ≡ some t → Less s t
graph_work_falls true s t e r = ground arith
graph_work_falls false s t e r = ground arith

others_work_falls : (n : ℕ) (s t : Locks) → s.others ≡ n → other_leave_at n s ≡ some t → Less s t
others_work_falls zero s t e r = ground arith
others_work_falls (suc n) s t e r = ground arith

writer_work_falls :
    (w : Writer) (s t : Locks)
    → s.writer ≡ w
    → (write_at w s ≡ some t → Less s t) × (finish_at w s ≡ some t → Less s t)
writer_work_falls away s t e = ((λ r. ground arith), (λ r. ground arith))
writer_work_falls asking s t e = ((λ r. ground arith), (λ r. ground arith))
writer_work_falls inside s t e = ((λ r. ground arith), (λ r. ground arith))

work_falls : (u : Turn) (s t : Locks) → Working u → take_turn false u s ≡ some t → Less s t
unfolding take_turn
work_falls enter s t w r = absurd w
work_falls call s t w r = (handler_work_falls s.handler s t refl).0 r
work_falls lock_both s t w r = (handler_work_falls s.handler s t refl).1 r
work_falls unlock_both s t w r = (handler_work_falls s.handler s t refl).2 r
work_falls leave s t w r = (handler_work_falls s.handler s t refl).3 r
work_falls graph_lock s t w r = absurd w
work_falls graph_unlock s t w r = graph_work_falls s.graph s t refl r
work_falls other_enter s t w r = absurd w
work_falls other_leave s t w r = others_work_falls s.others s t refl r
work_falls ask s t w r = absurd w
work_falls write s t w r = (writer_work_falls s.writer s t refl).0 r
work_falls finish s t w r = (writer_work_falls s.writer s t refl).1 r

run_work :
    (us : List Turn) (s t : Locks)
    → AllWorking us
    → take_turns false us s ≡ some t
    → length us + work t ≤ work s
unfolding take_turns
run_work [] s t w r = let e : s ≡ t = ground arith in omega (arith, ap work e)
run_work (u ∷ us) s t w r = elim (Option-cases (take_turn false u s)) [
  | inl e ↦ absurd (ground arith)
  | inr (s', e) ↦ omega (arith, run_work us s' t w.1 (ground arith), work_falls u s s' w.0 e)
]

-- With a shared mutex that lets readers in while a writer waits: from wherever the threads have got to,
-- if each only goes on with what it has begun, they make no more turns than are left to them, and until
-- all have done it, one of them can move.
pub locks-GoesOn :
    (before after : List Turn) (s t : Locks)
    → take_turns false before unlocked ≡ some s
    → AllWorking after
    → take_turns false after s ≡ some t
    → (length after ≤ work s) × (Idle t ⊎ GoesOn t)
locks-GoesOn before after s t b w a =
    let v = take_turns-Sound false before unlocked s unlocked-Sound b in
    (
      omega (arith, run_work after s t w a),
      handler_moves t.handler t refl (take_turns-Sound false after s t v a),
    )
