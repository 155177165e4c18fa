-- ===== src/Node/Locks/Stuck.antt =====
-- A shared mutex that lets no reader in while a writer waits.
use vimbax_ros2_driver.Common.{
  ℕ, zero, suc, ◌≡◌, Bool, true, false, some, List, [], ◌∷◌, arith, Option-cases, inl, inr,
}
use vimbax_ros2_driver.Node.Locks.{
  Locks, waiting, asking, Turn, enter, call, lock_both, unlock_both, leave, graph_lock,
  graph_unlock, other_enter, other_leave, ask, write, finish, take_turn, take_turns, may_share,
  unlocked, graph_unlock_at, other_leave_at,
}
use vimbax_ros2_driver.Node.Locks.Sound.{Sound, take_turn-Sound, take_turns-Sound, unlocked-Sound}

-- The handler waits for its second shared lock, and a writer for the handler's first.
abbrev pub Deadlocked : Locks → Type 0
Deadlocked s = (s.handler ≡ waiting) × (s.writer ≡ asking)

graph_unlock_at-Deadlocked :
    (g : Bool) (s t : Locks) → Deadlocked s → graph_unlock_at g s ≡ some t → Deadlocked t
graph_unlock_at-Deadlocked true s t d r = ground arith
graph_unlock_at-Deadlocked false s t d r = ground arith

other_leave_at-Deadlocked :
    (n : ℕ) (s t : Locks) → Deadlocked s → other_leave_at n s ≡ some t → Deadlocked t
other_leave_at-Deadlocked zero s t d r = ground arith
other_leave_at-Deadlocked (suc n) s t d r = ground arith

take_turn-Deadlocked :
    (u : Turn) (s t : Locks) → Sound s → Deadlocked s → take_turn true u s ≡ some t → Deadlocked t
unfolding take_turn may_share
take_turn-Deadlocked enter s t v d r = ground arith
take_turn-Deadlocked call s t v d r = ground arith
take_turn-Deadlocked lock_both s t v d r = ground arith
take_turn-Deadlocked unlock_both s t v d r = ground arith
take_turn-Deadlocked leave s t v d r = ground arith
take_turn-Deadlocked graph_lock s t v d r = ground arith
take_turn-Deadlocked graph_unlock s t v d r = graph_unlock_at-Deadlocked s.graph s t d r
take_turn-Deadlocked other_enter s t v d r = ground arith
take_turn-Deadlocked other_leave s t v d r = other_leave_at-Deadlocked s.others s t d r
take_turn-Deadlocked ask s t v d r = ground arith
take_turn-Deadlocked write s t v d r = ground arith
take_turn-Deadlocked finish s t v d r = ground arith

take_turns-Deadlocked :
    (ts : List Turn) (s t : Locks)
    → Sound s
    → Deadlocked s
    → take_turns true ts s ≡ some t
    → Deadlocked t
unfolding take_turns
take_turns-Deadlocked [] s t v d r = ground arith
take_turns-Deadlocked (u ∷ ts) s t v d r = elim (Option-cases (take_turn true u s)) [
  | inl e ↦ absurd (ground arith)
  | inr (s', e) ↦
      take_turns-Deadlocked ts s' t (take_turn-Sound true u s s' v e)
        (take_turn-Deadlocked u s s' v d e) (ground arith)
]

-- With a shared mutex that lets no reader in while a writer waits: once the handler of a stream service
-- waits for its second shared lock while a notice that the camera is lost, or a thread that opens it,
-- waits for the mutex alone, it does so for ever, and so does the handler, whatever the others do.
pub stream_service-deadlocks :
    (before after : List Turn) (s t : Locks)
    → take_turns true before unlocked ≡ some s
    → s.handler ≡ waiting
    → s.writer ≡ asking
    → take_turns true after s ≡ some t
    → Deadlocked t
stream_service-deadlocks before after s t b h w a =
    take_turns-Deadlocked after s t (take_turns-Sound true before unlocked s unlocked-Sound b)
      (h, w) a
