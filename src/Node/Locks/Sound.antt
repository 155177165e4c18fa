-- ===== src/Node/Locks/Sound.antt =====
-- Who holds which mutex.
use vimbax_ros2_driver.Common.{
  ℕ, zero, suc, ◌+◌, ◌≡◌, refl, Bool, true, false, some, List, [], ◌∷◌, arith, Option-cases, inl,
  inr, ◌==◌, not, ◌&&◌, ◌||◌,
}
use vimbax_ros2_driver.Node.Locks.{
  Locks, StreamHandler, outside, entered, waiting, within, back, Writer, away, asking, inside, Turn,
  enter, call, lock_both, unlock_both, leave, graph_lock, graph_unlock, other_enter, other_leave,
  ask, write, finish, take_turn, take_turns, may_share, unlocked, is_inside, enter_at, call_at,
  lock_both_at, unlock_both_at, leave_at, graph_lock_at, graph_unlock_at, other_leave_at, write_at,
  ask_at, finish_at,
}

abbrev pub held : StreamHandler → ℕ
held outside = 0
held within = 2
held h = 1

abbrev pub held_by : Bool → ℕ
held_by true = 1
held_by false = 0

abbrev pub is_within : StreamHandler → Bool
is_within within = true
is_within h = false

-- Each lock is held by those who took it: the shared ones are counted, a writer excludes them, and the
-- other mutex has one holder, the handler or the graph thread.
pub record Sound (s : Locks) : Type 0 where
  pub count : s.shared ≡ s.others + held s.handler + held_by s.graph
  pub alone : (is_inside s.writer && not (s.shared == 0)) ≡ false
  pub one : s.stream_state ≡ (is_within s.handler || s.graph)
  pub apart : (is_within s.handler && s.graph) ≡ false

pub unlocked-Sound : Sound unlocked
unlocked-Sound = record { count = refl; alone = refl; one = refl; apart = refl }

module _ (prefers_writers : Bool) where
  enter_at-Sound :
      (h : StreamHandler) (s t : Locks)
      → s.handler ≡ h
      → Sound s
      → enter_at prefers_writers h s ≡ some t
      → Sound t
  unfolding may_share
  enter_at-Sound outside s t e v r = ground arith
  enter_at-Sound entered s t e v r = ground arith
  enter_at-Sound waiting s t e v r = ground arith
  enter_at-Sound within s t e v r = ground arith
  enter_at-Sound back s t e v r = ground arith

  call_at-Sound :
      (h : StreamHandler) (s t : Locks) → s.handler ≡ h → Sound s → call_at h s ≡ some t → Sound t
  unfolding may_share
  call_at-Sound outside s t e v r = ground arith
  call_at-Sound entered s t e v r = ground arith
  call_at-Sound waiting s t e v r = ground arith
  call_at-Sound within s t e v r = ground arith
  call_at-Sound back s t e v r = ground arith

  lock_both_at-Sound :
      (h : StreamHandler) (s t : Locks)
      → s.handler ≡ h
      → Sound s
      → lock_both_at prefers_writers h s ≡ some t
      → Sound t
  unfolding may_share
  lock_both_at-Sound outside s t e v r = ground arith
  lock_both_at-Sound entered s t e v r = ground arith
  lock_both_at-Sound waiting s t e v r = ground arith
  lock_both_at-Sound within s t e v r = ground arith
  lock_both_at-Sound back s t e v r = ground arith

  unlock_both_at-Sound :
      (h : StreamHandler) (s t : Locks)
      → s.handler ≡ h
      → Sound s
      → unlock_both_at h s ≡ some t
      → Sound t
  unfolding may_share
  unlock_both_at-Sound outside s t e v r = ground arith
  unlock_both_at-Sound entered s t e v r = ground arith
  unlock_both_at-Sound waiting s t e v r = ground arith
  unlock_both_at-Sound within s t e v r = ground arith
  unlock_both_at-Sound back s t e v r = ground arith

  leave_at-Sound :
      (h : StreamHandler) (s t : Locks) → s.handler ≡ h → Sound s → leave_at h s ≡ some t → Sound t
  unfolding may_share
  leave_at-Sound outside s t e v r = ground arith
  leave_at-Sound entered s t e v r = ground arith
  leave_at-Sound waiting s t e v r = ground arith
  leave_at-Sound within s t e v r = ground arith
  leave_at-Sound back s t e v r = ground arith

  graph_lock_at-Sound :
      (g : Bool) (s t : Locks)
      → s.graph ≡ g
      → Sound s
      → graph_lock_at prefers_writers g s ≡ some t
      → Sound t
  unfolding may_share
  graph_lock_at-Sound true s t e v r = ground arith
  graph_lock_at-Sound false s t e v r = ground arith

  graph_unlock_at-Sound :
      (g : Bool) (s t : Locks) → s.graph ≡ g → Sound s → graph_unlock_at g s ≡ some t → Sound t
  unfolding may_share
  graph_unlock_at-Sound true s t e v r = ground arith
  graph_unlock_at-Sound false s t e v r = ground arith

  other_leave_at-Sound :
      (n : ℕ) (s t : Locks) → s.others ≡ n → Sound s → other_leave_at n s ≡ some t → Sound t
  unfolding may_share
  other_leave_at-Sound zero s t e v r = ground arith
  other_leave_at-Sound (suc n) s t e v r = ground arith

  write_at-Sound :
      (w : Writer) (s t : Locks) → s.writer ≡ w → Sound s → write_at w s ≡ some t → Sound t
  unfolding may_share
  write_at-Sound away s t e v r = ground arith
  write_at-Sound asking s t e v r = ground arith
  write_at-Sound inside s t e v r = ground arith

  ask_at-Sound : (w : Writer) (s t : Locks) → s.writer ≡ w → Sound s → ask_at w s ≡ some t → Sound t
  unfolding may_share
  ask_at-Sound away s t e v r = ground arith
  ask_at-Sound asking s t e v r = ground arith
  ask_at-Sound inside s t e v r = ground arith

  finish_at-Sound :
      (w : Writer) (s t : Locks) → s.writer ≡ w → Sound s → finish_at w s ≡ some t → Sound t
  unfolding may_share
  finish_at-Sound away s t e v r = ground arith
  finish_at-Sound asking s t e v r = ground arith
  finish_at-Sound inside s t e v r = ground arith

  pub take_turn-Sound :
      (u : Turn) (s t : Locks) → Sound s → take_turn prefers_writers u s ≡ some t → Sound t
  unfolding take_turn may_share
  take_turn-Sound enter s t v r = enter_at-Sound s.handler s t refl v r
  take_turn-Sound call s t v r = call_at-Sound s.handler s t refl v r
  take_turn-Sound lock_both s t v r = lock_both_at-Sound s.handler s t refl v r
  take_turn-Sound unlock_both s t v r = unlock_both_at-Sound s.handler s t refl v r
  take_turn-Sound leave s t v r = leave_at-Sound s.handler s t refl v r
  take_turn-Sound graph_lock s t v r = graph_lock_at-Sound s.graph s t refl v r
  take_turn-Sound graph_unlock s t v r = graph_unlock_at-Sound s.graph s t refl v r
  take_turn-Sound other_enter s t v r = ground arith
  take_turn-Sound other_leave s t v r = other_leave_at-Sound s.others s t refl v r
  take_turn-Sound ask s t v r = ask_at-Sound s.writer s t refl v r
  take_turn-Sound write s t v r = write_at-Sound s.writer s t refl v r
  take_turn-Sound finish s t v r = finish_at-Sound s.writer s t refl v r

  pub take_turns-Sound :
      (ts : List Turn) (s t : Locks) → Sound s → take_turns prefers_writers ts s ≡ some t → Sound t
  unfolding take_turns
  take_turns-Sound [] s t v r = ground arith
  take_turns-Sound (u ∷ ts) s t v r = elim (Option-cases (take_turn prefers_writers u s)) [
    | inl e ↦ absurd (ground arith)
    | inr (s', e) ↦ take_turns-Sound ts s' t (take_turn-Sound u s s' v e) (ground arith)
  ]
