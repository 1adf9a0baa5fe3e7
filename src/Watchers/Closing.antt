-- ===== src/Watchers/Closing.antt =====
-- What Close does to a watcher that polls, in any interleaving: it always can end, and what it
-- leaves behind.
use kube_mcp_server.Base.{
  ℕ, suc, ◌+◌, Bool, true, false, none, some, ◌≡◌, refl, inl, inr, subst, Bool-cases, arith,
}
use kube_mcp_server.Watchers.{
  Loop, absent, waiting, polling, returned, watch, poll, reloaded, close_begin, close_end,
}
use kube_mcp_server.Watchers.System.{
  System, Step, Reach, here, next, Reach-trans, WindsDown, stay, follow, WindsDown-Reach,
  WindsDown-trans, initial, IsSound, Reach-IsSound, calls_watch, changes, ticks, polls, expires,
  succeeds, fails, sees_stop, calls_close, gives_up_lock, ends_close,
}

module _ {C : Type 0} (changed : C → C → Bool) (window : ℕ) where
  -- From `waiting` with the stop closed and the lock free, two steps end Close.
  ends_from_waiting :
      (s : System C)
      → s.lock_held ≡ false
      → s.watcher.loop ≡ waiting
      → s.watcher.stop_closed ≡ true
      → (t : System C) × WindsDown changed window s t
        × (t.watcher.started ≡ false)
        × (t.watcher.loop ≡ absent)
        × (t.watcher.debounce_timer ≡ s.watcher.debounce_timer)
        × (t.in_flight ≡ s.in_flight)
  unfolding close_end
  ends_from_waiting s free e stop = (
    _,
    follow (follow stay (sees_stop e stop) refl) (ends_close free stop refl) refl,
    refl,
    refl,
    refl,
    refl,
  )

  returns_from :
      (s : System C) (l : Loop)
      → s.lock_held ≡ false
      → s.watcher.loop ≡ l
      → IsSound s.watcher
      → s.watcher.stop_closed ≡ true
      → (t : System C) × WindsDown changed window s t
        × (t.watcher.started ≡ false)
        × (t.watcher.loop ≡ absent)
  unfolding poll close_end
  returns_from s absent free e sound stop = absurd (sound.there (sound.stopping stop) e)
  returns_from s waiting free e sound stop =
      let (t, r, off, out, _, _) = ends_from_waiting s free e stop in (t, r, off, out)
  returns_from s polling free e sound stop =
      let (t, r, off, out, _, _) =
        ends_from_waiting (record s { watcher = poll changed window s.current 0 s.watcher }) free
          (ground arith) (ground arith) in
      (t, WindsDown-trans changed window (follow stay (polls 0 free e) refl) r, off, out)
  returns_from s returned free e sound stop =
      (_, follow stay (ends_close free stop e) refl, refl, refl)

  -- A Close that waits for the goroutine can end, whatever has happened before: in every state with
  -- the stop on its way, the lock held by Close or not, steps of the goroutine and of Close alone lead
  -- to a state in which the watcher is not started and the goroutine is gone.
  pub close_can_end :
      {c : C} {s : System C}
      → Reach changed window (initial c) s
      → s.watcher.stop_closed ≡ true
      → (t : System C) × WindsDown changed window s t
        × (t.watcher.started ≡ false)
        × (t.watcher.loop ≡ absent)
  close_can_end {s = s} r stop =
      let sound = Reach-IsSound changed window r in
      elim (Bool-cases s.lock_held) [
        | inl held ↦
            let (t, q, off, out) =
              returns_from (record s { lock_held = false }) s.watcher.loop refl refl sound stop in
            (t, WindsDown-trans changed window (follow stay (gives_up_lock held) refl) q, off, out)
        | inr free ↦ returns_from s s.watcher.loop free refl sound stop
      ]

  -- A goroutine that has taken a tick when Close takes the lock, on a cluster that has changed, arms
  -- the timer behind Close's back: Close can end with the watcher not started, the goroutine gone and
  -- the timer armed, and when it expires `onChange` is called on the closed watcher.
  pub close_leaves_timer :
      (s : System C)
      → s.lock_held ≡ false
      → s.watcher.started ≡ true
      → s.watcher.stop_closed ≡ false
      → s.watcher.loop ≡ polling
      → changed s.current s.watcher.last_known ≡ true
      → (t u : System C) × Reach changed window s t
        × (t.watcher.started ≡ false)
        × (t.watcher.loop ≡ absent)
        × ((at : ℕ) × (t.watcher.debounce_timer ≡ some at))
        × Reach changed window t u
        × (u.in_flight ≡ suc s.in_flight)
        × (u.watcher.started ≡ false)
  unfolding close_begin poll
  close_leaves_timer s free on open_ at_poll differs =
      let closing = record s { watcher = (close_begin s.watcher).0; lock_held = true } in
      let waits : (close_begin s.watcher).1 ≡ true = ground arith in
      let begun : Reach changed window s closing =
        subst
          (λ held.
            Reach changed window s
              (record s { watcher = (close_begin s.watcher).0; lock_held = held }))
          waits (next here (calls_close free)) in
      let polled = record closing {
        watcher = poll changed window closing.current 0 closing.watcher;
        lock_held = false;
      } in
      let (t, r, off, out, timer, flight) =
        ends_from_waiting polled refl (ground arith) (ground arith) in
      let armed : t.watcher.debounce_timer ≡ some (0 + window) = ground arith in
      (
        t,
        _,
        Reach-trans changed window
            (next (next begun (gives_up_lock refl)) (polls 0 refl (ground arith)))
            (WindsDown-Reach changed window r),
        off,
        out,
        (0 + window, armed),
        next here (expires (0 + window) armed),
        ground arith,
        off,
      )

-- The watcher is closed, no timer is armed and no callback runs.
pub record IsQuiet {C : Type 0} (s : System C) : Type 0 where
  pub off : s.watcher.started ≡ false
  pub open_channel : s.watcher.stop_closed ≡ false
  pub out : s.watcher.loop ≡ absent
  pub disarmed : s.watcher.debounce_timer ≡ none
  pub idle : s.in_flight ≡ 0

module _ {C : Type 0} (changed : C → C → Bool) (window : ℕ) where
  -- A closed watcher with no timer armed and no callback running stays so, and reloads nothing,
  -- until Watch is called.
  pub Step-IsQuiet :
      {s t : System C}
      → Step changed window s t
      → t.watcher.started ≡ false
      → IsQuiet s
      → IsQuiet t × (t.reloads ≡ s.reloads)
  unfolding watch poll reloaded close_begin close_end
  Step-IsQuiet (calls_watch free) off q = ground arith
  Step-IsQuiet (changes c) off q = (
    record {
      off = q.off;
      open_channel = q.open_channel;
      out = q.out;
      disarmed = q.disarmed;
      idle = q.idle;
    },
    refl,
  )
  Step-IsQuiet (ticks e) off q = ground arith
  Step-IsQuiet (polls now free e) off q = ground arith
  Step-IsQuiet (expires at e) off q = ground arith
  Step-IsQuiet (succeeds others free e) off q = ground arith
  Step-IsQuiet (fails others e) off q = ground arith
  Step-IsQuiet (sees_stop e f) off q = ground arith
  Step-IsQuiet (calls_close free) off q = ground arith
  Step-IsQuiet (gives_up_lock e) off q = (
    record {
      off = q.off;
      open_channel = q.open_channel;
      out = q.out;
      disarmed = q.disarmed;
      idle = q.idle;
    },
    refl,
  )
  Step-IsQuiet (ends_close free e f) off q = ground arith
