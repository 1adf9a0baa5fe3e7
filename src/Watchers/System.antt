-- ===== src/Watchers/System.antt =====
-- A watcher that polls, with what it watches and the callbacks that run: the steps of its goroutine,
-- of the debounce timer, of the callers of Watch and Close and of the cluster, in any order. The
-- `select` of the goroutine may take a tick also when the channel `stopCh` is closed already. A stretch
-- of code under the lock is one step, which needs the lock to be free; only the first stretch of a
-- Close that closes `stopCh` ends with the lock still held, and a step of its own gives the lock up
-- before that Close waits for the goroutine.
use kube_mcp_server.Base.{ℕ, suc, Bool, true, false, none, some, ◌≡◌, refl, ◌≢◌, arith}
use kube_mcp_server.Watchers.{
  absent, waiting, polling, returned, Watcher, watch, poll, reloaded, close_begin, close_end,
}

-- `current` is what the watcher would capture now, `in_flight` counts the calls of `onChange` that
-- have begun and not ended, `reloads` those that have succeeded.
pub record System (C : Type 0) : Type 0 where
  pub watcher : Watcher C
  pub current : C
  pub in_flight : ℕ
  pub reloads : ℕ
  pub lock_held : Bool

module _ {C : Type 0} (changed : C → C → Bool) (window : ℕ) where
  pub data Step (s : System C) : System C → Type 0 where
    calls_watch : s.lock_held ≡ false → Step s (record s { watcher = watch s.current s.watcher })
    changes : (c : C) → Step s (record s { current = c })
    ticks :
        s.watcher.loop ≡ waiting
        → Step s (record s { watcher = record (s.watcher) { loop = polling } })
    polls :
        (now : ℕ)
        → s.lock_held ≡ false
        → s.watcher.loop ≡ polling
        → Step s (record s { watcher = poll changed window s.current now s.watcher })
    expires :
        (at : ℕ)
        → s.watcher.debounce_timer ≡ some at
        → Step s (record s {
          watcher = record (s.watcher) { debounce_timer = none };
          in_flight = suc s.in_flight;
        })
    succeeds :
        (others : ℕ)
        → s.lock_held ≡ false
        → s.in_flight ≡ suc others
        → Step s (record s {
          watcher = reloaded true s.current s.watcher;
          in_flight = others;
          reloads = suc s.reloads;
        })
    fails : (others : ℕ) → s.in_flight ≡ suc others → Step s (record s { in_flight = others })
    sees_stop :
        s.watcher.loop ≡ waiting
        → s.watcher.stop_closed ≡ true
        → Step s (record s { watcher = record (s.watcher) { loop = returned } })
    calls_close :
        s.lock_held ≡ false
        → Step s (record s {
          watcher = (close_begin s.watcher).0;
          lock_held = (close_begin s.watcher).1;
        })
    gives_up_lock : s.lock_held ≡ true → Step s (record s { lock_held = false })
    ends_close :
        s.lock_held ≡ false
        → s.watcher.stop_closed ≡ true
        → s.watcher.loop ≡ returned
        → Step s (record s { watcher = close_end s.watcher })

  pub data Reach (s : System C) : System C → Type 0 where
    here : Reach s s
    next : {t u : System C} → Reach s t → Step t u → Reach s u

  -- Whether a step is one of the goroutine or of a Close that is under way.
  abbrev pub is_winding_down : {s t : System C} → Step s t → Bool
  is_winding_down (calls_watch free) = false
  is_winding_down (changes c) = false
  is_winding_down (ticks e) = true
  is_winding_down (polls now free e) = true
  is_winding_down (expires at e) = false
  is_winding_down (succeeds others free e) = false
  is_winding_down (fails others e) = false
  is_winding_down (sees_stop e f) = true
  is_winding_down (calls_close free) = false
  is_winding_down (gives_up_lock e) = true
  is_winding_down (ends_close free e f) = true

  -- Runs of the goroutine and of a Close that is under way alone.
  pub data WindsDown (s : System C) : System C → Type 0 where
    stay : WindsDown s s
    follow :
        {t u : System C}
        → WindsDown s t
        → (st : Step t u) → is_winding_down st ≡ true
        → WindsDown s u

  pub WindsDown-Reach : {s t : System C} → WindsDown s t → Reach s t
  WindsDown-Reach stay = here
  WindsDown-Reach (follow r st own) = next (WindsDown-Reach r) st

  pub WindsDown-trans : {s t u : System C} → WindsDown s t → WindsDown t u → WindsDown s u
  WindsDown-trans r stay = r
  WindsDown-trans r (follow q st own) = follow (WindsDown-trans r q) st own

  pub Reach-trans : {s t u : System C} → Reach s t → Reach t u → Reach s u
  Reach-trans r here = r
  Reach-trans r (next q st) = next (Reach-trans r q) st

-- NewClusterState: a watcher that has not been started.
abbrev pub new_watcher : {C : Type 0} → C → Watcher C
new_watcher c = record {
  started = false;
  last_known = c;
  debounce_timer = none;
  stop_closed = false;
  loop = absent;
}

abbrev pub initial : {C : Type 0} → C → System C
initial c = record {
  watcher = new_watcher c;
  current = c;
  in_flight = 0;
  reloads = 0;
  lock_held = false;
}

-- The goroutine is there exactly while the watcher is started; a stop is on its way only then.
pub record IsSound {C : Type 0} (w : Watcher C) : Type 0 where
  pub there : w.started ≡ true → w.loop ≢ absent
  pub gone : w.started ≡ false → w.loop ≡ absent
  pub stopping : w.stop_closed ≡ true → w.started ≡ true
  pub leaving : w.loop ≡ returned → w.stop_closed ≡ true

module _ {C : Type 0} (changed : C → C → Bool) (window : ℕ) where
  Step-IsSound : {s t : System C} → Step changed window s t → IsSound s.watcher → IsSound t.watcher
  unfolding watch poll reloaded close_begin close_end
  Step-IsSound {s} (calls_watch free) h = ground (arith, h.there, h.gone, h.stopping, h.leaving)
  Step-IsSound (changes c) h = h
  Step-IsSound {s} (ticks e) h = ground (arith, h.there, h.gone, h.stopping, h.leaving)
  Step-IsSound {s} (polls now free e) h = ground (arith, h.there, h.gone, h.stopping, h.leaving)
  Step-IsSound {s} (expires at e) h = ground (arith, h.there, h.gone, h.stopping, h.leaving)
  Step-IsSound {s} (succeeds others free e) h =
      ground (arith, h.there, h.gone, h.stopping, h.leaving)
  Step-IsSound (fails others e) h = h
  Step-IsSound {s} (sees_stop e f) h = ground (arith, h.there, h.gone, h.stopping, h.leaving)
  Step-IsSound {s} (calls_close free) h = ground (arith, h.there, h.gone, h.stopping, h.leaving)
  Step-IsSound (gives_up_lock e) h = h
  Step-IsSound {s} (ends_close free e f) h = ground (arith, h.there, h.gone, h.stopping, h.leaving)

  -- In every state that calls of Watch and Close, ticks, expiring timers, reloads and changes of the
  -- cluster lead to, in any order: the goroutine is there exactly while the watcher is started, a
  -- stop is on its way only while it is, and it has returned only because of one.
  pub Reach-IsSound :
      {c : C} {s : System C} → Reach changed window (initial c) s → IsSound s.watcher
  Reach-IsSound here = record {
    there = λ e. cc e;
    gone = λ _. refl;
    stopping = λ e. cc e;
    leaving = λ e. cc e;
  }
  Reach-IsSound (next r st) = Step-IsSound st (Reach-IsSound r)
