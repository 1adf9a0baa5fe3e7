-- ===== src/Watchers/Debounce.antt =====
-- A watcher that polls, in time: its ticks come at the multiples of the interval, and the timer
-- expires when its time has come. Whether the reload before a tick succeeds is given; it ends before
-- the tick. What the two durations mean for each other.
use kube_mcp_server.Base.{
  ℕ, zero, suc, ◌+◌, ◌*◌, ◌≤◌, ◌<◌, Bool, true, false, ◌||◌, Option, none, some, ◌≡◌, refl, ◌∙◌,
  arith, if◌then◌else◌, ltb, inl, inr, Bool-cases,
}
use kube_mcp_server.Watchers.{waiting, polling, poll, reloaded}
use kube_mcp_server.Watchers.System.{
  System, Reach, here, next, Reach-trans, ticks, polls, expires, succeeds, fails,
}

module _ {C : Type 0} (changed : C → C → Bool) (window : ℕ) (works : ℕ → Bool) where
  -- The function of the timer: `onChange`, and what follows it if it succeeds.
  abbrev pub call_back : Bool → System C → System C
  call_back true s = record s {
    watcher = reloaded true s.current (record (s.watcher) { debounce_timer = none });
    reloads = suc s.reloads;
  }
  call_back false s = record s {
    watcher = reloaded false s.current (record (s.watcher) { debounce_timer = none });
  }

  abbrev pub expire : Option ℕ → ℕ → System C → System C
  expire none now s = s
  expire (some at) now s = if ltb at now then call_back (works now) s else s

  abbrev pub poll_at : ℕ → System C → System C
  poll_at now s = record s {
    watcher = poll changed window s.current now (record (s.watcher) { loop = polling });
  }

  -- The time up to a tick and the tick: a timer that is due calls back, and then the goroutine polls.
  unfoldable pub round : ℕ → System C → System C
  unfolding poll reloaded
  round now s = poll_at now (expire s.watcher.debounce_timer now s)

  unfoldable pub rounds : ℕ → ℕ → System C → System C
  unfolding round
  rounds interval zero s = s
  rounds interval (suc n) s = round (suc n * interval) (rounds interval n s)

  -- Whether a reload has worked before one of the ticks from the second to the n+2nd.
  abbrev pub has_worked : ℕ → ℕ → Bool
  has_worked interval zero = works (2 * interval)
  has_worked interval (suc n) = has_worked interval n || works (suc (suc (suc n)) * interval)

  call_back-Reach :
      (s : System C) (at : ℕ) (succeeded : Bool)
      → s.lock_held ≡ false
      → s.watcher.debounce_timer ≡ some at
      → Reach changed window s (call_back succeeded s)
  unfolding reloaded
  call_back-Reach s at true free e =
      next (next here (expires at e)) (succeeds s.in_flight free refl)
  call_back-Reach s at false free e = next (next here (expires at e)) (fails s.in_flight refl)

  expire-Reach :
      (s : System C) (timer : Option ℕ) (now : ℕ)
      → s.lock_held ≡ false
      → s.watcher.debounce_timer ≡ timer
      → Reach changed window s (expire timer now s)
  expire-Reach s none now free e = here
  expire-Reach s (some at) now free e = elim (Bool-cases (ltb at now)) [
    | inl due ↦ rw due (call_back-Reach s at (works now) free e)
    | inr early ↦ rw early here
  ]

  expire-loop :
      (s : System C) (timer : Option ℕ) (now : ℕ)
      → ((expire timer now s).watcher.loop ≡ s.watcher.loop)
        × ((expire timer now s).lock_held ≡ s.lock_held)
  unfolding reloaded
  expire-loop s none now = (refl, refl)
  expire-loop s (some at) now = ground arith

  -- The rounds are steps of the system.
  pub round-Reach :
      (s : System C) (now : ℕ)
      → s.lock_held ≡ false
      → s.watcher.loop ≡ waiting
      → Reach changed window s (round now s)
  unfolding round
  round-Reach s now free e =
      let due = expire s.watcher.debounce_timer now s in
      let (loop, lock) = expire-loop s s.watcher.debounce_timer now in
      next (next (expire-Reach s s.watcher.debounce_timer now free refl) (ticks (rw loop e)))
        (polls now (rw lock free) refl)

  poll_at-waits :
      (s : System C) (now : ℕ)
      → ((poll_at now s).watcher.loop ≡ waiting) × ((poll_at now s).lock_held ≡ s.lock_held)
  unfolding poll
  poll_at-waits s now = ground arith

  -- The rounds are a run of the system, behind which the goroutine waits again.
  pub rounds-Reach :
      (interval n : ℕ) (s : System C)
      → s.lock_held ≡ false
      → s.watcher.loop ≡ waiting
      → Reach changed window s (rounds interval n s)
        × ((rounds interval n s).lock_held ≡ false)
        × ((rounds interval n s).watcher.loop ≡ waiting)
  unfolding rounds round
  rounds-Reach interval zero s free e = (here, free, e)
  rounds-Reach interval (suc n) s free e =
      let (run, free', e') = rounds-Reach interval n s free e in
      let before = rounds interval n s in
      let now = suc n * interval in
      let (loop, lock) = expire-loop before before.watcher.debounce_timer now in
      let (waits, same) = poll_at-waits (expire before.watcher.debounce_timer now before) now in
      (Reach-trans changed window run (round-Reach before now free' e'), same ∙ lock ∙ free', waits)

  module _ (interval : ℕ) (s : System C) (fresh : s.watcher.debounce_timer ≡ none)
      (differs : changed s.current s.watcher.last_known ≡ true)
      (agrees : changed s.current s.current ≡ false) where
    -- The timer is armed, and nothing has been reloaded.
    abbrev pub Armed : ℕ → System C → Type 0
    Armed now t =
        (t.watcher.debounce_timer ≡ some (now + window))
        × (t.watcher.last_known ≡ s.watcher.last_known)
        × (t.current ≡ s.current)
        × (t.reloads ≡ s.reloads)

    -- One reload has succeeded, the watcher knows the cluster as it is, and no timer is armed.
    abbrev pub Settled : System C → Type 0
    Settled t =
        (t.watcher.debounce_timer ≡ none)
        × (t.watcher.last_known ≡ s.current)
        × (t.current ≡ s.current)
        × (t.reloads ≡ suc s.reloads)

    first_round : (now : ℕ) → Armed now (round now s)
    unfolding round
    first_round now = rw fresh (ground arith)

    missed_round :
        (t : System C) (now later : ℕ)
        → Armed now t
        → later ≤ now + window
        → Armed later (round later t)
    unfolding round
    missed_round t now later armed early = ground arith

    rounds-Armed :
        interval < window → (n : ℕ) → Armed (suc n * interval) (rounds interval (suc n) s)
    unfolding rounds
    rounds-Armed short zero = first_round (1 * interval)
    rounds-Armed short (suc n) =
        missed_round (rounds interval (suc n) s) (suc n * interval) (suc (suc n) * interval)
          (rounds-Armed short n) (omega arith)

    -- If the interval of the polls is shorter than the debounce window, every poll that still sees the
    -- change puts the reload off: after any number of ticks there has been no reload.
    pub rounds-starve : interval < window → (n : ℕ) → (rounds interval n s).reloads ≡ s.reloads
    unfolding rounds
    rounds-starve short zero = refl
    rounds-starve short (suc n) = (rounds-Armed short n).3
