-- ===== src/Watchers/Kubeconfig.antt =====
-- The watcher of kubeconfig files (pkg/kubernetes/watcher/kubeconfig.go), which fsnotify tells of
-- changes. It has the fields of a watcher that polls but no last known state, and its Close is the
-- same. What it is given to watch is whether there are files, and whether fsnotify could be set up.
use kube_mcp_server.Base.{
  ℕ, suc, ◌+◌, Bool, true, false, not, ◌&&◌, none, some, ◌≡◌, ◌≢◌, arith, if◌then◌else◌,
}
use kube_mcp_server.Watchers.{absent, waiting, polling, returned, Watcher, close_begin, close_end}

-- No state is kept.
pub data Nothing : Type 0 where
  nothing : Nothing

abbrev pub FileWatcher : Type 0
FileWatcher = Watcher Nothing

-- Watch: with no files, and where fsnotify fails, no goroutine is started.
unfoldable pub watch_files : Bool → Bool → FileWatcher → FileWatcher
watch_files has_files notify_works w =
    if w.started
    then w
    else let begun = record w { started = true } in
      if not has_files
      then begun
      else if not notify_works
      then begun
      else record begun { loop = waiting }

-- An event of a file arms the timer anew, under the lock.
unfoldable pub file_event : ℕ → ℕ → FileWatcher → FileWatcher
file_event window now w = record w { debounce_timer = some (now + window); loop = waiting }

-- The watcher and the calls of `onChange` that run.
pub record FileSystem : Type 0 where
  pub watcher : FileWatcher
  pub in_flight : ℕ

module _ (window : ℕ) where
  pub data Step (s : FileSystem) : FileSystem → Type 0 where
    calls_watch :
        (has_files notify_works : Bool)
        → Step s (record s { watcher = watch_files has_files notify_works s.watcher })
    receives :
        s.watcher.loop ≡ waiting
        → Step s (record s { watcher = record (s.watcher) { loop = polling } })
    handles :
        (now : ℕ)
        → s.watcher.loop ≡ polling
        → Step s (record s { watcher = file_event window now s.watcher })
    expires :
        (at : ℕ)
        → s.watcher.debounce_timer ≡ some at
        → Step s (record s {
          watcher = record (s.watcher) { debounce_timer = none };
          in_flight = suc s.in_flight;
        })
    finishes : (others : ℕ) → s.in_flight ≡ suc others → Step s (record s { in_flight = others })
    sees_stop :
        s.watcher.loop ≡ waiting
        → s.watcher.stop_closed ≡ true
        → Step s (record s { watcher = record (s.watcher) { loop = returned } })
    channel_closed :
        s.watcher.loop ≡ waiting
        → Step s (record s { watcher = record (s.watcher) { loop = returned } })
    calls_close : Step s (record s { watcher = (close_begin s.watcher).0 })
    ends_close :
        s.watcher.stop_closed ≡ true
        → s.watcher.loop ≡ returned
        → Step s (record s { watcher = close_end s.watcher })

  pub data Reach (s : FileSystem) : FileSystem → Type 0 where
    here : Reach s s
    next : {t u : FileSystem} → Reach s t → Step t u → Reach s u

  -- The watcher counts as started and Close waits, but no goroutine is there to answer.
  pub record IsStuck (s : FileSystem) : Type 0 where
    pub on : s.watcher.started ≡ true
    pub stop : s.watcher.stop_closed ≡ true
    pub nobody : s.watcher.loop ≡ absent

  Step-IsStuck : {s t : FileSystem} → Step s t → IsStuck s → IsStuck t
  unfolding watch_files file_event close_begin close_end
  Step-IsStuck (calls_watch f n) h = ground arith
  Step-IsStuck (receives e) h = ground arith
  Step-IsStuck (handles now e) h = ground arith
  Step-IsStuck (expires at e) h = ground arith
  Step-IsStuck (finishes others e) h = record { on = h.on; stop = h.stop; nobody = h.nobody }
  Step-IsStuck (sees_stop e f) h = ground arith
  Step-IsStuck (channel_closed e) h = ground arith
  Step-IsStuck calls_close h = ground arith
  Step-IsStuck (ends_close e f) h = ground arith

  Reach-IsStuck : {s t : FileSystem} → Reach s t → IsStuck s → IsStuck t
  Reach-IsStuck here h = h
  Reach-IsStuck (next r st) h = Step-IsStuck st (Reach-IsStuck r h)

  -- Where there is no file to watch, or fsnotify cannot be set up, Watch marks the watcher as started
  -- and starts no goroutine; a Close of such a watcher waits for ever: in no state that follows has
  -- the goroutine returned, whatever is called.
  pub close_never_ends :
      (s t : FileSystem) (has_files notify_works : Bool)
      → s.watcher.started ≡ false
      → s.watcher.stop_closed ≡ false
      → s.watcher.loop ≡ absent
      → has_files && notify_works ≡ false
      → Reach
          (record s { watcher = (close_begin (watch_files has_files notify_works s.watcher)).0 })
          t
      → (t.watcher.loop ≢ returned) × (t.watcher.started ≡ true)
  unfolding watch_files close_begin
  close_never_ends s t has_files notify_works off open_ out nothing_to_watch r =
      let h =
        Reach-IsStuck r
          (record { on = ground arith; stop = ground arith; nobody = ground arith }) in
      (λ e. ground (arith, e, h.nobody), h.on)
