-- ===== src/Watchers/Tests.antt =====
-- The watchers on concrete inputs: a cluster that installs an API group.
use kube_mcp_server.Base.{ℕ, ◌*◌, ltb, Bool, true, false, none, some, [], ◌∷◌, ◌≡◌, refl, ◌≢◌}
use kube_mcp_server.Base.Sort.{sort_strings}
use kube_mcp_server.Watchers.{
  ClusterSnapshot, capture_workspaces, cluster_changed, names_changed, absent, waiting, polling,
  returned, Watcher, watch, close_begin,
}
use kube_mcp_server.Watchers.System.{
  System, Reach, WindsDown, here, next, new_watcher, initial, calls_watch, changes, ticks,
  calls_close,
}
use kube_mcp_server.Watchers.Closing.{close_can_end, close_leaves_timer}
use kube_mcp_server.Watchers.Kubeconfig as Kubeconfig
use kube_mcp_server.Watchers.Kubeconfig.{close_never_ends, watch_files}

sorted_names : sort_strings ("batch" ∷ "apps" ∷ "b" ∷ []) ≡ "apps" ∷ "b" ∷ "batch" ∷ []
unfolding sort_strings
sorted_names = refl

named_workspaces : capture_workspaces (some ("team" ∷ "" ∷ "dev" ∷ [])) ≡ "dev" ∷ "team" ∷ []
unfolding capture_workspaces
named_workspaces = refl

renamed : names_changed ("a" ∷ "c" ∷ []) ("a" ∷ "b" ∷ []) ≡ true
unfolding names_changed
renamed = refl

abbrev before : ClusterSnapshot
before = record { api_groups = "apps" ∷ []; is_openshift = false }

abbrev after : ClusterSnapshot
after = record { api_groups = "apps" ∷ "batch" ∷ []; is_openshift = false }

abbrev running : Watcher ClusterSnapshot
running = record {
  started = true;
  last_known = before;
  debounce_timer = none;
  stop_closed = false;
  loop = waiting;
}

abbrev changing : System ClusterSnapshot
changing = record {
  watcher = running;
  current = after;
  in_flight = 0;
  reloads = 0;
  lock_held = false;
}

abbrev second : ℕ
second = 1_000_000_000

-- The first reload, before the tick after a minute, fails.
abbrev second_works : ℕ → Bool
second_works now = ltb (60 * second) now

-- Watch, a change, a tick, and Close while the poll waits for the lock.
abbrev ticked : System ClusterSnapshot
ticked = record changing { watcher = record running { loop = polling } }

abbrev closing : System ClusterSnapshot
closing = record ticked {
  watcher = record (ticked.watcher) { stop_closed = true };
  lock_held = true;
}

closing-Reach : Reach cluster_changed 5 (initial before) closing
unfolding watch close_begin
closing-Reach =
    next (next (next (next here (calls_watch refl)) (changes after)) (ticks refl))
      (calls_close refl)

close_can_end_example :
    (t : System ClusterSnapshot) × WindsDown cluster_changed 5 closing t
    × (t.watcher.started ≡ false)
    × (t.watcher.loop ≡ absent)
close_can_end_example = close_can_end cluster_changed 5 closing-Reach refl

close_leaves_timer_example :
    (t u : System ClusterSnapshot) × Reach cluster_changed 5 ticked t
    × (t.watcher.started ≡ false)
    × (t.watcher.loop ≡ absent)
    × ((at : ℕ) × (t.watcher.debounce_timer ≡ some at))
    × Reach cluster_changed 5 t u
    × (u.in_flight ≡ 1)
    × (u.watcher.started ≡ false)
unfolding cluster_changed
close_leaves_timer_example = close_leaves_timer cluster_changed 5 ticked refl refl refl refl refl

abbrev no_files : Kubeconfig.FileSystem
no_files = record { watcher = new_watcher Kubeconfig.nothing; in_flight = 0 }

abbrev hanging : Kubeconfig.FileSystem
hanging = record no_files { watcher = (close_begin (watch_files false true (no_files.watcher))).0 }

close_never_ends_example : (hanging.watcher.loop ≢ returned) × (hanging.watcher.started ≡ true)
close_never_ends_example =
    close_never_ends 5 no_files hanging false true refl refl refl refl Kubeconfig.Reach.here
