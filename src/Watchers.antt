-- ===== src/Watchers.antt =====
-- The watchers of pkg/kubernetes/watcher/cluster.go and of pkg/kcp/workspace_watcher.go, which poll,
-- and of pkg/kubernetes/watcher/kubeconfig.go, which is told of changes. A watcher's fields are a
-- record; each stretch of code under the lock is one function, and so are the stretches of the
-- goroutine between two waits. The debounce timer is armed with the time at which it expires.
pub mod System
pub mod Closing
pub mod Debounce
pub mod Kubeconfig
mod Tests
use kube_mcp_server.Base.{
  ℕ, ◌+◌, String, Bool, true, false, not, ◌||◌, Option, none, some, List, [], ◌∷◌, ◌≡◌, refl, arith,
  sym, ◌==◌, ◌!=◌, ◌↔◌, eq_iff, if◌then◌else◌, eqb, length, keep,
}
use kube_mcp_server.Base.Sort.{sort_strings, sort_strings-Permᴰ}
use mathlib.Core.List.{Permᴰ}

pub record ClusterSnapshot : Type 0 where
  pub api_groups : List String
  pub is_openshift : Bool

-- captureState: the names of the API groups, if they can be listed, in order.
unfoldable pub capture_state : Option (List String) → Bool → ClusterSnapshot
unfolding sort_strings
capture_state none openshift = record { api_groups = []; is_openshift = openshift }
capture_state (some groups) openshift = record {
  api_groups = sort_strings groups;
  is_openshift = openshift;
}

-- captureState of the workspaces: their names, if they can be listed, in order.
unfoldable pub capture_workspaces : Option (List String) → List String
unfolding sort_strings
capture_workspaces none = []
capture_workspaces (some items) = sort_strings (keep (λ name. name != "") items)

-- The loop over the names, which have the same number.
unfoldable pub any_differs : List String → List String → Bool
any_differs [] known = false
any_differs (x ∷ xs) [] = false
any_differs (x ∷ xs) (y ∷ ys) = x != y || any_differs xs ys

unfoldable pub names_changed : List String → List String → Bool
unfolding any_differs
names_changed current known =
    if not (eqb (length current) (length known)) then true else any_differs current known

-- `a != b` on Booleans
abbrev pub differ : Bool → Bool → Bool
differ true b = not b
differ false b = b

unfoldable pub cluster_changed : ClusterSnapshot → ClusterSnapshot → Bool
unfolding any_differs
cluster_changed current known =
    let changed =
      differ current.is_openshift known.is_openshift
      || not (eqb (length current.api_groups) (length known.api_groups)) in
    if not changed then any_differs current.api_groups known.api_groups else changed

-- Where the goroutine stands: it is not there, it waits in `select`, it has taken a tick and waits
-- for the lock, or it has returned, which closes `stoppedCh`.
pub data Loop : Type 0 where
  absent waiting polling returned : Loop

pub record Watcher (C : Type 0) : Type 0 where
  pub started : Bool
  pub last_known : C
  pub debounce_timer : Option ℕ
  pub stop_closed : Bool
  pub loop : Loop

module _ {C : Type 0} where
  -- Watch, of a watcher that polls; `current` is the state that is captured.
  unfoldable pub watch : C → Watcher C → Watcher C
  watch current w =
      if w.started then w else record w { started = true; last_known = current; loop = waiting }

  -- What follows a tick: the state is compared under the lock, and the timer armed anew.
  unfoldable pub poll : (C → C → Bool) → ℕ → C → ℕ → Watcher C → Watcher C
  poll changed window current now w =
      if changed current w.last_known
      then record w { debounce_timer = some (now + window); loop = waiting }
      else record w { loop = waiting }

  -- Behind the call of `onChange` when the timer has expired.
  unfoldable pub reloaded : Bool → C → Watcher C → Watcher C
  reloaded succeeded current w = if succeeded then record w { last_known = current } else w

  -- Close up to its wait for the goroutine, and whether it waits.
  unfoldable pub close_begin : Watcher C → Watcher C × Bool
  close_begin w =
      let stopped = record w { debounce_timer = none } in
      if not w.started
      then (stopped, false)
      else if w.stop_closed
      then (stopped, false)
      else (record stopped { stop_closed = true }, true)

  -- The rest of Close, with new channels.
  unfoldable pub close_end : Watcher C → Watcher C
  close_end w = record w { started = false; stop_closed = false; loop = absent }

any_differs-false :
    (xs ys : List String) → eqb (length xs) (length ys) ≡ true → any_differs xs ys ≡ false → xs ≡ ys
unfolding any_differs
any_differs-false [] [] l h = refl
any_differs-false [] (y ∷ ys) l h = ground (arith, l)
any_differs-false (x ∷ xs) [] l h = ground (arith, l)
any_differs-false (x ∷ xs) (y ∷ ys) l h = ground (arith, eq_iff x y, any_differs-false xs ys)

any_differs_self : (xs : List String) → any_differs xs xs ≡ false
unfolding any_differs
any_differs_self [] = refl
any_differs_self (x ∷ xs) = ground (arith, eq_iff x x, any_differs_self xs)

-- A poll of the cluster finds no change exactly if it finds the groups and the kind of cluster that
-- the watcher knows.
pub cluster_changed-false_iff :
    (current known : ClusterSnapshot) → (cluster_changed current known ≡ false) ↔ (current ≡ known)
unfolding cluster_changed
cluster_changed-false_iff current known = (
  λ h. ground (arith, any_differs-false current.api_groups known.api_groups),
  λ e. rw e (ground (arith, any_differs_self known.api_groups)),
)

pub names_changed-false_iff :
    (current known : List String) → (names_changed current known ≡ false) ↔ (current ≡ known)
unfolding names_changed
names_changed-false_iff current known = (
  λ h. ground (arith, any_differs-false current known),
  λ e. rw e (ground (arith, any_differs_self known)),
)

-- A cluster that lists the same API groups in another order has the same snapshot, so that no reload
-- is scheduled.
pub capture_state-Permᴰ :
    {groups other : List String} (openshift : Bool) (w : Watcher ClusterSnapshot) (window now : ℕ)
    → Permᴰ groups other
    → w.last_known ≡ capture_state (some groups) openshift
    → poll cluster_changed window (capture_state (some other) openshift) now w
      ≡ record w { loop = waiting }
unfolding capture_state poll
capture_state-Permᴰ {groups} {other} openshift w window now p known =
    let same : w.last_known ≡ capture_state (some other) openshift =
      cc (known, sort_strings-Permᴰ p) in
    rw
      ((cluster_changed-false_iff (capture_state (some other) openshift) w.last_known).1 (sym same))
