-- ===== src/Mcp/RateLimit.antt =====
-- The rate limits of sessions: `rateLimitingMiddleware` of pkg/mcp/middleware.go with the function
-- that `NewServer` of pkg/mcp/mcp.go gives it. Times are nanoseconds. The requests and the ticks of
-- the reaper are taken one after the other; the rates (floats) and golang.org/x/time/rate are
-- parameters.
pub mod Requests
pub mod Current
use kube_mcp_server.Base.{
  ℕ, ◌-◌, ◌*◌, String, Bool, true, false, not, ◌&&◌, ◌||◌, ◌⊎◌, inl, inr, Option, none, some, List,
  [], ◌∷◌, ◌==◌, if◌then◌else◌, eqb, ltb, keep, deref,
}
use kube_mcp_server.Base.Assoc.{Assoc, lookup, insert}

-- Rates, their tests, and the limiters of x/time/rate; `allow` is asked at a time.
pub record Rates (R L : Type 0) : Type 0 where
  pub zero_rate : R
  pub is_positive : R → Bool
  pub same : R → R → Bool
  pub new_limiter : R → ℕ → L
  pub allow : ℕ → L → Bool × L

pub record RateLimiterEntry (L : Type 0) : Type 0 where
  pub limiter : L
  pub last_seen : ℕ

-- The variables that the middleware's handlers share.
pub record Limits (R L : Type 0) : Type 0 where
  pub limiters : Assoc (RateLimiterEntry L)
  pub current_limit : R
  pub current_burst : ℕ

-- CodeRateLimitExceeded and its message; the code is -32029.
pub data RpcError : Type 0 where
  rate_limit_exceeded : RpcError

-- DefaultRateLimitBurst, in place of a burst of 0
abbrev pub default_rate_limit_burst : ℕ
default_rate_limit_burst = 10

unfoldable pub config_burst : ℕ → ℕ
config_burst burst = if eqb burst 0 then default_rate_limit_burst else burst

-- 10 minutes
abbrev pub session_ttl : ℕ
session_ttl = 600_000_000_000

module _ {R L : Type 0} (rates : Rates R L) where
  unfoldable pub initial_limits : Limits R L
  initial_limits = record { limiters = []; current_limit = rates.zero_rate; current_burst = 0 }

  -- If the configuration changed, all limiters are discarded.
  unfoldable pub refresh : R → ℕ → Limits R L → Limits R L
  refresh limit burst st =
      if not (rates.same limit st.current_limit) || not (eqb burst st.current_burst)
      then record { limiters = []; current_limit = limit; current_burst = burst }
      else st

  -- The session's entry, seen now; a new one if there is none.
  unfoldable pub session_entry : R → ℕ → ℕ → Option (RateLimiterEntry L) → RateLimiterEntry L
  session_entry limit burst now none = record {
    limiter = rates.new_limiter limit burst;
    last_seen = now;
  }
  session_entry limit burst now (some entry) = record entry { last_seen = now }

  -- The limiter is asked, and the entry that the map holds has its next state.
  unfoldable pub ask : String → ℕ → Limits R L → RateLimiterEntry L → Bool × Limits R L
  unfolding insert
  ask session_id now st entry =
      let (allowed, limiter) = rates.allow now entry.limiter in
      (
        allowed,
        record st { limiters = insert session_id (record entry { limiter = limiter }) st.limiters },
      )

  -- Whether the request goes on. A request without a session has the session `none`.
  unfoldable pub admit : R → ℕ → ℕ → Option String → Limits R L → Bool × Limits R L
  unfolding refresh session_entry lookup ask
  admit limit burst now none st = (true, st)
  admit limit burst now (some session_id) st =
      if not (rates.is_positive limit) || (session_id == "")
      then (true, st)
      else let fresh = refresh limit burst st in
        ask session_id now fresh (session_entry limit burst now (lookup session_id fresh.limiters))

  -- A tick of the reaper.
  unfoldable pub reap : ℕ → Limits R L → Limits R L
  reap now st = record st {
    limiters = keep (λ entry. not (ltb session_ttl (now - entry.1.last_seen))) st.limiters;
  }

  abbrev pub go_on :
      {A W : Type 0} → (W → A × W) → Bool × Limits R L → W → (RpcError ⊎ A) × Limits R L × W
  go_on next (false, st) w = (inl rate_limit_exceeded, st, w)
  go_on next (true, st) w = let (a, w') = next w in (inr a, st, w')

  -- The handler around `next`, with the configured rate and burst of the moment.
  unfoldable pub rate_limiting_middleware :
      {A W : Type 0}
      → (W → A × W)
      → R
      → ℕ
      → ℕ
      → Option String
      → Limits R L
      → W
      → (RpcError ⊎ A) × Limits R L × W
  unfolding admit config_burst
  rate_limiting_middleware next rps burst now session st w =
      go_on next (admit rps (config_burst burst) now session st) w
