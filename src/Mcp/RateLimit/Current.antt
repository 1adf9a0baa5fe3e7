-- ===== src/Mcp/RateLimit/Current.antt =====
-- What the limits of sessions guarantee, over all runs of requests and ticks
-- (`rateLimitingMiddleware` of pkg/mcp/middleware.go).
use mathlib.Core.List.{Memᴰ}
use kube_mcp_server.Base.{
  ℕ, ◌-◌, ◌≤◌, String, ◌≡◌, refl, sym, ◌↔◌, inl, inr, true, not, ◌||◌, Option, none, some, arith,
  ◌==◌, eqb, ltb, Bool-cases, subst, if◌then◌else◌, ◌∙◌,
}
use kube_mcp_server.Base.Assoc.{lookup, insert-Mem, lookup-Mem}
use kube_mcp_server.Base.Members.{mem-of-keep, mem-keep}
use kube_mcp_server.Mcp.RateLimit.{
  Rates, RateLimiterEntry, Limits, session_ttl, initial_limits, refresh, session_entry, ask, admit,
  reap,
}

-- The equality test of rates that are used as limits; with NaN and zero left out, floats have it.
pub record RatesLaws {R L : Type 0} (rates : Rates R L) : Type 0 where
  pub same-eq : (x y : R) → rates.is_positive x ≡ true → rates.same x y ≡ true → x ≡ y

-- What becomes of a limiter by being asked any number of times.
pub data Descends {R L : Type 0} (rates : Rates R L) (origin : L) : L → Type 0 where
  new : Descends rates origin origin
  asked :
      {limiter : L} (now : ℕ)
      → Descends rates origin limiter
      → Descends rates origin (rates.allow now limiter).1

-- The rate and the burst last configured, as a request with a session and a positive rate sees them.
abbrev pub configured : {R L : Type 0} → Rates R L → R → ℕ → Option String → R × ℕ → R × ℕ
configured rates limit burst none last = last
configured rates limit burst (some id) last =
    if not (rates.is_positive limit) || (id == "") then last else (limit, burst)

-- The states that the middleware reaches, with the rate and the burst last configured.
pub data Reached {R L : Type 0} (rates : Rates R L) : R × ℕ → Limits R L → Type 0 where
  start : Reached rates (rates.zero_rate, 0) (initial_limits rates)
  request :
      {last : R × ℕ} {st : Limits R L} (limit : R) (burst now : ℕ) (session : Option String)
      → Reached rates last st
      → Reached rates
          (configured rates limit burst session last)
          (admit rates limit burst now session st).1
  tick :
      {last : R × ℕ} {st : Limits R L} (now : ℕ)
      → Reached rates last st
      → Reached rates last (reap rates now st)

-- Every session's limiter was made for the configuration, and the state knows it.
abbrev pub IsCurrent : {R L : Type 0} → Rates R L → R × ℕ → Limits R L → Type 0
IsCurrent {R} {L} rates last st =
    (st.current_limit ≡ last.0)
    × (st.current_burst ≡ last.1)
    × ((entry : String × RateLimiterEntry L)
        → Memᴰ entry st.limiters
        → Descends rates (rates.new_limiter last.0 last.1) entry.1.limiter)

module _ {R L : Type 0} (rates : Rates R L) where
  session_entry-Descends :
      (limit : R) (burst now : ℕ) (id : String) (st : Limits R L)
      (found : Option (RateLimiterEntry L))
      → IsCurrent rates (limit, burst) st
      → found ≡ lookup id st.limiters
      → Descends rates
          (rates.new_limiter limit burst)
          (session_entry rates limit burst now found).limiter
  unfolding session_entry
  session_entry-Descends limit burst now id st none ok e = new
  session_entry-Descends limit burst now id st (some entry) ok e =
      ok.2 (id, entry) (lookup-Mem id entry st.limiters (sym e))

  ask-IsCurrent :
      (id : String) (now : ℕ) (last : R × ℕ) (st : Limits R L) (entry : RateLimiterEntry L)
      → IsCurrent rates last st
      → Descends rates (rates.new_limiter last.0 last.1) entry.limiter
      → IsCurrent rates last (ask rates id now st entry).1
  unfolding ask
  ask-IsCurrent id now last st entry ok d = (
    ok.0,
    ok.1,
    λ x m.
        elim (insert-Mem id (record entry { limiter = (rates.allow now entry.limiter).1 })
          st.limiters x m) [
            | inl e ↦
                subst (λ y. Descends rates (rates.new_limiter last.0 last.1) y.1.limiter) (sym e)
                  (asked now d)
            | inr old ↦ ok.2 x old
          ],
  )

  refresh-IsCurrent :
      (laws : RatesLaws rates) (limit : R) (burst : ℕ) (last : R × ℕ) (st : Limits R L)
      → rates.is_positive limit ≡ true
      → IsCurrent rates last st
      → IsCurrent rates (limit, burst) (refresh rates limit burst st)
  unfolding refresh
  refresh-IsCurrent laws limit burst last st positive ok =
      elim (Bool-cases
        (not (rates.same limit st.current_limit) || not (eqb burst st.current_burst))) [
          | inl changed ↦ rw changed (refl, refl, λ entry d. elim d [ ])
          | inr kept ↦
              let rate : limit ≡ st.current_limit =
                laws.same-eq limit st.current_limit positive (ground (arith, kept)) in
              let size : burst ≡ st.current_burst = ground (arith, kept) in
              rw kept (sym rate, sym size, rw (rate ∙ ok.0, size ∙ ok.1) ok.2)
        ]

  admit-IsCurrent :
      (laws : RatesLaws rates) (limit : R) (burst now : ℕ) (session : Option String) (last : R × ℕ)
      (st : Limits R L)
      → IsCurrent rates last st
      → IsCurrent rates
          (configured rates limit burst session last)
          (admit rates limit burst now session st).1
  unfolding admit
  admit-IsCurrent laws limit burst now none last st ok = ok
  admit-IsCurrent laws limit burst now (some id) last st ok =
      elim (Bool-cases (not (rates.is_positive limit) || (id == ""))) [
        | inl off ↦ rw off ok
        | inr on ↦
            let fresh = refresh rates limit burst st in
            let found = lookup id fresh.limiters in
            let ok' = refresh-IsCurrent laws limit burst last st (ground (arith, on)) ok in
            rw on (
              ask-IsCurrent id now (limit, burst) fresh (session_entry rates limit burst now found)
                ok' (session_entry-Descends limit burst now id fresh found ok' refl))
      ]

  -- Where positive rates that pass the equality test are equal: in every state that requests and ticks
  -- of the reaper lead to, the middleware knows the rate and the
  -- burst that a limited request last found configured, and each session's limiter comes from a limiter
  -- that was made for that rate and that burst, by being asked and in no other way: a change of the
  -- configuration takes effect on all sessions with the next such request.
  pub Reached-IsCurrent :
      (laws : RatesLaws rates) (last : R × ℕ) (st : Limits R L)
      → Reached rates last st
      → IsCurrent rates last st
  unfolding initial_limits reap
  Reached-IsCurrent laws last st start = (refl, refl, λ entry d. elim d [ ])
  Reached-IsCurrent laws last st (request {last = before} {st = old} limit burst now session r) =
      admit-IsCurrent laws limit burst now session before old (Reached-IsCurrent laws before old r)
  Reached-IsCurrent laws last st (tick {last = before} {st = old} now r) =
      let ok = Reached-IsCurrent laws before old r in
      (
        ok.0,
        ok.1,
        λ entry d.
            ok.2 entry
              (mem-of-keep (λ e. not (ltb session_ttl (now - e.1.last_seen))) old.limiters entry
                d).0,
      )

  -- A tick of the reaper keeps exactly the sessions that were seen within the last ten minutes.
  pub reap_iff :
      (now : ℕ) (st : Limits R L) (entry : String × RateLimiterEntry L)
      → Memᴰ entry (reap rates now st).limiters
        ↔ (Memᴰ entry st.limiters × (now - entry.1.last_seen ≤ session_ttl))
  unfolding reap
  reap_iff now st entry =
      let test = λ (e : String × RateLimiterEntry L). not (ltb session_ttl (now - e.1.last_seen)) in
      (
        λ d. let (old, seen) = mem-of-keep test st.limiters entry d in (old, ground (arith, seen)),
        λ (old, seen). mem-keep test st.limiters entry old (ground (arith, seen)),
      )
