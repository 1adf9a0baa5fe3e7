-- ===== src/Mcp/RateLimit/Requests.antt =====
-- Which requests go on, and what they do to other sessions (`rateLimitingMiddleware` of pkg/mcp/middleware.go).

use kube_mcp_server.Base.{
  ℕ, String, ◌≡◌, refl, sym, ap, ◌∙◌, ◌≢◌, ◌↔◌, ◌⊎◌, inl, inr, true, false, not, ◌&&◌, ◌||◌, Option,
  none, some, arith, eq_iff, ◌==◌, if◌then◌else◌, eqb, Bool-cases, eq-false_of_ne,
}
use kube_mcp_server.Base.Assoc.{lookup, lookup-insert}
use kube_mcp_server.Mcp.RateLimit.{
  Rates, RateLimiterEntry, Limits, refresh, session_entry, ask, admit,
}

module _ {R L : Type 0} (rates : Rates R L) where
  abbrev pub limiter_of : R → ℕ → Option (RateLimiterEntry L) → L
  limiter_of limit burst none = rates.new_limiter limit burst
  limiter_of limit burst (some entry) = entry.limiter

  -- The limiter that a request of a session is put to: the session's own one, if the configuration
  -- is that of the last request and the session is known, and otherwise a new one.
  abbrev pub limiter_for : R → ℕ → String → Limits R L → L
  limiter_for limit burst id st =
      if rates.same limit st.current_limit && eqb burst st.current_burst
      then limiter_of limit burst (lookup id st.limiters)
      else rates.new_limiter limit burst

  pub admit-asked :
      (limit : R) (burst now : ℕ) (id : String) (st : Limits R L)
      → rates.is_positive limit ≡ true
      → id ≢ ""
      → admit rates limit burst now (some id) st
        ≡ ask rates id now (refresh rates limit burst st) (
            session_entry rates limit burst now (lookup id (refresh rates limit burst st).limiters))
  unfolding admit
  admit-asked limit burst now id st positive named = rw (positive, eq-false_of_ne id "" named) refl

  session_entry-limiter :
      (limit : R) (burst now : ℕ) (o : Option (RateLimiterEntry L))
      → (session_entry rates limit burst now o).limiter ≡ limiter_of limit burst o
  unfolding session_entry
  session_entry-limiter limit burst now none = refl
  session_entry-limiter limit burst now (some entry) = refl

  refreshed_limiter :
      (limit : R) (burst : ℕ) (id : String) (st : Limits R L)
      → limiter_of limit burst (lookup id (refresh rates limit burst st).limiters)
        ≡ limiter_for limit burst id st
  unfolding refresh lookup
  refreshed_limiter limit burst id st = ground arith

  -- Rates are not limited, or the session has no identifier, or its limiter allows the request.
  abbrev pub Passes : R → ℕ → ℕ → Option String → Limits R L → Type 0
  Passes limit burst now none st = Unit
  Passes limit burst now (some id) st =
      (rates.is_positive limit ≡ false)
      ⊎ ((id ≡ "") ⊎ ((rates.allow now (limiter_for limit burst id st)).0 ≡ true))

  ask-allowed :
      (limit : R) (burst now : ℕ) (id : String) (st : Limits R L)
      → rates.is_positive limit ≡ true
      → id ≢ ""
      → (admit rates limit burst now (some id) st).0
        ≡ (rates.allow now (limiter_for limit burst id st)).0
  unfolding ask
  ask-allowed limit burst now id st positive named =
      let found = lookup id (refresh rates limit burst st).limiters in
      ap (λ r. r.0) (admit-asked limit burst now id st positive named)
      ∙ ap (λ l. (rates.allow now l).0)
          (session_entry-limiter limit burst now found ∙ refreshed_limiter limit burst id st)

  pub unlimited :
      (limit : R) (burst now : ℕ) (id : String) (st : Limits R L)
      → (rates.is_positive limit ≡ false) ⊎ (id ≡ "")
      → admit rates limit burst now (some id) st ≡ (true, st)
  unfolding admit
  unlimited limit burst now id st (inl off) = rw off refl
  unlimited limit burst now id st (inr unnamed) = elim (Bool-cases (rates.is_positive limit)) [
    | inl on ↦ rw (on, unnamed) refl
    | inr off ↦ rw off refl
  ]

  -- A request goes on exactly if rates are not limited, or it has no session or one without an
  -- identifier, or the limiter of its session allows it; for a new session, and for every session
  -- after a change of the rate or the burst, that is a new limiter.
  pub admit_iff :
      (limit : R) (burst now : ℕ) (session : Option String) (st : Limits R L)
      → ((admit rates limit burst now session st).0 ≡ true) ↔ Passes limit burst now session st
  unfolding admit
  admit_iff limit burst now none st = (λ _. record {}, λ _. refl)
  admit_iff limit burst now (some id) st = elim (Bool-cases (rates.is_positive limit)) [
    | inr off ↦ (λ _. inl off, λ _. ap (λ r. r.0) (unlimited limit burst now id st (inl off)))
    | inl on ↦ elim (Bool-cases (id == "")) [
      | inl unnamed ↦ (
        λ _. inr (inl ((eq_iff id "").0 unnamed)),
        λ _. ap (λ r. r.0) (unlimited limit burst now id st (inr ((eq_iff id "").0 unnamed))),
      )
      | inr named ↦
          let verdict =
            ask-allowed limit burst now id st on (λ e. ground (arith, named, (eq_iff id "").1 e)) in
          (
            λ h. inr (inr (sym verdict ∙ h)),
            λ h. verdict ∙ ground (arith, h, on, named, eq_iff id ""),
          )
    ]
  ]

  refresh-same :
      (limit : R) (burst : ℕ) (st : Limits R L)
      → rates.same limit st.current_limit ≡ true
      → burst ≡ st.current_burst
      → refresh rates limit burst st ≡ st
  unfolding refresh
  refresh-same limit burst st same_limit same_burst = ground (arith, same_limit, same_burst)

  ask-lookup_other :
      (now : ℕ) (id other : String) (st : Limits R L) (entry : RateLimiterEntry L)
      → id ≢ other
      → lookup other (ask rates id now st entry).1.limiters ≡ lookup other st.limiters
  unfolding ask
  ask-lookup_other now id other st entry differ =
      let next = record entry { limiter = (rates.allow now entry.limiter).1 } in
      lookup-insert id other next st.limiters ∙ ground (arith, eq_iff id other, differ)

  refreshed-other :
      (limit : R) (burst now : ℕ) (id other : String) (st : Limits R L)
      → refresh rates limit burst st ≡ st
      → id ≢ other
      → lookup other
          (ask rates id now (refresh rates limit burst st) (
            session_entry rates limit burst now
              (lookup id (refresh rates limit burst st).limiters))).1.limiters
        ≡ lookup other st.limiters
  refreshed-other limit burst now id other st same differ =
      let fresh = refresh rates limit burst st in
      ask-lookup_other now id other fresh
        (session_entry rates limit burst now (lookup id fresh.limiters)) differ
      ∙ ap (λ s. lookup other s.limiters) same

  -- As long as the configuration is the same, a request of one session leaves the entry of every
  -- other session as it was.
  pub admit-lookup_other :
      (limit : R) (burst now : ℕ) (id other : String) (st : Limits R L)
      → rates.same limit st.current_limit ≡ true
      → burst ≡ st.current_burst
      → id ≢ other
      → lookup other (admit rates limit burst now (some id) st).1.limiters
        ≡ lookup other st.limiters
  unfolding admit ask refresh
  admit-lookup_other limit burst now id other st same_limit same_burst differ =
      elim (Bool-cases (not (rates.is_positive limit) || (id == ""))) [
        | inl passed ↦ rw passed refl
        | inr limited ↦ rw limited (
            refreshed-other limit burst now id other st
              (refresh-same limit burst st same_limit same_burst) differ)
      ]
