-- ===== src/Kiali/Summary/Described.antt =====
-- The entities of namespaces by their health, described without accumulators, and what the loop over
-- the entities of a namespace makes of them (pkg/kiali/health_calculation.go).
use kube_mcp_server.Base.{
  ℕ, ◌+◌, String, Bool, ◌≡◌, refl, ap, ◌∙◌, List, [], ◌∷◌, ◌++◌, arith, if◌then◌else◌, eqb, length,
  deref,
}
use kube_mcp_server.Base.Assoc.{Assoc, lookup}
use kube_mcp_server.Kiali.{
  Floats, Status, unhealthy, degraded, not_ready, healthy, unknown, Issue, HealthCounts,
  UnhealthyEntity,
}
use kube_mcp_server.Kiali.Summary.{
  no_counts, tally, Progress, note_unhealthy, process_entity, process_entities,
}

abbrev status_number : Status → ℕ
status_number unhealthy = 0
status_number degraded = 1
status_number not_ready = 2
status_number healthy = 3
status_number unknown = 4

abbrev pub is_status : Status → Status → Bool
is_status s t = eqb (status_number s) (status_number t)

pub append_assoc : {A : Type 0} (xs ys zs : List A) → (xs ++ ys) ++ zs ≡ xs ++ (ys ++ zs)
append_assoc [] ys zs = refl
append_assoc (x ∷ xs) ys zs = ap (λ l. x ∷ l) (append_assoc xs ys zs)

pub append_nil : {A : Type 0} (xs : List A) → xs ++ [] ≡ xs
append_nil [] = refl
append_nil (x ∷ xs) = ap (λ l. x ∷ l) (append_nil xs)

-- The entities that a map holds for a namespace.
abbrev pub entities_in : {E : Type 0} → String → Assoc (Assoc E) → Assoc E
entities_in ns m = deref (lookup ns m) []

-- A number of the entities of each namespace, summed up.
abbrev pub over : {E : Type 0} → (Assoc E → ℕ) → List String → Assoc (Assoc E) → ℕ
over f [] m = 0
over f (ns ∷ names) m = f (entities_in ns m) + over f names m

module _ {F E : Type 0} (evaluate : E → Status × Issue F) where
  -- How many entities are evaluated to a status.
  abbrev pub with_status : Status → Assoc E → ℕ
  with_status s [] = 0
  with_status s (e ∷ es) = (if is_status s (evaluate e.1).0 then 1 else 0) + with_status s es

  abbrev pub Adds : Assoc E → HealthCounts → HealthCounts → Type 0
  Adds es before after =
      (after.total ≡ before.total + length es)
      × (after.healthy ≡ before.healthy + with_status healthy es)
      × (after.degraded ≡ before.degraded + with_status degraded es)
      × (after.unhealthy ≡ before.unhealthy + with_status unhealthy es)
      × (after.not_ready ≡ before.not_ready + with_status not_ready es)

  -- The counts of a kind over namespaces.
  abbrev pub Sums : List String → Assoc (Assoc E) → HealthCounts → HealthCounts → Type 0
  Sums names m before after =
      (after.total ≡ before.total + over (λ es. length es) names m)
      × (after.healthy ≡ before.healthy + over (with_status healthy) names m)
      × (after.degraded ≡ before.degraded + over (with_status degraded) names m)
      × (after.unhealthy ≡ before.unhealthy + over (with_status unhealthy) names m)
      × (after.not_ready ≡ before.not_ready + over (with_status not_ready) names m)

  -- The counts are the numbers of the entities with their status.
  abbrev pub Counts : List String → Assoc (Assoc E) → HealthCounts → Type 0
  Counts names m counts =
      (counts.total ≡ over (λ es. length es) names m)
      × (counts.healthy ≡ over (with_status healthy) names m)
      × (counts.degraded ≡ over (with_status degraded) names m)
      × (counts.unhealthy ≡ over (with_status unhealthy) names m)
      × (counts.not_ready ≡ over (with_status not_ready) names m)

  tally-Adds :
      (s : Status) (n : String) (e : E) (es : Assoc E) (before after : HealthCounts)
      → (evaluate e).0 ≡ s
      → Adds es (tally s before) after
      → Adds ((n, e) ∷ es) before after
  unfolding tally
  tally-Adds unhealthy n e es before after h ok = rw h (ground (arith, ok))
  tally-Adds degraded n e es before after h ok = rw h (ground (arith, ok))
  tally-Adds not_ready n e es before after h ok = rw h (ground (arith, ok))
  tally-Adds healthy n e es before after h ok = rw h (ground (arith, ok))
  tally-Adds unknown n e es before after h ok = rw h (ground (arith, ok))

  pub Sums-next :
      (ns : String) (names : List String) (m : Assoc (Assoc E)) (a b c : HealthCounts)
      → Adds (entities_in ns m) a b
      → Sums names m b c
      → Sums (ns ∷ names) m a c
  Sums-next ns names m a b c h k = (
    omega (arith, h.0, k.0),
    omega (arith, h.1, k.1),
    omega (arith, h.2, k.2),
    omega (arith, h.3, k.3),
    omega (arith, h.4, k.4),
  )

  pub Sums-Counts :
      (names : List String) (m : Assoc (Assoc E)) (c : HealthCounts)
      → Sums names m no_counts c
      → Counts names m c
  Sums-Counts names m c h = (
    omega (arith, h.0),
    omega (arith, h.1),
    omega (arith, h.2),
    omega (arith, h.3),
    omega (arith, h.4),
  )

module _ {F E : Type 0} (fl : Floats F) (kind : String) (evaluate : E → Status × Issue F)
    (rate : E → F) where
  -- The entities of a namespace that are unhealthy, with their issue and their error rate.
  abbrev pub unhealthy_in : String → Assoc E → List (UnhealthyEntity F)
  unhealthy_in ns [] = []
  unhealthy_in ns (e ∷ es) =
      let rest = unhealthy_in ns es in
      if is_status unhealthy (evaluate e.1).0
      then record {
        kind = kind;
        namespace = ns;
        name = e.0;
        status = unhealthy;
        issue = (evaluate e.1).1;
        error_rate = rate e.1;
      }
        ∷ rest
      else rest

  note-unhealthy_in :
      (r : Status × Issue F) (ns n : String) (e : E) (es : Assoc E)
      (found : List (UnhealthyEntity F))
      → evaluate e ≡ r
      → note_unhealthy kind ns n (rate e) r found ++ unhealthy_in ns es
        ≡ found ++ unhealthy_in ns ((n, e) ∷ es)
  note-unhealthy_in (unhealthy, issue) ns n e es found h = rw h (
      append_assoc found
        (record {
          kind = kind;
          namespace = ns;
          name = n;
          status = unhealthy;
          issue = issue;
          error_rate = rate e;
        }
          ∷ [])
        (unhealthy_in ns es))
  note-unhealthy_in (degraded, issue) ns n e es found h = rw h refl
  note-unhealthy_in (not_ready, issue) ns n e es found h = rw h refl
  note-unhealthy_in (healthy, issue) ns n e es found h = rw h refl
  note-unhealthy_in (unknown, issue) ns n e es found h = rw h refl

  pub process_entities-Adds :
      (ns : String) (es : Assoc E) (p : Progress F)
      → let after = process_entities fl kind evaluate rate ns es p in
        Adds evaluate es p.mesh after.mesh × (after.found ≡ p.found ++ unhealthy_in ns es)
  unfolding process_entities process_entity
  process_entities-Adds ns [] p = (ground arith, ground (arith, append_nil p.found))
  process_entities-Adds ns ((n, e) ∷ es) p =
      let next = process_entity fl kind evaluate rate ns (n, e) p in
      let (adds, found) = process_entities-Adds ns es next in
      (
        tally-Adds evaluate (evaluate e).0 n e es p.mesh
            (process_entities fl kind evaluate rate ns es next).mesh refl adds,
        found ∙ note-unhealthy_in (evaluate e) ns n e es p.found refl,
      )
