-- ===== src/Auth/State/Followed.antt =====
-- The OAuth state follows the configuration (setupSIGHUPHandler of
-- pkg/kubernetes-mcp-server/cmd/root.go).
use kube_mcp_server.Base.{
  String, true, false, ◌||◌, ◌⊎◌, inl, inr, Option, none, some, List, [], ◌∷◌, ◌!=◌, ◌≡◌, refl, ◌∙◌,
  arith, if◌then◌else◌, eq_iff, deref, Bool-cases,
}
use kube_mcp_server.Auth.{Snapshot}
use kube_mcp_server.Auth.State.{
  OauthConfig, slices_equal, has_provider_config_changed, has_well_known_config_changed,
  empty_snapshot, snapshot_from_config, update_snapshot, handle_sighup,
}

slices_equal-true : (xs ys : List String) → slices_equal xs ys ≡ true → xs ≡ ys
unfolding slices_equal
slices_equal-true [] [] h = refl
slices_equal-true [] (y ∷ ys) h = ground (arith, h)
slices_equal-true (x ∷ xs) [] h = ground (arith, h)
slices_equal-true (x ∷ xs) (y ∷ ys) h =
    let rest : xs ≡ ys = slices_equal-true xs ys (ground (arith, h)) in
    let first : x ≡ y = ground (arith, h, eq_iff x y) in cc

module _ {P : Type 0} where
  -- Snapshots between which neither test sees a change are the same, if they have one provider.
  unchanged-same :
      (s other : Snapshot P)
      → s.oidc_provider ≡ other.oidc_provider
      → has_provider_config_changed (some s) (some other) ≡ false
      → has_well_known_config_changed (some s) (some other) ≡ false
      → s ≡ other
  unfolding has_provider_config_changed has_well_known_config_changed
  unchanged-same s other provider h k =
      let url : s.authorization_url ≡ other.authorization_url =
        ground (arith, h, eq_iff s.authorization_url other.authorization_url) in
      let ca : s.certificate_authority ≡ other.certificate_authority =
        ground (arith, h, eq_iff s.certificate_authority other.certificate_authority) in
      let equal : slices_equal s.oauth_scopes other.oauth_scopes ≡ true = ground (arith, h, k) in
      let scopes : s.oauth_scopes ≡ other.oauth_scopes =
        slices_equal-true s.oauth_scopes other.oauth_scopes equal in
      let registration : s.disable_dynamic_client_registration
          ≡ other.disable_dynamic_client_registration =
        ground (arith, h, k) in
      cc

module _ {P C S : Type 0} (oauth_of : C → OauthConfig) (reload : C → S → Option String × C × S)
    (create : OauthConfig → String ⊎ Option P) where
  -- The snapshot of the configuration that keeps the provider of the moment.
  abbrev kept : OauthConfig → Option (Snapshot P) → Snapshot P
  kept cfg state = snapshot_from_config cfg (deref state empty_snapshot).oidc_provider

  -- What is read behind an update for which a provider can be made, if one is needed.
  abbrev stored : OauthConfig → Option P → Option (Snapshot P) → Snapshot P
  stored cfg made state =
      if has_provider_config_changed (some (deref state empty_snapshot)) (some (kept cfg state))
      then snapshot_from_config cfg made
      else kept cfg state

  update_snapshot-stored :
      (cfg : OauthConfig) (state : Option (Snapshot P)) (made : Option P)
      → create cfg ≡ inr made
      → deref (update_snapshot oauth_of reload create cfg state) empty_snapshot
        ≡ stored cfg made state
  unfolding snapshot_from_config
  update_snapshot-stored cfg state made h = by_provider (
      Bool-cases
        (has_provider_config_changed (some (deref state empty_snapshot)) (some (kept cfg state))))
    where
      provider_same : (deref state empty_snapshot).oidc_provider ≡ (kept cfg state).oidc_provider
      provider_same = refl

      Goal : Type 0
      Goal =
          deref (update_snapshot oauth_of reload create cfg state) empty_snapshot
          ≡ stored cfg made state

      by_well_known :
          has_provider_config_changed (some (deref state empty_snapshot)) (some (kept cfg state))
            ≡ false
          → (has_well_known_config_changed
                (some (deref state empty_snapshot))
                (some (kept cfg state))
              ≡ true)
            ⊎ (has_well_known_config_changed
                  (some (deref state empty_snapshot))
                  (some (kept cfg state))
                ≡ false)
          → Goal
      by_well_known e (inl k) = rw (update_snapshot, e, k) refl
      by_well_known e (inr k) =
          rw (update_snapshot, e, k)
            (unchanged-same (deref state empty_snapshot) (kept cfg state) provider_same e k)

      by_provider :
          (has_provider_config_changed (some (deref state empty_snapshot)) (some (kept cfg state))
              ≡ true)
            ⊎ (has_provider_config_changed
                  (some (deref state empty_snapshot))
                  (some (kept cfg state))
                ≡ false)
          → Goal
      by_provider (inl e) = rw (update_snapshot, e, h) refl
      by_provider (inr e) = by_well_known e (
          Bool-cases (
            has_well_known_config_changed (some (deref state empty_snapshot))
              (some (kept cfg state))))

  -- The snapshot for a configuration: the provider of the moment is kept where the URL and the CA stay.
  abbrev pub follows : OauthConfig → Option P → Snapshot P → Snapshot P
  follows cfg made current = record {
    oidc_provider =
        if current.authorization_url != cfg.authorization_url
          || current.certificate_authority != cfg.certificate_authority
        then made
        else current.oidc_provider;
    authorization_url = cfg.authorization_url;
    certificate_authority = cfg.certificate_authority;
    oauth_scopes = cfg.oauth_scopes;
    disable_dynamic_client_registration = cfg.disable_dynamic_client_registration;
  }

  stored-follows :
      (cfg : OauthConfig) (made : Option P) (state : Option (Snapshot P))
      → stored cfg made state ≡ follows cfg made (deref state empty_snapshot)
  unfolding snapshot_from_config has_provider_config_changed
  stored-follows cfg made state = by_change (
      Bool-cases
        (has_provider_config_changed (some (deref state empty_snapshot)) (some (kept cfg state))))
    where
      by_change :
          (has_provider_config_changed (some (deref state empty_snapshot)) (some (kept cfg state))
              ≡ true)
            ⊎ (has_provider_config_changed
                  (some (deref state empty_snapshot))
                  (some (kept cfg state))
                ≡ false)
          → stored cfg made state ≡ follows cfg made (deref state empty_snapshot)
      by_change (inl e) = rw e refl
      by_change (inr e) = rw e refl

  -- A SIGHUP with a configuration that is read and that the server takes over, and for which a provider
  -- can be made: the snapshot that is read afterwards has all four settings of the configuration as the
  -- server has left it, and its provider is the new one if the URL or the CA has changed, or else the
  -- old one.
  pub handle_sighup-follows :
      (read cfg : C) (server after : S) (state : Option (Snapshot P)) (made : Option P)
      → reload read server ≡ (none, cfg, after)
      → create (oauth_of cfg) ≡ inr made
      → deref (handle_sighup oauth_of reload create (inr read) server state).1 empty_snapshot
        ≡ follows (oauth_of cfg) made (deref state empty_snapshot)
  unfolding handle_sighup
  handle_sighup-follows read cfg server after state made h k = rw h (
      update_snapshot-stored (oauth_of cfg) state made k ∙ stored-follows (oauth_of cfg) made state)
