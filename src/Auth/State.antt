-- ===== src/Auth/State.antt =====
-- The shared OAuth state (pkg/oauth/state.go) and what the handler of SIGHUP makes of it
-- (setupSIGHUPHandler of pkg/kubernetes-mcp-server/cmd/root.go). Reading the configuration, reloading
-- the server and the OIDC library are parameters; reloading validates the configuration, which trims
-- white space in it in place, so that the reload gives the configuration that is left as well.
pub mod Followed
use kube_mcp_server.Base.{
  String, Bool, true, false, not, ◌&&◌, ◌||◌, ◌⊎◌, inl, inr, Option, none, some, List, [], ◌∷◌,
  ◌==◌, ◌!=◌, if◌then◌else◌, deref,
}
use kube_mcp_server.Auth.{Snapshot}

-- The settings that a snapshot takes over.
pub record OauthConfig : Type 0 where
  pub authorization_url : String
  pub certificate_authority : String
  pub oauth_scopes : List String
  pub disable_dynamic_client_registration : Bool

-- slices.Equal
unfoldable pub slices_equal : List String → List String → Bool
slices_equal [] [] = true
slices_equal [] (y ∷ ys) = false
slices_equal (x ∷ xs) [] = false
slices_equal (x ∷ xs) (y ∷ ys) = x == y && slices_equal xs ys

-- A snapshot's provider stands for the pair of the OIDC provider and the HTTP client.
module _ {P : Type 0} where
  abbrev pub provider_config_differs : Snapshot P → Snapshot P → Bool
  provider_config_differs s other =
      s.authorization_url != other.authorization_url
      || s.certificate_authority != other.certificate_authority

  -- HasProviderConfigChanged: a snapshot that is nil differs from one that is not.
  unfoldable pub has_provider_config_changed : Option (Snapshot P) → Option (Snapshot P) → Bool
  has_provider_config_changed none none = false
  has_provider_config_changed none (some other) = true
  has_provider_config_changed (some s) none = true
  has_provider_config_changed (some s) (some other) = provider_config_differs s other

  -- HasWellKnownConfigChanged
  unfoldable pub has_well_known_config_changed : Option (Snapshot P) → Option (Snapshot P) → Bool
  unfolding has_provider_config_changed slices_equal
  has_well_known_config_changed none none = false
  has_well_known_config_changed none (some other) = true
  has_well_known_config_changed (some s) none = true
  has_well_known_config_changed (some s) (some other) =
      if has_provider_config_changed (some s) (some other)
      then true
      else if not (
          s.disable_dynamic_client_registration && other.disable_dynamic_client_registration
          || not s.disable_dynamic_client_registration
            && not other.disable_dynamic_client_registration)
      then true
      else not (slices_equal s.oauth_scopes other.oauth_scopes)

  -- &Snapshot{}
  abbrev pub empty_snapshot : Snapshot P
  empty_snapshot = record {
    oidc_provider = none;
    authorization_url = "";
    certificate_authority = "";
    oauth_scopes = [];
    disable_dynamic_client_registration = false;
  }

  -- SnapshotFromConfig
  unfoldable pub snapshot_from_config : OauthConfig → Option P → Snapshot P
  snapshot_from_config cfg provider = record {
    oidc_provider = provider;
    authorization_url = cfg.authorization_url;
    certificate_authority = cfg.certificate_authority;
    oauth_scopes = cfg.oauth_scopes;
    disable_dynamic_client_registration = cfg.disable_dynamic_client_registration;
  }

  -- CreateOIDCProviderAndClient: without a URL there is no provider. The transport that trusts the CA
  -- file, or the error of reading it, and the discovery are parameters.
  unfoldable pub create_oidc_provider :
      (String → String ⊎ String) → (String → String → String ⊎ P) → OauthConfig → String ⊎ Option P
  create_oidc_provider pool discover cfg =
      if cfg.authorization_url == ""
      then inr none
      else if cfg.certificate_authority != ""
      then elim (pool cfg.certificate_authority) [
        | inl e ↦ inl e
        | inr roots ↦ elim (discover roots cfg.authorization_url) [
          | inl e ↦ inl e
          | inr p ↦ inr (some p)
        ]
      ]
      else elim (discover "" cfg.authorization_url) [ inl e ↦ inl e | inr p ↦ inr (some p) ]

module _ {P C S : Type 0} (oauth_of : C → OauthConfig) (reload : C → S → Option String × C × S)
    (create : OauthConfig → String ⊎ Option P) where
  -- What is stored for a new provider, or for its error.
  abbrev pub store_created :
      OauthConfig → String ⊎ Option P → Option (Snapshot P) → Option (Snapshot P)
  store_created cfg (inl e) state = state
  store_created cfg (inr provider) state = some (snapshot_from_config cfg provider)

  abbrev pub update_snapshot : OauthConfig → Option (Snapshot P) → Option (Snapshot P)
  update_snapshot cfg state =
      let current = deref state empty_snapshot in
      let fresh = snapshot_from_config cfg current.oidc_provider in
      if has_provider_config_changed (some current) (some fresh)
      then store_created cfg (create cfg) state
      else if has_well_known_config_changed (some current) (some fresh)
      then some fresh
      else state

  abbrev pub applied : Option String × C × S → Option (Snapshot P) → S × Option (Snapshot P)
  applied (some e, cfg, server) state = (server, state)
  applied (none, cfg, server) state = (server, update_snapshot (oauth_of cfg) state)

  -- One SIGHUP, with what config.Read gives.
  unfoldable pub handle_sighup : String ⊎ C → S → Option (Snapshot P) → S × Option (Snapshot P)
  unfolding snapshot_from_config has_provider_config_changed has_well_known_config_changed
  handle_sighup (inl e) server state = (server, state)
  handle_sighup (inr cfg) server state = applied (reload cfg server) state
