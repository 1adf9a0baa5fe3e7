-- ===== src/Mcp/Reload/Configured.antt =====
-- What a reload of the toolsets and of the configuration leaves behind (pkg/mcp/mcp.go).
use kube_mcp_server.Base.{
  String, ◌≡◌, refl, sym, ap, ◌∙◌, ◌≢◌, ◌⊎◌, inl, inr, Option, none, some, List, arith, contains,
  map,
}
use kube_mcp_server.Config.{ConfigError}
use kube_mcp_server.Mcp.{ServerTool, ServerPrompt}
use kube_mcp_server.Mcp.Prompts.{PromptHandler}
use kube_mcp_server.Mcp.Reload.{
  ItemStoreLaws, reload_items, StaticConfig, Services, Server, applicable_tools, applicable_prompts,
  finish_tools, finish_prompts, fill_toolsets, reload_toolsets, wrap_reload, validated, ReloadError,
  apply_configuration, reload_configuration,
}
use kube_mcp_server.Mcp.Reload.Tracked.{reload_items-exact, reload_items-inr}

-- The clients are served exactly the items whose names the server has noted.
pub record IsExact {R H V S P : Type 0} (env : Services R H V S P) (server : Server R H V S P)
    : Type 0 where
  pub tools_exact :
      (n : String) → env.tools.has server.sdk_tools n ≡ contains server.enabled_tools n
  pub prompts_exact :
      (n : String) → env.prompts.has server.sdk_prompts n ≡ contains server.enabled_prompts n

module _ {R H V S P : Type 0} (env : Services R H V S P) where
  finish_prompts-none :
      (server : Server R H V S P) (tools : List String) (r : (String ⊎ List String) × P)
      → (finish_prompts env server tools r).0 ≡ none
      → (names : List String) × (r.0 ≡ inr names)
        × ((finish_prompts env server tools r).1.enabled_prompts ≡ names)
        × ((finish_prompts env server tools r).1.enabled_tools ≡ tools)
        × ((finish_prompts env server tools r).1.sdk_prompts ≡ r.1)
        × ((finish_prompts env server tools r).1.sdk_tools ≡ server.sdk_tools)
        × ((finish_prompts env server tools r).1.config ≡ server.config)
  finish_prompts-none server tools (inl e, p) ok = ground (arith, ok)
  finish_prompts-none server tools (inr names, p) ok = (names, refl, refl, refl, refl, refl, refl)

  -- What a successful reload establishes for tools and prompts that were to be served.
  abbrev pub Reloaded :
      List (ServerTool H)
      → List (ServerPrompt PromptHandler)
      → StaticConfig R
      → Server R H V S P
      → Type 0
  Reloaded tools prompts config server =
      (server.config ≡ config)
      × (server.enabled_tools ≡ map (λ t. env.tools.get_name t) tools)
      × (server.enabled_prompts ≡ map (λ p. env.prompts.get_name p) prompts)
      × IsExact env server

module _ {R H V S P : Type 0} (env : Services R H V S P) (tool_laws : ItemStoreLaws env.tools)
    (prompt_laws : ItemStoreLaws env.prompts) where
  finish_tools-none :
      (server : Server R H V S P) (tools : List (ServerTool H))
      (prompts : List (ServerPrompt PromptHandler)) (r : (String ⊎ List String) × S)
      → r ≡ reload_items env.tools server.enabled_tools tools server.sdk_tools
      → IsExact env server
      → (finish_tools env server prompts r).0 ≡ none
      → Reloaded env tools prompts server.config (finish_tools env server prompts r).1
  finish_tools-none server tools prompts (inl e, s) made exact ok = ground (arith, ok)
  finish_tools-none server tools prompts (inr names, s) made exact ok =
      let (pnames, p_ok, ep, et, sp, st, ec) =
        finish_prompts-none env (record server { sdk_tools = s }) names
          (reload_items env.prompts server.enabled_prompts prompts server.sdk_prompts) ok in
      let (t_same, t_has) =
        reload_items-exact env.tools tool_laws server.enabled_tools names tools server.sdk_tools
          (sym (ap (λ x. x.0) made)) (λ n h. sym (exact.tools_exact n) ∙ h) in
      let (p_same, p_has) =
        reload_items-exact env.prompts prompt_laws server.enabled_prompts pnames prompts
          server.sdk_prompts p_ok (λ n h. sym (exact.prompts_exact n) ∙ h) in
      (
        ec,
        et ∙ t_same,
        ep ∙ p_same,
        record {
          tools_exact = λ n.
              ap (λ x. env.tools.has x n) (st ∙ ap (λ x. x.1) made)
              ∙ t_has n
              ∙ ap (λ l. contains l n) (sym et);
          prompts_exact =
              λ n. ap (λ x. env.prompts.has x n) sp ∙ p_has n ∙ ap (λ l. contains l n) (sym ep);
        },
      )

  pub reload_toolsets-Reloaded :
      (server : Server R H V S P)
      → IsExact env server
      → (reload_toolsets env server).0 ≡ none
      → Reloaded env
          (applicable_tools env server)
          (applicable_prompts env server)
          server.config
          (reload_toolsets env server).1
  unfolding reload_toolsets
  reload_toolsets-Reloaded server exact ok =
      finish_tools-none (fill_toolsets env server) (applicable_tools env server)
        (applicable_prompts env server)
        (reload_items env.tools server.enabled_tools (applicable_tools env server) server.sdk_tools)
        refl (record { tools_exact = exact.tools_exact; prompts_exact = exact.prompts_exact }) ok

module _ {R H V S P : Type 0} (env : Services R H V S P) where
  finish_prompts-inr :
      (server : Server R H V S P) (tools names : List String) (r : (String ⊎ List String) × P)
      → r.0 ≡ inr names
      → (finish_prompts env server tools r).0 ≡ none
  finish_prompts-inr server tools names (inl e, p) h = ground (arith, h)
  finish_prompts-inr server tools names (inr new, p) h = refl

  finish_tools-inr :
      (server : Server R H V S P) (prompts : List (ServerPrompt PromptHandler))
      (names : List String) (r : (String ⊎ List String) × S)
      → r.0 ≡ inr names
      → (finish_tools env server prompts r).0 ≡ none
  finish_tools-inr server prompts names (inl e, s) h = ground (arith, h)
  finish_tools-inr server prompts names (inr new, s) h =
      finish_prompts-inr (record server { sdk_tools = s }) new (map env.prompts.get_name prompts)
        (reload_items env.prompts server.enabled_prompts prompts server.sdk_prompts)
        (reload_items-inr env.prompts server.enabled_prompts prompts server.sdk_prompts)

  reload_toolsets-none : (server : Server R H V S P) → (reload_toolsets env server).0 ≡ none
  unfolding reload_toolsets
  reload_toolsets-none server =
      let tools = applicable_tools env server in
      finish_tools-inr (fill_toolsets env server) (applicable_prompts env server)
        (map env.tools.get_name tools)
        (reload_items env.tools server.enabled_tools tools server.sdk_tools)
        (reload_items-inr env.tools server.enabled_tools tools server.sdk_tools)

  wrap_reload-none :
      (r : Option String × Server R H V S P) → r.0 ≡ none → (wrap_reload env r).0 ≡ none
  wrap_reload-none (none, server) h = refl
  wrap_reload-none (some e, server) h = ground (arith, h)

  apply-fails :
      (v : Option ConfigError × StaticConfig R) (server : Server R H V S P) (e : ReloadError)
      → (apply_configuration env v server).0 ≡ some e
      → (v.0 ≢ none) × ((apply_configuration env v server).1 ≡ server)
  apply-fails (some x, new_config) server e fails = (λ p. ground (arith, p), refl)
  apply-fails (none, new_config) server e fails =
      let fresh = record server { config = new_config; toolsets = none } in
      let fine = wrap_reload-none (reload_toolsets env fresh) (reload_toolsets-none fresh) in
      ground (arith, fine, fails)

  -- A reload of the configuration fails only if validation refuses the configuration, and it leaves
  -- the whole server as it was: its configuration, its cache of toolsets, the noted names, and what it
  -- serves.
  pub reload_configuration-fails :
      (new_config : StaticConfig R) (server : Server R H V S P) (e : ReloadError)
      → (reload_configuration env new_config server).0 ≡ some e
      → ((validated env new_config).0 ≢ none)
        × ((reload_configuration env new_config server).1 ≡ server)
  unfolding reload_configuration
  reload_configuration-fails new_config server e fails =
      apply-fails (validated env new_config) server e fails
