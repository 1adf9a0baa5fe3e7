-- ===== src/Mcp/Reload.antt =====
-- The server's reloading: `reloadItems`, `registerTool`, `registerPrompt`, `reloadToolsets`,
-- `ReloadConfiguration` and `Configuration.Toolsets` of pkg/mcp/mcp.go. The SDK's server keeps its
-- tools and its prompts apart; what it does, and what the provider does, are parameters.
pub mod Tracked
pub mod Configured
use Prim.Native.String as Str
use kube_mcp_server.Base.{
  String, Bool, true, false, not, ◌&&◌, ◌||◌, ◌⊎◌, inl, inr, Option, none, some, List, [], ◌∷◌,
  if◌then◌else◌, contains, keep, map, ◌≡◌, ◌==◌,
}
use kube_mcp_server.Config as Config
use kube_mcp_server.Config.{ConfigError, Surroundings}
use kube_mcp_server.Mcp.{Tool, Prompt, ServerTool, ServerPrompt, Toolset}
use kube_mcp_server.Mcp.Tools.{ToolConfig, Targeting, collect_applicable_tools}
use kube_mcp_server.Mcp.Prompts.{ConfiguredPrompt, PromptHandler, collect_applicable_prompts}

-- What the SDK's server does for one kind of item ("tool" or "prompt"). `has` tells whether an item of a name is served.
pub record ItemStore (T S : Type 0) : Type 0 where
  pub item_kind : String
  pub get_name : T → String
  pub add : T → S → S
  pub remove : List String → S → S
  pub has : S → String → Bool

-- The SDK's documented behaviour: an added item is served under its name, in the place of another
-- one of that name, and removing ends the service of the names given.
pub record ItemStoreLaws {T S : Type 0} (store : ItemStore T S) : Type 0 where
  pub has-add :
      (t : T) (s : S) (n : String)
      → store.has (store.add t s) n ≡ (store.get_name t == n) || store.has s n
  pub has-remove :
      (names : List String) (s : S) (n : String)
      → store.has (store.remove names s) n ≡ store.has s n && not (contains names n)

module _ {T S : Type 0} (store : ItemStore T S) where
  abbrev conversion_failed : String → String → String
  conversion_failed name e =
      Str.◌++◌ "failed to convert "
        (Str.◌++◌ store.item_kind (Str.◌++◌ " " (Str.◌++◌ name (Str.◌++◌ ": " e))))

  -- The error that ServerToolToGoSdkTool (gosdk.go) and ServerPromptToGoSdkPrompt (prompts_gosdk.go)
  -- return: there is none for any item.
  abbrev pub conversion_error : T → Option String
  conversion_error t = none

  -- registerTool and registerPrompt
  unfoldable pub register_item : T → S → Option String × S
  register_item t s = elim (conversion_error t) [
    | some e ↦ (some (conversion_failed (store.get_name t) e), s)
    | none ↦ (none, store.add t s)
  ]

  -- The loop over the items, which ends at the first that fails.
  unfoldable pub register_all : List T → S → Option String × S
  register_all [] s = (none, s)
  register_all (t ∷ ts) s = elim (register_item t s).0 [
    | some e ↦ (some e, (register_item t s).1)
    | none ↦ register_all ts (register_item t s).1
  ]

  abbrev pub enabled_or : List String → Option String → String ⊎ List String
  enabled_or enabled none = inr enabled
  enabled_or enabled (some e) = inl e

  unfoldable pub reload_items : List String → List T → S → (String ⊎ List String) × S
  unfolding register_all
  reload_items previous items s =
      let enabled = map (λ t. store.get_name t) items in
      let to_remove = keep (λ old. not (contains enabled old)) previous in
      let (failure, s') = register_all items (store.remove to_remove s) in
      (enabled_or enabled failure, s')

-- The settings that the server reads: those about tools, its own prompts, and those that validation
-- reads, the names of the toolsets among them.
pub record StaticConfig (R : Type 0) : Type 0 where
  pub tools : ToolConfig
  pub prompts : List ConfiguredPrompt
  pub settings : Config.StaticConfig R

-- What the server is built on: the registry of toolsets, the provider, the handler that lists the
-- targets, the two stores, the registered provider strategies, and the surroundings of validation.
pub record Services (R H V S P : Type 0) : Type 0 where
  pub toolset_from_string : String → V → Toolset H PromptHandler
  pub targeting : V → Targeting
  pub watch_targets : V → V
  pub list_handler : String → String → H
  pub tools : ItemStore (ServerTool H) S
  pub prompts : ItemStore (ServerPrompt PromptHandler) P
  pub strategies : List String
  pub surroundings : Surroundings R

-- Why a reload of the configuration fails.
pub data ReloadError : Type 0 where
  rejected : ConfigError → ReloadError
  toolsets_failed : String → ReloadError

-- `toolsets` is the configuration's cache.
pub record Server (R H V S P : Type 0) : Type 0 where
  pub config : StaticConfig R
  pub toolsets : Option (List (V → Toolset H PromptHandler))
  pub enabled_tools : List String
  pub enabled_prompts : List String
  pub sdk_tools : S
  pub sdk_prompts : P
  pub provider : V

module _ {R H V S P : Type 0} (env : Services R H V S P) where
  -- Configuration.Toolsets: the toolsets, from the cache if it is filled.
  unfoldable pub toolsets_of : Server R H V S P → List (V → Toolset H PromptHandler)
  toolsets_of server = elim server.toolsets [
    | some cached ↦ cached
    | none ↦ map (λ name. env.toolset_from_string name) server.config.settings.toolsets
  ]

  abbrev pub offered : Server R H V S P → List (Toolset H PromptHandler)
  offered server = map (λ f. f server.provider) (toolsets_of server)

  unfoldable pub applicable_tools : Server R H V S P → List (ServerTool H)
  unfolding toolsets_of
  applicable_tools server =
      collect_applicable_tools env.list_handler server.config.tools (env.targeting server.provider)
        (offered server)

  unfoldable pub applicable_prompts : Server R H V S P → List (ServerPrompt PromptHandler)
  unfolding toolsets_of
  applicable_prompts server =
      collect_applicable_prompts (env.targeting server.provider) (offered server)
        server.config.prompts

  -- Behind the two reloads: the new names are kept, and the provider is watched again.
  abbrev pub finish_prompts :
      Server R H V S P → List String → (String ⊎ List String) × P → Option String × Server R H V S P
  finish_prompts server new_tools (inl e, p) = (some e, record server { sdk_prompts = p })
  finish_prompts server new_tools (inr new_prompts, p) = (
    none,
    record server {
      enabled_tools = new_tools;
      enabled_prompts = new_prompts;
      sdk_prompts = p;
      provider = env.watch_targets server.provider;
    },
  )

  -- Behind the tools' reload: the prompts collected before it are reloaded next.
  abbrev pub finish_tools :
      Server R H V S P
      → List (ServerPrompt PromptHandler)
      → (String ⊎ List String) × S
      → Option String × Server R H V S P
  finish_tools server prompts (inl e, s) = (some e, record server { sdk_tools = s })
  finish_tools server prompts (inr new_tools, s) =
      finish_prompts (record server { sdk_tools = s }) new_tools
        (reload_items env.prompts server.enabled_prompts prompts server.sdk_prompts)

  -- The cache is filled while the items are collected.
  abbrev pub fill_toolsets : Server R H V S P → Server R H V S P
  fill_toolsets server = record server { toolsets = some (toolsets_of server) }

  unfoldable pub reload_toolsets : Server R H V S P → Option String × Server R H V S P
  unfolding toolsets_of applicable_tools applicable_prompts reload_items
  reload_toolsets server =
      finish_tools (fill_toolsets server) (applicable_prompts server)
        (reload_items env.tools server.enabled_tools (applicable_tools server) server.sdk_tools)

  abbrev pub wrap_reload : Option String × Server R H V S P → Option ReloadError × Server R H V S P
  wrap_reload (none, server) = (none, server)
  wrap_reload (some e, server) = (some (toolsets_failed e), server)

  -- The new configuration with the strategies that are known, and its validation, which also trims it.
  abbrev pub validated : StaticConfig R → Option ConfigError × StaticConfig R
  validated new_config =
      let (verdict, settings) =
        Config.validate env.surroundings
          (record (new_config.settings) { provider_strategies = env.strategies }) in
      (verdict, record new_config { settings = settings })

  -- With the verdict of the new configuration's validation.
  abbrev pub apply_configuration :
      Option ConfigError × StaticConfig R → Server R H V S P → Option ReloadError × Server R H V S P
  apply_configuration (some e, new_config) server = (some (rejected e), server)
  apply_configuration (none, new_config) server =
      wrap_reload (reload_toolsets (record server { config = new_config; toolsets = none }))

  unfoldable pub reload_configuration :
      StaticConfig R → Server R H V S P → Option ReloadError × Server R H V S P
  unfolding reload_toolsets
  reload_configuration new_config server = apply_configuration (validated new_config) server
