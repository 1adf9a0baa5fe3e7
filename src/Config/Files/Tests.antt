-- ===== src/Config/Files/Tests.antt =====
-- Files of configuration on concrete inputs. A leaf is a text, and the text of a file its name.

use kube_mcp_server.Base.{
  String, true, false, ◌⊎◌, inl, inr, none, some, [], ◌∷◌, ◌≡◌, refl, ◌==◌, if◌then◌else◌,
}
use kube_mcp_server.Base.Assoc.{Assoc}
use kube_mcp_server.Confirmation.{ConfirmationRule, is_tool_level, is_kube_level}
use kube_mcp_server.Config.Files.{
  leaf, table, Fields, end, field, get, deep_merge, found, Files, get_sorted_config_files,
  read_and_merge_files, merge_files, read_files,
}
use kube_mcp_server.Config.Files.Toml.{ExtendedConfig, DecodedConfig, invalid_fallback, read_toml}
use kube_mcp_server.Config.Files.Merged.{
  HasUniqueKeys, read_leaf, IsOpen, Sets, Leaves, read_and_merge_files-last,
}
use kube_mcp_server.Config.Files.Accepted.{IsAccepted, read_toml-IsAccepted}

abbrev main_fields : Fields String
main_fields =
    field "log" (leaf "1")
      (field "http" (table (field "burst" (leaf "5") (field "rps" (leaf "2") end))) end)

abbrev drop_in_fields : Fields String
drop_in_fields = field "http" (table (field "burst" (leaf "9") end)) end

merged_tables :
    deep_merge main_fields drop_in_fields
    ≡ field "log"
        (leaf "1")
        (field "http" (table (field "burst" (leaf "9") (field "rps" (leaf "2") end))) end)
unfolding deep_merge
merged_tables = refl

abbrev files : Files String
files = record {
  stat = λ path. found true;
  read_dir = λ dir. inr (
      record { name = "20-b.toml"; is_dir = false }
      ∷ record { name = ".hidden.toml"; is_dir = false }
      ∷ record { name = "10-a.toml"; is_dir = false }
      ∷ record { name = "notes.txt"; is_dir = false }
      ∷ record { name = "sub.toml"; is_dir = true }
      ∷ []);
  read_file = λ file. inr file;
  decode = λ text. if text == "main" then inr main_fields else inr drop_in_fields;
  abs_path = λ path. inr path;
  dir_of = λ path. "etc";
  is_abs = λ path. false;
  join = λ dir name. name;
}

in_order : get_sorted_config_files files "conf.d" ≡ inr ("10-a.toml" ∷ "20-b.toml" ∷ [])
unfolding get_sorted_config_files
in_order = refl

read_main :
    read_files files "main" ""
    ≡ inr (
      field "log"
          (leaf "1")
          (field "http" (table (field "burst" (leaf "9") (field "rps" (leaf "2") end))) end),
      "etc",
    )
unfolding read_files
read_main = refl

burst_fragment : Sets files ("http" ∷ "burst" ∷ []) "9" "10-a.toml"
unfolding read_leaf HasUniqueKeys get
burst_fragment = record {
  fields = drop_in_fields;
  reads = refl;
  unique = (refl, (refl, tt, tt), tt);
  sets = refl;
}

rps_fragment : Sets files ("http" ∷ "rps" ∷ []) "2" "main"
unfolding read_leaf HasUniqueKeys get
rps_fragment = record {
  fields = main_fields;
  reads = refl;
  unique = (refl, tt, (refl, (refl, tt, (refl, tt, tt)), tt));
  sets = refl;
}

no_rps_fragment : Leaves files ("http" ∷ "rps" ∷ []) "10-a.toml"
unfolding IsOpen HasUniqueKeys get
no_rps_fragment = record {
  fields = drop_in_fields;
  reads = refl;
  unique = (refl, (refl, tt, tt), tt);
  leaves = tt;
}

nothing_before : merge_files files [] end ≡ inr end
unfolding merge_files
nothing_before = refl

read_and_merge_files-last_example :
    (merged : Fields String) × (read_and_merge_files files ("main" ∷ "10-a.toml" ∷ []) ≡ inr merged)
    × (read_leaf ("http" ∷ "rps" ∷ []) (some (table merged)) ≡ some "2")
read_and_merge_files-last_example =
    read_and_merge_files-last files ("http" ∷ "rps" ∷ []) "2" [] ("10-a.toml" ∷ []) "main" end
      nothing_before rps_fragment (no_rps_fragment, tt)

abbrev helm_parser : Assoc (String → String ⊎ ExtendedConfig String)
helm_parser = ("helm", λ p. inr (record { parsed = p; invalid = none })) ∷ []

abbrev asks : ConfirmationRule
asks = record {
  tool = "pods_delete";
  destructive = none;
  verb = "";
  kind = "";
  group = "";
  version = "";
  name = "";
  namespace = "";
  message = "Delete?";
}

abbrev decoded : DecodedConfig String
decoded = record {
  cluster_provider_configs = [];
  toolset_configs = ("helm", "strict") ∷ ("unknown", "x") ∷ [];
  confirmation_fallback = "deny";
  confirmation_rules = asks ∷ [];
}

read : read_toml [] helm_parser (λ t. inr decoded) "" ≡ inr (decoded, [], ("helm", "strict") ∷ [])
unfolding read_toml is_tool_level is_kube_level
read = refl

misspelt :
    read_toml [] helm_parser (λ t. inr (record decoded { confirmation_fallback = "maybe" })) ""
    ≡ inl (invalid_fallback "maybe")
unfolding read_toml
misspelt = refl

read_toml-IsAccepted_example : IsAccepted [] helm_parser decoded [] (("helm", "strict") ∷ [])
read_toml-IsAccepted_example =
    read_toml-IsAccepted [] helm_parser (λ t. inr decoded) "" decoded [] (("helm", "strict") ∷ [])
      read
