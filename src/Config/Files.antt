-- ===== src/Config/Files.antt =====
-- The reading of configuration files: `deepMerge`, `readAndMergeFiles`, `getSortedConfigFiles`,
-- `loadDropInConfigs` and `Read` of pkg/config/config.go, up to `ReadToml`, which Toml has. The file
-- system and the decoding of TOML are parameters.
pub mod Merged
pub mod Toml
pub mod Accepted
mod Tests
use Prim.Native.String as Str
use kube_mcp_server.Base.{
  ℕ, zero, suc, String, Bool, true, false, not, ◌&&◌, ◌||◌, ◌⊎◌, inl, inr, Option, none, some, List,
  [], ◌∷◌, ◌++◌, ◌==◌, ◌!=◌, if◌then◌else◌, keep, map,
}
use kube_mcp_server.Base.Text.{has_prefix, has_suffix, strip_prefix}
use kube_mcp_server.Base.Sort.{sort_strings}
use kube_mcp_server.Base.Assoc.{Assoc, lookup, insert}
use kube_mcp_server.Confirmation.{ConfirmationRule, RuleError, validate}

-- A value of TOML: a table, or another value, which is not looked into.
mutual
  pub data Value (L : Type 0) : Type 0 where
    leaf : L → Value L
    table : Fields L → Value L

  pub data Fields (L : Type 0) : Type 0 where
    end : Fields L
    field : String → Value L → Fields L → Fields L

module _ {L : Type 0} where
  -- v, ok := m[k] and m[k] = v
  unfoldable pub get : String → Fields L → Option (Value L)
  get k end = none
  get k (field j v rest) = let later = get k rest in if j == k then some v else later

  unfoldable pub put : String → Value L → Fields L → Fields L
  put k v end = field k v end
  put k v (field j w rest) =
      let later = put k v rest in if j == k then field k v rest else field j w later

-- deepMerge(dst, src), and what it makes of one entry: two tables are merged, and any other value of
-- src takes the place.
unfoldable mutual
  unfolding get put

  pub deep_merge : {L : Type 0} → Fields L → Fields L → Fields L
  deep_merge dst end = dst
  deep_merge dst (field k v rest) = deep_merge (put k (merge_value (get k dst) v) dst) rest

  pub merge_value : {L : Type 0} → Option (Value L) → Value L → Value L
  merge_value old (leaf l) = leaf l
  merge_value none (table s) = table s
  merge_value (some (leaf l)) (table s) = table s
  merge_value (some (table d)) (table s) = table (deep_merge d s)

-- An entry of a directory.
pub record DirEntry : Type 0 where
  pub name : String
  pub is_dir : Bool

-- What os.Stat says of a path.
pub data StatResult : Type 0 where
  not_exist : StatResult
  stat_failed : String → StatResult
  found : Bool → StatResult

pub data FileError : Type 0 where
  stat_error not_a_directory dir_error path_error : String → FileError
  read_error decode_error : String → String → FileError

-- The file system, and the decoding of a file.
pub record Files (L : Type 0) : Type 0 where
  pub stat : String → StatResult
  pub read_dir : String → String ⊎ List DirEntry
  pub read_file : String → String ⊎ String
  pub decode : String → String ⊎ Fields L
  pub abs_path : String → String ⊎ String
  pub dir_of : String → String
  pub is_abs : String → Bool
  pub join : String → String → String

-- Whether an entry is a file of configuration.
unfoldable pub is_config_file : DirEntry → Bool
unfolding strip_prefix has_suffix
is_config_file entry =
    if entry.is_dir
    then false
    else if has_prefix entry.name "."
    then false
    else if not (has_suffix entry.name ".toml")
    then false
    else true

module _ {L : Type 0} (files : Files L) where
  abbrev pub files_of : String → String ⊎ List DirEntry → FileError ⊎ List String
  files_of dir (inl e) = inl (dir_error e)
  files_of dir (inr entries) =
      inr (sort_strings (map (λ entry. files.join dir entry.name) (keep is_config_file entries)))

  unfoldable pub get_sorted_config_files : String → FileError ⊎ List String
  unfolding is_config_file sort_strings
  get_sorted_config_files dir = files_of dir (files.read_dir dir)

  abbrev pub load_from : String → StatResult → FileError ⊎ List String
  load_from dir not_exist = inr []
  load_from dir (stat_failed e) = inl (stat_error e)
  load_from dir (found true) = get_sorted_config_files dir
  load_from dir (found false) = inl (not_a_directory dir)

  unfoldable pub load_drop_in_configs : String → FileError ⊎ List String
  unfolding get_sorted_config_files
  load_drop_in_configs dir = load_from dir (files.stat dir)

  abbrev pub decoded : String → String ⊎ Fields L → FileError ⊎ Fields L
  decoded file (inl e) = inl (decode_error file e)
  decoded file (inr fields) = inr fields

  abbrev pub contents : String → String ⊎ String → FileError ⊎ Fields L
  contents file (inl e) = inl (read_error file e)
  contents file (inr text) = decoded file (files.decode text)

  abbrev pub read_config : String → FileError ⊎ Fields L
  read_config file = contents file (files.read_file file)

  -- The loop of readAndMergeFiles, from what has been merged so far.
  unfoldable pub merge_files : List String → Fields L → FileError ⊎ Fields L
  unfolding deep_merge
  merge_files [] raw = inr raw
  merge_files (file ∷ rest) raw = elim (read_config file) [
    | inl e ↦ inl e
    | inr drop_in ↦ merge_files rest (deep_merge raw drop_in)
  ]

  unfoldable pub read_and_merge_files : List String → FileError ⊎ Fields L
  unfolding merge_files
  read_and_merge_files paths = merge_files paths end

  -- The drop-in directory that is used, for the directory of the main file ("" if there is none).
  abbrev pub drop_in_dir : String → String → String
  drop_in_dir config_dir given =
      let dir = if given == "" then "conf.d" else given in
      if config_dir != "" && not (files.is_abs dir) then files.join config_dir dir else dir

  abbrev pub dir_of_abs : String ⊎ String → FileError ⊎ String
  dir_of_abs (inl e) = inl (path_error e)
  dir_of_abs (inr abs) = inr (files.dir_of abs)

  abbrev pub config_dir_of : String → FileError ⊎ String
  config_dir_of config_path =
      if config_path != "" then dir_of_abs (files.abs_path config_path) else inr ""

  abbrev pub merge_listed :
      String → String → FileError ⊎ List String → FileError ⊎ (Fields L × String)
  merge_listed config_path dir (inl e) = inl e
  merge_listed config_path dir (inr drop_ins) =
      let all_files = if config_path != "" then config_path ∷ drop_ins else drop_ins in
      elim (read_and_merge_files all_files) [ inl e ↦ inl e | inr merged ↦ inr (merged, dir) ]

  abbrev pub read_in : String → String → FileError ⊎ String → FileError ⊎ (Fields L × String)
  read_in config_path given (inl e) = inl e
  read_in config_path given (inr config_dir) =
      let dir = drop_in_dir config_dir given in
      merge_listed config_path (if config_dir == "" then dir else config_dir)
        (load_drop_in_configs dir)

  -- Read up to the call of ReadToml: the merged configuration and its directory.
  unfoldable pub read_files : String → String → FileError ⊎ (Fields L × String)
  unfolding load_drop_in_configs read_and_merge_files
  read_files config_path drop_in_config_dir =
      read_in config_path drop_in_config_dir (config_dir_of config_path)
