-- ===== src/Config/Files/Merged.antt =====
-- What merging files of configuration does to each setting, found by its path of keys. The keys of a
-- table differ from each other, as those of a Go map do.
use kube_mcp_server.Base.{
  String, ◌⊎◌, inl, inr, Option, none, some, List, [], ◌∷◌, ◌++◌, ◌==◌, ◌≡◌, ◌≢◌, refl, sym, ap,
  ◌∙◌, subst, arith, if◌then◌else◌, eq_iff, All, Bool-cases, Option-cases,
}
use kube_mcp_server.Config.Files.{
  Value, leaf, table, Fields, end, field, get, put, deep_merge, merge_value, Files, FileError,
  merge_files, read_config, read_and_merge_files,
}

module _ {L : Type 0} where
  get-put :
      (k j : String) (v : Value L) (fields : Fields L)
      → get j (put k v fields) ≡ (if k == j then some v else get j fields)
  unfolding get put
  get-put k j v end = refl
  get-put k j v (field i w rest) =
      ground (arith, eq_iff k j, eq_iff i k, eq_iff i j, get-put k j v rest)

-- No key of the table is given twice, in the tables inside it too.
unfoldable mutual
  pub HasUniqueKeys : {L : Type 0} → Value L → Type 0
  HasUniqueKeys (leaf l) = Unit
  HasUniqueKeys (table fields) = IsTable fields

  pub IsTable : {L : Type 0} → Fields L → Type 0
  IsTable end = Unit
  IsTable (field k v rest) = (get k rest ≡ none) × HasUniqueKeys v × IsTable rest

-- What is found under a key in the merged table, for what each of the two has there.
abbrev pub combine : {L : Type 0} → Option (Value L) → Option (Value L) → Option (Value L)
combine old none = old
combine old (some v) = some (merge_value old v)

module _ {L : Type 0} where
  get-deep_merge :
      (k : String) (dst src : Fields L)
      → IsTable src
      → get k (deep_merge dst src) ≡ combine (get k dst) (get k src)
  unfolding get deep_merge IsTable
  get-deep_merge k dst end unique = refl
  get-deep_merge k dst (field j v rest) unique = elim (Bool-cases (j == k)) [
    | inl same ↦
        let e : j ≡ k = (eq_iff j k).0 same in
        rw same (
          get-deep_merge k (put j (merge_value (get j dst) v) dst) rest unique.2
          ∙ rw (get-put j k (merge_value (get j dst) v) dst) (rw (same, ← e) (rw unique.0)))
    | inr other ↦ rw other (
        get-deep_merge k (put j (merge_value (get j dst) v) dst) rest unique.2
        ∙ rw (get-put j k (merge_value (get j dst) v) dst) (rw other))
  ]

-- The setting under a path of keys: what is not a table and stands there.
unfoldable pub read_leaf : {L : Type 0} → List String → Option (Value L) → Option L
unfolding get
read_leaf path none = none
read_leaf [] (some (leaf l)) = some l
read_leaf (k ∷ path) (some (leaf l)) = none
read_leaf [] (some (table fields)) = none
read_leaf (k ∷ path) (some (table fields)) = read_leaf path (get k fields)

-- The path leaves the tables of a configuration at a key that is not there.
unfoldable pub IsOpen : {L : Type 0} → List String → Option (Value L) → Type 0
unfolding get
IsOpen path none = Unit
IsOpen path (some (leaf l)) = ⊥
IsOpen [] (some (table fields)) = ⊥
IsOpen (k ∷ path) (some (table fields)) = IsOpen path (get k fields)

module _ {L : Type 0} where
  get-HasUniqueKeys :
      (k : String) (fields : Fields L) (v : Value L)
      → IsTable fields
      → get k fields ≡ some v
      → HasUniqueKeys v
  unfolding get HasUniqueKeys IsTable
  get-HasUniqueKeys k end v unique e = ground (arith, e)
  get-HasUniqueKeys k (field j w rest) v unique e = elim (Bool-cases (j == k)) [
    | inl same ↦ let found : w ≡ v = cc (rw same at e) in subst HasUniqueKeys found unique.1
    | inr other ↦ get-HasUniqueKeys k rest v unique.2 (rw other at e)
  ]

  abbrev UniqueKeys? : Option (Value L) → Type 0
  UniqueKeys? none = Unit
  UniqueKeys? (some v) = HasUniqueKeys v

  get-UniqueKeys? : (k : String) (fields : Fields L) → IsTable fields → UniqueKeys? (get k fields)
  get-UniqueKeys? k fields unique = elim (Option-cases (get k fields)) [
    | inl missing ↦ rw missing tt
    | inr (v, found) ↦ rw found (get-HasUniqueKeys k fields v unique found)
  ]

  -- A setting of the source stands in the merged configuration.
  read_leaf-combine :
      (path : List String) (old src : Option (Value L)) (l : L)
      → UniqueKeys? src
      → read_leaf path src ≡ some l
      → read_leaf path (combine old src) ≡ some l
  unfolding read_leaf merge_value HasUniqueKeys
  read_leaf-combine path old none l unique e = ground (arith, e)
  read_leaf-combine [] old (some (leaf x)) l unique e = e
  read_leaf-combine (k ∷ path) old (some (leaf x)) l unique e = ground (arith, e)
  read_leaf-combine [] old (some (table s)) l unique e = ground (arith, e)
  read_leaf-combine (k ∷ path) none (some (table s)) l unique e = e
  read_leaf-combine (k ∷ path) (some (leaf x)) (some (table s)) l unique e = e
  read_leaf-combine (k ∷ path) (some (table d)) (some (table s)) l unique e =
      ap (read_leaf path) (get-deep_merge k d s unique)
      ∙ read_leaf-combine path (get k d) (get k s) l (get-UniqueKeys? k s unique) e

  -- Where the source is open, the merged configuration has the setting of before.
  read_leaf-open :
      (path : List String) (old src : Option (Value L))
      → UniqueKeys? src
      → IsOpen path src
      → read_leaf path old ≢ none
      → read_leaf path (combine old src) ≡ read_leaf path old
  unfolding read_leaf merge_value HasUniqueKeys IsOpen
  read_leaf-open path old none unique open_ set = refl
  read_leaf-open [] old (some (leaf x)) unique open_ set = absurd open_
  read_leaf-open (k ∷ path) old (some (leaf x)) unique open_ set = absurd open_
  read_leaf-open [] old (some (table s)) unique open_ set = absurd open_
  read_leaf-open (k ∷ path) none (some (table s)) unique open_ set = absurd (set refl)
  read_leaf-open (k ∷ path) (some (leaf x)) (some (table s)) unique open_ set = absurd (set refl)
  read_leaf-open (k ∷ path) (some (table d)) (some (table s)) unique open_ set =
      ap (read_leaf path) (get-deep_merge k d s unique)
      ∙ read_leaf-open path (get k d) (get k s) (get-UniqueKeys? k s unique) open_ set

  merged-sets :
      (path : List String) (raw src : Fields L) (l : L)
      → IsTable src
      → read_leaf path (some (table src)) ≡ some l
      → read_leaf path (some (table (deep_merge raw src))) ≡ some l
  unfolding read_leaf
  merged-sets [] raw src l unique e = ground (arith, e)
  merged-sets (k ∷ path) raw src l unique e =
      ap (read_leaf path) (get-deep_merge k raw src unique)
      ∙ read_leaf-combine path (get k raw) (get k src) l (get-UniqueKeys? k src unique) e

  merged-keeps :
      (path : List String) (raw src : Fields L) (l : L)
      → IsTable src
      → IsOpen path (some (table src))
      → read_leaf path (some (table raw)) ≡ some l
      → read_leaf path (some (table (deep_merge raw src))) ≡ some l
  unfolding read_leaf IsOpen
  merged-keeps [] raw src l unique open_ e = ground (arith, e)
  merged-keeps (k ∷ path) raw src l unique open_ e =
      ap (read_leaf path) (get-deep_merge k raw src unique)
      ∙ read_leaf-open path (get k raw) (get k src) (get-UniqueKeys? k src unique) open_
          (λ missing. ground (arith, missing, e))
      ∙ e

read_config-cases :
    {L : Type 0} (r : FileError ⊎ Fields L)
    → ((e : FileError) × (r ≡ inl e)) ⊎ ((fields : Fields L) × (r ≡ inr fields))
read_config-cases (inl e) = inl (e, refl)
read_config-cases (inr fields) = inr (fields, refl)

module _ {L : Type 0} (files : Files L) where
  -- A file that can be read, whose keys are unique, and that has the setting, or leaves it open.
  pub record Sets (path : List String) (l : L) (file : String) : Type 0 where
    pub fields : Fields L
    pub reads : read_config files file ≡ inr fields
    pub unique : IsTable fields
    pub sets : read_leaf path (some (table fields)) ≡ some l

  pub record Leaves (path : List String) (file : String) : Type 0 where
    pub fields : Fields L
    pub reads : read_config files file ≡ inr fields
    pub unique : IsTable fields
    pub leaves : IsOpen path (some (table fields))

  merge_files-read :
      (file : String) (after : List String) (raw fields : Fields L)
      → read_config files file ≡ inr fields
      → merge_files files (file ∷ after) raw ≡ merge_files files after (deep_merge raw fields)
  unfolding merge_files
  merge_files-read file after raw fields e = rw (e, merge_files)

  merge_files-unread :
      (file : String) (after : List String) (raw : Fields L) (x : FileError)
      → read_config files file ≡ inl x
      → merge_files files (file ∷ after) raw ≡ inl x
  unfolding merge_files
  merge_files-unread file after raw x e = rw (e, merge_files)

  merge_files-kept :
      (path : List String) (l : L) (after : List String) (raw : Fields L)
      → All (Leaves path) after
      → read_leaf path (some (table raw)) ≡ some l
      → (merged : Fields L) × (merge_files files after raw ≡ inr merged)
        × (read_leaf path (some (table merged)) ≡ some l)
  unfolding merge_files
  merge_files-kept path l [] raw open_ e = (raw, refl, e)
  merge_files-kept path l (file ∷ after) raw (h, open_) e =
      let kept = merged-keeps path raw h.fields l h.unique h.leaves e in
      let (merged, made, reads) =
        merge_files-kept path l after (deep_merge raw h.fields) open_ kept in
      (merged, merge_files-read file after raw h.fields h.reads ∙ made, reads)

  inl_ne_inr : {x : FileError} {fields : Fields L} → inl x ≢ inr fields
  inl_ne_inr e = ground (arith, e)

  merge_files-append :
      (before after : List String) (start raw : Fields L)
      → merge_files files before start ≡ inr raw
      → merge_files files (before ++ after) start ≡ merge_files files after raw
  unfolding merge_files
  merge_files-append [] after start raw e = let same : start ≡ raw = cc e in rw same
  merge_files-append (file ∷ before) after start raw e =
      elim (read_config-cases (read_config files file)) [
        | inl (x, bad) ↦ absurd (inl_ne_inr (sym (merge_files-unread file before start x bad) ∙ e))
        | inr (fields, good) ↦
            merge_files-read file (before ++ after) start fields good
            ∙ merge_files-append before after (deep_merge start fields) raw
                (sym (merge_files-read file before start fields good) ∙ e)
      ]

  -- The last file that has a setting decides it: if the files before one that has a setting under a
  -- path of keys can be read and merged, and all files behind it can be read and leave that path open,
  -- then reading and merging them all succeeds, and the merged configuration has that setting.
  pub read_and_merge_files-last :
      (path : List String) (l : L) (before after : List String) (file : String) (raw : Fields L)
      → merge_files files before end ≡ inr raw
      → Sets path l file
      → All (Leaves path) after
      → (merged : Fields L) × (read_and_merge_files files (before ++ file ∷ after) ≡ inr merged)
        × (read_leaf path (some (table merged)) ≡ some l)
  unfolding read_and_merge_files merge_files
  read_and_merge_files-last path l before after file raw prior h open_ =
      let (merged, made, reads) =
        merge_files-kept path l after (deep_merge raw h.fields) open_
          (merged-sets path raw h.fields l h.unique h.sets) in
      (
        merged,
        merge_files-append before (file ∷ after) end raw prior
            ∙ merge_files-read file after raw h.fields h.reads
            ∙ made,
        reads,
      )
