-- ===== src/AccessControl/Url/Segments.antt =====
-- Splitting a path at its slashes gives back the segments that it was joined from.
use Prim.Native.Char.{Char}
use Prim.Native.String as Str
use text.Mathlib.TextLemmas.{nil-append, cons-append}
use kube_mcp_server.Base.{String, ◌≡◌, refl, false, List, [], ◌∷◌, All}
use kube_mcp_server.Base.Text.{is_slash, trim_left, trim_right, trim_slash, split_slash}

-- A segment of a path: not empty, and without a slash.
abbrev pub NoSlash : String → Type 0
NoSlash String.[] = Unit
NoSlash (String.◌∷◌ c s) = (is_slash c ≡ false) × NoSlash s

abbrev pub IsSegment : String → Type 0
IsSegment String.[] = ⊥
IsSegment (String.◌∷◌ c s) = (is_slash c ≡ false) × NoSlash s

-- The path "/a/b/c" of the segments a, b and c.
abbrev pub join : List String → String
join [] = ""
join (p ∷ ps) = String.◌∷◌ "/" (Str.◌++◌ p (join ps))

IsSegment-NoSlash : (p : String) → IsSegment p → NoSlash p
IsSegment-NoSlash String.[] h = absurd h
IsSegment-NoSlash (String.◌∷◌ c s) h = h

All-NoSlash : (ps : List String) → All IsSegment ps → All NoSlash ps
All-NoSlash [] h = tt
All-NoSlash (p ∷ ps) h = (IsSegment-NoSlash p h.0, All-NoSlash ps h.1)

split_slash-append :
    (p : String) (ps : List String)
    → NoSlash p
    → split_slash (join ps) ≡ "" ∷ ps
    → split_slash (Str.◌++◌ p (join ps)) ≡ p ∷ ps
unfolding split_slash
split_slash-append String.[] ps h e = rw nil-append e
split_slash-append (String.◌∷◌ c s) ps h e = rw (cons-append, h.0, split_slash-append s ps h.1 e)

split_slash-join : (ps : List String) → All NoSlash ps → split_slash (join ps) ≡ "" ∷ ps
unfolding split_slash
split_slash-join [] h = refl
split_slash-join (p ∷ ps) h = rw (split_slash-append p ps h.0 (split_slash-join ps h.1))

-- A text that trimming leaves alone stays so behind a character that is no slash.
trim_right-cons :
    (c : Char) (t : String)
    → is_slash c ≡ false
    → trim_right t ≡ t
    → trim_right (String.◌∷◌ c t) ≡ String.◌∷◌ c t
unfolding trim_right
trim_right-cons c String.[] h e = rw h
trim_right-cons c (String.◌∷◌ d t) h e = rw e

-- Behind a slash it must not be empty.
trim_right-slash :
    (c : Char) (d : Char) (t : String)
    → trim_right (String.◌∷◌ d t) ≡ String.◌∷◌ d t
    → trim_right (String.◌∷◌ c (String.◌∷◌ d t)) ≡ String.◌∷◌ c (String.◌∷◌ d t)
unfolding trim_right
trim_right-slash c d t e = rw e

trim_right-append :
    (s t : String) → NoSlash s → trim_right t ≡ t → trim_right (Str.◌++◌ s t) ≡ Str.◌++◌ s t
trim_right-append String.[] t k e = rw nil-append e
trim_right-append (String.◌∷◌ c s) t k e =
    rw cons-append (trim_right-cons c (Str.◌++◌ s t) k.0 (trim_right-append s t k.1 e))

segment_join :
    (c : Char) (s : String) (ps : List String)
    → All IsSegment (String.◌∷◌ c s ∷ ps)
    → trim_right (join ps) ≡ join ps
    → trim_right (String.◌∷◌ c (Str.◌++◌ s (join ps))) ≡ String.◌∷◌ c (Str.◌++◌ s (join ps))
segment_join c s ps h e =
    trim_right-cons c (Str.◌++◌ s (join ps)) h.0.0 (trim_right-append s (join ps) h.0.1 e)

trim_right-join : (ps : List String) → All IsSegment ps → trim_right (join ps) ≡ join ps
unfolding trim_right
trim_right-join [] h = refl
trim_right-join (String.[] ∷ ps) h = absurd h.0
trim_right-join (String.◌∷◌ c s ∷ ps) h =
    simp cons-append
      (trim_right-slash _ c (Str.◌++◌ s (join ps)) (segment_join c s ps h (trim_right-join ps h.1)))

trim_slash-join :
    (p : String) (ps : List String)
    → All IsSegment (p ∷ ps)
    → trim_slash (join (p ∷ ps)) ≡ Str.◌++◌ p (join ps)
unfolding trim_slash trim_left
trim_slash-join String.[] ps h = absurd h.0
trim_slash-join (String.◌∷◌ c s) ps h =
    simp (cons-append, h.0.0) (segment_join c s ps h (trim_right-join ps h.1))

-- Splitting the path of some segments gives back the segments.
pub split_slash-join_segments :
    (p : String) (ps : List String)
    → All IsSegment (p ∷ ps)
    → split_slash (trim_slash (join (p ∷ ps))) ≡ p ∷ ps
split_slash-join_segments p ps h =
    rw (trim_slash-join p ps h)
      (split_slash-append p ps (IsSegment-NoSlash p h.0) (split_slash-join ps (All-NoSlash ps h.1)))
