-- ===== src/Base/Text.antt =====
-- The functions of Go's `strings` that the program calls, over native texts.
use Prim.Native.Char.{Char, code}
use Prim.Native.String.{String}
use mathlib.Core.Bool.{Bool, ◌||◌, ◌&&◌}
use Prim.Native.Nat.{ℕ, zero, suc, ◌-◌}
use Prim.Native.String as Str
use Prim.Native.String.{char_at}
use mathlib.Core.Option.{Option, none, some}
use mathlib.Core.List.{List, [], ◌∷◌}
use mathlib.Core.Path.{◌≡◌}
use native.Mathlib.Omega.{arith}
use text.Mathlib.Text.{◌==◌}
use text.Mathlib.TextLemmas.{cons-append, nil-append}
use kube_mcp_server.Base.Tests.{eqb, leb, if◌then◌else◌, is_some, deref}

-- What is left of a text behind a prefix, if it begins with it.
unfoldable pub strip_prefix : String → String → Option String
strip_prefix String.[] s = some s
strip_prefix (String.◌∷◌ c p) String.[] = none
strip_prefix (String.◌∷◌ c p) (String.◌∷◌ d s) =
    let rest = strip_prefix p s in if eqb (code c) (code d) then rest else none

-- strings.HasPrefix
abbrev pub has_prefix : String → String → Bool
has_prefix s p = is_some (strip_prefix p s)

-- strings.TrimPrefix
abbrev pub trim_prefix : String → String → String
trim_prefix s p = deref (strip_prefix p s) s

-- strings.Contains
unfoldable pub contains_text : String → String → Bool
unfolding strip_prefix
contains_text String.[] t = has_prefix String.[] t
contains_text (String.◌∷◌ c s) t = has_prefix (String.◌∷◌ c s) t || contains_text s t

abbrev pub is_slash : Char → Bool
is_slash c = eqb (code c) b'/'

-- strings.TrimLeft(s, "/")
unfoldable pub trim_left : String → String
trim_left String.[] = ""
trim_left (String.◌∷◌ c s) = let rest = trim_left s in if is_slash c then rest else String.◌∷◌ c s

abbrev pub cons_right : Char → String → String
cons_right c String.[] = if is_slash c then "" else String.◌∷◌ c ""
cons_right c (String.◌∷◌ d s) = String.◌∷◌ c (String.◌∷◌ d s)

-- strings.TrimRight(s, "/")
unfoldable pub trim_right : String → String
trim_right String.[] = ""
trim_right (String.◌∷◌ c s) = cons_right c (trim_right s)

-- strings.Trim(s, "/")
unfoldable pub trim_slash : String → String
unfolding trim_left trim_right
trim_slash s = trim_right (trim_left s)

abbrev pub push_front : Char → List String → List String
push_front c [] = String.◌∷◌ c "" ∷ []
push_front c (p ∷ ps) = String.◌∷◌ c p ∷ ps

-- strings.Split(s, "/")
unfoldable pub split_slash : String → List String
split_slash String.[] = "" ∷ []
split_slash (String.◌∷◌ c s) =
    let rest = split_slash s in if is_slash c then "" ∷ rest else push_front c rest

abbrev pub lower_char : Char → Char
lower_char c =
    if leb b'A' (code c) && leb (code c) b'Z'
    then char_at "abcdefghijklmnopqrstuvwxyz" (code c - b'A')
    else c

-- strings.ToLower, on ASCII letters
unfoldable pub to_lower : String → String
to_lower String.[] = ""
to_lower (String.◌∷◌ c s) = String.◌∷◌ (lower_char c) (to_lower s)

-- strings.TrimSuffix(s, "/")
unfoldable pub trim_last_slash : String → String
trim_last_slash String.[] = ""
trim_last_slash (String.◌∷◌ c String.[]) = if is_slash c then "" else String.◌∷◌ c ""
trim_last_slash (String.◌∷◌ c (String.◌∷◌ d s)) = String.◌∷◌ c (trim_last_slash (String.◌∷◌ d s))

abbrev pub upper_char : Char → Char
upper_char c =
    if leb b'a' (code c) && leb (code c) b'z'
    then char_at "ABCDEFGHIJKLMNOPQRSTUVWXYZ" (code c - b'a')
    else c

-- The first letter in upper case, if it is an ASCII letter.
abbrev pub capitalize_first : String → String
capitalize_first String.[] = ""
capitalize_first (String.◌∷◌ c s) = String.◌∷◌ (upper_char c) s

abbrev pub text_length : String → ℕ
text_length String.[] = 0
text_length (String.◌∷◌ c s) = suc (text_length s)

-- The text of ReplaceAll's loop; the number counts the characters of a match still to pass over.
unfoldable pub replace_from : String → String → ℕ → String → String
unfolding strip_prefix
replace_from old new skip String.[] = ""
replace_from old new zero (String.◌∷◌ c s) =
    let jump = replace_from old new (text_length old - 1) s in
    let step = replace_from old new 0 s in
    if has_prefix (String.◌∷◌ c s) old then Str.◌++◌ new jump else String.◌∷◌ c step
replace_from old new (suc skip) (String.◌∷◌ c s) = replace_from old new skip s

-- strings.ReplaceAll(s, old, new), for an old text that is not empty
abbrev pub replace_all : String → String → String → String
replace_all s old new = replace_from old new 0 s

abbrev pub is_space : Char → Bool
is_space c = eqb (code c) 32 || (leb 9 (code c) && leb (code c) 13)

unfoldable pub trim_space_left : String → String
trim_space_left String.[] = ""
trim_space_left (String.◌∷◌ c s) =
    let rest = trim_space_left s in if is_space c then rest else String.◌∷◌ c s

abbrev pub cons_unless_space : Char → String → String
cons_unless_space c String.[] = if is_space c then "" else String.◌∷◌ c ""
cons_unless_space c (String.◌∷◌ d s) = String.◌∷◌ c (String.◌∷◌ d s)

unfoldable pub trim_space_right : String → String
trim_space_right String.[] = ""
trim_space_right (String.◌∷◌ c s) = cons_unless_space c (trim_space_right s)

-- strings.TrimSpace, on the white space of ASCII
unfoldable pub trim_space : String → String
unfolding trim_space_left trim_space_right
trim_space s = trim_space_right (trim_space_left s)

pub strip_prefix_self : (p s : String) → strip_prefix p (Str.◌++◌ p s) ≡ some s
unfolding strip_prefix
strip_prefix_self String.[] s = rw nil-append
strip_prefix_self (String.◌∷◌ c p) s = simp cons-append (ground (arith, strip_prefix_self p s))

-- strings.HasSuffix
unfoldable pub has_suffix : String → String → Bool
has_suffix String.[] p = p == ""
has_suffix (String.◌∷◌ c s) p = let later = has_suffix s p in String.◌∷◌ c s == p || later
