-- ===== src/Confirmation/Messages.antt =====
-- The text that a prompt shows (`MergeMatchedRules` in pkg/confirmation/match.go).
use Prim.Native.String as Str
use text.Mathlib.TextLemmas.{append_assoc, append-nil, nil-append}
use mathlib.Core.List.{Memᴰ}
use kube_mcp_server.Base.{String, ◌≡◌, sym, List, [], ◌∷◌}
use kube_mcp_server.Confirmation.{ConfirmationRule, write_messages, merge_matched_rules}

-- The text `t` holds `m` in one piece.
abbrev pub Shows : String → String → Type 0
Shows t m = (before : String) × (after : String) × (t ≡ Str.◌++◌ before (Str.◌++◌ m after))

-- The builder only grows: what is written stays in front.
write_messages-append :
    (sb : String) (rs : List ConfirmationRule)
    → write_messages sb rs ≡ Str.◌++◌ sb (write_messages "" rs)
unfolding write_messages
write_messages-append sb [] = sym (append-nil sb)
write_messages-append sb (r ∷ rs) =
    rw
      (
        write_messages-append (Str.◌++◌ sb (Str.◌++◌ "\n- " r.message)) rs,
        write_messages-append (Str.◌++◌ "" (Str.◌++◌ "\n- " r.message)) rs,
      )
      (simp (append_assoc, nil-append))

write_messages-Shows :
    (sb : String) (rs : List ConfirmationRule) (r : ConfirmationRule)
    → Memᴰ r rs
    → Shows (write_messages sb rs) r.message
unfolding write_messages
write_messages-Shows sb [] r m = elim m [ ]
write_messages-Shows sb (q ∷ rs) r (Memᴰ.head e) = (
  Str.◌++◌ sb "\n- ",
  write_messages "" rs,
  rw (write_messages-append (Str.◌++◌ sb (Str.◌++◌ "\n- " q.message)) rs, e) (simp append_assoc),
)
write_messages-Shows sb (q ∷ rs) r (Memᴰ.tail m) =
    write_messages-Shows (Str.◌++◌ sb (Str.◌++◌ "\n- " q.message)) rs r m

-- The prompt for the rules that matched shows the message of each of them, whatever their number.
pub merge_matched_rules-Shows :
    (rs : List ConfirmationRule) (fallback : String) (r : ConfirmationRule)
    → Memᴰ r rs
    → Shows (merge_matched_rules rs fallback).0 r.message
unfolding merge_matched_rules
merge_matched_rules-Shows [] fallback r m = elim m [ ]
merge_matched_rules-Shows (q ∷ []) fallback r (Memᴰ.head e) =
    ("", "", rw e (simp (append-nil, nil-append)))
merge_matched_rules-Shows (q ∷ []) fallback r (Memᴰ.tail m) = elim m [ ]
merge_matched_rules-Shows (p ∷ q ∷ rs) fallback r m =
    write_messages-Shows "Confirmation required:" (p ∷ q ∷ rs) r m
