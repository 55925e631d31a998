-- ===== src/Gateway/Auth/Entries.antt =====
-- The lines of `icacls` that `_ACE_RE` matches.
use Prim.Native.Char.{code}
use Prim.Native.String.{[], ◌∷◌}
use text.Mathlib.Text.{starts_with}
use hermes_auto.Prelude.{
  ℕ, zero, suc, String, Bool, true, false, not, ◌&&◌, ◌=ℕ◌, Option, none, some, List, if◌then◌else◌,
}
use hermes_auto.Text.{contains, strip, len}

-- `(?:\([^)]*\))+` up to the end of a text without space at its end, from within a group or not
unfoldable pub is_rights : Bool → String → Bool
is_rights inside [] = not inside
is_rights true (c ∷ s) = is_rights (not (code c =ℕ 41)) s
is_rights false (c ∷ s) = code c =ℕ 40 && is_rights true s

-- `text.startswith("(")`
abbrev opens : String → Bool
opens [] = false
opens (c ∷ s) = code c =ℕ 40

-- `_ACE_RE.match(text)`: the first colon after one character at least that the rights follow
unfoldable pub ace_of : String → Option (String × String)
unfolding is_rights
ace_of [] = none
ace_of (c ∷ []) = none
ace_of (c ∷ (d ∷ s)) =
    let rest = ace_of (d ∷ s) in
    if code d =ℕ 58 && opens s && is_rights false s
    then some (c ∷ [], s)
    else elim rest [ none ↦ none | some ace ↦ some (c ∷ ace.0, ace.1) ]

-- the principals and the rights of the lines that match
unfoldable pub aces_of : List String → List (String × String)
unfolding ace_of strip
aces_of List.[] = List.[]
aces_of (List.◌∷◌ line lines) = elim (ace_of (strip line)) [
  | none ↦ aces_of lines
  | some ace ↦ List.◌∷◌ (strip ace.0, ace.1) (aces_of lines)
]

-- `"(I)" in rights`
unfoldable pub has_inherited : String × String → Bool
unfolding contains
has_inherited ace = contains "(I)" ace.1

unfoldable pub drop_chars : ℕ → String → String
drop_chars zero s = s
drop_chars (suc n) [] = []
drop_chars (suc n) (c ∷ s) = drop_chars n s

-- `text.replace(part, "", 1)`, for a part that is not empty
unfoldable pub remove_first : String → String → String
unfolding drop_chars len
remove_first part [] = []
remove_first part (c ∷ s) =
    if starts_with (c ∷ s) part then drop_chars (len part) (c ∷ s) else c ∷ remove_first part s
