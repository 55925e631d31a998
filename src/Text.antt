-- ===== src/Text.antt =====
-- Python's `str` methods, as far as the program uses them: `lower`, `strip`, `partition`, `in`,
-- `"".join` and the decimal `str` of a number. A `String` is a list of Unicode scalar values.
use Prim.Native.Char.{Char, char, code, IsScalar}
use Prim.Native.String.{[], ◌∷◌, ◌++◌}
use mathlib.Core.List.{List}
use mathlib.Core.Logic.{dite}
use native.Mathlib.Decide.{dec_lt}
use text.Mathlib.Text.{starts_with}
use hermes_auto.Prelude.{
  ℕ, zero, suc, ◌+◌, ◌/◌, ◌%◌, ◌<◌, String, Bool, true, false, ◌&&◌, ◌||◌, ◌≡◌, refl, arith, ltb,
  leb, ◌=ℕ◌, ◌==◌, if◌then◌else◌,
}

-- `len(s)`
unfoldable pub len : String → ℕ
len [] = 0
len (c ∷ s) = suc (len s)

-- `"".join(parts)`
unfoldable pub concat : List String → String
concat List.[] = ""
concat (List.◌∷◌ s l) = s ++ concat l

-- `separator.join(parts)`
unfoldable pub join : String → List String → String
join separator List.[] = ""
join separator (List.◌∷◌ s List.[]) = s
join separator (List.◌∷◌ s (List.◌∷◌ t l)) = s ++ (separator ++ join separator (List.◌∷◌ t l))

pub IsScalar-of_lt : (n : ℕ) → n < 128 → IsScalar n
IsScalar-of_lt n h = ground arith

-- The ASCII character of a number below 128; any other number gives U+003F.
unfoldable pub ascii : ℕ → Char
unfolding dec_lt
ascii n = dite (dec_lt n 128) (λ h. char n (IsScalar-of_lt n h)) (λ _. "?")

-- `c.lower()`. Of the characters outside ASCII only U+212A and U+0130 have an ASCII character in
-- their lower case; the others are left as they are, which no comparison with an ASCII text shows.
unfoldable pub lower_char : Char → String
unfolding ascii
lower_char c =
    if leb 65 (code c) && leb (code c) 90
    then ascii (code c + 32) ∷ []
    else if code c =ℕ 8490
    then "k"
    else if code c =ℕ 304
    then "i̇"
    else c ∷ []

-- `s.lower()`
unfoldable pub lower : String → String
unfolding lower_char
lower [] = []
lower (c ∷ s) = lower_char c ++ lower s

-- `c.isspace()`
unfoldable pub is_space : Char → Bool
is_space c =
    let n = code c in
    leb 9 n && leb n 13
    || leb 28 n && leb n 32
    || n =ℕ 133
    || n =ℕ 160
    || n =ℕ 5760
    || leb 8192 n && leb n 8202
    || n =ℕ 8232
    || n =ℕ 8233
    || n =ℕ 8239
    || n =ℕ 8287
    || n =ℕ 12288

unfoldable pub lstrip : String → String
unfolding is_space
lstrip [] = []
lstrip (c ∷ s) = if is_space c then lstrip s else c ∷ s

unfoldable pub rstrip : String → String
unfolding is_space
rstrip [] = []
rstrip (c ∷ s) = let rest = rstrip s in if is_space c && rest == "" then [] else c ∷ rest

-- `s.strip()`
unfoldable pub strip : String → String
unfolding lstrip rstrip
strip s = rstrip (lstrip s)

-- The texts before and after the first character with the number `n`: `s.partition(c)` without its
-- middle part. The second text is empty where the character does not occur.
unfoldable pub partition : ℕ → String → String × String
partition n [] = ([], [])
partition n (c ∷ s) =
    let (before, after) = partition n s in if code c =ℕ n then ([], s) else (c ∷ before, after)

-- `part in s`, for a part that is not empty
unfoldable pub contains : String → String → Bool
contains part [] = false
contains part (c ∷ s) = starts_with (c ∷ s) part || contains part s

-- `c in s` for the character with the number `n`
unfoldable pub has_char : ℕ → String → Bool
has_char n [] = false
has_char n (c ∷ s) = code c =ℕ n || has_char n s

-- the decimal digits of `n`; `f` bounds their number
unfoldable pub decimal : ℕ → ℕ → String
unfolding ascii
decimal zero n = ""
decimal (suc f) n =
    let rest = decimal f (n / 10) in
    if ltb n 10 then ascii (n + 48) ∷ [] else rest ++ ascii (n % 10 + 48) ∷ []

-- `str(n)`
unfoldable pub show : ℕ → String
unfolding decimal
show n = decimal (suc n) n

lower_example : lower "BEARER Ok-1" ≡ "bearer ok-1"
unfolding lower
lower_example = refl

strip_example : strip "  a b \n" ≡ "a b"
unfolding strip
strip_example = refl

show_example : show 8192 ≡ "8192"
unfolding show
show_example = refl

contains_example : contains "```" "see ```x```" ≡ true
unfolding contains
contains_example = refl

partition_example : partition 32 "Bearer  tok" ≡ ("Bearer", " tok")
unfolding partition
partition_example = refl
