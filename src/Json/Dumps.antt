-- ===== src/Json/Dumps.antt =====
-- `json.dumps(value, ensure_ascii=False, separators=...)`.
use Prim.Native.Char.{Char, code}
use Prim.Native.String.{[], ◌∷◌, ◌++◌}
use hermes_auto.Json.{
  ℤ, pos, negsuc, Value, null, bool, int, float, str, arr, obj, Items, nil, cons, Fields, end,
  field,
}
use hermes_auto.Prelude.{
  ℕ, suc, ◌+◌, ◌/◌, ◌%◌, String, true, false, ltb, ◌=ℕ◌, ◌≡◌, refl, if◌then◌else◌,
}
use hermes_auto.Text.{ascii, show}

hex_digit : ℕ → Char
unfolding ascii
hex_digit n = if ltb n 10 then ascii (n + 48) else ascii (n + 87)

-- one character of a text, as `json.dumps` writes it with `ensure_ascii=False`
unfoldable pub escape_char : Char → String
unfolding hex_digit ascii
escape_char c =
    let n = code c in
    if n =ℕ 34
    then "\\\""
    else if n =ℕ 92
    then "\\\\"
    else if n =ℕ 10
    then "\\n"
    else if n =ℕ 13
    then "\\r"
    else if n =ℕ 9
    then "\\t"
    else if n =ℕ 12
    then "\\f"
    else if n =ℕ 8
    then "\\b"
    else if ltb n 32
    then "\\u00" ++ (hex_digit (n / 16) ∷ hex_digit (n % 16) ∷ [])
    else c ∷ []

unfoldable pub escape : String → String
unfolding escape_char
escape [] = []
escape (c ∷ s) = escape_char c ++ escape s

unfoldable pub quote : String → String
unfolding escape
quote s = "\"" ++ (escape s ++ "\"")

unfoldable pub show_int : ℤ → String
unfolding show
show_int (pos n) = show n
show_int (negsuc n) = "-" ++ show (suc n)

-- `comma` and `colon` are the two separators.
module _ (comma colon : String) where
  unfoldable mutual
    unfolding quote show_int

    pub dumps_with : Value → String
    dumps_with null = "null"
    dumps_with (bool true) = "true"
    dumps_with (bool false) = "false"
    dumps_with (int n) = show_int n
    dumps_with (float s) = s
    dumps_with (str s) = quote s
    dumps_with (arr vs) = "[" ++ (dumps_items vs ++ "]")
    dumps_with (obj fs) = "{" ++ (dumps_fields fs ++ "}")

    pub dumps_items : Items → String
    dumps_items nil = ""
    dumps_items (cons v vs) = dumps_with v ++ dumps_more vs

    pub dumps_more : Items → String
    dumps_more nil = ""
    dumps_more (cons v vs) = comma ++ (dumps_with v ++ dumps_more vs)

    pub dumps_fields : Fields → String
    dumps_fields end = ""
    dumps_fields (field k v fs) = quote k ++ (colon ++ (dumps_with v ++ dumps_rest fs))

    pub dumps_rest : Fields → String
    dumps_rest end = ""
    dumps_rest (field k v fs) = comma ++ (quote k ++ (colon ++ (dumps_with v ++ dumps_rest fs)))

-- with the default separators
unfoldable pub dumps : Value → String
unfolding dumps_with
dumps = dumps_with ", " ": "

-- `separators=(",", ":")`
unfoldable pub dumps_compact : Value → String
unfolding dumps_with
dumps_compact = dumps_with "," ":"

dumps_example :
    dumps (
      obj (
        field "a" (arr (cons (int (pos 12)) (cons (bool true) nil))) (field "b" (str "x\"\n") end)))
    ≡ "{\"a\": [12, true], \"b\": \"x\\\"\\n\"}"
unfolding dumps
dumps_example = refl

dumps_compact_example :
    dumps_compact (arr (cons (int (negsuc 0)) (cons (obj end) (cons null nil)))) ≡ "[-1,{},null]"
unfolding dumps_compact
dumps_compact_example = refl
