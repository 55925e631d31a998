-- ===== src/Python.antt =====
-- Built-in functions of Python that the program calls and whose tables or grammars are too large to
-- be written out. They are arguments of the definitions that use them; nothing is assumed of them.
use Prim.Native.Char.{Char}
use hermes_auto.Json.{Value, ℤ}
use hermes_auto.Prelude.Result.{Result}
use hermes_auto.Prelude.{ℕ, String, Bool, Option, List}

pub record Python : Type 0 where
  -- `int(text)`; `none` is `ValueError`
  pub int_of : String → Option ℤ
  -- `repr(value)`, of a value or of `None`
  pub repr_of : Option Value → String
  -- `str(value)`
  pub str_of : Value → String
  -- `repr(text)`
  pub repr_text : String → String
  -- `character.isprintable()` and `character.isalnum()`
  pub is_printable : Char → Bool
  pub is_alnum : Char → Bool
  -- `json.loads(raw)`; the error is the name of the exception's type
  pub loads : List ℕ → Result String Value
