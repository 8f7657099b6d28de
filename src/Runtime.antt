-- ===== src/Runtime.antt =====
-- What the sources call of Python's library and of third-party code, as parameters.
use low_context_inference.Base.{String}
use low_context_inference.Json.{Value}

pub record Runtime : Type 0 where
  -- `json.dumps(value, separators=(",", ":"), ensure_ascii=False)`
  pub dumps : Value → String
  -- `str(value)` of a value that is no text
  pub print : Value → String
  -- `hashlib.sha256(text.encode("utf-8")).hexdigest()`
  pub sha256 : String → String

module _ (py : Runtime) where
  -- `str(value)`
  abbrev pub to_str : Value → String
  to_str (Value.str s) = s
  to_str v = py.print v
