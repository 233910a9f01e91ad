-- ===== src/Library.antt =====
-- What src/recallpack takes from Python's libraries: `hashlib` over `json.dumps`, `datetime`, `re.sub` of a
-- pattern, a replacement and a text, and `float` of an int. A float is the
-- pattern of its 64 bits.
use Prim.Native.Nat.{◌/◌, ◌%◌, ◌^◌}
use recallpack.Base.{ℕ, String, Bool, true, not, Option, ◌==◌}
use recallpack.Json.{ℤ, pos, negsuc, Json}

pub record Library : Type 0 where
  pub sha256_of_json : Json → String
  pub sha256_of_text : String → String
  pub canonical_utc_timestamp : String → Option String
  pub duration_ms : String → String → ℕ
  pub re_sub : String → String → String → String
  pub float_of_int : ℤ → ℕ

-- `math.isfinite`: the exponent is not all ones.
unfoldable pub is_finite : ℕ → Bool
is_finite bits = not (bits / 2 ^ 52 % 2048 == 2047)

-- `x != 0.0`: some bit besides the sign is set.
unfoldable pub is_nonzero : ℕ → Bool
is_nonzero bits = not (bits % 2 ^ 63 == 0)

abbrev pub is_nonzero_int : ℤ → Bool
is_nonzero_int (pos n) = not (n == 0)
is_nonzero_int (negsuc n) = true
