-- ===== src/Core/Verifier.antt =====
-- The duress verifier of ds-core/src/lib.rs: `DuressHash`, `hex` and `unhex`. PBKDF2 and the
-- constant-time comparison are the crates `pbkdf2` and `subtle`, and enter as a parameter.
pub mod RoundTrip
pub mod Checks
use deathstr0ke.Base.{
  ℕ, ◌+◌, ◌%◌, ◌<◌, ◌≤◌, ◌≡◌, ◌↔◌, Bool, true, ◌||◌, not, String, List, [], ◌∷◌, ◌++◌, ltb, leb,
  ◌==◌, ◌&&◌, length, All, Result, ok, err, ◌>>=◌, ◌>>◌, context, expect_some, bail_if,
}
use deathstr0ke.Text.{Text, Bytes, codes, text_eq, trim, split, is_ascii}
use deathstr0ke.Text.Numbers.{u8_max, u32_max, decimal, parse_uint, from_str_radix, hex_byte}

abbrev pub default_iterations : ℕ
default_iterations = 600000

abbrev pub min_iterations : ℕ
min_iterations = 100000

abbrev pub max_iterations : ℕ
max_iterations = 5000000

abbrev pub salt_len : ℕ
salt_len = 16

abbrev pub hash_len : ℕ
hash_len = 32

abbrev pub algorithm : Text
algorithm = codes "pbkdf2_sha256"

pub record DuressHash : Type 0 where
  pub iterations : ℕ
  pub salt : Bytes
  pub hash : Bytes

abbrev pub IsByte : ℕ → Type 0
IsByte b = b < 256

-- What the array types of the fields and the checks of `derive` and `parse` guarantee.
pub record IsWellFormed (h : DuressHash) : Type 0 where
  pub enough : min_iterations ≤ h.iterations
  pub bounded : h.iterations ≤ max_iterations
  pub salt_size : length h.salt ≡ salt_len
  pub salt_bytes : All IsByte h.salt
  pub hash_size : length h.hash ≡ hash_len
  pub hash_bytes : All IsByte h.hash

-- The cryptographic crates.
pub record Crypto : Type 0 where
  pub pbkdf2 : Bytes → Bytes → ℕ → Result Bytes
  pub ct_eq : Bytes → Bytes → Bool

-- PBKDF2 fills a buffer of 32 bytes; `ct_eq` tells equal buffers from different ones.
pub record IsSound (c : Crypto) : Type 0 where
  pub pbkdf2_size :
      (code salt : Bytes) (n : ℕ) {out : Bytes}
      → c.pbkdf2 code salt n ≡ ok out
      → (length out ≡ hash_len) × All IsByte out
  pub ct_eq_iff : (a b : Bytes) → (c.ct_eq a b ≡ true) ↔ (a ≡ b)

validate_iterations : ℕ → Result (Unit {0})
validate_iterations n =
    bail_if (not (leb min_iterations n && leb n max_iterations))
      "PBKDF2 iterations outside safe range"

hex : Bytes → Text
hex [] = []
hex (b ∷ bs) = hex_byte b ++ hex bs

unhex_pairs : Text → Result Bytes
unfolding from_str_radix
unhex_pairs [] = ok []
unhex_pairs (c ∷ []) = ok []
unhex_pairs (c ∷ d ∷ s) = do
  b ← expect_some "bad hex" (from_str_radix 16 u8_max (c ∷ d ∷ []))
  bs ← unhex_pairs s
  ok (b ∷ bs)

-- The text is ASCII behind the first check, so its length counts bytes.
unhex : Text → Result Bytes
unfolding unhex_pairs is_ascii
unhex s = do
  bail_if (not (is_ascii s)) "non-ASCII hex input"
  bail_if (not (length s % 2 == 0)) "odd hex length"
  unhex_pairs s

unfoldable pub serialize : DuressHash → Text
unfolding hex hex_byte decimal
serialize h = algorithm ++ b'$' ∷ (decimal h.iterations ++ b'$' ∷ (hex h.salt ++ b'$' ∷ hex h.hash))

-- The last two fields.
decode : ℕ → Text → Text → Result DuressHash
unfolding unhex
decode iterations salt hash = do
  salt_v ← unhex salt
  hash_v ← unhex hash
  bail_if (not (length salt_v == salt_len)) "bad salt length"
  bail_if (not (length hash_v == hash_len)) "bad hash length"
  ok (record { iterations = iterations; salt = salt_v; hash = hash_v })

parse_fields : List Text → Result DuressHash
unfolding validate_iterations decode parse_uint
parse_fields (name ∷ cost ∷ salt ∷ hash ∷ []) = do
  bail_if (not (text_eq name algorithm)) "not a pbkdf2_sha256 verifier"
  iterations ← expect_some "bad iteration count" (parse_uint u32_max cost)
  validate_iterations iterations
  decode iterations salt hash
parse_fields _ = err "not a pbkdf2_sha256 verifier"

unfoldable pub parse : Text → Result DuressHash
unfolding parse_fields trim split
parse s = parse_fields (split b'$' (trim s))

module _ (crypto : Crypto) where
  -- `csprng` is what `getrandom` gives.
  unfoldable pub derive : Result Bytes → Bytes → ℕ → Result DuressHash
  unfolding validate_iterations
  derive csprng code iterations = do
    validate_iterations iterations
    salt ← csprng
    hash ← crypto.pbkdf2 code salt iterations
    ok (record { iterations = iterations; salt = salt; hash = hash })

  unfoldable pub verify : DuressHash → Bytes → Result Bool
  verify h candidate = do
    got ← crypto.pbkdf2 candidate h.salt h.iterations
    ok (crypto.ct_eq got h.hash)
