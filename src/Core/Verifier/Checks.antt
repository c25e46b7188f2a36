-- ===== src/Core/Verifier/Checks.antt =====
-- What `parse` and `derive` return, and what `verify` accepts.
use deathstr0ke.Base.{
  ℕ, ◌≤◌, ◌≡◌, true, List, [], ◌∷◌, arith, ◌==◌, inl, inr, not, length, All, Result, ok, ◌>>◌,
  Result-cases, Option-cases, >>=-eq-ok, expect_some, bail_if,
}
use deathstr0ke.Text.{Text, Bytes, trim, split, text_eq}
use deathstr0ke.Text.Numbers.{u8_max, u32_max, from_str_radix, parse_uint}
use deathstr0ke.Text.Numbers.Decimal.{from_str_radix_bound}
use deathstr0ke.Core.Verifier.{
  DuressHash, IsWellFormed, IsByte, Crypto, IsSound, unhex, unhex_pairs, decode, parse,
  parse_fields, validate_iterations, derive, verify, min_iterations, max_iterations, salt_len,
  hash_len, algorithm,
}

unhex_pairs_bytes : (s : Text) {bs : Bytes} → unhex_pairs s ≡ ok bs → All IsByte bs
unfolding unhex_pairs
unhex_pairs_bytes [] e = ground arith
unhex_pairs_bytes (c ∷ []) e = ground arith
unhex_pairs_bytes (c ∷ d ∷ s) {bs} e = elim (Option-cases (from_str_radix 16 u8_max (c ∷ d ∷ []))) [
  | inl bad ↦ ground arith
  | inr (b, good) ↦ elim (Result-cases (unhex_pairs s)) [
    | inl (rest, more) ↦ ground (
      arith,
      unhex_pairs_bytes s {bs = rest} more,
      from_str_radix_bound 16 u8_max (c ∷ d ∷ []) {r = b} good,
    )
    | inr (x, bad) ↦ ground arith
  ]
]

-- Whatever hexadecimal text is read gives bytes.
unhex_bytes : (s : Text) {bs : Bytes} → unhex s ≡ ok bs → All IsByte bs
unfolding unhex
unhex_bytes s {bs} e = ground (arith, unhex_pairs_bytes s {bs = bs})

-- The fields behind the decoders.
sized_sound :
    (n : ℕ) (s d : Bytes) {h : DuressHash}
    → validate_iterations n ≡ ok tt
    → All IsByte s
    → All IsByte d
    → (bail_if (not (length s == salt_len)) "bad salt length"
        >> (bail_if (not (length d == hash_len)) "bad hash length"
            >> ok (record { iterations = n; salt = s; hash = d })))
      ≡ ok h
    → IsWellFormed h
unfolding validate_iterations
sized_sound n s d {h} range salt_bytes hash_bytes e = ground (arith, salt_bytes, hash_bytes)

parse_fields_sound : (f : List Text) {h : DuressHash} → parse_fields f ≡ ok h → IsWellFormed h
unfolding parse_fields decode
parse_fields_sound (name ∷ cost ∷ salt ∷ hash ∷ []) {h} e =
    let (u, named, e₁) =
      >>=-eq-ok (bail_if (not (text_eq name algorithm)) "not a pbkdf2_sha256 verifier") _ e in
    let (n, cost_read, e₂) =
      >>=-eq-ok (expect_some "bad iteration count" (parse_uint u32_max cost)) _ e₁ in
    let (v, range, e₃) = >>=-eq-ok (validate_iterations n) _ e₂ in
    let (s, salt_read, e₄) = >>=-eq-ok (unhex salt) _ e₃ in
    let (d, hash_read, e₅) = >>=-eq-ok (unhex hash) _ e₄ in
    sized_sound n s d {h = h} range (unhex_bytes salt {bs = s} salt_read)
      (unhex_bytes hash {bs = d} hash_read) e₅
parse_fields_sound _ e = cc

-- A verifier that is accepted is well formed: its cost is inside the safe range, its salt has 16
-- bytes and its hash 32.
pub parse_sound : (s : Text) {h : DuressHash} → parse s ≡ ok h → IsWellFormed h
unfolding parse
parse_sound s e = parse_fields_sound (split b'$' (trim s)) e

module _ (crypto : Crypto) (sound : IsSound crypto) where
  -- A verifier derived from a code is well formed, when the generator filled a salt of 16 bytes, and
  -- accepts that code, given that PBKDF2 fills 32 bytes and the comparison tells buffers apart.
  pub verify-derive :
      (salt code : Bytes) (n : ℕ) {h : DuressHash}
      → length salt ≡ salt_len
      → All IsByte salt
      → derive crypto (ok salt) code n ≡ ok h
      → IsWellFormed h × (verify crypto h code ≡ ok true)
  unfolding derive verify validate_iterations
  verify-derive salt code n {h} size bytes e = elim (Result-cases (crypto.pbkdf2 code salt n)) [
    | inl (out, eq) ↦
        ground (arith, sound.pbkdf2_size code salt n {out = out} eq, sound.ct_eq_iff out out)
    | inr (x, bad) ↦ ground arith
  ]

-- A verifier is derived only at a cost from 100000 to 5000000 iterations, and it records that cost.
derive_bounds :
    (crypto : Crypto) (csprng : Result Bytes) (code : Bytes) (n : ℕ) {h : DuressHash}
    → derive crypto csprng code n ≡ ok h
    → (min_iterations ≤ n) × (n ≤ max_iterations) × (h.iterations ≡ n)
unfolding derive validate_iterations
derive_bounds crypto csprng code n e = ground arith
