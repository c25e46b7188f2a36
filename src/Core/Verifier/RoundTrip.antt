-- ===== src/Core/Verifier/RoundTrip.antt =====
-- Serialising a verifier and parsing it back.
use deathstr0ke.Base.{
  ℕ, ◌%◌, ◌<◌, ◌≡◌, refl, ◌∙◌, ap, true, false, [], ◌∷◌, ◌++◌, arith, ◌==◌, length, All, All-append,
  ok, some,
}
use deathstr0ke.Text.{Text, Bytes, is_whitespace, is_ascii, split}
use deathstr0ke.Text.Laws.{Lacks, NoSpace, trim-NoSpace, split-append, split-last}
use deathstr0ke.Text.Numbers.{u8_max, u32_max, from_str_radix, hex_byte, decimal}
use deathstr0ke.Text.Numbers.Decimal.{IsDigit, decimal-IsDigit, parse_uint-decimal}
use deathstr0ke.Text.Numbers.Hex.{
  IsHexDigit, from_str_radix-hex_byte, hex_byte-IsHexDigit, hex_byte-eq_pair,
}
use deathstr0ke.Core.Verifier.{
  DuressHash, IsWellFormed, IsByte, hex, unhex, unhex_pairs, serialize, parse, parse_fields, decode,
  validate_iterations, algorithm,
}

-- The characters that a verifier's fields are written with.
abbrev IsPlain : ℕ → Type 0
IsPlain c = ((c == b'$') ≡ false) × (is_whitespace c ≡ false) × (c < 128)

IsDigit-IsPlain : (c : ℕ) → IsDigit c → IsPlain c
unfolding is_whitespace
IsDigit-IsPlain c h = ground arith

All-map : {P Q : ℕ → Type 0} (s : Text) → ((c : ℕ) → P c → Q c) → All P s → All Q s
All-map [] f h = tt
All-map (c ∷ s) f (h, hs) = (f c h, All-map s f hs)

IsHexDigit-IsPlain : (c : ℕ) → IsHexDigit c → IsPlain c
unfolding is_whitespace
IsHexDigit-IsPlain c h = ground arith

hex-IsPlain : (bs : Bytes) → All IsByte bs → All IsPlain (hex bs)
unfolding hex
hex-IsPlain [] h = tt
hex-IsPlain (b ∷ bs) (hb, hs) =
    All-append IsPlain (hex_byte b) (hex bs)
      (All-map (hex_byte b) IsHexDigit-IsPlain (hex_byte-IsHexDigit b hb)) (hex-IsPlain bs hs)

unhex_pairs-hex : (bs : Bytes) → All IsByte bs → unhex_pairs (hex bs) ≡ ok bs
unfolding unhex_pairs hex
unhex_pairs-hex [] h = refl
unhex_pairs-hex (b ∷ bs) (hb, hs) =
    let (c, d, e) = hex_byte-eq_pair b in
    let digits : from_str_radix 16 u8_max (c ∷ d ∷ []) ≡ some b =
      rw e at (from_str_radix-hex_byte b hb) in
    rw (e, digits, unhex_pairs-hex bs hs) refl

length-hex : (bs : Bytes) → length (hex bs) % 2 ≡ 0
unfolding hex
length-hex [] = omega arith
length-hex (b ∷ bs) = let (c, d, e) = hex_byte-eq_pair b in rw e (omega (arith, length-hex bs))

is_ascii-IsPlain : (s : Text) → All IsPlain s → is_ascii s ≡ true
unfolding is_ascii
is_ascii-IsPlain [] h = refl
is_ascii-IsPlain (c ∷ s) h = ground (arith, is_ascii-IsPlain s h.1)

unhex-hex : (bs : Bytes) → All IsByte bs → unhex (hex bs) ≡ ok bs
unfolding unhex
unhex-hex bs h =
    ground
      (arith, is_ascii-IsPlain (hex bs) (hex-IsPlain bs h), length-hex bs, unhex_pairs-hex bs h)

IsPlain-Lacks : (s : Text) → All IsPlain s → Lacks b'$' s
IsPlain-Lacks s h = All-map s (λ c p. p.0) h

IsPlain-NoSpace : (s : Text) → All IsPlain s → NoSpace s
IsPlain-NoSpace s h = All-map s (λ c p. p.1) h

NoSpace-join : (s t : Text) → NoSpace s → NoSpace t → NoSpace (s ++ b'$' ∷ t)
unfolding is_whitespace
NoSpace-join s t hs ht = All-append _ s (b'$' ∷ t) hs (refl, ht)

algorithm-IsPlain : All IsPlain algorithm
unfolding is_whitespace
algorithm-IsPlain = ground arith

module _ (h : DuressHash) (w : IsWellFormed h) where
  cost-IsPlain : All IsPlain (decimal h.iterations)
  cost-IsPlain = All-map _ IsDigit-IsPlain (decimal-IsDigit h.iterations)

  serialize-NoSpace : NoSpace (serialize h)
  unfolding serialize is_whitespace
  serialize-NoSpace = NoSpace-join algorithm _ (IsPlain-NoSpace algorithm algorithm-IsPlain) (
      NoSpace-join (decimal h.iterations) _ (IsPlain-NoSpace (decimal h.iterations) cost-IsPlain) (
        NoSpace-join (hex h.salt) _ (IsPlain-NoSpace (hex h.salt) (hex-IsPlain h.salt w.salt_bytes))
          (IsPlain-NoSpace (hex h.hash) (hex-IsPlain h.hash w.hash_bytes))))

  split-serialize :
      split b'$' (serialize h) ≡ algorithm ∷ decimal h.iterations ∷ hex h.salt ∷ hex h.hash ∷ []
  unfolding serialize
  split-serialize =
      split-append b'$' algorithm _ (IsPlain-Lacks algorithm algorithm-IsPlain)
      ∙ ap (λ r. algorithm ∷ r)
          (split-append b'$' (decimal h.iterations) _
              (IsPlain-Lacks (decimal h.iterations) cost-IsPlain)
            ∙ ap (λ r. decimal h.iterations ∷ r)
                (split-append b'$' (hex h.salt) _
                    (IsPlain-Lacks (hex h.salt) (hex-IsPlain h.salt w.salt_bytes))
                  ∙ ap (λ r. hex h.salt ∷ r)
                      (split-last b'$' (hex h.hash)
                        (IsPlain-Lacks (hex h.hash) (hex-IsPlain h.hash w.hash_bytes)))))

  cost_accepted : validate_iterations h.iterations ≡ ok tt
  unfolding validate_iterations
  cost_accepted = ground (arith, w.enough, w.bounded)

  decode-hex : decode h.iterations (hex h.salt) (hex h.hash) ≡ ok h
  unfolding decode
  decode-hex =
      rw (unhex-hex h.salt w.salt_bytes, unhex-hex h.hash w.hash_bytes, w.salt_size, w.hash_size)
        refl

  -- A well-formed verifier is read back from the text that is stored for it.
  pub parse-serialize : parse (serialize h) ≡ ok h
  unfolding parse parse_fields
  parse-serialize =
      rw
        (
          trim-NoSpace (serialize h) serialize-NoSpace,
          split-serialize,
          parse_uint-decimal u32_max h.iterations (omega (arith, w.bounded)),
          cost_accepted,
        )
        decode-hex
