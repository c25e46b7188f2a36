-- ===== src/Dsctl/Duress/Enrolled.antt =====
-- The phrase that fires a panic is the one that was enrolled.
use deathstr0ke.Base.{
  ◌≡◌, refl, ap, ◌∙◌, ◌⊎◌, inl, inr, ℕ, ◌≤◌, Bool, true, false, List, Result, ok, ltb, length,
  arith, All, String,
}
use deathstr0ke.Text.{Text, Bytes}
use deathstr0ke.Files.{File, missing, unreadable, text, read_to_string}
use deathstr0ke.Effects.{Fate}
use deathstr0ke.Effects.Laws.{Triple, Ends, act_half-Triple}
use deathstr0ke.Effects.Checks.{check-Triple, passed, passed_not}
use deathstr0ke.Core.Verifier
use deathstr0ke.Core.Verifier.{
  DuressHash, Crypto, IsSound, IsByte, IsWellFormed, salt_len, default_iterations, derive, verify,
  serialize,
}
use deathstr0ke.Core.Verifier.Checks.{verify-derive}
use deathstr0ke.Core.Verifier.RoundTrip.{parse-serialize}
use deathstr0ke.Dsctl.System.Steps.{act-At, query-At}
use deathstr0ke.Dsctl.Machine.{Machine}
use deathstr0ke.Dsctl.Duress.{Vault, set_duress, panic_wipe}

-- A stored verifier that accepts a code.
pub record Accepts (crypto : Crypto) (f : File) (code : Bytes) : Type 0 where
  pub stored : Text
  pub hash : DuressHash
  pub read : f ≡ text stored
  pub parsed : Verifier.parse stored ≡ ok hash
  pub accepted : verify crypto hash code ≡ ok true

module _ (crypto : Crypto) (host : Machine) where
  panic_wipe-Triple :
      (armed : Bool) (typed : Result Bytes) (s₀ : Vault)
      → Triple
          (λ s. s ≡ s₀)
          (panic_wipe crypto host armed typed)
          (λ _ t.
            (armed ≡ true)
            × ((code : Bytes) × (typed ≡ ok code) × Accepts crypto s₀.duress_hash code))
          (λ t.
            (t ≡ s₀)
            ⊎ ((armed ≡ true)
                × ((code : Bytes) × (typed ≡ ok code) × Accepts crypto s₀.duress_hash code)))
  unfolding panic_wipe
  panic_wipe-Triple armed typed s₀ = check-Triple _ (inl refl) λ _ _.
      check-Triple _ (inl refl) λ _ is_armed. check-Triple _ (inl refl) λ stored read.
        check-Triple _ (inl refl) λ h parsed. check-Triple _ (inl refl) λ code entered.
          check-Triple _ (inl refl) λ matches verified. check-Triple _ (inl refl) λ _ matched.
            check-Triple _ (inl refl) λ device _.
              let fact : (armed ≡ true)
                  × ((code : Bytes) × (typed ≡ ok code) × Accepts crypto s₀.duress_hash code) =
                (
                  passed_not armed _ is_armed,
                  (
                    code,
                    entered,
                    record {
                      stored = stored;
                      hash = h;
                      read = text_of s₀.duress_hash _ read;
                      parsed = parsed;
                      accepted = verified ∙ ap (λ b. ok b) (passed_not matches _ matched);
                    },
                  ),
                ) in
              act_half-Triple _ _ _ (λ s k. fact) (λ s k. inr fact) (λ s k. inr fact)
    where
      text_of : (f : File) (e : String) {t : Text} → read_to_string e f ≡ ok t → f ≡ text t
      text_of missing e k = cc
      text_of unreadable e k = cc
      text_of (text u) e k = ap (λ v. text v) (same k)
        where
          same : {a b : Text} → ◌≡◌ {A = Result Text} (ok a) (ok b) → a ≡ b
          same k = cc

-- `panic_wipe` returns, or changes anything, only on an armed machine and with a typed phrase that the
-- enrolled verifier accepts.
pub panic_wipe_needs_phrase :
    (crypto : Crypto) (host : Machine) (armed : Bool) (typed : Result Bytes) (s : Vault)
    (w : List Fate)
    → Ends
        (λ _ t.
          (armed ≡ true) × ((code : Bytes) × (typed ≡ ok code) × Accepts crypto s.duress_hash code))
        (λ t.
          (t ≡ s)
          ⊎ ((armed ≡ true)
              × ((code : Bytes) × (typed ≡ ok code) × Accepts crypto s.duress_hash code)))
        (panic_wipe crypto host armed typed s w)
panic_wipe_needs_phrase crypto host armed typed s w =
    (panic_wipe-Triple crypto host armed typed s).run s w refl

module _ (crypto : Crypto) (sound : IsSound crypto) (host : Machine) where
  set_duress-Triple :
      (armed : Bool) (args : List Text) (code again : Result Bytes) (salt : Bytes) (s₀ : Vault)
      → length salt ≡ salt_len
      → All IsByte salt
      → Triple
          (λ s. s ≡ s₀)
          (set_duress crypto host armed args code again (ok salt))
          (λ _ t.
            (first : Bytes) × (code ≡ ok first)
            × (6 ≤ length first)
            × Accepts crypto t.duress_hash first)
          (λ t. Unit {0})
  unfolding set_duress
  set_duress-Triple armed args code again salt s₀ size bytes = check-Triple _ tt λ _ _.
      check-Triple _ tt λ _ _. check-Triple _ tt λ policy _. check-Triple _ tt λ first entered.
        check-Triple _ tt λ second _. check-Triple _ tt λ _ _. check-Triple _ tt λ _ enough.
          check-Triple _ tt λ h derived. query-At _ _ tt λ _. act-At _ _ _ tt tt tt (
            act_half-Triple _ _ _
              (λ s k. (
                first,
                entered,
                long (length first) (passed (ltb (length first) 6) _ enough),
                stored h first derived,
              ))
              (λ s k. tt) (λ s k. tt))
    where
      long : (n : ℕ) → ltb n 6 ≡ false → 6 ≤ n
      long n e = ground arith

      stored :
          (h : DuressHash) (first : Bytes)
          → derive crypto (ok salt) first default_iterations ≡ ok h
          → Accepts crypto (text (serialize h)) first
      stored h first derived =
          let good : IsWellFormed h × (verify crypto h first ≡ ok true) =
            verify-derive crypto sound salt first default_iterations {h = h} size bytes derived in
          record {
            stored = serialize h;
            hash = h;
            read = refl;
            parsed = parse-serialize h good.0;
            accepted = good.1;
          }

-- Where `set_duress` returns, the phrase was at least six bytes long and the stored verifier accepts
-- it, given that the random generator fills the salt and that PBKDF2 and the comparison are sound.
pub set_duress_enrolls :
    (crypto : Crypto) (sound : IsSound crypto) (host : Machine) (armed : Bool) (args : List Text)
    (code again : Result Bytes) (salt : Bytes) (s : Vault) (w : List Fate)
    → length salt ≡ salt_len
    → All IsByte salt
    → Ends
        (λ _ t.
          (first : Bytes) × (code ≡ ok first)
          × (6 ≤ length first)
          × Accepts crypto t.duress_hash first)
        (λ t. Unit {0})
        (set_duress crypto host armed args code again (ok salt) s w)
set_duress_enrolls crypto sound host armed args code again salt s w size bytes =
    (set_duress-Triple crypto sound host armed args code again salt s size bytes).run s w refl
