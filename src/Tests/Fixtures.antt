-- ===== src/Tests/Fixtures.antt =====
-- Small stand-ins for the crates and programs that the sources call.
use deathstr0ke.Base.{
  ℕ, zero, suc, ◌≡◌, ◌≢◌, refl, Bool, true, false, List, [], ◌∷◌, ◌++◌, none, some, Result, ok,
  length, All, arith, subst,
}
use deathstr0ke.Text.{Text, Bytes, codes, text_eq}
use deathstr0ke.Text.Laws.{text_eq_iff}
use deathstr0ke.Core.{Process}
use deathstr0ke.Core.Policy.{default_policy}
use deathstr0ke.Core.Policy.Bounds.{IsValid}
use deathstr0ke.Core.Verifier.{DuressHash, IsWellFormed, IsByte, Crypto, IsSound, hash_len}
use deathstr0ke.Luks.{Cryptsetup, IsFaithful, slots_of_dump, contains, active}
use deathstr0ke.Erase.Journal.{Journal, kill_slot, backups_handled}
use deathstr0ke.Erase.World.{Codec}

abbrev pub zeros : Bytes
zeros = 0 ∷ 0 ∷ 0 ∷ 0 ∷ 0 ∷ 0 ∷ 0 ∷ 0 ∷ 0 ∷ 0 ∷ 0 ∷ 0 ∷ 0 ∷ 0 ∷ 0 ∷ 0 ∷ []

abbrev pub ones : Bytes
ones = 1 ∷ 1 ∷ 1 ∷ 1 ∷ 1 ∷ 1 ∷ 1 ∷ 1 ∷ 1 ∷ 1 ∷ 1 ∷ 1 ∷ 1 ∷ 1 ∷ 1 ∷ 1 ∷ []

abbrev pub digest : Bool → Bytes
digest true = zeros ++ zeros
digest false = ones ++ ones

-- A hash that tells "duress" from every other code.
abbrev pub toy_crypto : Crypto
toy_crypto = record {
  pbkdf2 = λ code salt n. ok (digest (text_eq code (codes "duress")));
  ct_eq = text_eq;
}

digest_size : (b : Bool) → (length (digest b) ≡ hash_len) × All IsByte (digest b)
digest_size true = ground arith
digest_size false = ground arith

pub toy_crypto-IsSound : IsSound toy_crypto
toy_crypto-IsSound = record {
  pbkdf2_size = λ code salt n {out} e. sized (digest_size (text_eq code (codes "duress"))) e;
  ct_eq_iff = text_eq_iff;
}
  where
    sized :
        {x out : Bytes}
        → (length x ≡ hash_len) × All IsByte x
        → ◌≡◌ {A = Result Bytes} (ok x) (ok out)
        → (length out ≡ hash_len) × All IsByte out
    sized {x} {out} h e = subst (λ y. (length y ≡ hash_len) × All IsByte y) (same e) h
      where
        same : {x out : Bytes} → ◌≡◌ {A = Result Bytes} (ok x) (ok out) → x ≡ out
        same k = cc

-- A device with two keyslots.
pub record TwoSlots : Type 0 where
  pub zeroth : Bool
  pub first : Bool

abbrev line_of : Bool → Text → Text
line_of true line = line
line_of false line = []

abbrev slots_of : Bool → Bool → List ℕ
slots_of false false = []
slots_of true false = 0 ∷ []
slots_of false true = 1 ∷ []
slots_of true true = 0 ∷ 1 ∷ []

abbrev dump_of : Bool → Bool → Text
dump_of z f = line_of z (codes "  0: luks2\n") ++ line_of f (codes "  1: luks2\n")

abbrev kill_of : ℕ → TwoSlots → TwoSlots
kill_of zero d = record d { zeroth = false }
kill_of (suc zero) d = record d { first = false }
kill_of (suc (suc n)) d = d

abbrev pub two_slots : Cryptsetup
two_slots = record {
  Device = TwoSlots;
  luks_dump = λ d. dump_of d.zeroth d.first;
  luks_kill_slot = kill_of;
  luks_erase = λ d. record { zeroth = false; first = false };
  luks_erase_partly = λ d. record { zeroth = false; first = d.first };
}

dumped : (z f : Bool) → slots_of_dump (dump_of z f) ≡ slots_of z f
unfolding slots_of_dump
dumped true true = refl
dumped true false = refl
dumped false true = refl
dumped false false = refl

zeroth_active : (z f : Bool) → contains (slots_of z f) 0 ≡ z
unfolding contains
zeroth_active true true = refl
zeroth_active true false = refl
zeroth_active false true = refl
zeroth_active false false = refl

first_active : (z f : Bool) → contains (slots_of z f) 1 ≡ f
unfolding contains
first_active true true = refl
first_active true false = refl
first_active false true = refl
first_active false false = refl

other_inactive : (z f : Bool) (n : ℕ) → contains (slots_of z f) (suc (suc n)) ≡ false
unfolding contains
other_inactive true true n = ground arith
other_inactive true false n = ground arith
other_inactive false true n = ground arith
other_inactive false false n = ground arith

kills_self : (d : TwoSlots) (n : ℕ) → active two_slots (kill_of n d) n ≡ false
kills_self d zero = rw (dumped false d.first) (zeroth_active false d.first)
kills_self d (suc zero) = rw (dumped d.zeroth false) (first_active d.zeroth false)
kills_self d (suc (suc n)) = rw (dumped d.zeroth d.first) (other_inactive d.zeroth d.first n)

kills_no_other :
    (d : TwoSlots) (n m : ℕ) → m ≢ n → active two_slots (kill_of n d) m ≡ active two_slots d m
kills_no_other d zero zero h = absurd (h refl)
kills_no_other d zero (suc zero) h =
    rw
      (
        dumped false d.first,
        dumped d.zeroth d.first,
        first_active false d.first,
        first_active d.zeroth d.first,
      )
      refl
kills_no_other d zero (suc (suc m)) h =
    rw
      (
        dumped false d.first,
        dumped d.zeroth d.first,
        other_inactive false d.first m,
        other_inactive d.zeroth d.first m,
      )
      refl
kills_no_other d (suc zero) zero h =
    rw
      (
        dumped d.zeroth false,
        dumped d.zeroth d.first,
        zeroth_active d.zeroth false,
        zeroth_active d.zeroth d.first,
      )
      refl
kills_no_other d (suc zero) (suc zero) h = absurd (h refl)
kills_no_other d (suc zero) (suc (suc m)) h =
    rw
      (
        dumped d.zeroth false,
        dumped d.zeroth d.first,
        other_inactive d.zeroth false m,
        other_inactive d.zeroth d.first m,
      )
      refl
kills_no_other d (suc (suc n)) m h = refl

pub two_slots-IsFaithful : IsFaithful two_slots
two_slots-IsFaithful = record {
  kill_self = kills_self;
  kill_other = kills_no_other;
  erase_none = λ d. dumped false false;
}

-- The daily slot's destruction, as it stands behind the header backups.
abbrev pub daily_journal : Journal
daily_journal = record {
  version = 1;
  phase = backups_handled;
  device = codes "/dev/sda2";
  mode = kill_slot;
  slot = some 0;
  recovery_slot = some 1;
  map_name = some (codes "cryptroot");
  header_scan = codes "/boot/efi/deathstroke" ∷ [];
}

abbrev pub toy_codec : Codec
toy_codec = record { to_vec = λ j. j.device; from_slice = λ t. ok daily_journal }

-- A release build with an empty environment.
abbrev pub release : Process
release = record { debug_assertions = false; var = λ name. none }

abbrev pub sample_hash : DuressHash
sample_hash = record { iterations = 600000; salt = zeros; hash = digest true }

pub sample_hash-IsWellFormed : IsWellFormed sample_hash
sample_hash-IsWellFormed = record {
  enough = ground arith;
  bounded = ground arith;
  salt_size = refl;
  salt_bytes = ground arith;
  hash_size = refl;
  hash_bytes = ground arith;
}

pub default_policy-IsValid : IsValid default_policy
default_policy-IsValid = record {
  lockout_pos = ground arith;
  lockout_before_wipe = ground arith;
  wipe_within_prompts = ground arith;
  prompts_bounded = ground arith;
  delay_bounded = ground arith;
}
