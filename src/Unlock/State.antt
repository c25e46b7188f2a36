-- ===== src/Unlock/State.antt =====
-- What ds-unlock/src/main.rs reads and changes: the files on the ESP and their copies in the
-- initramfs, the mapping, and the runs of ds-erase that it starts.
pub mod Counter
use deathstr0ke.Base.{
  ℕ, Bool, true, false, not, ◌&&◌, List, [], ◌∷◌, ◌++◌, Option, none, some, leb, ltb, ◌==◌, ◌+◌,
  if◌then◌else◌, String, Result, ok, err, expect_some, bail_if, context, ◌≡◌, refl,
}
use deathstr0ke.Base
use deathstr0ke.Text.{Text, codes, text_eq, trim}
use deathstr0ke.Text.Lines.{split_whitespace}
use deathstr0ke.Text.Numbers.{u8_max, u32_max, decimal, parse_uint}
use deathstr0ke.Files.{File, missing, unreadable, text, read_to_string, is_file}
use deathstr0ke.Effects.{Prog, ◌>>=◌, ◌>>◌, pure, fail, lift, act, query}
use deathstr0ke.Core.Attempts.{saturating_suc}
use deathstr0ke.Core.Policy.{Policy}
use deathstr0ke.Core.Policy
use deathstr0ke.Core.Verifier.{DuressHash}
use deathstr0ke.Core.Verifier

-- The four records that are frozen into the initramfs, or that stand on the ESP.
pub record Frozen : Type 0 where
  pub duress_hash : File
  pub config : File
  pub daily_slot : File
  pub recovery_slot : File

-- A run of ds-erase: `--fire` with its slots, or `--resume`.
pub data EraseRun : Type 0 where
  fire resume : Text → ℕ → ℕ → Text → EraseRun

pub record Boot : Type 0 where
  pub esp_present : Bool
  pub armed : File
  pub live : Frozen
  pub baked : Frozen
  pub counter : File
  pub journal : File
  pub mapping_open : Bool
  pub erase_runs : List EraseRun

-- The counter on the ESP.
only_word : ℕ → List Text → Result ℕ
only_word n [] = ok n
only_word n (_ ∷ _) = err "armed counter has trailing fields"

count_of_words : List Text → Result ℕ
unfolding only_word parse_uint
count_of_words [] = err "armed counter is empty"
count_of_words (w ∷ rest) =
    Base.◌>>=◌ (expect_some "armed counter is invalid" (parse_uint u32_max w)) λ n. only_word n rest

unfoldable pub read_count : File → Result ℕ
unfolding count_of_words split_whitespace
read_count f =
    Base.◌>>=◌ (read_to_string "read armed counter" f) λ s. count_of_words (split_whitespace s)

unfoldable pub count_text : ℕ → Text
unfolding decimal
count_text n = decimal n ++ b'\n' ∷ []

unfoldable pub write_count : ℕ → Prog Boot (Unit {0})
unfolding count_text
write_count n =
    act "durably write counter" (λ (s : Boot). record s { counter = text (count_text n) })

unfoldable pub bump_count : Prog Boot ℕ
unfolding write_count read_count
bump_count = do
  n ← lift (λ (s : Boot). read_count s.counter)
  write_count (saturating_suc n)
  pure (saturating_suc n)

unfoldable pub reset_count : Prog Boot (Unit {0})
unfolding write_count
reset_count = write_count 0

unfoldable pub read_cfg : Boot → Result Policy
unfolding Policy.parse
read_cfg s =
    Base.◌>>=◌ (read_to_string "read armed policy" s.live.config)
      λ t. context "invalid armed policy" (Policy.parse t)

unfoldable pub load_duress : Boot → Result DuressHash
unfolding Verifier.parse
load_duress s =
    Base.◌>>=◌ (read_to_string "read armed verifier" s.live.duress_hash)
      λ t. context "invalid armed verifier" (Verifier.parse t)

-- `read_daily_slot` and `read_recovery_slot`.
unfoldable pub read_slot : File → Result ℕ
unfolding parse_uint trim
read_slot f = Base.◌>>=◌ (read_to_string "read slot" f) λ t.
    Base.◌>>=◌ (expect_some "invalid slot" (parse_uint u8_max (trim t)))
      λ n. Base.◌>>◌ (bail_if (ltb 31 n) "slot outside 0..31") (ok n)

compare_texts : Text → Text → Result (Unit {0})
unfolding trim
compare_texts baked live =
    bail_if (not (text_eq (trim baked) (trim live)))
      "ESP record does not match the initramfs-baked reference"

-- One round of `verify_against_baked`: an absent reference is passed over.
compare_baked : File → File → Result (Unit {0})
unfolding compare_texts
compare_baked missing live = ok tt
compare_baked unreadable live = err "read baked reference"
compare_baked (text b) live =
    Base.◌>>=◌ (read_to_string "read ESP record" live) λ l. compare_texts b l

unfoldable pub verify_against_baked : Boot → Result (Unit {0})
unfolding compare_baked
verify_against_baked s = Base.◌>>◌ (compare_baked s.baked.duress_hash s.live.duress_hash) (
    Base.◌>>◌ (compare_baked s.baked.config s.live.config) (
      Base.◌>>◌ (compare_baked s.baked.daily_slot s.live.daily_slot)
        (compare_baked s.baked.recovery_slot s.live.recovery_slot)))

-- `do_wipe` and `resume_wipe`. A run of ds-erase that reports an error may have taken effect.
unfoldable pub do_wipe : Text → Text → ℕ → ℕ → Prog Boot ℕ
do_wipe device map slot recovery_slot = do
  act "daily-slot destruction failed"
      (λ (s : Boot). record s { erase_runs = fire device slot recovery_slot map ∷ s.erase_runs })
  pure 2

unfoldable pub resume_wipe : Text → ℕ → ℕ → Text → Prog Boot ℕ
resume_wipe device slot recovery_slot map = do
  act "interrupted daily-slot transaction could not resume"
      (λ (s : Boot). record s { erase_runs = resume device slot recovery_slot map ∷ s.erase_runs })
  pure 2
