-- ===== src/Tests/DsctlTests.antt =====
-- dsctl/src/main.rs on a small machine: arming, disarming, the registry, the hooks and the PAM stack.
use deathstr0ke.Base.{◌≡◌, refl, true, false, List, [], ◌∷◌, some, ok, arith}
use deathstr0ke.Text.{Text, codes, contains_text}
use deathstr0ke.Files.{File, missing, text}
use deathstr0ke.Effects.{Fate, works, fails, cut, done, failed, final}
use deathstr0ke.Effects.Laws.{Ends}
use deathstr0ke.Core.Policy.{default_policy}
use deathstr0ke.Dsctl.System.{Mkinitcpio, System}
use deathstr0ke.Dsctl.PamStack.{arm_marker, arm_pam_stack}
use deathstr0ke.Dsctl.Machine.{Machine, Ready, check_ready}
use deathstr0ke.Dsctl.Arm.{arm}
use deathstr0ke.Dsctl.Disarm.{disarm}
use mathlib.Core.List.{flat_map}
use deathstr0ke.Effects.{◌>>=◌, pure, query, lift, when, act_half, attempt, fail}
use deathstr0ke.Text.{starts_with, trim, is_whitespace}
use deathstr0ke.Text.Lines.{lines}
use deathstr0ke.Text.Search.{find, joined}
use deathstr0ke.Text.Numbers.{decimal, parse_uint}
use deathstr0ke.Dsctl.PamStack.{
  is_auth_rule, raise_jump, success_jump, replace_success_jump, replace_digits, take_digits,
  drop_digits, number_of, is_digit,
}
use deathstr0ke.Dsctl.Registry.{
  read_known_slots, tokens, is_separator, insert_tokens, insert_number,
}
use deathstr0ke.Dsctl.Hooks.{
  place_hook, is_hooks_line, with_deathstroke_hook, without_deathstroke_hook, remove_hook,
}
use deathstr0ke.Dsctl.System.{write_conf, slot_text}
use deathstr0ke.Dsctl.Machine.{is_empty}
use deathstr0ke.Base.{◌⊎◌}
use deathstr0ke.Files.{read_to_string}
use deathstr0ke.Luks.{contains}
use deathstr0ke.Dsctl.Registry.{known_text}
use deathstr0ke.Dsctl.Registry.RoundTrip.{read_known_slots-text}
use deathstr0ke.Dsctl.Hooks.Removal.{Outcome, without_deathstroke_hook_removes}
use deathstr0ke.Dsctl.PamStack.Jumps.{Landed, raise_jump_lands}
use deathstr0ke.Dsctl.Arm.{commit, arm_transaction}
use deathstr0ke.Dsctl.Arm.Commit.{Committed, commit_orders}
use deathstr0ke.Dsctl.Arm.Rollback.{Reverted, arm_transaction_reverts}
use deathstr0ke.Dsctl.Arm.Outcome.{Marked}
use deathstr0ke.Dsctl.Arm.Clearance.{Cleared, Untouched, with_registry, arm_arms}
use deathstr0ke.Dsctl.Disarm.Undone.{disarm_undoes_arm}

abbrev toy_mkinitcpio : Mkinitcpio
toy_mkinitcpio = record { Image = File; build = λ conf marker esp. conf; broken = missing }

abbrev pam : Text
pam =
    codes
      "auth [success=1] pam_unix.so\nauth [default=die] pam_faillock.so authfail\nauth required pam_faillock.so authsucc\n"

abbrev unarmed : System toy_mkinitcpio
unarmed = record {
  system_auth = text pam;
  backup = missing;
  mkinitcpio_conf = text (codes "HOOKS=(udev encrypt)\n");
  initramfs = missing;
  local_armed = missing;
  known_slots = text (codes "0,1\n");
  esp = record {
    duress_hash = missing;
    config = missing;
    counter = missing;
    daily_slot = missing;
    recovery_slot = missing;
    armed = missing;
  };
}

abbrev pub verifier : Text
verifier =
    codes
      "pbkdf2_sha256$600000$00000000000000000000000000000000$0000000000000000000000000000000000000000000000000000000000000000"

abbrev pub machine : Machine
machine = record {
  root = true;
  disposable = true;
  module_deployed = true;
  duress_hash = text verifier;
  config = missing;
  target_device = text (codes "/dev/sda2\n");
  daily_slot = text (codes "0\n");
  recovery_slot = text (codes "1\n");
  canonicalize = λ path. ok path;
  is_block_device = λ path. ok true;
  is_luks = λ path. ok true;
  luks_dump = λ path. ok (codes "0: luks2\n1: luks2\n");
}

abbrev ready : Ready
ready = record {
  verifier = verifier;
  policy = default_policy;
  target = codes "/dev/sda2";
  daily = 0;
  recovery = 1;
  slots = 0 ∷ 1 ∷ [];
}

checked : check_ready machine ≡ ok ready
unfolding check_ready flat_map
checked = refl

abbrev armed : System toy_mkinitcpio
armed = final (arm machine unarmed [])

arms : arm machine unarmed [] ≡ done tt armed []
unfolding arm ◌>>=◌ pure query lift when act_half attempt fail flat_map find starts_with
    is_auth_rule lines joined raise_jump success_jump replace_success_jump replace_digits
    take_digits drop_digits number_of is_digit decimal parse_uint tokens read_known_slots
    is_separator insert_tokens insert_number trim is_whitespace place_hook is_hooks_line
    with_deathstroke_hook without_deathstroke_hook remove_hook write_conf slot_text is_empty
    contains_text
arms = refl

abbrev disarmed : System toy_mkinitcpio
disarmed = final (disarm machine armed [])

disarms : disarm machine armed [] ≡ done tt disarmed []
unfolding disarm arm ◌>>=◌ pure query lift when act_half attempt fail flat_map find starts_with
    is_auth_rule lines joined raise_jump success_jump replace_success_jump replace_digits
    take_digits drop_digits number_of is_digit decimal parse_uint tokens read_known_slots
    is_separator insert_tokens insert_number trim is_whitespace place_hook is_hooks_line
    with_deathstroke_hook without_deathstroke_hook remove_hook write_conf slot_text is_empty
    contains_text
disarms = refl

not_marked : contains_text arm_marker pam ≡ false
not_marked = unfold contains_text starts_with in refl

disarm_undoes_arm_example :
    (disarmed.system_auth ≡ unarmed.system_auth)
    × (disarmed.local_armed ≡ missing)
    × (disarmed.esp.armed ≡ missing)
disarm_undoes_arm_example =
    disarm_undoes_arm machine machine pam unarmed armed disarmed [] [] [] [] refl not_marked arms
      disarms

-- Every fate of a step comes up in one of these.
abbrev rough : List Fate
rough = works ∷ works ∷ works ∷ works ∷ works ∷ works ∷ works ∷ fails ∷ cut ∷ []

arm_arms_example :
    Ends
      (λ _ t.
        (r : Ready) × (content : Text) × (registry : File) × Cleared machine unarmed.known_slots r
        × (read_to_string "read system-auth" unarmed.system_auth ≡ ok content)
        × Marked r content (with_registry unarmed registry) t)
      (λ t. Untouched unarmed t ⊎ ((r : Ready) × Cleared machine unarmed.known_slots r))
      (arm machine unarmed rough)
arm_arms_example = arm_arms machine unarmed rough

commit_orders_example :
    Ends
      (λ _ t. Committed ready pam unarmed t)
      (λ t. (t.system_auth ≡ unarmed.system_auth) ⊎ Committed ready pam unarmed t)
      (commit ready pam unarmed rough)
commit_orders_example = commit_orders ready pam unarmed rough

abbrev armed_pam : Text
armed_pam =
    codes
      "auth       [success=ignore ignore=ignore default=die] /usr/lib/security/pam_ds.so # deathstr0ke-arm\nauth [success=2] pam_unix.so\nauth       [default=die]               /usr/lib/security/pam_ds.so authfail # deathstr0ke-arm\nauth [default=die] pam_faillock.so authfail\nauth required pam_faillock.so authsucc\nauth       optional                    /usr/lib/security/pam_ds.so authsucc # deathstr0ke-arm\n"

-- The local marker has been written when a step fails.
abbrev late : List Fate
late = works ∷ works ∷ works ∷ works ∷ works ∷ works ∷ works ∷ works ∷ works ∷ fails ∷ []

abbrev reverted : System toy_mkinitcpio
reverted = final (arm_transaction ready pam unarmed late)

can_be_armed : arm_pam_stack pam ≡ ok armed_pam
unfolding arm_pam_stack find starts_with is_auth_rule lines joined raise_jump success_jump
    replace_success_jump replace_digits take_digits drop_digits number_of is_digit decimal
    parse_uint is_whitespace contains_text
can_be_armed = refl

reverts : arm_transaction ready pam unarmed late ≡ failed "arm transaction rolled back" reverted []
unfolding arm_transaction ◌>>=◌ pure query lift when act_half attempt fail find starts_with
    is_auth_rule lines joined raise_jump success_jump replace_success_jump replace_digits
    take_digits drop_digits number_of is_digit decimal parse_uint is_whitespace place_hook
    is_hooks_line with_deathstroke_hook write_conf slot_text contains_text
reverts = refl

arm_transaction_reverts_example : Reverted unarmed reverted
arm_transaction_reverts_example =
    arm_transaction_reverts ready pam armed_pam unarmed reverted late [] refl can_be_armed reverts

read_known_slots-text_example :
    contains (read_known_slots (text (known_text (0 ∷ 1 ∷ 12 ∷ [])))) 12
    ≡ contains (0 ∷ 1 ∷ 12 ∷ []) 12
read_known_slots-text_example = read_known_slots-text (0 ∷ 1 ∷ 12 ∷ []) 12 (ground arith)

abbrev hooks : Text
hooks = codes "MODULES=()\nHOOKS=(base udev deathstroke encrypt filesystems)\n"

without_deathstroke_hook_removes_example : Outcome hooks (without_deathstroke_hook hooks)
without_deathstroke_hook_removes_example = without_deathstroke_hook_removes hooks

abbrev rule : Text
rule = codes "auth [success=1 default=bad] pam_unix.so"

abbrev raised_rule : Text
raised_rule = codes "auth [success=2 default=bad] pam_unix.so"

abbrev auth_rules : List Text
auth_rules =
    raised_rule
    ∷ codes "auth [default=die] pam_faillock.so authfail"
    ∷ codes "auth optional pam_permit.so"
    ∷ codes "auth required pam_faillock.so authsucc"
    ∷ []

raise_jump_lands_example : Landed auth_rules 1 3 0 1 raised_rule
raise_jump_lands_example =
    raise_jump_lands auth_rules 1 3 0 1 rule raised_rule (ground arith) (ground arith)
      (ground arith) (ground arith) jumps raised
  where
    jumps : success_jump rule ≡ some 1
    jumps = unfold success_jump find starts_with take_digits number_of is_digit parse_uint in refl

    raised : raise_jump 1 0 rule ≡ ok (codes "auth [success=2 default=bad] pam_unix.so")
    raised =
        unfold raise_jump success_jump replace_success_jump replace_digits find starts_with
          take_digits drop_digits number_of is_digit decimal parse_uint in
        refl
