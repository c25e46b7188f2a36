-- ===== src/Pam/Modes.antt =====
-- What the modes of the PAM module answer.
use deathstr0ke.Base.{
  ◌≡◌, refl, ap, ◌∙◌, String, Bool, true, false, List, [], ◌∷◌, Option, none, some, Result, ok, err,
  ℕ,
}
use deathstr0ke.Text.{Text, Bytes}
use deathstr0ke.Files.{File, missing, unreadable, text, read_to_string}
use deathstr0ke.Effects.{Fate, done, Prog, pure, ◌>>=◌, lift, act_half, attempt, query}
use deathstr0ke.Effects.Laws.{
  Triple, Ends, Caught, >>=-Triple, query-Triple, attempt-Triple, pure-Triple, from-Triple,
  given-Triple, to-Triple, fact-Triple,
}
use deathstr0ke.Core.{Process, test_mode}
use deathstr0ke.Core.Verifier.{DuressHash, Crypto, parse, verify}
use deathstr0ke.Pam.{
  PamError, ignore, auth_err, Machine, preauth, armed, authenticate, when_armed, run_mode, mode_of,
  fire, chosen_command, launch, erase_command, preauth_and_duress, with_verifier, stored_verifier,
  compare_token, answer_match,
}

-- That a token was read and is what the verdict says against the enrolled verifier.
pub record Compared (crypto : Crypto) (authtok : Option Bytes) (verdict : Bool) (m : Machine)
    : Type 0 where
  pub content : Text
  pub verifier : DuressHash
  pub token : Bytes
  pub stored : m.duress_hash ≡ text content
  pub parsed : parse content ≡ ok verifier
  pub entered : authtok ≡ some token
  pub compared : verify crypto verifier token ≡ ok verdict

duress_answer :
    (p : Process) (crypto : Crypto) (authtok : Option Bytes) (m : Machine)
    → test_mode p ≡ false
    → answer_match p crypto authtok (ok true) m []
      ≡ done auth_err (record m { launched = erase_command ∷ m.launched }) []
unfolding answer_match fire launch chosen_command ◌>>=◌ attempt act_half pure
duress_answer p crypto authtok m h = rw h refl

asked :
    {A B : Type 0} (message : String) (f : Machine → Result A) (k : Result A → Prog Machine B)
    (m : Machine)
    → (attempt (query message f) >>= k) m [] ≡ k (f m) m []
unfolding ◌>>=◌ attempt query
asked {A} {B} message f k m = by_result (f m)
  where
    by_result :
        (r : Result A) → (attempt (query message (λ (_ : Machine). r)) >>= k) m [] ≡ k r m []
    by_result (ok a) = refl
    by_result (err e) = refl

denied_and_fired :
    (p : Process) (crypto : Crypto) (authtok : Option Bytes) (m : Machine)
    → test_mode p ≡ false
    → Compared crypto authtok true m
    → preauth_and_duress p crypto authtok m []
      ≡ done auth_err (record m { launched = erase_command ∷ m.launched }) []
unfolding preauth_and_duress
denied_and_fired p crypto authtok m production c =
    asked _ _ _ m ∙ (ap (λ r. with_verifier p crypto authtok r m []) verifier_is ∙ answered)
  where
    verifier_is :
        stored_verifier p crypto authtok (read_to_string "armed verifier unreadable" m.duress_hash)
        ≡ ok c.verifier
    verifier_is = unfold stored_verifier in rw (c.stored, c.parsed) refl

    answered :
        with_verifier p crypto authtok (ok c.verifier) m []
        ≡ done auth_err (record m { launched = erase_command ∷ m.launched }) []
    answered =
        unfold with_verifier compare_token in
        rw (c.entered, c.compared) (duress_answer p crypto authtok m production)

-- In the armed module's first mode and outside test mode, where no effect fails, the duress code has
-- the production erase actor launched once with `--fire`, and the login is denied.
pub duress_fires :
    (p : Process) (crypto : Crypto) (authtok : Option Bytes) (now : ℕ) (args : List Text)
    (m : Machine)
    → test_mode p ≡ false
    → armed p m ≡ true
    → mode_of args ≡ preauth
    → Compared crypto authtok true m
    → authenticate p crypto authtok now args m []
      ≡ done auth_err (record m { launched = erase_command ∷ m.launched }) []
unfolding authenticate when_armed run_mode ◌>>=◌ lift
duress_fires p crypto authtok now args m production is_armed mode c =
    rw (is_armed, mode) (denied_and_fired p crypto authtok m production c)

module _ (p : Process) (crypto : Crypto) (authtok : Option Bytes) (m₀ : Machine) where
  abbrev pub Allowed : PamError → Machine → Type 0
  Allowed a m = a ≡ ignore → Compared crypto authtok false m₀

  abbrev Anything : Machine → Type 0
  Anything m = Unit {0}

  denied : Triple (λ _. Unit {0}) (pure auth_err) Allowed Anything
  denied = pure-Triple auth_err (λ s h e. cc)

  answer_match-Triple :
      (h : DuressHash) (token : Bytes) (content : Text) (r : Result Bool)
      → m₀.duress_hash ≡ text content
      → parse content ≡ ok h
      → authtok ≡ some token
      → verify crypto h token ≡ r
      → Triple (λ _. Unit {0}) (answer_match p crypto authtok r) Allowed Anything
  unfolding answer_match
  answer_match-Triple h token content (ok true) e f g k =
      >>=-Triple (λ _ _. Unit {0}) (fact-Triple _ tt) λ _. denied
  answer_match-Triple h token content (ok false) e f g k = pure-Triple ignore (λ s _ _. record {
    content = content;
    verifier = h;
    token = token;
    stored = e;
    parsed = f;
    entered = g;
    compared = k;
  })
  answer_match-Triple h token content (err x) e f g k = denied

  compare_token-Triple :
      (h : DuressHash) (content : Text) (t : Option Bytes)
      → m₀.duress_hash ≡ text content
      → parse content ≡ ok h
      → authtok ≡ t
      → Triple (λ _. Unit {0}) (compare_token p crypto authtok h t) Allowed Anything
  unfolding compare_token
  compare_token-Triple h content none e f g = denied
  compare_token-Triple h content (some token) e f g =
      answer_match-Triple h token content (verify crypto h token) e f g refl

  with_verifier-Triple :
      (content : Text) (r : Result DuressHash)
      → m₀.duress_hash ≡ text content
      → parse content ≡ r
      → Triple (λ _. Unit {0}) (with_verifier p crypto authtok r) Allowed Anything
  unfolding with_verifier
  with_verifier-Triple content (ok h) e f = compare_token-Triple h content authtok e f refl
  with_verifier-Triple content (err x) e f = denied

  answered-Triple :
      (r : Result Text)
      → ((content : Text) → r ≡ ok content → m₀.duress_hash ≡ text content)
      → Triple
          (λ _. Unit {0})
          (with_verifier p crypto authtok (stored_verifier p crypto authtok r))
          Allowed
          Anything
  unfolding stored_verifier
  answered-Triple (ok content) h =
      with_verifier-Triple content (parse content) (h content refl) refl
  answered-Triple (err e) h = unfold with_verifier in denied

text_of_read :
    (message : String) (f : File) {content : Text}
    → read_to_string message f ≡ ok content
    → f ≡ text content
text_of_read message missing e = cc
text_of_read message unreadable e = cc
text_of_read message (text s) e = cc

module _ (p : Process) (crypto : Crypto) (authtok : Option Bytes) (m₀ : Machine) where
  -- What the stored text says, where it was read.
  abbrev Read : Result Text → Machine → Type 0
  Read r m = (content : Text) → r ≡ ok content → m₀.duress_hash ≡ text content

  preauth-Triple :
      Triple
        (λ m. m ≡ m₀)
        (preauth_and_duress p crypto authtok)
        (Allowed p crypto authtok m₀)
        (λ _. Unit {0})
  unfolding preauth_and_duress
  preauth-Triple =
      >>=-Triple Read
        (to-Triple known (
          attempt-Triple {Q = λ r _. m₀.duress_hash ≡ text r}
            (query-Triple _ (λ s a h e. text_of_read _ _ (rw h at e)) (λ s h. tt))))
        λ r.
          given-Triple {F = (content : Text) → r ≡ ok content → m₀.duress_hash ≡ text content}
            (λ s h. h) λ k. from-Triple (λ s _. tt) (answered-Triple p crypto authtok m₀ r k)
    where
      known :
          (r : Result Text) (s : Machine)
          → Caught (λ c _. m₀.duress_hash ≡ text c) (λ _. Unit {0}) r s
          → Read r s
      known (ok c) s h content e = cc
      known (err x) s h content e = cc

-- Whatever effects fail, a run of the armed module's first mode that returns lets the login pass on to
-- the next module only if the machine's verifier can be read and parses, a token was given, and the
-- token was found not to be the duress code.
pub preauth_fails_closed :
    (p : Process) (crypto : Crypto) (authtok : Option Bytes) (now : ℕ) (args : List Text)
    (m : Machine) (w : List Fate)
    → armed p m ≡ true
    → mode_of args ≡ preauth
    → Ends (Allowed p crypto authtok m) (λ _. Unit {0}) (authenticate p crypto authtok now args m w)
unfolding authenticate when_armed run_mode ◌>>=◌ lift
preauth_fails_closed p crypto authtok now args m w is_armed mode =
    rw (is_armed, mode) ((preauth-Triple p crypto authtok m).run m w refl)
