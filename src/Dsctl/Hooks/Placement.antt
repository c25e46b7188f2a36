-- ===== src/Dsctl/Hooks/Placement.antt =====
-- What `ensure_deathstroke_hook_before_encrypt` makes of mkinitcpio.conf.
use deathstr0ke.Base.{
  ℕ, ◌≡◌, refl, ap, ◌∙◌, subst, ◌⊎◌, inl, inr, Bool, true, false, not, ◌||◌, List, [], ◌∷◌, ◌++◌,
  Option, none, some, length, Result, ok, err, ◌>>=◌, ◌>>◌, bail_if, arith, any, ltb, if◌then◌else◌,
}
use deathstr0ke.Text.{Text, codes}
use deathstr0ke.Text.Lines.{lines}
use deathstr0ke.Text.Search.{find, take, drop, joined}
use deathstr0ke.Text.Search.Laws.{find-append, drop_prefix}
use deathstr0ke.Dsctl.Hooks.{
  hook, is_hooks_line, or_find, place_at, place_hook, place_hooks, with_deathstroke_hook,
}

-- The name of the hook stands in the line.
pub record Holds (line : Text) : Type 0 where
  pub before : Text
  pub behind : Text
  pub whole : line ≡ before ++ hook ++ behind

-- The name was put in front of that of an encryption hook, which may be a part of a longer word.
pub record Inserted (line after : Text) : Type 0 where
  pub before : Text
  pub word : Text
  pub behind : Text
  pub encryption : (word ≡ codes "encrypt") ⊎ (word ≡ codes "sd-encrypt")
  pub was : line ≡ before ++ word ++ behind
  pub is : after ≡ before ++ codes "deathstroke " ++ (word ++ behind)

abbrev pub Placed : Text → Text → Bool → Type 0
Placed line after changed =
    (Holds line × (after ≡ line) × (changed ≡ false)) ⊎ (Inserted line after × (changed ≡ true))

abbrev PlacedIn : Text → Result (Text × Bool) → Type 0
PlacedIn line (ok (after, changed)) = Placed line after changed
PlacedIn line (err e) = Unit {0}

found_there : (p s : Text) {k : ℕ} → find p s ≡ some k → drop k s ≡ p ++ drop (length p) (drop k s)
found_there p s {k} h =
    ap (λ t. drop k t) (find-append p s h) ∙ drop_prefix p s (drop (length p) (drop k s)) h

inserted :
    (line word : Text) (k : ℕ)
    → (word ≡ codes "encrypt") ⊎ (word ≡ codes "sd-encrypt")
    → find word line ≡ some k
    → Inserted line (take k line ++ codes "deathstroke " ++ drop k line)
inserted line word k kind found = record {
  before = take k line;
  word = word;
  behind = drop (length word) (drop k line);
  encryption = kind;
  was = find-append word line found;
  is = ap (λ t. take k line ++ codes "deathstroke " ++ t) (found_there word line found);
}

place_at-Placed :
    (line : Text) (d e f : Option ℕ)
    → find hook line ≡ d
    → find (codes "encrypt") line ≡ e
    → find (codes "sd-encrypt") line ≡ f
    → PlacedIn line (place_at line d (or_find e f))
unfolding place_at
place_at-Placed line (some d) (some e) f hd he hf = by_order (ltb e d)
  where
    by_order :
        (b : Bool)
        → PlacedIn line
            (if b then err "deathstroke hook must precede encrypt/sd-encrypt" else ok (line, false))
    by_order true = tt
    by_order false = inl (
      record {
        before = take d line;
        behind = drop (length hook) (drop d line);
        whole = find-append hook line hd;
      },
      refl,
      refl,
    )
place_at-Placed line (some d) none (some f) hd he hf = by_order (ltb f d)
  where
    by_order :
        (b : Bool)
        → PlacedIn line
            (if b then err "deathstroke hook must precede encrypt/sd-encrypt" else ok (line, false))
    by_order true = tt
    by_order false = inl (
      record {
        before = take d line;
        behind = drop (length hook) (drop d line);
        whole = find-append hook line hd;
      },
      refl,
      refl,
    )
place_at-Placed line (some d) none none hd he hf = tt
place_at-Placed line none (some e) f hd he hf =
    inr (inserted line (codes "encrypt") e (inl refl) he, refl)
place_at-Placed line none none (some f) hd he hf =
    inr (inserted line (codes "sd-encrypt") f (inr refl) hf, refl)
place_at-Placed line none none none hd he hf = tt

place_hook-Placed : (line : Text) → PlacedIn line (place_hook line)
unfolding place_hook
place_hook-Placed line = place_at-Placed line _ _ _ refl refl refl

abbrev pub Line : Text → Text → Type 0
Line before after =
    (is_hooks_line before ≡ true → (changed : Bool) × Placed before after changed)
    × (is_hooks_line before ≡ false → after ≡ before)

abbrev pub Lines : List Text → List Text → Type 0
Lines [] [] = Unit {0}
Lines (l ∷ ls) (m ∷ ms) = Line l m × Lines ls ms
Lines ls ms = ⊥

abbrev Ended : List Text → (saw changed : Bool) → Result (List Text × Bool × Bool) → Type 0
Ended ls saw changed (ok (ms, saw', changed')) =
    Lines ls ms
    × (saw' ≡ true → (saw || any is_hooks_line ls) ≡ true)
    × (changed' ≡ false → (changed ≡ false) × (ms ≡ ls))
Ended ls saw changed (err e) = Unit {0}

place_hooks-Ended :
    (ls : List Text) (saw changed : Bool) → Ended ls saw changed (place_hooks ls saw changed)
unfolding place_hooks
place_hooks-Ended [] saw changed = (tt, (λ e. ground arith), λ e. (e, refl))
place_hooks-Ended (l ∷ ls) saw changed =
    by_kind (place_hooks-Ended ls saw changed) (λ c. place_hooks-Ended ls true c) (is_hooks_line l)
      refl
  where
    plain :
        is_hooks_line l ≡ false
        → (r : Result (List Text × Bool × Bool)) → Ended ls saw changed r
        → Ended (l ∷ ls) saw changed (r >>= λ others. ok (l ∷ others.0, others.1, others.2))
    plain e (ok (ms, a, b)) h = (
      ((λ f. absurd (ground arith), λ _. refl), h.0),
      (λ k. let x = h.1 k in ground arith),
      λ k. ((h.2 k).0, ap (λ t. l ∷ t) (h.2 k).1),
    )
    plain e (err x) h = tt

    hooked :
        (after : Text) (c : Bool)
        → is_hooks_line l ≡ true
        → Placed l after c
        → (r : Result (List Text × Bool × Bool)) → Ended ls true (changed || c) r
        → Ended (l ∷ ls) saw changed (r >>= λ others. ok (after ∷ others.0, others.1, others.2))
    hooked after c e p (ok (ms, a, b)) h =
        (((λ _. (c, p), λ f. absurd (ground arith)), h.0), (λ _. ground arith), λ k. same p (h.2 k))
      where
        neither : (a b : Bool) → (a || b) ≡ false → (a ≡ false) × (b ≡ false)
        neither a b k = ground arith

        same :
            Placed l after c
            → ((changed || c) ≡ false) × (ms ≡ ls)
            → (changed ≡ false) × ((after ∷ ms) ≡ (l ∷ ls))
        same (inl q) k = ((neither changed c k.0).0, ap (λ t. t ∷ ms) q.1 ∙ ap (λ t. l ∷ t) k.1)
        same (inr q) k = absurd (ground (arith, (neither changed c k.0).1))
    hooked after c e p (err x) h = tt

    by_line :
        ((c : Bool) → Ended ls true c (place_hooks ls true c))
        → is_hooks_line l ≡ true
        → (o : Result (Text × Bool)) → PlacedIn l o
        → Ended (l ∷ ls) saw changed (
            o >>= λ updated. place_hooks ls true (changed || updated.1) >>= λ others.
            ok (updated.0 ∷ others.0, others.1, others.2))
    by_line rest e (ok (after, c)) p = hooked after c e p _ (rest (changed || c))
    by_line rest e (err x) p = tt

    by_kind :
        Ended ls saw changed (place_hooks ls saw changed)
        → ((c : Bool) → Ended ls true c (place_hooks ls true c))
        → (b : Bool) → is_hooks_line l ≡ b
        → Ended (l ∷ ls) saw changed (elim b [
          | true ↦ place_hook l >>= λ updated.
              place_hooks ls true (changed || updated.1) >>= λ others.
              ok (updated.0 ∷ others.0, others.1, others.2)
          | false ↦ place_hooks ls saw changed >>= λ others. ok (l ∷ others.0, others.1, others.2)
        ])
    by_kind here next true e = by_line next e (place_hook l) (place_hook-Placed l)
    by_kind here next false e = plain e _ here

-- A text with a HOOKS line, each of which holds the name of the hook: it did before, or the name was put
-- in front of encrypt or sd-encrypt. The other lines are the old ones, and so are all where the
-- text counts as unchanged.
pub record InPlace (original : Text) (hooked : Text × Bool) : Type 0 where
  pub out : List Text
  pub new_text : hooked.0 ≡ joined out
  pub each : Lines (lines original) out
  pub some_line : any is_hooks_line (lines original) ≡ true
  pub unchanged : hooked.1 ≡ false → out ≡ lines original

pub with_deathstroke_hook-InPlace :
    (original : Text) {hooked : Text × Bool}
    → with_deathstroke_hook original ≡ ok hooked
    → InPlace original hooked
unfolding with_deathstroke_hook
with_deathstroke_hook-InPlace original {hooked} h =
    by_lines (place_hooks (lines original) false false)
      (place_hooks-Ended (lines original) false false) h
  where
    same : {a b : Text × Bool} → ◌≡◌ {A = Result (Text × Bool)} (ok a) (ok b) → a ≡ b
    same k = cc

    by_lines :
        (o : Result (List Text × Bool × Bool))
        → Ended (lines original) false false o
        → (o >>= λ done.
            bail_if (not done.1) "mkinitcpio.conf has no HOOKS line" >> ok (joined done.0, done.2))
          ≡ ok hooked
        → InPlace original hooked
    by_lines (ok (out, true, changed)) p k =
        subst (λ x. InPlace original x) (same k)
          (record {
            out = out;
            new_text = refl;
            each = p.0;
            some_line = p.1 refl;
            unchanged = λ e. (p.2 e).1;
          })
    by_lines (ok (out, false, changed)) p k = cc
    by_lines (err e) p k = cc
