-- ===== src/Text/Laws.antt =====
-- Laws of trimming, lower case and the comparison of texts.
use portal_backend.Prelude.{ℕ, ◌≡◌, refl, true, false, [], ◌∷◌, ◌↔◌, arith, ap, ◌∙◌}
use portal_backend.Text.{
  Text, text_eq, is_space, trim_left, cons_trimmed, trim_right, trim_space, to_lower,
}

pub text_eq_refl : (s : Text) → text_eq s s ≡ true
text_eq_refl [] = refl
text_eq_refl (c ∷ s) = ground (arith, text_eq_refl s)

pub text_eq_sound : (s t : Text) → text_eq s t ≡ true → s ≡ t
text_eq_sound [] [] h = refl
text_eq_sound [] (b ∷ t) h = ground arith
text_eq_sound (a ∷ s) [] h = ground arith
text_eq_sound (a ∷ s) (b ∷ t) h = ground (arith, text_eq_sound s t)

-- Text equality is decided by the comparison.
pub text_eq_iff : (s t : Text) → (text_eq s t ≡ true) ↔ (s ≡ t)
text_eq_iff s t = (text_eq_sound s t, λ e. ground (arith, e, text_eq_refl s))

trim_right_cons : (c : ℕ) (s : Text) → is_space c ≡ false → trim_right (c ∷ s) ≡ c ∷ trim_right s
unfolding trim_right
trim_right_cons c s h = ground arith

trim_right-cons_trimmed :
    (c : ℕ) (s : Text) → trim_right s ≡ s → trim_right (cons_trimmed c s) ≡ cons_trimmed c s
unfolding trim_right
trim_right-cons_trimmed c [] h = ground arith
trim_right-cons_trimmed c (d ∷ s) h = ground arith

trim_right-trim_right : (s : Text) → trim_right (trim_right s) ≡ trim_right s
unfolding trim_right
trim_right-trim_right [] = refl
trim_right-trim_right (c ∷ s) = trim_right-cons_trimmed c (trim_right s) (trim_right-trim_right s)

-- What trimming on the left leaves begins with no space.
abbrev StartsTight : Text → Type 0
StartsTight [] = Unit {0}
StartsTight (c ∷ s) = is_space c ≡ false

trim_left-StartsTight : (s : Text) → StartsTight (trim_left s)
unfolding trim_left
trim_left-StartsTight [] = tt
trim_left-StartsTight (c ∷ s) = ground (arith, trim_left-StartsTight s)

trim_left-tight : (s : Text) → StartsTight s → trim_left s ≡ s
unfolding trim_left
trim_left-tight [] h = refl
trim_left-tight (c ∷ s) h = ground arith

trim_right-StartsTight : (s : Text) → StartsTight s → StartsTight (trim_right s)
unfolding trim_right
trim_right-StartsTight [] h = tt
trim_right-StartsTight (c ∷ s) h = ground arith

-- Trimming twice is trimming once.
pub trim_space-trim_space : (s : Text) → trim_space (trim_space s) ≡ trim_space s
unfolding trim_space
trim_space-trim_space s =
    ap trim_right (trim_left-tight _ (trim_right-StartsTight _ (trim_left-StartsTight s)))
    ∙ trim_right-trim_right (trim_left s)

module _ (lower : ℕ → ℕ) (keeps_space : (c : ℕ) → is_space (lower c) ≡ is_space c) where
  trim_left-to_lower : (s : Text) → trim_left (to_lower lower s) ≡ to_lower lower (trim_left s)
  unfolding trim_left to_lower
  trim_left-to_lower [] = refl
  trim_left-to_lower (c ∷ s) = ground (arith, keeps_space c, trim_left-to_lower s)

  cons_trimmed-to_lower :
      (c : ℕ) (s : Text)
      → cons_trimmed (lower c) (to_lower lower s) ≡ to_lower lower (cons_trimmed c s)
  unfolding to_lower
  cons_trimmed-to_lower c [] = ground (arith, keeps_space c)
  cons_trimmed-to_lower c (d ∷ s) = refl

  trim_right-to_lower : (s : Text) → trim_right (to_lower lower s) ≡ to_lower lower (trim_right s)
  unfolding trim_right to_lower
  trim_right-to_lower [] = refl
  trim_right-to_lower (c ∷ s) =
      ap (cons_trimmed (lower c)) (trim_right-to_lower s) ∙ cons_trimmed-to_lower c (trim_right s)

  -- Trimming commutes with a change of case that keeps spaces spaces.
  pub trim_space-to_lower :
      (s : Text) → trim_space (to_lower lower s) ≡ to_lower lower (trim_space s)
  unfolding trim_space
  trim_space-to_lower s = ap trim_right (trim_left-to_lower s) ∙ trim_right-to_lower (trim_left s)

pub to_lower-to_lower :
    (lower : ℕ → ℕ)
    → ((c : ℕ) → lower (lower c) ≡ lower c)
    → (s : Text) → to_lower lower (to_lower lower s) ≡ to_lower lower s
unfolding to_lower
to_lower-to_lower lower idem [] = refl
to_lower-to_lower lower idem (c ∷ s) = cc (idem c, to_lower-to_lower lower idem s)
