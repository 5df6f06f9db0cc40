-- ===== src/Chars/Trim.antt =====
-- What `str::trim` leaves has nothing to trim.
use zincha_sdk.Base.{
  ℕ, ◌≡◌, refl, ap, ◌∙◌, inl, inr, false, [], ◌∷◌, Bool-cases, nat_eq, list_eq, option_eq,
}
use zincha_sdk.Chars.{Chars, is_whitespace, push_trimmed, trim_start, trim_end, trim}

-- a string that `trim` leaves alone at its front
abbrev IsTrimmedFront : Chars → Type 0
IsTrimmedFront [] = Unit
IsTrimmedFront (ch ∷ s) = is_whitespace ch ≡ false

trim_start-front : (s : Chars) → IsTrimmedFront (trim_start s)
unfolding trim_start
trim_start-front [] = tt
trim_start-front (ch ∷ s) = elim (Bool-cases (is_whitespace ch)) [
  | inl white ↦ rw white (trim_start-front s)
  | inr black ↦ rw black black
]

trim_end-front : (s : Chars) → IsTrimmedFront s → IsTrimmedFront (trim_end s)
unfolding trim_end
trim_end-front [] h = tt
trim_end-front (ch ∷ s) h = elim (trim_end s) as (λ t. IsTrimmedFront (push_trimmed ch t)) [
  | [] ↦ rw h h
  | x ∷ xs ↦ h
]

front-trim_start : (s : Chars) → IsTrimmedFront s → trim_start s ≡ s
unfolding trim_start
front-trim_start [] h = refl
front-trim_start (ch ∷ s) h = rw h refl

trim_end-push :
    (ch : ℕ) (t : Chars) → trim_end t ≡ t → trim_end (push_trimmed ch t) ≡ push_trimmed ch t
unfolding trim_end
trim_end-push ch [] h = elim (Bool-cases (is_whitespace ch)) [
  | inl white ↦ rw white refl
  | inr black ↦ rw black (rw black refl)
]
trim_end-push ch (x ∷ t) h = ap (push_trimmed ch) h

trim_end_idem : (s : Chars) → trim_end (trim_end s) ≡ trim_end s
unfolding trim_end
trim_end_idem [] = refl
trim_end_idem (ch ∷ s) = trim_end-push ch (trim_end s) (trim_end_idem s)

pub trim_idem : (s : Chars) → trim (trim s) ≡ trim s
unfolding trim
trim_idem s =
    ap trim_end (front-trim_start (trim s) (trim_end-front (trim_start s) (trim_start-front s)))
    ∙ trim_end_idem (trim_start s)
