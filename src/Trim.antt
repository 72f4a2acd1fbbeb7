-- ===== src/Trim.antt =====
-- The loops `while (!s.empty() && p(s.back())) s.pop_back();` of the backends.
use storm_byte_database.Prelude.{
  ℕ, ◌≡◌, refl, ap, Text, Bool, true, false, [], ◌∷◌, ◌++◌, All, if◌then◌else◌, Bool-cases, inl,
  inr,
}

-- In front of what the loop has left: a character goes if nothing is left behind it.
abbrev keep : (ℕ → Bool) → ℕ → Text → Text
keep p c [] = if p c then [] else c ∷ []
keep p c (d ∷ t) = c ∷ d ∷ t

pub trim_end : (ℕ → Bool) → Text → Text
trim_end p [] = []
trim_end p (c ∷ s) = let rest = trim_end p s in keep p c rest

-- The last character, if there is one, is not of the kind.
abbrev pub EndsWithout : (ℕ → Bool) → Text → Type 0
EndsWithout p [] = Unit {0}
EndsWithout p (c ∷ []) = p c ≡ false
EndsWithout p (c ∷ d ∷ t) = EndsWithout p (d ∷ t)

-- The loop takes away a suffix.
abbrev pub IsTrimmed : (ℕ → Bool) → Text → Text → Type 0
IsTrimmed p s t = (rest : Text) × (s ≡ t ++ rest) × All (λ c. p c ≡ true) rest × EndsWithout p t

keep-IsTrimmed :
    (p : ℕ → Bool) (c : ℕ) (s t : Text) → IsTrimmed p s t → IsTrimmed p (c ∷ s) (keep p c t)
keep-IsTrimmed p c s [] (rest, e, a, w) = elim (Bool-cases (p c)) [
  | inl h ↦ rw h (c ∷ rest, ap (◌∷◌ c) e, (h, a), tt)
  | inr h ↦ rw h (rest, ap (◌∷◌ c) e, a, h)
]
keep-IsTrimmed p c s (d ∷ t) (rest, e, a, w) = (rest, ap (◌∷◌ c) e, a, w)

-- The trimming loop leaves the text less its longest suffix of characters of the given kind.
pub trim_end-IsTrimmed : (p : ℕ → Bool) (s : Text) → IsTrimmed p s (trim_end p s)
unfolding trim_end
trim_end-IsTrimmed p [] = ([], refl, tt, tt)
trim_end-IsTrimmed p (c ∷ s) = keep-IsTrimmed p c s (trim_end p s) (trim_end-IsTrimmed p s)
