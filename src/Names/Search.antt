-- ===== src/Names/Search.antt =====
-- Laws of the searches in Text: where a suffix, a prefix and a first occurrence are found.
use rmw_connextdds.Prelude.{
  ℕ, suc, ◌<◌, ◌≡◌, refl, ap, ◌≢◌, inl, inr, true, false, [], ◌∷◌, ◌++◌, none, some, arith, length,
  drop, Bool-cases, Option-cases,
}
use rmw_connextdds.Names.Text.{Text, starts_with, find, rfind}

pub starts_with-append : (p s : Text) → starts_with p (p ++ s) ≡ true
starts_with-append [] s = refl
starts_with-append (c ∷ p) s = ground (arith, starts_with-append p s)

pub starts_with_self : (p : Text) → starts_with p p ≡ true
starts_with_self [] = refl
starts_with_self (c ∷ p) = ground (arith, starts_with_self p)

pub starts_with_short : (p s : Text) → length s < length p → starts_with p s ≡ false
starts_with_short [] s h = absurd (omega arith)
starts_with_short (c ∷ p) [] h = refl
starts_with_short (c ∷ p) (d ∷ s) h = ground (arith, starts_with_short p s)

-- A text that begins with `p` is `p` and a rest.
pub starts_with_split : (p s : Text) → starts_with p s ≡ true → s ≡ p ++ drop (length p) s
starts_with_split [] s h = refl
starts_with_split (c ∷ p) [] h = cc
starts_with_split (c ∷ p) (d ∷ s) h = ground (arith, starts_with_split p s)

pub rfind_short : (p s : Text) → length s < length p → rfind p s ≡ none
unfolding rfind
rfind_short p [] h = rw (starts_with_short p [] h)
rfind_short p (c ∷ s) h = rw (rfind_short p s (omega arith), rfind, starts_with_short p (c ∷ s) h)

-- The last occurrence of a suffix is the suffix itself.
pub rfind-append : (x : Text) (c : ℕ) (p : Text) → rfind (c ∷ p) (x ++ c ∷ p) ≡ some (length x)
unfolding rfind
rfind-append [] c p = rw (rfind_short (c ∷ p) p (omega arith), rfind, starts_with_self (c ∷ p))
rfind-append (d ∷ x) c p = rw (rfind-append x c p, rfind)

-- Where `p` stands in `s`.
abbrev pub At : Text → Text → ℕ → Type 0
At p s i = (x : Text) × (y : Text) × (s ≡ x ++ (p ++ y)) × (length x ≡ i)

At-cons : (p s : Text) (c i : ℕ) → At p s i → At p (c ∷ s) (suc i)
At-cons p s c i (x, y, e, l) = (c ∷ x, y, ap (◌∷◌ c) e, ap suc l)

-- What is found is there.
pub rfind-At : (p s : Text) (i : ℕ) → rfind p s ≡ some i → At p s i
unfolding rfind
rfind-At p [] i h = elim (Bool-cases (starts_with p [])) [
  | inl e ↦ ([], drop (length p) [], starts_with_split p [] e, ground arith)
  | inr e ↦ absurd (ground arith)
]
rfind-At p (c ∷ s) i h = elim (Option-cases (rfind p s)) [
  | inr (j, e) ↦ let at : i ≡ suc j = ground arith in rw at (At-cons p s c j (rfind-At p s j e))
  | inl e ↦ elim (Bool-cases (starts_with p (c ∷ s))) [
    | inl t ↦ ([], drop (length p) (c ∷ s), starts_with_split p (c ∷ s) t, ground arith)
    | inr t ↦ absurd (ground arith)
  ]
]

-- A text `s` is searched up to its end: no earlier occurrence, and one at the end of `x`.
pub find-append :
    (p x s : Text)
    → ((u v : Text) → x ≡ u ++ v → v ≢ [] → starts_with p (v ++ s) ≡ false)
    → starts_with p s ≡ true
    → find p (x ++ s) ≡ some (length x)
unfolding find
find-append p [] [] free h = rw h
find-append p [] (c ∷ s) free h = rw h
find-append p (c ∷ x) s free h = rw (
  free [] (c ∷ x) refl (λ e. cc),
  find-append p x s (λ u v e n. free (c ∷ u) v (ap (◌∷◌ c) e) n) h,
)

-- Where nothing is found, `p` stands nowhere.
pub find-none : (p s u v : Text) → s ≡ u ++ v → find p s ≡ none → starts_with p v ≡ false
unfolding find
find-none p [] [] v e h = ground arith
find-none p [] (a ∷ u) v e h = cc
find-none p (c ∷ s) [] v e h = rw (← e) (ground arith)
find-none p (c ∷ s) (a ∷ u) v e h = find-none p s u v (cc) (ground arith)
