-- ===== src/Names/Text.antt =====
-- std::string as the list of its bytes: the operations that the program's name code calls.
use Prim.Native.Char.{code}
use Prim.Native.String.{String}
use rmw_connextdds.Prelude.{
  ℕ, zero, suc, Bool, true, false, ◌&&◌, List, [], ◌∷◌, Option, none, some, length, take, drop, ltb,
  ◌==◌, if◌then◌else◌, ◌≡◌, refl, arith,
}

abbrev pub Text : Type 0
Text = List ℕ

-- A literal's bytes (every literal of the program is ASCII).
abbrev pub codes : String → Text
codes String.[] = []
codes (String.◌∷◌ c s) = code c ∷ codes s

-- How a call ends: with a value, with std::out_of_range, or outside the language's rules.
pub data Outcome {ℓ} (A : Type ℓ) : Type ℓ where
  ok : A → Outcome A
  out_of_range : Outcome A
  undefined : Outcome A

infixl 5 ◌>>=◌
abbrev pub ◌>>=◌ {ℓ κ} : {A : Type ℓ} {B : Type κ} → Outcome A → (A → Outcome B) → Outcome B
ok a >>= f = f a
out_of_range >>= f = out_of_range
undefined >>= f = undefined

-- `a == b` on strings.
abbrev pub text_eq : Text → Text → Bool
text_eq [] [] = true
text_eq [] (y ∷ ys) = false
text_eq (x ∷ xs) [] = false
text_eq (x ∷ xs) (y ∷ ys) = (x == y) && text_eq xs ys

-- `s.rfind(p, 0) == 0`: whether `s` begins with `p`.
abbrev pub starts_with : Text → Text → Bool
starts_with [] s = true
starts_with (c ∷ p) [] = false
starts_with (c ∷ p) (d ∷ s) = (c == d) && starts_with p s

-- `s.find(p)`: the position of the first occurrence, `none` for npos.
unfoldable pub find : Text → Text → Option ℕ
find p [] = if starts_with p [] then some 0 else none
find p (c ∷ s) =
    if starts_with p (c ∷ s)
    then some 0
    else elim (find p s) [ none ↦ none | some i ↦ some (suc i) ]

-- `s.rfind(p)`: the position of the last occurrence.
unfoldable pub rfind : Text → Text → Option ℕ
rfind p [] = if starts_with p [] then some 0 else none
rfind p (c ∷ s) = elim (rfind p s) [
  | some i ↦ some (suc i)
  | none ↦ if starts_with p (c ∷ s) then some 0 else none
]

-- `s.at(i)` throws past the end.
abbrev pub char_at : Text → ℕ → Outcome ℕ
char_at [] i = out_of_range
char_at (c ∷ s) zero = ok c
char_at (c ∷ s) (suc i) = char_at s i

-- `s.substr(pos, count)` throws if `pos` is past the end, and stops at the end of `s`.
abbrev pub substr : Text → ℕ → ℕ → Outcome Text
substr s pos count = if ltb (length s) pos then out_of_range else ok (take count (drop pos s))

-- `s.substr(pos)`.
abbrev pub substr_from : Text → ℕ → Outcome Text
substr_from s pos = if ltb (length s) pos then out_of_range else ok (drop pos s)

pub text_eq_self : (s : Text) → text_eq s s ≡ true
text_eq_self [] = refl
text_eq_self (c ∷ s) = ground (arith, text_eq_self s)

pub text_eq→eq : (a b : Text) → text_eq a b ≡ true → a ≡ b
text_eq→eq [] [] h = refl
text_eq→eq [] (y ∷ b) h = absurd cc
text_eq→eq (x ∷ a) [] h = absurd cc
text_eq→eq (x ∷ a) (y ∷ b) h =
    let e : x ≡ y = ground arith in let t : a ≡ b = text_eq→eq a b (ground arith) in rw (e, t) refl
