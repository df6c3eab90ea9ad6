-- ===== src/Ret.antt =====
-- The results that the program's functions share: rmw_ret_t.
use rmw_connextdds.Prelude.{
  ◌≡◌, refl, Bool, true, false, List, [], ◌∷◌, ◌++◌, append-nil, append_assoc, All, if◌then◌else◌,
}

pub data Ret : Type 0 where
  ok error timeout bad_alloc invalid_argument incorrect_rmw_implementation unsupported : Ret

-- `RMW_RET_OK == rc`
abbrev pub is_ok : Ret → Bool
is_ok Ret.ok = true
is_ok _ = false

-- `if (RMW_RET_OK != rc) return rc;`
infixl 20 ◌then_ok◌
abbrev pub ◌then_ok◌ {ℓ} : {S : Type ℓ} → Ret × S → (S → Ret × S) → Ret × S
r then_ok f = if is_ok r.0 then f r.1 else r

-- A loop whose body may return an error.
abbrev pub for_each {ℓ ℓ'} : {A : Type ℓ} {S : Type ℓ'} → (A → S → Ret × S) → List A → S → Ret × S
for_each body [] s = (Ret.ok, s)
for_each body (x ∷ xs) s = body x s then_ok for_each body xs

pub is_ok→eq : (rc : Ret) → is_ok rc ≡ true → rc ≡ Ret.ok
is_ok→eq Ret.ok h = refl
is_ok→eq Ret.error h = cc
is_ok→eq Ret.timeout h = cc
is_ok→eq Ret.bad_alloc h = cc
is_ok→eq Ret.invalid_argument h = cc
is_ok→eq Ret.incorrect_rmw_implementation h = cc
is_ok→eq Ret.unsupported h = cc

-- A good result satisfies `Q`.
abbrev pub Sat {ℓ} : {S : Type ℓ} → (S → Type 0) → Ret × S → Type 0
Sat Q r = r.0 ≡ Ret.ok → Q r.1

module _ {ℓ} {S : Type ℓ} where
  pub Sat-then :
      (P Q : S → Type 0) (r : Ret × S) (f : S → Ret × S)
      → Sat P r
      → ((s : S) → P s → Sat Q (f s))
      → Sat Q (r then_ok f)
  Sat-then P Q (Ret.ok, s) f p k o = k s (p refl) o
  Sat-then P Q (Ret.error, s) f p k o = absurd (cc)
  Sat-then P Q (Ret.timeout, s) f p k o = absurd (cc)
  Sat-then P Q (Ret.bad_alloc, s) f p k o = absurd (cc)
  Sat-then P Q (Ret.invalid_argument, s) f p k o = absurd (cc)
  Sat-then P Q (Ret.incorrect_rmw_implementation, s) f p k o = absurd (cc)
  Sat-then P Q (Ret.unsupported, s) f p k o = absurd (cc)

  pub Sat-each {ℓ'} :
      {A : Type ℓ'} (I : List A → S → Type 0) (P : A → Type 0) (body : A → S → Ret × S)
      → ((before : List A) (x : A) (s : S)
          → P x
          → I before s
          → Sat (I (before ++ (x ∷ []))) (body x s))
      → (before xs : List A) (s : S) → All P xs
      → I before s
      → Sat (I (before ++ xs)) (for_each body xs s)
  Sat-each I P body step before [] s a i = λ o. rw (append-nil before) i
  Sat-each I P body step before (x ∷ xs) s (p, a) i =
      Sat-then (I (before ++ (x ∷ []))) (I (before ++ (x ∷ xs))) (body x s) (for_each body xs)
        (step before x s p i)
        (λ t j.
          rw (append_assoc before (x ∷ []) xs) at
            (Sat-each I P body step (before ++ (x ∷ [])) xs t a j))
