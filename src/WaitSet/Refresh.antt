-- ===== src/WaitSet/Refresh.antt =====
-- When attach has work to do.
use rmw_connextdds.Prelude.{
  ℕ, ◌≡◌, ◌↔◌, refl, ap, Bool, true, false, ◌||◌, List, [], ◌∷◌, Option, none, some, ◌==◌, ==_iff,
  arith, Bool-cases, inl, inr,
}
use rmw_connextdds.WaitSet.Conditions.{Elements}
use rmw_connextdds.WaitSet.Attach.{
  same_addresses, require_attach, Arrays, array, elements, refresh_attach,
}

same_addresses→eq : (xs ys : List ℕ) → same_addresses xs ys ≡ true → xs ≡ ys
same_addresses→eq [] [] h = refl
same_addresses→eq [] (y ∷ ys) h = cc
same_addresses→eq (x ∷ xs) [] h = cc
same_addresses→eq (x ∷ xs) (y ∷ ys) h = elim (Bool-cases (x == y)) [
  | inl e ↦
      let p = (==_iff x y).0 e in let q = same_addresses→eq xs ys (rw e at h) in λ i. p i ∷ q i
  | inr e ↦ absurd (let q = rw e at h in cc)
]

same_addresses_self : (xs : List ℕ) → same_addresses xs xs ≡ true
same_addresses_self [] = refl
same_addresses_self (x ∷ xs) = rw ((==_iff x x).1 refl) (same_addresses_self xs)

require_attach→eq :
    (attached : List ℕ) (new : Option (List ℕ))
    → require_attach attached new ≡ false
    → attached ≡ array new
unfolding require_attach
require_attach→eq [] none h = refl
require_attach→eq (x ∷ xs) none h = absurd (ground (arith, h))
require_attach→eq [] (some []) h = refl
require_attach→eq (x ∷ xs) (some []) h = absurd (ground (arith, h))
require_attach→eq xs (some (y ∷ ys)) h = same_addresses→eq xs (y ∷ ys) (ground (arith, h))

require_attach_self :
    (attached : List ℕ) (new : Option (List ℕ))
    → attached ≡ array new
    → require_attach attached new ≡ false
unfolding require_attach
require_attach_self attached none e = rw e refl
require_attach_self attached (some new) e = rw e (ground (arith, same_addresses_self new))

none_of :
    (a b c d e : Bool)
    → (a || b || c || d || e) ≡ false
    → (a ≡ false) × (b ≡ false) × (c ≡ false) × (d ≡ false) × (e ≡ false)
none_of false false false false false h = (refl, refl, refl, refl, refl)
none_of a b c d e h = ground (arith, h)

-- attach finds nothing to do exactly when the five lists are, in order, those that the arrays
-- give, where a null pointer gives an empty one.
pub refresh_attach_iff :
    (els : Elements) (a : Arrays) → (refresh_attach els a ≡ false) ↔ (els ≡ elements a)
unfolding refresh_attach
refresh_attach_iff els a = (
  λ h.
      let n = none_of _ _ _ _ _ h in
      let p = require_attach→eq els.subscribers a.subscribers n.0 in
      let q = require_attach→eq els.conditions a.conditions n.1 in
      let r = require_attach→eq els.events a.events n.2 in
      let s = require_attach→eq els.services a.services n.3 in
      let t = require_attach→eq els.clients a.clients n.4 in
      λ i. record {
        subscribers = p i;
        conditions = q i;
        clients = t i;
        services = s i;
        events = r i;
      },
  λ e.
      let p = require_attach_self els.subscribers a.subscribers (ap (λ x. x.subscribers) e) in
      let q = require_attach_self els.conditions a.conditions (ap (λ x. x.conditions) e) in
      let r = require_attach_self els.events a.events (ap (λ x. x.events) e) in
      let s = require_attach_self els.services a.services (ap (λ x. x.services) e) in
      rw (p, q, r, s) (require_attach_self els.clients a.clients (ap (λ x. x.clients) e)),
)
