-- ===== src/WaitSet/WaitLaws.antt =====
-- Which elements process_wait, and so a call of wait, reports.
use rmw_connextdds.Prelude.{
  ℕ, ◌≡◌, ◌≢◌, inl, inr, refl, sym, ap, ◌∙◌, Bool, true, false, not, suc, ◌+◌, List, [], ◌∷◌,
  Option, none, if◌then◌else◌, update, ==_iff, ◌==◌, arith, Bool-cases,
}
use rmw_connextdds.Ret.{Ret}
use rmw_connextdds.Endpoint.Sample.{Sample, Platform}
use rmw_connextdds.Endpoint.Loan.{Subscriber, has_data, loan_messages_if_needed}
use rmw_connextdds.Endpoint.Queue.{IsValid, Documented, queue}
use rmw_connextdds.Endpoint.Ready.{has_data-queue}
use rmw_connextdds.WaitSet.Conditions.{Dds, DdsCondition, Elements}
use rmw_connextdds.WaitSet.Attach.{Heap}
use rmw_connextdds.WaitSet.Wait.{Program, Results, process_readers, process_wait}

-- What an element's queue decides: an empty one clears the entry, any other counts.
abbrev pub is_empty : List Sample → Bool
is_empty [] = true
is_empty (x ∷ xs) = false

abbrev pub remaining : (ℕ → List Sample) → List ℕ → List (Option ℕ) → List (Option ℕ)
remaining q [] es = es
remaining q (x ∷ xs) [] = []
remaining q (x ∷ xs) (e ∷ es) = (if is_empty (q x) then none else e) ∷ remaining q xs es

-- How many of the entries remain.
abbrev pub waiting : (ℕ → List Sample) → List ℕ → List (Option ℕ) → ℕ
waiting q [] es = 0
waiting q (x ∷ xs) [] = 0
waiting q (x ∷ xs) (e ∷ es) =
    let rest = waiting q xs es in if is_empty (q x) then rest else suc rest

module _ (P : Platform) (D : Documented P) where
  -- Every subscriber is valid, and the queues are `q`.
  pub record Holds (q : ℕ → List Sample) (subs : ℕ → Subscriber P) : Type 0 where
    pub valid : (k : ℕ) → IsValid P (subs k)
    pub queues : (k : ℕ) → queue P D (subs k) ≡ q k

  found :
      (q : List Sample) (b : Bool) → (b ≡ true → q ≢ []) → (b ≡ false → q ≡ []) → is_empty q ≡ not b
  found [] true f g = absurd (f refl refl)
  found [] false f g = refl
  found (x ∷ xs) true f g = refl
  found (x ∷ xs) false f g = absurd (let h = g refl in cc)

  Holds-has_data :
      (q : ℕ → List Sample) (subs : ℕ → Subscriber P) (a : ℕ)
      → Holds q subs
      → Holds q (update subs a (has_data P (subs a)).1)
  Holds-has_data q subs a h =
      let (v, s, _, _) = has_data-queue P D (subs a) (h.valid a) in
      record {
        valid = λ k. elim (Bool-cases (a == k)) [ inl e ↦ rw e v | inr e ↦ rw e (h.valid k) ];
        queues = λ k. elim (Bool-cases (a == k)) [
          | inl e ↦ rw e (s ∙ h.queues a ∙ ap q ((==_iff a k).0 e))
          | inr e ↦ rw e (h.queues k)
        ];
      }

  -- The arrays and the subscribers, once the elements of `els` without samples have been cleared.
  pub record Reported (E : Dds) (have : Bool) (H : Heap) (q : ℕ → List Sample) (els : Elements)
      (a : Results) (r : Ret × Results × ℕ × Program P E have H) : Type 0 where
    pub subscribers : r.1.subscribers ≡ remaining q els.subscribers a.subscribers
    pub clients : r.1.clients ≡ remaining (λ c. q (H.client_subscriber c)) els.clients a.clients
    pub services :
        r.1.services ≡ remaining (λ s. q (H.service_subscriber s)) els.services a.services
    pub kept : Holds q r.3.subscribers

  module _ (loans : (s : Subscriber P) → (loan_messages_if_needed P s).0 ≡ Ret.ok) where
    has_data-empty :
        (q : ℕ → List Sample) (subs : ℕ → Subscriber P) (a : ℕ)
        → Holds q subs
        → is_empty (q a) ≡ not (has_data P (subs a)).0
    has_data-empty q subs a h =
        let (v, s, some_left, none_left) = has_data-queue P D (subs a) (h.valid a) in
        found (q a) (has_data P (subs a)).0 (λ e z. some_left e (h.queues a ∙ z))
          (λ e. sym (h.queues a) ∙ none_left e (loans _))

    process_readers-Holds :
        (subscriber : ℕ → ℕ) (q : ℕ → List Sample) (xs : List ℕ) (es : List (Option ℕ)) (n : ℕ)
        (subs : ℕ → Subscriber P)
        → Holds q subs
        → ((process_readers P subscriber xs es n subs).0 ≡ remaining (λ x. q (subscriber x)) xs es)
          × ((process_readers P subscriber xs es n subs).1
              ≡ n + waiting (λ x. q (subscriber x)) xs es)
          × Holds q (process_readers P subscriber xs es n subs).2
    unfolding process_readers
    process_readers-Holds subscriber q [] es n subs h = (refl, omega arith, h)
    process_readers-Holds subscriber q (x ∷ xs) [] n subs h = (refl, omega arith, h)
    process_readers-Holds subscriber q (x ∷ xs) (e ∷ es) n subs h =
        let a = subscriber x in
        let b = has_data-empty q subs a h in
        elim (Bool-cases (has_data P (subs a)).0) [
          | inl y ↦
              let (r, c, t) =
                process_readers-Holds subscriber q xs es (suc n) _ (Holds-has_data q subs a h) in
              let z : is_empty (q a) ≡ false = rw y at b in
              rw (y, z) (ap (λ l. e ∷ l) r, rw c (omega arith), t)
          | inr y ↦
              let (r, c, t) =
                process_readers-Holds subscriber q xs es n _ (Holds-has_data q subs a h) in
              let z : is_empty (q a) ≡ true = rw y at b in rw (y, z) (ap (λ l. none ∷ l) r, c, t)
        ]

    -- For valid subscribers whose loans do not fail, process_wait leaves in the arrays exactly the
    -- subscribers, clients and services whose queues hold a sample, and takes no sample away.
    pub process_wait-reports :
        (E : Dds) (have : Bool) (H : Heap) (ws : ℕ) (active : List DdsCondition) (a : Results)
        (p : Program P E have H) (q : ℕ → List Sample)
        → Holds q p.subscribers
        → Reported E have H q
            (p.world.waitsets ws).attached
            a
            (process_wait P E have H ws active a p)
    unfolding process_wait
    process_wait-reports E have H ws active a p q h =
        let els = (p.world.waitsets ws).attached in
        let (r1, c1, h1) = process_readers-Holds (λ x. x) q els.subscribers a.subscribers 0 _ h in
        let (r2, c2, h2) =
          process_readers-Holds H.client_subscriber q els.clients a.clients _ _ h1 in
        let (r3, c3, h3) =
          process_readers-Holds H.service_subscriber q els.services a.services _ _ h2 in
        record { subscribers = r1; clients = r2; services = r3; kept = h3 }
