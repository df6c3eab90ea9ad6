-- ===== src/Resource/Registry.antt =====
-- What the registration of a type and its end do to the participant's types.
use rmw_connextdds.Prelude.{
  ℕ, suc, ◌+◌, ◌-◌, ◌%◌, ◌^◌, ◌<◌, ◌≡◌, inl, inr, refl, ◌∙◌, ap, true, false, ◌&&◌, Bool-cases,
  none, some, Option-cases, List, [], ◌∷◌, ◌==◌, ==_iff, arith,
}
use rmw_connextdds.Names.Text.{Text, text_eq, text_eq_self}
use rmw_connextdds.Ret.{Ret}
use rmw_connextdds.Resource.Types.{
  Plugin, Held, TypeCalls, find_type, set_type, remove_type, remove_address, register_type_support,
  unregister_type_support,
}

module _ (name : Text) where
  find_type-set_type :
      (p q : Plugin) (ts : List (Text × Plugin))
      → find_type name ts ≡ some p
      → find_type name (set_type name q ts) ≡ some q
  find_type-set_type p q [] e = absurd cc
  find_type-set_type p q ((k, r) ∷ ts) e = elim (Bool-cases (text_eq k name)) [
    | inl x ↦ rw (x, find_type, x) refl
    | inr x ↦ rw (x, find_type, x) (find_type-set_type p q ts (rw x at e))
  ]

  set_type_twice :
      (p q : Plugin) (ts : List (Text × Plugin))
      → find_type name ts ≡ some p
      → set_type name p (set_type name q ts) ≡ ts
  set_type_twice p q [] e = refl
  set_type_twice p q ((k, r) ∷ ts) e = elim (Bool-cases (text_eq k name)) [
    | inl x ↦ let y : some r ≡ some p = rw x at e in rw (x, set_type, x) cc
    | inr x ↦ rw (x, set_type, x) (ap (λ z. (k, r) ∷ z) (set_type_twice p q ts (rw x at e)))
  ]

pub remove_address_head : (a : ℕ) (xs : List ℕ) → remove_address a (a ∷ xs) ≡ xs
remove_address_head a xs = rw ((==_iff a a).1 refl) refl

-- The count of attachments is neither 0 nor about to wrap around.
abbrev pub IsCounted : Text → Held → Type 0
IsCounted name h =
    (p : Plugin)
    → find_type name h.types ≡ some p
    → (0 < p.attached_count) × (p.attached_count + 1 < 2 ^ 32)

-- The types once `name` is attached once more, by a type support at the next address.
abbrev pub attach_type : Text → Held → List (Text × Plugin)
attach_type name h = elim (find_type name h.types) [
  | none ↦ (name, record { wrapper = h.next; attached_count = 1 }) ∷ h.types
  | some p ↦ set_type name (record p { attached_count = (p.attached_count + 1) % 2 ^ 32 }) h.types
]

pub record IsRegistered (T : TypeCalls) (name : Text) (h : Held) (a : ℕ) (g : Held) : Type 0 where
  pub address : a ≡ h.next
  pub held : g ≡ record h { types = g.types; supports = h.next ∷ h.supports; next = suc h.next }
  pub attached : g.types ≡ attach_type name h
  pub found : (p : Plugin) × (find_type name g.types ≡ some p)
  pub first :
      find_type name h.types ≡ none
      → find_type name g.types ≡ some (record { wrapper = h.next; attached_count = 1 })
  pub back :
      T.unregister_type ≡ true
      → IsCounted name h
      → (f : Held) → f.types ≡ g.types
      → unregister_type_support T name f ≡ (Ret.ok, record f { types = h.types })

module _ (T : TypeCalls) (name : Text) (f : Held) where
  unregister_last :
      (p : Plugin)
      → T.unregister_type ≡ true
      → find_type name f.types ≡ some p
      → p.attached_count ≡ 1
      → unregister_type_support T name f ≡ (Ret.ok, record f { types = remove_type name f.types })
  unfolding unregister_type_support
  unregister_last p u e n = rw (unregister_type_support, e, n, u) refl

  unregister_shared :
      (w n : ℕ)
      → find_type name f.types ≡ some (record { wrapper = w; attached_count = n + 1 })
      → 0 < n
      → n + 1 < 2 ^ 32
      → unregister_type_support T name f ≡ (
        Ret.ok,
        record f { types = set_type name (record { wrapper = w; attached_count = n }) f.types },
      )
  unfolding unregister_type_support
  unregister_shared w n e l m =
      let x : (n + 1 + (2 ^ 32 - 1)) % 2 ^ 32 ≡ n = omega arith in
      let y : (n == 0) ≡ false = ground arith in rw (unregister_type_support, e, x, y) refl

pub register_type_support-IsRegistered :
    (T : TypeCalls) (name : Text) (h : Held) (a : ℕ)
    → (register_type_support T name h).0 ≡ some a
    → IsRegistered T name h a (register_type_support T name h).2
unfolding register_type_support unregister_type_support
register_type_support-IsRegistered T name h a e = elim (Bool-cases T.construct) [
  | inr c ↦ absurd (let z : none ≡ some a = rw c at e in cc)
  | inl c ↦ elim (Option-cases (find_type name h.types)) [
    | inr (p, f) ↦
        rw (c, f)
          (record {
            address = let z : some h.next ≡ some a = rw (c, f) at e in cc;
            held = refl;
            attached = rw (attach_type, f) refl;
            found = (_, find_type-set_type name p _ h.types f);
            first = λ n. absurd (cc);
            back = λ u k g s.
                let (l, m) = k p f in
                let x : (p.attached_count + 1) % 2 ^ 32 ≡ p.attached_count + 1 = omega arith in
                let e1 : find_type name g.types
                    ≡ some (record { wrapper = p.wrapper; attached_count = p.attached_count + 1 }) =
                  ap (find_type name) s
                  ∙ (find_type-set_type name p _ h.types f
                      ∙ ap (λ n. some (record { wrapper = p.wrapper; attached_count = n })) x) in
                unregister_shared T name g p.wrapper p.attached_count e1 l m
                ∙ ap (λ ts. (Ret.ok, record g { types = ts }))
                    (ap (set_type name p) s ∙ set_type_twice name p _ h.types f);
          })
    | inl f ↦
        elim (Bool-cases (T.new_pool && (T.create_typecode && (T.new_plugin && T.register_type)))) [
          | inr b ↦ absurd (let z : none ≡ some a = rw (c, f, b) at e in cc)
          | inl b ↦
              rw (c, f, b)
                (record {
                  address = let z : some h.next ≡ some a = rw (c, f, b) at e in cc;
                  held = refl;
                  attached = rw (attach_type, f) refl;
                  found = (
                    record { wrapper = h.next; attached_count = 1 },
                    rw (find_type, text_eq_self name) refl,
                  );
                  first = λ _. rw (find_type, text_eq_self name) refl;
                  back = λ u k g s.
                      unregister_last T name g (record { wrapper = h.next; attached_count = 1 }) u
                        (ap (find_type name) s ∙ (rw (find_type, text_eq_self name) refl)) refl
                      ∙ ap (λ ts. (Ret.ok, record g { types = ts }))
                          (ap (remove_type name) s ∙ (rw (remove_type, text_eq_self name) refl));
                })
        ]
  ]
]

-- No registration sets `registered`.
pub register_type_support-unmarked :
    (T : TypeCalls) (name : Text) (h : Held) → (register_type_support T name h).1 ≡ false
unfolding register_type_support
register_type_support-unmarked T name h = elim (Bool-cases T.construct) [
  | inr c ↦ rw c refl
  | inl c ↦ elim (Option-cases (find_type name h.types)) [
    | inr (p, f) ↦ rw (c, f) refl
    | inl f ↦
        elim (Bool-cases (T.new_pool && (T.create_typecode && (T.new_plugin && T.register_type)))) [
          | inl b ↦ rw (c, f, b) refl
          | inr b ↦ rw (c, f, b) refl
        ]
  ]
]

-- A registration that fails leaves nothing but a type support that is deleted again.
pub register_type_support-fails :
    (T : TypeCalls) (name : Text) (h : Held)
    → (register_type_support T name h).0 ≡ none
    → (register_type_support T name h).2
      ≡ record h { next = (register_type_support T name h).2.next }
unfolding register_type_support
register_type_support-fails T name h e = elim (Bool-cases T.construct) [
  | inr c ↦ rw c refl
  | inl c ↦ elim (Option-cases (find_type name h.types)) [
    | inr (p, f) ↦ absurd (let z : some h.next ≡ none = rw (c, f) at e in cc)
    | inl f ↦
        elim (Bool-cases (T.new_pool && (T.create_typecode && (T.new_plugin && T.register_type)))) [
          | inl b ↦ absurd (let z : some h.next ≡ none = rw (c, f, b) at e in cc)
          | inr b ↦
              rw (c, f, b)
                (ap (λ xs. record h { supports = xs; next = suc h.next })
                  (remove_address_head h.next h.supports))
        ]
  ]
]

-- The types that were there stay, whatever is registered.
find_type-kept :
    (k name : Text) (q : Plugin) (ts : List (Text × Plugin)) (p : Plugin)
    → find_type k ts ≡ some p
    → (r : Plugin) × (find_type k (set_type name q ts) ≡ some r)
find_type-kept k name q [] p e = absurd cc
find_type-kept k name q ((n, r) ∷ ts) p e = elim (Bool-cases (text_eq n name)) [
  | inl x ↦ elim (Bool-cases (text_eq n k)) [
    | inl y ↦ (q, rw (x, find_type, y) refl)
    | inr y ↦ (p, rw (x, find_type, y) (rw y at e))
  ]
  | inr x ↦ elim (Bool-cases (text_eq n k)) [
    | inl y ↦ (r, rw (x, find_type, y) refl)
    | inr y ↦ let (s, z) = find_type-kept k name q ts p (rw y at e) in (s, rw (x, find_type, y) z)
  ]
]

pub register_type_support-kept :
    (T : TypeCalls) (name k : Text) (h : Held) (p : Plugin)
    → find_type k h.types ≡ some p
    → (r : Plugin) × (find_type k (register_type_support T name h).2.types ≡ some r)
unfolding register_type_support
register_type_support-kept T name k h p e = elim (Bool-cases T.construct) [
  | inr c ↦ (p, rw c e)
  | inl c ↦ elim (Option-cases (find_type name h.types)) [
    | inr (q, f) ↦
        let (r, z) =
          find_type-kept k name (record q { attached_count = (q.attached_count + 1) % 2 ^ 32 })
            h.types p e in
        (r, rw (c, f) z)
    | inl f ↦
        elim (Bool-cases (T.new_pool && (T.create_typecode && (T.new_plugin && T.register_type)))) [
          | inr b ↦ (p, rw (c, f, b) e)
          | inl b ↦ elim (Bool-cases (text_eq name k)) [
            | inl y ↦ (record { wrapper = h.next; attached_count = 1 }, rw (c, f, b) (rw y refl))
            | inr y ↦ (p, rw (c, f, b) (rw y e))
          ]
        ]
  ]
]

-- The end of a registration of a type that is there, whatever its count.
pub unregister_type_support-found :
    (T : TypeCalls) (name : Text) (h : Held) (p : Plugin)
    → find_type name h.types ≡ some p
    → T.unregister_type ≡ true
    → ((unregister_type_support T name h).0 ≡ Ret.ok)
      × ((unregister_type_support T name h).1
          ≡ record h { types = (unregister_type_support T name h).1.types })
unfolding unregister_type_support
unregister_type_support-found T name h p e u =
    elim (Bool-cases ((p.attached_count + (2 ^ 32 - 1)) % 2 ^ 32 == 0)) [
      | inl z ↦ rw (unregister_type_support, e, z, u) (refl, refl)
      | inr z ↦ rw (unregister_type_support, e, z) (refl, refl)
    ]
