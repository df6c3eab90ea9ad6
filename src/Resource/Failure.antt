-- ===== src/Resource/Failure.antt =====
-- What the creation of a publisher leaves when it fails.
use rmw_connextdds.Prelude.{
  ℕ, suc, ◌≡◌, ◌⊎◌, inl, inr, refl, sym, ◌∙◌, ap, Bool, true, false, ◌&&◌, ◌||◌, Bool-cases, none,
  some, Option-cases, ◌∷◌, arith,
}
use mathlib.Core.Path.{subst}
use rmw_connextdds.Names.Text.{Text}
use rmw_connextdds.Ret.{is_ok}
use rmw_connextdds.Qos.Policies.{Profile, Constants}
use rmw_connextdds.Context.State.{TopicCalls, assert_topic}
use rmw_connextdds.Resource.Types.{
  Held, find_type, remove_address, delete_support, register_type_support,
}
use rmw_connextdds.Resource.Publisher.{
  EndpointCalls, Publisher, fq_topic_name, asserted, topic_exit, writer_create, publisher_create,
  create_publisher, publisher_handle, publisher_exit, enable,
}
use rmw_connextdds.Resource.Registry.{
  IsCounted, attach_type, IsRegistered, register_type_support-IsRegistered,
  register_type_support-fails, register_type_support-unmarked, remove_address_head,
}
use rmw_connextdds.Resource.Made.{
  asserted_ok, asserted_not_ok, topic_exit-with_topic, writer_create-none, given_back, IsMade,
  publisher_create-IsMade,
}
use rmw_connextdds.Resource.Balance.{undone, undone-IsMade, publisher_finalize-IsMade}

asserted_topics :
    (T : TopicCalls) (internal : Bool) (h : Held)
    → asserted T internal h ≡ record h { topics = (asserted T internal h).topics }
asserted_topics T internal h = grind arith

module _ (K : Constants) (C : EndpointCalls) where
  -- What a publisher leaves that could not be created.
  pub record IsLeft (type_name : Text) (h g : Held) : Type 0 where
    pub same : g ≡ record h { types = g.types; next = g.next; topics = g.topics }
    pub topics : (g.topics ≡ h.topics) ⊎ ((C.topic.enable ≡ false) × (g.topics ≡ suc h.topics))
    pub types : (g.types ≡ h.types) ⊎ (g.types ≡ attach_type type_name h)
    pub first :
        find_type type_name h.types ≡ none
        → (g.types ≡ h.types)
          ⊎ (find_type type_name g.types ≡ some (record { wrapper = h.next; attached_count = 1 }))

  IsLeft-same :
      (type_name : Text) (h g : Held) (n : ℕ) → g ≡ record h { next = n } → IsLeft type_name h g
  IsLeft-same type_name h g n e =
      subst (IsLeft type_name h) (sym e)
        (record { same = refl; topics = inl refl; types = inl refl; first = λ _. inl refl })

  IsLeft-registered :
      (type_name : Text) (h r : Held) (a t : ℕ)
      → IsRegistered C.types type_name h a r
      → (t ≡ r.topics) ⊎ ((C.topic.enable ≡ false) × (t ≡ suc r.topics))
      → IsLeft type_name h (delete_support a (record r { topics = t }))
  IsLeft-registered type_name h r a t R e = record {
    same =
        ap (λ s. delete_support a (record s { topics = t })) R.held
        ∙ (ap
              (λ x. record h {
                types = r.types;
                supports = remove_address x (h.next ∷ h.supports);
                next = suc h.next;
                topics = t;
              })
              R.address
            ∙ (ap (λ xs. record h { types = r.types; supports = xs; next = suc h.next; topics = t })
                  (remove_address_head h.next h.supports)
                ∙ ap (λ n. record h { types = r.types; next = n; topics = t })
                    (sym (ap (λ s. s.next) R.held))));
    topics = elim e [
      | inl x ↦ inl (x ∙ ap (λ s. s.topics) R.held)
      | inr (b, x) ↦ inr (b, x ∙ ap (λ s. suc s.topics) R.held)
    ];
    types = inr R.attached;
    first = λ n. inr (R.first n);
  }

  module _ (internal : Bool) (type_name topic_name : Text) (avoid : Bool) (q : Profile)
      (h : Held) where
    pub publisher_create-IsLeft :
        (publisher_create K C internal type_name topic_name avoid q h).0 ≡ none
        → C.delete_endpoint ≡ true
        → C.delete_topic ≡ true
        → IsLeft type_name h (publisher_create K C internal type_name topic_name avoid q h).1
    unfolding publisher_create
    publisher_create-IsLeft e l d =
        let r = register_type_support C.types type_name h in
        let t = assert_topic C.topic internal false in
        let u = register_type_support-unmarked C.types type_name h in
        elim (Option-cases r.0) [
          | inl n ↦
              rw (publisher_create, n)
                (IsLeft-same type_name h r.2 r.2.next
                  (register_type_support-fails C.types type_name h n))
          | inr (a, n) ↦
              let R = register_type_support-IsRegistered C.types type_name h a n in
              elim (Bool-cases (is_ok t.0)) [
                | inr o ↦
                    rw (publisher_create, n, o, u, o)
                      (subst (λ s. IsLeft type_name h (delete_support a s))
                        (sym (asserted_topics C.topic internal r.2))
                        (IsLeft-registered type_name h r.2 a (asserted C.topic internal r.2).topics
                          R (asserted_not_ok C.topic internal r.2 o)))
                | inl o ↦
                    let w =
                      writer_create K C type_name (fq_topic_name topic_name avoid) q a t.1
                        (asserted C.topic internal r.2) in
                    elim (Option-cases w.0) [
                      | inr (x, m) ↦
                          absurd (let z : some x ≡ none = rw (publisher_create, n, o, m) at e in cc)
                      | inl m ↦
                          let y =
                            writer_create-none K C type_name (fq_topic_name topic_name avoid) q a
                              t.1 (asserted C.topic internal r.2) m l
                            ∙ (ap (topic_exit C t.1) (asserted_ok C.topic internal r.2 o)
                                ∙ topic_exit-with_topic C t.1 r.2 d) in
                          rw (publisher_create, n, o, m, u, o)
                            (subst (λ s. IsLeft type_name h (delete_support a s)) (sym y)
                              (IsLeft-registered type_name h r.2 a r.2.topics R (inl refl)))
                    ]
              ]
        ]

  module _ (type_name : Text) (h : Held) (p : Publisher) (g : Held) (M : IsMade K C type_name h p g)
      (k : IsCounted type_name h) (u : C.types.unregister_type ≡ true)
      (l : C.delete_endpoint ≡ true) (d : C.delete_topic ≡ true) where
    publisher_exit-IsLeft :
        (a b : ℕ)
        → a ≡ g.handles
        → b ≡ g.names
        → IsLeft type_name h (publisher_exit C p (record g { handles = a; names = b })).1
    unfolding publisher_exit
    publisher_exit-IsLeft a b x y =
        let f : Held = record g { handles = a; names = b } in
        let s = undone K C p.created_topic h g in
        rw (publisher_exit, publisher_finalize-IsMade K C type_name h g f p M k u l d refl refl)
          (IsLeft-same type_name h _ (suc h.next) (
            ap (λ n. record s { handles = n; names = b }) x
            ∙ (ap (λ n. record s { names = n }) y ∙ undone-IsMade K C type_name h g p M)))

    publisher_handle-IsLeft :
        (internal : Bool)
        → (publisher_handle C internal p g).0 ≡ none
        → IsLeft type_name h (publisher_handle C internal p g).1
    unfolding publisher_handle
    publisher_handle-IsLeft internal e =
        let x = given_back g.handles in
        let y = given_back g.names in
        elim (Bool-cases C.allocate_handle) [
          | inr a ↦ simp (publisher_handle, a) (publisher_exit-IsLeft g.handles g.names refl refl)
          | inl a ↦ elim (Bool-cases C.allocate_name) [
            | inr b ↦ simp (publisher_handle, a, b) (publisher_exit-IsLeft _ _ x refl)
            | inl b ↦ elim (Bool-cases (internal || (is_ok (enable C) && C.graph_created))) [
              | inr c ↦ simp (publisher_handle, a, b, c) (publisher_exit-IsLeft _ _ x y)
              | inl c ↦ absurd (let z : some p ≡ none = rw (publisher_handle, a, b, c) at e in cc)
            ]
          ]
        ]

  module _ (internal : Bool) (type_name topic_name : Text) (avoid : Bool) (q : Profile)
      (h : Held) where
    -- A publisher whose creation fails leaves, when the releases of DDS succeed and the type's count of
    -- attachments neither is 0 nor would wrap around, no type support, writer, reader, object,
    -- handle, name or content-filtered topic more, and at most one topic more, that only if topics
    -- cannot be enabled. The registered types are as before, or the type stays attached once more,
    -- for it is never unregistered: one that was not there before is then left with a plugin that
    -- holds the address of the type support that was deleted.
    pub create_publisher-IsLeft :
        (create_publisher K C internal type_name topic_name avoid q h).0 ≡ none
        → IsCounted type_name h
        → C.types.unregister_type ≡ true
        → C.delete_endpoint ≡ true
        → C.delete_topic ≡ true
        → IsLeft type_name h (create_publisher K C internal type_name topic_name avoid q h).1
    unfolding create_publisher
    create_publisher-IsLeft e k u l d =
        let made = publisher_create K C internal type_name topic_name avoid q h in
        elim (Option-cases made.0) [
          | inl n ↦
              rw (create_publisher, n)
                (publisher_create-IsLeft internal type_name topic_name avoid q h n l d)
          | inr (p, n) ↦
              let M = publisher_create-IsMade K C internal type_name topic_name avoid q h p n in
              rw (create_publisher, n)
                (publisher_handle-IsLeft type_name h p made.1 M k u l d internal
                  (rw (create_publisher, n) at e))
        ]
