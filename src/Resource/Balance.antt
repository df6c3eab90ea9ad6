-- ===== src/Resource/Balance.antt =====
-- What the end of a publisher gives back.
use rmw_connextdds.Prelude.{
  ℕ, suc, ◌-◌, ◌≡◌, inl, inr, refl, ◌∙◌, ap, Bool, true, false, ◌&&◌, ◌||◌, Bool-cases, Option,
  none, some, Option-cases, if◌then◌else◌, ◌∷◌,
}
use rmw_connextdds.Names.Text.{Text}
use rmw_connextdds.Ret.{Ret, is_ok}
use rmw_connextdds.Qos.Policies.{Profile, Constants}
use rmw_connextdds.Resource.Types.{Held, remove_address, unregister_type_support}
use rmw_connextdds.Resource.Publisher.{
  EndpointCalls, Publisher, publisher_create, publisher_finalize, create_publisher,
  publisher_handle, publisher_exit, destroy_publisher, enable,
}
use rmw_connextdds.Resource.Registry.{IsCounted, remove_address_head}
use rmw_connextdds.Resource.Made.{
  IsMade, publisher_create-IsMade, given_back, with_topic, with_writer,
}

module _ (K : Constants) (C : EndpointCalls) where
  -- The end of a publisher, whatever else was created and released since it was created.
  pub publisher_finalize-IsMade :
      (type_name : Text) (h g f : Held) (p : Publisher) (M : IsMade K C type_name h p g)
      → IsCounted type_name h
      → C.types.unregister_type ≡ true
      → C.delete_endpoint ≡ true
      → C.delete_topic ≡ true
      → f.types ≡ g.types
      → f.supports ≡ g.supports
      → publisher_finalize C p f ≡ (
        Ret.ok,
        record f {
          types = h.types;
          supports = h.supports;
          topics = if p.created_topic then f.topics - 1 else f.topics;
          writers = f.writers - 1;
        },
      )
  unfolding publisher_finalize
  publisher_finalize-IsMade type_name h g f p M k u l d s t =
      let R = M.registration in
      let f2 : Held = record f {
        topics = if p.created_topic then f.topics - 1 else f.topics;
        writers = f.writers - 1;
      } in
      let x =
        ap (λ n. unregister_type_support C.types n f2) M.type_name_same
        ∙ R.back u k f2 (s ∙ ap (λ z. z.types) M.held) in
      let y : remove_address p.type_support f.supports ≡ h.supports =
        ap (remove_address p.type_support)
          (t ∙ (ap (λ z. z.supports) M.held ∙ ap (λ z. z.supports) R.held))
        ∙ (ap (λ a. remove_address a (h.next ∷ h.supports)) R.address
            ∙ remove_address_head h.next h.supports) in
      elim (Bool-cases p.created_topic) [
        | inl c ↦
            let f3 : Held = record f {
              types = h.types;
              topics = f.topics - 1;
              writers = f.writers - 1;
            } in
            rw (publisher_finalize, l, c, d, rw c at x)
              (ap (λ z. (Ret.ok, record f3 { supports = z })) y)
        | inr c ↦
            let f3 : Held = record f { types = h.types; writers = f.writers - 1 } in
            rw (publisher_finalize, l, c, rw c at x)
              (ap (λ z. (Ret.ok, record f3 { supports = z })) y)
      ]

  publisher_handle-some :
      (internal : Bool) (p x : Publisher) (h : Held)
      → (publisher_handle C internal x h).0 ≡ some p
      → (x ≡ p)
        × ((publisher_handle C internal x h).1
            ≡ record h { handles = suc h.handles; names = suc h.names })
  unfolding publisher_handle publisher_exit
  publisher_handle-some internal p x h e = elim (Bool-cases C.allocate_handle) [
    | inr a ↦ absurd (let z : none ≡ some p = rw (publisher_handle, a) at e in cc)
    | inl a ↦ elim (Bool-cases C.allocate_name) [
      | inr b ↦ absurd (let z : none ≡ some p = rw (publisher_handle, a, b) at e in cc)
      | inl b ↦ elim (Bool-cases (internal || (is_ok (enable C) && C.graph_created))) [
        | inr c ↦ absurd (let z : none ≡ some p = rw (publisher_handle, a, b, c) at e in cc)
        | inl c ↦
            let z : some x ≡ some p = rw (publisher_handle, a, b, c) at e in
            rw (publisher_handle, a, b, c) (let y : x ≡ p = cc in (y, refl))
      ]
    ]
  ]

  -- `g` without the writer, its object, its type support and its topic.
  abbrev pub undone : Bool → Held → Held → Held
  undone created h g = record g {
    types = h.types;
    supports = h.supports;
    topics = if created then g.topics - 1 else g.topics;
    writers = g.writers - 1;
    objects = g.objects - 1;
  }

  topics_back :
      (created : Bool) (n : ℕ)
      → (if created then (if created then suc n else n) - 1 else (if created then suc n else n)) ≡ n
  topics_back true n = given_back n
  topics_back false n = refl

  pub undone-IsMade :
      (type_name : Text) (h g : Held) (p : Publisher) (M : IsMade K C type_name h p g)
      → undone p.created_topic h g ≡ record h { next = suc h.next }
  undone-IsMade type_name h g p M =
      let R = M.registration in
      let c = p.created_topic in
      let h1 : Held = record h { next = suc h.next } in
      ap (undone c h) M.held
      ∙ (ap (λ s. undone c h (with_writer (with_topic c s))) R.held
          ∙ (ap
                (λ n. record h1 {
                  topics = n;
                  writers = suc h.writers - 1;
                  objects = suc h.objects - 1;
                })
                (topics_back c h.topics)
              ∙ (ap (λ n. record h1 { writers = n; objects = suc h.objects - 1 })
                    (given_back h.writers)
                  ∙ ap (λ n. record h1 { objects = n }) (given_back h.objects))))

  module _ (internal : Bool) (type_name topic_name : Text) (avoid : Bool) (q : Profile)
      (h : Held) where
    abbrev made : Option Publisher × Held
    made = publisher_create K C internal type_name topic_name avoid q h

    pub create_publisher-some :
        (p : Publisher)
        → (create_publisher K C internal type_name topic_name avoid q h).0 ≡ some p
        → (made.0 ≡ some p)
          × ((create_publisher K C internal type_name topic_name avoid q h).1
              ≡ record made.1 { handles = suc made.1.handles; names = suc made.1.names })
    unfolding create_publisher
    create_publisher-some p e = elim (Option-cases made.0) [
      | inl n ↦ absurd (let z : none ≡ some p = rw (create_publisher, n) at e in cc)
      | inr (x, n) ↦
          let (y, z) = publisher_handle-some internal p x made.1 (rw (create_publisher, n) at e) in
          (n ∙ ap some y, rw (create_publisher, n) z)
    ]

    -- A publisher that was created for a type whose count of attachments neither is 0 nor would wrap
    -- around can be destroyed, when the releases of DDS succeed: the result is good, and all that is
    -- held is as before the creation, but for the next address of the heap.
    pub create_publisher-destroy_publisher :
        (p : Publisher)
        → (create_publisher K C internal type_name topic_name avoid q h).0 ≡ some p
        → IsCounted type_name h
        → C.types.unregister_type ≡ true
        → C.delete_endpoint ≡ true
        → C.delete_topic ≡ true
        → destroy_publisher C
            (some p)
            (create_publisher K C internal type_name topic_name avoid q h).1
          ≡ (Ret.ok, record h { next = suc h.next })
    unfolding destroy_publisher
    create_publisher-destroy_publisher p e k u l d =
        let (x, y) = create_publisher-some p e in
        let M = publisher_create-IsMade K C internal type_name topic_name avoid q h p x in
        let f : Held = record made.1 { handles = suc made.1.handles; names = suc made.1.names } in
        let z = publisher_finalize-IsMade type_name h made.1 f p M k u l d refl refl in
        let g = undone p.created_topic h made.1 in
        rw (y, destroy_publisher, z)
          (ap (λ s. (Ret.ok, s))
            (ap (λ n. record g { handles = n; names = suc made.1.names - 1 })
                (given_back made.1.handles)
              ∙ (ap (λ n. record g { names = n }) (given_back made.1.names)
                  ∙ undone-IsMade type_name h made.1 p M)))
