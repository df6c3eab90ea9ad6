-- ===== src/Resource/Made.antt =====
-- What a publisher that has been created holds.
use rmw_connextdds.Prelude.{
  ℕ, suc, ◌-◌, ◌≡◌, ◌⊎◌, inl, inr, refl, sym, ◌∙◌, ap, Bool, true, false, Bool-cases, none, some,
  Option-cases, if◌then◌else◌, arith,
}
use mathlib.Core.Path.{subst}
use rmw_connextdds.Names.Text.{Text}
use rmw_connextdds.Ret.{is_ok}
use rmw_connextdds.Qos.Policies.{Profile, Constants}
use rmw_connextdds.Context.State.{TopicCalls, assert_topic}
use rmw_connextdds.Resource.Types.{Held, register_type_support}
use rmw_connextdds.Resource.Publisher.{
  EndpointCalls, Publisher, fq_topic_name, asserted, topic_exit, writer_create, publisher_create,
  create_endpoint,
}
use rmw_connextdds.Resource.Registry.{IsRegistered, register_type_support-IsRegistered}

-- One more topic, if the endpoint has to delete one.
abbrev pub with_topic : Bool → Held → Held
with_topic created h = record h { topics = if created then suc h.topics else h.topics }

-- One more writer, with its object.
abbrev pub with_writer : Held → Held
with_writer h = record h { writers = suc h.writers; objects = suc h.objects }

pub asserted_ok :
    (T : TopicCalls) (internal : Bool) (h : Held)
    → is_ok (assert_topic T internal false).0 ≡ true
    → asserted T internal h ≡ with_topic (assert_topic T internal false).1 h
unfolding assert_topic
asserted_ok T true h e = grind arith
asserted_ok T false h e = grind arith

pub asserted_not_ok :
    (T : TopicCalls) (internal : Bool) (h : Held)
    → is_ok (assert_topic T internal false).0 ≡ false
    → ((asserted T internal h).topics ≡ h.topics)
      ⊎ ((T.enable ≡ false) × ((asserted T internal h).topics ≡ suc h.topics))
unfolding assert_topic
asserted_not_ok T true h e = grind arith
asserted_not_ok T false h e = grind arith

pub given_back : (n : ℕ) → suc n - 1 ≡ n
given_back n = omega arith

pub topic_exit-with_topic :
    (C : EndpointCalls) (created : Bool) (h : Held)
    → C.delete_topic ≡ true
    → topic_exit C created (with_topic created h) ≡ h
topic_exit-with_topic C true h e = rw e (ap (λ n. record h { topics = n }) (given_back h.topics))
topic_exit-with_topic C false h e = refl

module _ (K : Constants) (C : EndpointCalls) where
  module _ (type_name topic : Text) (q : Profile) (a : ℕ) (created : Bool) (h : Held) where
    pub writer_create-some :
        (p : Publisher)
        → (writer_create K C type_name topic q a created h).0 ≡ some p
        → (p ≡ record {
          type_support = a;
          type_name = type_name;
          topic_name = topic;
          created_topic = created;
        })
          × ((writer_create K C type_name topic q a created h).1 ≡ with_writer h)
    unfolding writer_create
    writer_create-some p e = elim (Option-cases C.default_qos) [
      | inl n ↦ absurd (let z : none ≡ some p = rw n at e in cc)
      | inr (d, n) ↦ elim (Bool-cases (create_endpoint K C q d)) [
        | inr b ↦ absurd (let z : none ≡ some p = rw (n, b) at e in cc)
        | inl b ↦ elim (Bool-cases C.new_object) [
          | inr o ↦ absurd (let z : none ≡ some p = rw (n, b, o) at e in cc)
          | inl o ↦ rw (n, b, o) (let z = rw (n, b, o) at e in (cc, refl))
        ]
      ]
    ]

    pub writer_create-none :
        (writer_create K C type_name topic q a created h).0 ≡ none
        → C.delete_endpoint ≡ true
        → (writer_create K C type_name topic q a created h).1 ≡ topic_exit C created h
    unfolding writer_create
    writer_create-none e l = elim (Option-cases C.default_qos) [
      | inl n ↦ rw n refl
      | inr (d, n) ↦ elim (Bool-cases (create_endpoint K C q d)) [
        | inr b ↦ rw (n, b) refl
        | inl b ↦ elim (Bool-cases C.new_object) [
          | inr o ↦
              rw (n, b, o, l)
                (ap (λ m. topic_exit C created (record h { writers = m })) (given_back h.writers))
          | inl o ↦ absurd (let z : some _ ≡ none = rw (n, b, o) at e in cc)
        ]
      ]
    ]

  -- What a publisher that has been created holds.
  pub record IsMade (type_name : Text) (h : Held) (p : Publisher) (g : Held) : Type 0 where
    pub registered : Held
    pub registration : IsRegistered C.types type_name h p.type_support registered
    pub type_name_same : p.type_name ≡ type_name
    pub held : g ≡ with_writer (with_topic p.created_topic registered)

  module _ (internal : Bool) (type_name topic_name : Text) (avoid : Bool) (q : Profile)
      (h : Held) where
    pub publisher_create-IsMade :
        (p : Publisher)
        → (publisher_create K C internal type_name topic_name avoid q h).0 ≡ some p
        → IsMade type_name h p (publisher_create K C internal type_name topic_name avoid q h).1
    unfolding publisher_create
    publisher_create-IsMade p e =
        let r = register_type_support C.types type_name h in
        let t = assert_topic C.topic internal false in
        elim (Option-cases r.0) [
          | inl n ↦ absurd (let z : none ≡ some p = rw (publisher_create, n) at e in cc)
          | inr (a, n) ↦ elim (Bool-cases (is_ok t.0)) [
            | inr o ↦ absurd (let z : none ≡ some p = rw (publisher_create, n, o) at e in cc)
            | inl o ↦
                let w =
                  writer_create K C type_name (fq_topic_name topic_name avoid) q a t.1
                    (asserted C.topic internal r.2) in
                elim (Option-cases w.0) [
                  | inl m ↦
                      absurd (let z : none ≡ some p = rw (publisher_create, n, o, m) at e in cc)
                  | inr (x, m) ↦
                      rw (publisher_create, n, o, m)
                        (rw o (
                          let (y, z) =
                            writer_create-some type_name (fq_topic_name topic_name avoid) q a t.1
                              (asserted C.topic internal r.2) x m in
                          let u : some x ≡ some p = rw (publisher_create, n, o, m) at e in
                          let v : x ≡ p = cc in
                          subst (λ p'. IsMade type_name h p' w.1) (sym y ∙ v)
                            (record {
                              registered = r.2;
                              registration =
                                  register_type_support-IsRegistered C.types type_name h a n;
                              type_name_same = refl;
                              held = z ∙ ap with_writer (asserted_ok C.topic internal r.2 o);
                            })))
                ]
          ]
        ]
