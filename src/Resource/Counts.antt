-- ===== src/Resource/Counts.antt =====
-- How many writers, readers and objects the creation of a publisher or subscriber leaves.
use rmw_connextdds.Prelude.{
  ℕ, suc, ◌-◌, ◌≡◌, inl, inr, refl, ◌∙◌, ap, Bool, true, false, Bool-cases, Option, none, some,
  Option-cases, arith,
}
use rmw_connextdds.Names.Text.{Text}
use rmw_connextdds.Ret.{is_ok}
use rmw_connextdds.Qos.Policies.{Profile, Constants}
use rmw_connextdds.Context.State.{TopicCalls, assert_topic}
use rmw_connextdds.Resource.Types.{Held, register_type_support}
use rmw_connextdds.Resource.Publisher.{
  EndpointCalls, fq_topic_name, asserted, topic_exit, create_endpoint,
}
use rmw_connextdds.Resource.Subscriber.{
  Filter, Subscriber, create_filtered, reader_create, subscriber_create,
}
use rmw_connextdds.Resource.Made.{given_back}
use rmw_connextdds.Resource.Registry.{
  register_type_support-IsRegistered, register_type_support-fails, register_type_support-unmarked,
}

-- The writers, the readers and the objects.
abbrev pub counts : Held → ℕ × ℕ × ℕ
counts h = (h.writers, h.readers, h.objects)

asserted-counts :
    (T : TopicCalls) (internal : Bool) (h : Held)
    → (counts (asserted T internal h) ≡ counts h) × ((asserted T internal h).types ≡ h.types)
asserted-counts T internal h = grind arith

topic_exit-counts :
    (C : EndpointCalls) (created : Bool) (h : Held)
    → (counts (topic_exit C created h) ≡ counts h) × ((topic_exit C created h).types ≡ h.types)
topic_exit-counts C created h = grind arith

create_filtered-counts :
    (C : EndpointCalls) (f : Option Filter) (h : Held)
    → (counts (create_filtered C f h).2 ≡ counts h) × ((create_filtered C f h).2.types ≡ h.types)
unfolding create_filtered
create_filtered-counts C none h = (refl, refl)
create_filtered-counts C (some f) h = grind arith

-- One object more with what it is for, if there is one.
abbrev pub one_reader : Option Subscriber → Held → ℕ × ℕ × ℕ
one_reader none h = counts h
one_reader (some _) h = (h.writers, suc h.readers, suc h.objects)

module _ (K : Constants) (C : EndpointCalls) where
  reader_create-counts :
      (type_name topic : Text) (filter : Option Filter) (q : Profile) (a : ℕ) (created : Bool)
      (h : Held)
      → C.delete_endpoint ≡ true
      → (counts (reader_create K C type_name topic filter q a created h).1
          ≡ one_reader (reader_create K C type_name topic filter q a created h).0 h)
        × ((reader_create K C type_name topic filter q a created h).1.types ≡ h.types)
  unfolding reader_create
  reader_create-counts type_name topic filter q a created h l =
      let f = create_filtered C filter h in
      let (x, y) = create_filtered-counts C filter h in
      let (u, v) = topic_exit-counts C created f.2 in
      elim (Bool-cases f.0) [
        | inr b ↦ simp (reader_create, b) (u ∙ x, v ∙ y)
        | inl b ↦ elim (Option-cases C.default_qos) [
          | inl n ↦ simp (reader_create, b, n) (u ∙ x, v ∙ y)
          | inr (d, n) ↦ elim (Bool-cases (create_endpoint K C q d)) [
            | inr e ↦ simp (reader_create, b, n, e) (u ∙ x, v ∙ y)
            | inl e ↦ elim (Bool-cases C.new_object) [
              | inr o ↦
                  simp (reader_create, b, n, e, o, l)
                    (let (s, z) =
                        topic_exit-counts C created
                          (record f.2 { readers = suc f.2.readers - 1 }) in
                      (
                        s ∙ (ap (λ m. (f.2.writers, m, f.2.objects)) (given_back f.2.readers) ∙ x),
                        z ∙ y,
                      ))
              | inl o ↦ simp (reader_create, b, n, e, o) (ap (λ c. (c.0, suc c.1, suc c.2)) x, y)
            ]
          ]
        ]
      ]

  registered-counts :
      (name : Text) (h : Held) → counts (register_type_support C.types name h).2 ≡ counts h
  registered-counts name h = elim (Option-cases (register_type_support C.types name h).0) [
    | inl n ↦ ap counts (register_type_support-fails C.types name h n)
    | inr (a, n) ↦ ap counts (register_type_support-IsRegistered C.types name h a n).held
  ]

  module _ (internal : Bool) (type_name topic_name : Text) (avoid : Bool) (filter : Option Filter)
      (q : Profile) (h : Held) (l : C.delete_endpoint ≡ true) where
    abbrev subscribed : Option Subscriber × Held
    subscribed = subscriber_create K C internal type_name topic_name avoid filter q h

    -- A type that was registered still is after the creation of a subscriber, which has left a
    -- reader and its object exactly where it has succeeded.
    pub subscriber_create-counts :
        (counts subscribed.1 ≡ one_reader subscribed.0 h)
        × (subscribed.1.types ≡ (register_type_support C.types type_name h).2.types)
    unfolding subscriber_create
    subscriber_create-counts =
        let r = register_type_support C.types type_name h in
        let g = asserted C.topic internal r.2 in
        let x = registered-counts type_name h in
        let (u, v) = asserted-counts C.topic internal r.2 in
        let m = register_type_support-unmarked C.types type_name h in
        let t = assert_topic C.topic internal false in
        elim (Option-cases r.0) [
          | inl n ↦ simp (subscriber_create, n) (x, refl)
          | inr (a, n) ↦ elim (Bool-cases (is_ok t.0)) [
            | inr o ↦ simp (subscriber_create, n, o, m) (u ∙ x, v)
            | inl o ↦
                let s =
                  reader_create K C type_name (fq_topic_name topic_name avoid) filter q a t.1 g in
                let (y, z) =
                  reader_create-counts type_name (fq_topic_name topic_name avoid) filter q a t.1 g
                    l in
                elim (Option-cases s.0) [
                  | inl e ↦ simp (subscriber_create, n, o, e, m) ((rw e at y) ∙ (u ∙ x), z ∙ v)
                  | inr (b, e) ↦
                      simp (subscriber_create, n, o, e)
                        ((rw e at y) ∙ ap (λ c. (c.0, suc c.1, suc c.2)) (u ∙ x), z ∙ v)
                ]
          ]
        ]
