-- ===== src/Resource/Abandoned.antt =====
-- What a client and a service leave whose creation fails.
use rmw_connextdds.Prelude.{
  ℕ, suc, ◌-◌, ◌≡◌, inl, inr, refl, ◌∙◌, ap, Bool, true, false, ◌&&◌, Bool-cases, Option, none,
  some, Option-cases,
}
use rmw_connextdds.Names.Text.{Text}
use rmw_connextdds.Names.Mangle.{request_topic, reply_topic}
use rmw_connextdds.Ret.{Ret}
use rmw_connextdds.Qos.Policies.{Profile, Constants}
use rmw_connextdds.Resource.Types.{Plugin, Held, find_type}
use rmw_connextdds.Resource.Publisher.{
  EndpointCalls, Publisher, publisher_create, publisher_finalize,
}
use rmw_connextdds.Resource.Subscriber.{subscriber_create}
use rmw_connextdds.Resource.Service.{
  ServiceCalls, reply_filter, client_finalize, client_create, service_create, client_exit,
}
use rmw_connextdds.Resource.Registry.{register_type_support-kept, unregister_type_support-found}
use rmw_connextdds.Resource.Made.{given_back, IsMade, publisher_create-IsMade}
use rmw_connextdds.Resource.Failure.{publisher_create-IsLeft}
use rmw_connextdds.Resource.Counts.{counts, subscriber_create-counts}

-- One writer and its object more, if there is one.
abbrev pub one_writer : Option Publisher → Held → ℕ × ℕ × ℕ
one_writer none h = counts h
one_writer (some _) h = (suc h.writers, h.readers, suc h.objects)

-- One object less.
abbrev less : ℕ × ℕ × ℕ → ℕ × ℕ × ℕ
less c = (c.0, c.1, c.2 - 1)

-- All that is released is released well.
pub record Releases (C : EndpointCalls) : Type 0 where
  pub unregister_type : C.types.unregister_type ≡ true
  pub delete_endpoint : C.delete_endpoint ≡ true
  pub delete_topic : C.delete_topic ≡ true

module _ (K : Constants) where
  module _ (C : EndpointCalls) (R : Releases C) where
    publisher_create-counts :
        (internal : Bool) (type_name topic_name : Text) (avoid : Bool) (q : Profile) (h : Held)
        → counts (publisher_create K C internal type_name topic_name avoid q h).1
          ≡ one_writer (publisher_create K C internal type_name topic_name avoid q h).0 h
    publisher_create-counts internal type_name topic_name avoid q h =
        let r = publisher_create K C internal type_name topic_name avoid q h in
        elim (Option-cases r.0) [
          | inl n ↦ rw n (
              ap counts
                (publisher_create-IsLeft K C internal type_name topic_name avoid q h n
                  R.delete_endpoint R.delete_topic).same)
          | inr (p, n) ↦
              let M = publisher_create-IsMade K C internal type_name topic_name avoid q h p n in
              rw n (
                ap counts M.held
                ∙ ap (λ s. (suc s.writers, s.readers, suc s.objects)) M.registration.held)
        ]

    IsMade-found :
        (type_name : Text) (h g : Held) (p : Publisher)
        → IsMade K C type_name h p g
        → (r : Plugin) × (find_type p.type_name g.types ≡ some r)
    IsMade-found type_name h g p M =
        let (r, e) = M.registration.found in
        (
          r,
          ap (λ n. find_type n g.types) M.type_name_same
              ∙ (ap (λ s. find_type type_name s.types) M.held ∙ e),
        )

    -- The end of a publisher whose type is registered, and its deletion.
    publisher_finalize-counts :
        (p : Publisher) (h : Held) (t : Plugin)
        → find_type p.type_name h.types ≡ some t
        → ((publisher_finalize C p h).0 ≡ Ret.ok)
          × (counts (publisher_finalize C p h).1 ≡ (h.writers - 1, h.readers, h.objects))
    unfolding publisher_finalize
    publisher_finalize-counts p h t e = elim (Bool-cases p.created_topic) [
      | inl c ↦
          let g : Held = record h { writers = h.writers - 1; topics = h.topics - 1 } in
          let (x, y) = unregister_type_support-found C.types p.type_name g t e R.unregister_type in
          simp (publisher_finalize, R.delete_endpoint, c, R.delete_topic, x) (refl, ap counts y)
      | inr c ↦
          let g : Held = record h { writers = h.writers - 1 } in
          let (x, y) = unregister_type_support-found C.types p.type_name g t e R.unregister_type in
          simp (publisher_finalize, R.delete_endpoint, c, x) (refl, ap counts y)
    ]

  module _ (C : ServiceCalls) (RP : Releases C.writer) (RS : Releases C.reader) (svc_name : Text)
      (avoid : Bool) (q : Profile) (h : Held) (n : C.new_object ≡ true) where
    abbrev with_object : Held
    with_object = record h { objects = suc h.objects }

    -- The scope exit of RMW_Connext_Client::create, with and without a request publisher.
    client_exit-none :
        (g : Held)
        → counts (client_exit C (record { request_pub = none; reply_sub = none }) g).1
          ≡ less (counts g)
    unfolding client_finalize
    client_exit-none g = refl

    client_exit-some :
        (p : Publisher) (g : Held) (r : Plugin)
        → find_type p.type_name g.types ≡ some r
        → counts (client_exit C (record { request_pub = some p; reply_sub = none }) g).1
          ≡ (g.writers - 1, g.readers, g.objects - 1 - 1)
    unfolding client_finalize
    client_exit-some p g r e =
        let (x, y) = publisher_finalize-counts C.writer RP p g r e in
        simp (client_finalize, x) (ap (λ c. less (less c)) y)

    -- A client whose creation fails leaves no writer, reader or object more, when the releases of DDS
    -- succeed and the client was allocated.
    pub client_create-counts :
        (client_create K C svc_name avoid q h).0 ≡ none
        → counts (client_create K C svc_name avoid q h).1 ≡ counts h
    unfolding client_create
    client_create-counts e =
        let topic = reply_topic svc_name avoid in
        let p =
          publisher_create K C.writer false C.request_type (request_topic svc_name avoid) avoid q
            with_object in
        let f = some (reply_filter topic C.writer_guid) in
        let s = subscriber_create K C.reader false C.reply_type topic avoid f q p.1 in
        let x =
          publisher_create-counts C.writer RP false C.request_type (request_topic svc_name avoid)
            avoid q with_object in
        let (y, z) =
          subscriber_create-counts K C.reader false C.reply_type topic avoid f q p.1
            RS.delete_endpoint in
        let o = ap (λ m. (h.writers, h.readers, m)) (given_back h.objects) in
        let wo : (suc h.writers - 1, h.readers, suc (suc h.objects) - 1 - 1) ≡ counts h =
          ap (λ m. (m, h.readers, suc (suc h.objects) - 1 - 1)) (given_back h.writers)
          ∙ (ap (λ m. (h.writers, h.readers, m - 1)) (given_back (suc h.objects)) ∙ o) in
        elim (Bool-cases C.type_supports) [
          | inr t ↦ simp (client_create, n, t) (client_exit-none with_object ∙ o)
          | inl t ↦ elim (Option-cases p.0) [
            | inl a ↦
                simp (client_create, n, t, a) (client_exit-none p.1 ∙ (ap less (rw a at x) ∙ o))
            | inr (w, a) ↦
                let M =
                  publisher_create-IsMade K C.writer false C.request_type
                    (request_topic svc_name avoid) avoid q with_object w a in
                let xa : counts p.1 ≡ (suc h.writers, h.readers, suc (suc h.objects)) = rw a at x in
                let (r, k) : (r : Plugin) × (find_type w.type_name p.1.types ≡ some r) =
                  IsMade-found C.writer RP C.request_type with_object p.1 w M in
                elim (Bool-cases (C.allocate_cft_name && C.allocate_cft_filter)) [
                  | inr b ↦
                      simp (client_create, n, t, a, b)
                        (client_exit-some w p.1 r k
                          ∙ (ap (λ c. (c.0 - 1, c.1, c.2 - 1 - 1)) xa ∙ wo))
                  | inl b ↦ elim (Option-cases s.0) [
                    | inl c ↦
                        let (r', k') =
                          register_type_support-kept C.reader.types C.reply_type w.type_name p.1 r
                            k in
                        simp (client_create, n, t, a, b, c)
                          (client_exit-some w s.1 r' (ap (find_type w.type_name) z ∙ k')
                            ∙ (ap (λ c. (c.0 - 1, c.1, c.2 - 1 - 1)) ((rw c at y) ∙ xa) ∙ wo))
                    | inr (v, c) ↦
                        absurd
                          (let z : some _ ≡ none = simp (client_create, n, t, a, b, c) at e in cc)
                  ]
                ]
          ]
        ]

    -- A service whose creation fails leaves, of writers, readers and objects, only the writer and the
    -- object of its reply publisher, if that was created, when the releases of DDS succeed, the service
    -- was allocated and its type supports are found: nothing ends the publisher.
    pub service_create-counts :
        C.type_supports ≡ true
        → (service_create K C svc_name avoid q h).0 ≡ none
        → counts (service_create K C svc_name avoid q h).1
          ≡ one_writer
              (publisher_create K C.writer false C.reply_type
                (reply_topic svc_name avoid)
                avoid
                q
                with_object).0
              h
    unfolding service_create
    service_create-counts t e =
        let p =
          publisher_create K C.writer false C.reply_type (reply_topic svc_name avoid) avoid q
            with_object in
        let s =
          subscriber_create K C.reader false C.request_type (request_topic svc_name avoid) avoid
            none q p.1 in
        let x =
          publisher_create-counts C.writer RP false C.reply_type (reply_topic svc_name avoid) avoid
            q with_object in
        let y =
          (subscriber_create-counts K C.reader false C.request_type (request_topic svc_name avoid)
            avoid none q p.1 RS.delete_endpoint).0 in
        elim (Option-cases p.0) [
          | inl a ↦
              simp (service_create, n, t, a)
                (ap less (rw a at x) ∙ ap (λ m. (h.writers, h.readers, m)) (given_back h.objects))
          | inr (w, a) ↦ elim (Option-cases s.0) [
            | inl b ↦
                simp (service_create, n, t, a, b)
                  (ap less ((rw b at y) ∙ (rw a at x))
                    ∙ ap (λ m. (suc h.writers, h.readers, m)) (given_back (suc h.objects)))
            | inr (r, b) ↦
                absurd (let z : some _ ≡ none = simp (service_create, n, t, a, b) at e in cc)
          ]
        ]
