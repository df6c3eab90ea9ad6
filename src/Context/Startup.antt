-- ===== src/Context/Startup.antt =====
-- What the first node of a context brings up, and what a failure of it leaves.
use rmw_connextdds.Prelude.{
  ℕ, ◌≡◌, ◌⊎◌, inl, inr, refl, ◌∙◌, ◌==◌, Bool, true, false, Option-cases, none, some,
}
use rmw_connextdds.Names.Text.{Text}
use rmw_connextdds.Ret.{Ret}
use rmw_connextdds.Context.State.{Calls, Context, ◌then_next◌}
use rmw_connextdds.Context.Nodes.{
  adopt_factory, create_entities, enable_entities, initialize_dds, initialize_first,
  initialize_node,
}
use rmw_connextdds.Context.Nodes.{check}
use rmw_connextdds.Context.Lifecycle.{Releases, IsEmpty, IsRunning, clean_up-IsCleaned}

-- Every entity of DDS that a stage has created so far, in the order of creation.
abbrev pub Holds : Bool → Bool → Bool → Context → Type 0
Holds participant dds_pub dds_sub s =
    (s.participant ≡ participant) × (s.dds_pub ≡ dds_pub) × (s.dds_sub ≡ dds_sub)

module _ (local : Bool) where
  -- A stage of the initialization ends well with `P`, or fails with no entity held.
  abbrev pub Stage : (Context → Type 0) → Ret × Context → Type 0
  Stage P r =
      ((r.0 ≡ Ret.ok) × P r.1 × (r.1.localhost_only ≡ local))
      ⊎ ((r.0 ≡ Ret.error) × IsEmpty r.1 × (r.1.localhost_only ≡ local))

  then_next-Stage :
      (P Q : Context → Type 0) (r : Ret × Context) (f : Context → Ret × Context)
      → Stage P r
      → ((t : Context) → P t → t.localhost_only ≡ local → Stage Q (f t))
      → Stage Q (r then_next f)
  then_next-Stage P Q (Ret.ok, s) f (inl (e, p, l)) k = k s p l
  then_next-Stage P Q (Ret.ok, s) f (inr (e, E, _)) k = absurd cc
  then_next-Stage P Q (Ret.error, s) f (inl (e, p, _)) k = absurd cc
  then_next-Stage P Q (Ret.error, s) f (inr E) k = inr E
  then_next-Stage P Q (Ret.timeout, s) f (inl (e, p, _)) k = absurd cc
  then_next-Stage P Q (Ret.timeout, s) f (inr (e, E, _)) k = absurd cc
  then_next-Stage P Q (Ret.bad_alloc, s) f (inl (e, p, _)) k = absurd cc
  then_next-Stage P Q (Ret.bad_alloc, s) f (inr (e, E, _)) k = absurd cc
  then_next-Stage P Q (Ret.invalid_argument, s) f (inl (e, p, _)) k = absurd cc
  then_next-Stage P Q (Ret.invalid_argument, s) f (inr (e, E, _)) k = absurd cc
  then_next-Stage P Q (Ret.incorrect_rmw_implementation, s) f (inl (e, p, _)) k = absurd cc
  then_next-Stage P Q (Ret.incorrect_rmw_implementation, s) f (inr (e, E, _)) k = absurd cc
  then_next-Stage P Q (Ret.unsupported, s) f (inl (e, p, _)) k = absurd cc
  then_next-Stage P Q (Ret.unsupported, s) f (inr (e, E, _)) k = absurd cc

  module _ (D : Calls) (R : Releases D) where
    check-Stage :
        (P : Context → Type 0) (b : Bool) (s : Context)
        → P s
        → s.localhost_only ≡ local
        → Stage P (check D b s)
    check-Stage P true s p l = inl (refl, p, l)
    check-Stage P false s p l =
        let X = clean_up-IsCleaned D R true s in inr (refl, X.empty, X.localhost_only ∙ l)

    adopt_factory-none :
        (f : ℕ) (s : Context)
        → s.gv_factory ≡ none
        → adopt_factory D f s ≡ (Ret.ok, record s { gv_factory = some f })
    unfolding adopt_factory
    adopt_factory-none f s e = rw e refl

    adopt_factory-some :
        (f g : ℕ) (s : Context) → s.gv_factory ≡ some g → adopt_factory D f s ≡ check D (f == g) s
    unfolding adopt_factory
    adopt_factory-some f g s e = rw e refl

    adopt_factory-Stage :
        (f : ℕ) (s : Context)
        → Holds false false false s
        → s.localhost_only ≡ local
        → Stage (Holds false false false) (adopt_factory D f s)
    adopt_factory-Stage f s h l = elim (Option-cases s.gv_factory) [
      | inl n ↦ rw (adopt_factory-none f s n) (inl (refl, h, l))
      | inr (g, y) ↦
          rw (adopt_factory-some f g s y) (check-Stage (Holds false false false) (f == g) s h l)
    ]

    create_entities-Stage :
        (s : Context)
        → Holds false false false s
        → s.localhost_only ≡ local
        → Stage (Holds true true true) (create_entities D s)
    unfolding create_entities
    create_entities-Stage s h l =
        let P0 = Holds false false false in
        let P1 = Holds true false false in
        let P2 = Holds true true false in
        let P3 = Holds true true true in
        then_next-Stage P2 P3 _ _
          (then_next-Stage P2 P2 _ _
            (then_next-Stage P1 P2 _ _
              (then_next-Stage P1 P1 _ _
                (then_next-Stage P0 P1 _ _
                  (then_next-Stage P0 P0 _ _
                    (then_next-Stage P0 P0 _ _ (check-Stage P0 D.participant_qos s h l)
                      (check-Stage P0 D.configure_security))
                    (check-Stage P0 D.create_participant))
                  (λ t p m.
                    check-Stage P1 D.default_publisher_qos (record t { participant = true })
                      (refl, p.1, p.2) m))
                (check-Stage P1 D.create_publisher))
              (λ t p m.
                check-Stage P2 D.default_subscriber_qos (record t { dds_pub = true })
                  (p.0, refl, p.2) m))
            (check-Stage P2 D.create_subscriber))
          (λ t p m.
            check-Stage P3 D.graph_initialize (record t { dds_sub = true }) (p.0, p.1, refl) m)

    -- All entities are held, by a context of one node.
    abbrev pub Up : Context → Type 0
    Up s = Holds true true true s × (s.node_count ≡ 1)

    enable_entities-Stage :
        (s : Context) → Up s → s.localhost_only ≡ local → Stage Up (enable_entities D s)
    unfolding enable_entities
    enable_entities-Stage s h l =
        then_next-Stage Up Up _ _
          (then_next-Stage Up Up _ _
            (then_next-Stage Up Up _ _ (check-Stage Up D.enable_participant s h l)
              (check-Stage Up D.enable_subscriber))
            (check-Stage Up D.enable_publisher))
          (check-Stage Up D.graph_enable)

    -- The context once its names and its library are known.
    abbrev named : Text → Text → Text → Context → Context
    named name namespace lib s = record s {
      localhost_only = local;
      qos_ctx_namespace = namespace;
      qos_ctx_name = name;
      qos_library = lib;
    }

    -- The stages from the participant factory on.
    abbrev stages : ℕ → Context → Ret × Context
    stages f s =
        adopt_factory D f (record s { factory = some f })
        then_next create_entities D
        then_next (λ t. enable_entities D (record t { node_count = 1 }))

    stages-Stage :
        (f : ℕ) (s : Context) → IsEmpty s → s.localhost_only ≡ local → Stage Up (stages f s)
    stages-Stage f s E l =
        then_next-Stage (Holds true true true) Up _ _
          (then_next-Stage (Holds false false false) (Holds true true true) _ _
            (adopt_factory-Stage f (record s { factory = some f })
              (E.participant, E.dds_pub, E.dds_sub) l)
            create_entities-Stage)
          (λ t p m. enable_entities-Stage (record t { node_count = 1 }) (p, refl) m)

    initialize_dds-none :
        (s : Context) → D.participant_factory ≡ none → initialize_dds D s ≡ (Ret.error, s)
    unfolding initialize_dds
    initialize_dds-none s e = rw e refl

    initialize_dds-some :
        (f : ℕ) (s : Context) → D.participant_factory ≡ some f → initialize_dds D s ≡ stages f s
    unfolding initialize_dds
    initialize_dds-some f s e = rw e refl

    initialize_dds-Stage :
        (s : Context) → IsEmpty s → s.localhost_only ≡ local → Stage Up (initialize_dds D s)
    initialize_dds-Stage s E l = elim (Option-cases D.participant_factory) [
      | inl n ↦ rw (initialize_dds-none s n) (inr (refl, E, l))
      | inr (f, y) ↦ rw (initialize_dds-some f s y) (stages-Stage f s E l)
    ]

    initialize_first-none :
        (name namespace : Text) (s : Context)
        → D.environment ≡ none
        → initialize_first D name namespace local s
          ≡ (Ret.error, named name namespace s.qos_library s)
    unfolding initialize_first
    initialize_first-none name namespace s e = rw e refl

    initialize_first-some :
        (lib name namespace : Text) (s : Context)
        → D.environment ≡ some lib
        → initialize_first D name namespace local s ≡ initialize_dds D (named name namespace lib s)
    unfolding initialize_first
    initialize_first-some lib name namespace s e = rw e refl

    pub initialize_first-Stage :
        (name namespace : Text) (s : Context)
        → IsEmpty s
        → Stage Up (initialize_first D name namespace local s)
    initialize_first-Stage name namespace s E =
        let empty : (lib : Text) → IsEmpty (named name namespace lib s) =
          λ lib. record { participant = E.participant; dds_pub = E.dds_pub; dds_sub = E.dds_sub } in
        elim (Option-cases D.environment) [
          | inl n ↦
              rw (initialize_first-none name namespace s n) (inr (refl, empty s.qos_library, refl))
          | inr (lib, y) ↦
              rw (initialize_first-some lib name namespace s y)
                (initialize_dds-Stage (named name namespace lib s) (empty lib) refl)
        ]

pub initialize_node_zero :
    (D : Calls) (name namespace : Text) (local : Bool) (s : Context)
    → s.node_count ≡ 0
    → initialize_node D name namespace local s ≡ initialize_first D name namespace local s
unfolding initialize_node
initialize_node_zero D name namespace local s z = rw z refl

-- The first node of an empty context either brings all of DDS up, and then the context has one node,
-- or the call fails and no entity is held, provided that DDS releases what it is asked to.
pub initialize_node-first :
    (D : Calls) (name namespace : Text) (local : Bool) (s : Context)
    → Releases D
    → s.node_count ≡ 0
    → IsEmpty s
    → (((initialize_node D name namespace local s).0 ≡ Ret.ok)
        × IsRunning (initialize_node D name namespace local s).1
        × ((initialize_node D name namespace local s).1.node_count ≡ 1))
      ⊎ (((initialize_node D name namespace local s).0 ≡ Ret.error)
          × IsEmpty (initialize_node D name namespace local s).1)
initialize_node-first D name namespace local s R z E =
    rw (initialize_node_zero D name namespace local s z)
      (elim (initialize_first-Stage local D R name namespace s E) [
        | inl (o, ((p, q, r), n), l) ↦
            inl (o, record { participant = p; dds_pub = q; dds_sub = r }, n)
        | inr (e, X, l) ↦ inr (e, X)
      ])
