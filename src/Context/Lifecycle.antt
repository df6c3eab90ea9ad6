-- ===== src/Context/Lifecycle.antt =====
-- How a context's life starts and ends, as nodes come and go.
use rmw_connextdds.Prelude.{
  ℕ, suc, zero, ◌≡◌, ◌≢◌, ◌<◌, inl, inr, refl, arith, ◌+◌, ◌%◌, ◌^◌, Bool, true, false, Bool-cases,
  Option-cases, ◌&&◌,
}
use rmw_connextdds.Ret.{Ret}
use rmw_connextdds.Context.State.{
  Calls, Context, is_set, clean_up, release_publisher, release_subscriber, release_participant,
  release_factory, next_client_id,
}

-- The calls of DDS that release something succeed.
pub record Releases (D : Calls) : Type 0 where
  pub graph_finalize : D.graph_finalize ≡ true
  pub delete_publisher_entities : D.delete_publisher_entities ≡ true
  pub delete_publisher : D.delete_publisher ≡ true
  pub delete_subscriber_entities : D.delete_subscriber_entities ≡ true
  pub delete_subscriber : D.delete_subscriber ≡ true
  pub delete_participant_entities : D.delete_participant_entities ≡ true
  pub delete_participant : D.delete_participant ≡ true
  pub finalize_participant_factory : D.finalize_participant_factory ≡ true
  pub finalize_instance : D.finalize_instance ≡ true

-- No entity of DDS is held.
pub record IsEmpty (s : Context) : Type 0 where
  pub participant : s.participant ≡ false
  pub dds_pub : s.dds_pub ≡ false
  pub dds_sub : s.dds_sub ≡ false

-- All are held.
pub record IsRunning (s : Context) : Type 0 where
  pub participant : s.participant ≡ true
  pub dds_pub : s.dds_pub ≡ true
  pub dds_sub : s.dds_sub ≡ true

-- A release that worked: no entity is held, and the count of nodes is as before.
pub record IsCleaned (s : Context) (r : Ret × Context) : Type 0 where
  pub succeeds : r.0 ≡ Ret.ok
  pub empty : IsEmpty r.1
  pub node_count : r.1.node_count ≡ s.node_count
  pub localhost_only : r.1.localhost_only ≡ s.localhost_only

module _ (D : Calls) (R : Releases D) where
  release_publisher_eq :
      (s : Context) → release_publisher D s ≡ (Ret.ok, record s { dds_pub = false })
  unfolding release_publisher
  release_publisher_eq s = elim (Bool-cases s.dds_pub) [
    | inl e ↦ rw (e, R.delete_publisher_entities, R.delete_publisher) refl
    | inr e ↦ rw e refl
  ]

  release_subscriber_eq :
      (s : Context) → release_subscriber D s ≡ (Ret.ok, record s { dds_sub = false })
  unfolding release_subscriber
  release_subscriber_eq s = elim (Bool-cases s.dds_sub) [
    | inl e ↦ rw (e, R.delete_subscriber_entities, R.delete_subscriber) refl
    | inr e ↦ rw e refl
  ]

  release_participant_eq :
      (s : Context) → release_participant D s ≡ (Ret.ok, record s { participant = false })
  unfolding release_participant
  release_participant_eq s = elim (Bool-cases s.participant) [
    | inl e ↦ rw (e, R.delete_participant_entities, R.delete_participant) refl
    | inr e ↦ rw e refl
  ]

  -- What a release of everything leaves of the entities.
  abbrev released : Context → Context
  released s = record s { participant = false; dds_pub = false; dds_sub = false }

  release_factory-IsCleaned : (s : Context) → IsEmpty s → IsCleaned s (release_factory D s)
  unfolding release_factory
  release_factory-IsCleaned s E = elim (Option-cases s.gv_factory) [
    | inl n ↦ rw n (record {
      succeeds = refl;
      empty = record { participant = E.participant; dds_pub = E.dds_pub; dds_sub = E.dds_sub };
      node_count = refl;
      localhost_only = refl;
    })
    | inr (f, y) ↦ elim (Bool-cases D.outstanding_participants) [
      | inl o ↦
          rw (y, R.finalize_participant_factory, o)
            (record {
              succeeds = refl;
              empty = record {
                participant = E.participant;
                dds_pub = E.dds_pub;
                dds_sub = E.dds_sub;
              };
              node_count = refl;
              localhost_only = refl;
            })
      | inr o ↦
          rw (y, R.finalize_participant_factory, o, R.finalize_instance)
            (record {
              succeeds = refl;
              empty = record {
                participant = E.participant;
                dds_pub = E.dds_pub;
                dds_sub = E.dds_sub;
              };
              node_count = refl;
              localhost_only = refl;
            })
    ]
  ]

  -- Where DDS releases what it is asked to, releasing the context, with the factory or without,
  -- succeeds and leaves no entity held; the count of its nodes stays.
  pub clean_up-IsCleaned : (b : Bool) (s : Context) → IsCleaned s (clean_up D b s)
  unfolding clean_up release_publisher release_subscriber release_participant release_factory
  clean_up-IsCleaned b s =
      let E : IsEmpty (released s) = record {
        participant = refl;
        dds_pub = refl;
        dds_sub = refl;
      } in
      elim (Bool-cases (b && is_set D s.factory)) [
        | inl e ↦
            rw
              (
                R.graph_finalize, release_publisher_eq, release_subscriber_eq,
                release_participant_eq, e,
              )
              (let X = release_factory-IsCleaned (released s) E in
                record {
                  succeeds = X.succeeds;
                  empty = X.empty;
                  node_count = X.node_count;
                  localhost_only = X.localhost_only;
                })
        | inr e ↦
            rw
              (
                R.graph_finalize, release_publisher_eq, release_subscriber_eq,
                release_participant_eq, e,
              )
              (record { succeeds = refl; empty = E; node_count = refl; localhost_only = refl })
      ]

-- The identifiers that `n` calls give out before this one.
abbrev pub after_calls : ℕ → Context → Context
after_calls zero s = s
after_calls (suc n) s = (next_client_id (after_calls n s)).1

after_calls-id :
    (n : ℕ) (s : Context)
    → s.client_service_id < 2 ^ 32
    → (after_calls n s).client_service_id ≡ (s.client_service_id + n) % 2 ^ 32
unfolding next_client_id
after_calls-id zero s h = omega arith
after_calls-id (suc n) s h = rw (after_calls-id n s h) (omega arith)

-- The identifiers that two calls give out differ, where fewer than 2 ^ 32 calls lie between them.
pub next_client_id-distinct :
    (n m : ℕ) (s : Context)
    → s.client_service_id < 2 ^ 32
    → n < m
    → m < n + 2 ^ 32
    → (next_client_id (after_calls n s)).0 ≢ (next_client_id (after_calls m s)).0
unfolding next_client_id
next_client_id-distinct n m s h l k e =
    absurd (omega (arith, after_calls-id n s h, after_calls-id m s h, e))
