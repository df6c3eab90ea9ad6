-- ===== src/Qos/RoundTrip.antt =====
-- The round trip of a profile through the policies of a writer.
use rmw_connextdds.Prelude.{
  ◌≡◌, ◌⊎◌, inl, inr, ◌<◌, refl, sym, Bool-cases, ◌==◌, ◌&&◌, true, false, some, arith,
}
use rmw_connextdds.Ret.{Ret}
use rmw_connextdds.Qos.Policies.{
  RosReliability, RosDurability, RosLiveliness, Profile, DdsHistory, DdsReliability, DdsDurability,
  DdsLiveliness, Duration, Policies, Constants, long_ltb, cast,
}
use rmw_connextdds.Qos.Convert.{
  set_history, set_reliability, set_durability, set_deadline, set_liveliness, set_lifespan,
  is_keep_last, adjust_limits, get_readerwriter_qos, history_to_ros, reliability_to_ros,
  durability_to_ros, liveliness_to_ros, lifespan_to_ros, readerwriter_qos_to_ros,
  datawriter_qos_to_ros,
}
use rmw_connextdds.Qos.Laws.{specified, IsExplicit}

abbrev dds_reliability : RosReliability → DdsReliability
dds_reliability RosReliability.reliable = DdsReliability.reliable
dds_reliability RosReliability.best_effort = DdsReliability.best_effort
dds_reliability _ = DdsReliability.other

abbrev dds_durability : RosDurability → DdsDurability
dds_durability RosDurability.volatile = DdsDurability.volatile
dds_durability RosDurability.transient_local = DdsDurability.transient_local
dds_durability _ = DdsDurability.other

abbrev dds_liveliness : RosLiveliness → DdsLiveliness
dds_liveliness RosLiveliness.automatic = DdsLiveliness.automatic
dds_liveliness RosLiveliness.manual_by_topic = DdsLiveliness.manual_by_topic
dds_liveliness _ = DdsLiveliness.other

module _ (K : Constants) (q : Profile) (X : IsExplicit K q) where
  -- The policies that an explicit profile stands for, before the limits are adjusted.
  abbrev policies_of : Policies → Policies
  policies_of d = record d {
    history = DdsHistory.keep_last;
    depth = q.depth;
    reliability = dds_reliability q.reliability;
    max_blocking_time = K.duration_infinite;
    durability = dds_durability q.durability;
    deadline = cast q.deadline;
    liveliness = dds_liveliness q.liveliness;
    lease_duration = cast q.liveliness_lease_duration;
    lifespan = some (cast q.lifespan);
  }

  set_history_eq :
      (d : Policies)
      → set_history K q d ≡ (Ret.ok, record d { depth = q.depth; history = DdsHistory.keep_last })
  unfolding set_history
  set_history_eq d = rw (X.history) (ground (arith, X.depth))

  set_reliability_eq :
      (d : Policies)
      → set_reliability K q d ≡ (
        Ret.ok,
        record d {
          max_blocking_time = K.duration_infinite;
          reliability = dds_reliability q.reliability;
        },
      )
  unfolding set_reliability
  set_reliability_eq d = elim X.reliability [ inl h ↦ rw h refl | inr h ↦ rw h refl ]

  set_durability_eq :
      (d : Policies)
      → set_durability K q d ≡ (Ret.ok, record d { durability = dds_durability q.durability })
  unfolding set_durability
  set_durability_eq d = elim X.durability [ inl h ↦ rw h refl | inr h ↦ rw h refl ]

  set_deadline_eq : (d : Policies) → set_deadline K q d ≡ record d { deadline = cast q.deadline }
  unfolding set_deadline
  set_deadline_eq d = rw ((specified q.deadline X.deadline).0) refl

  set_liveliness_eq :
      (d : Policies)
      → set_liveliness K q d ≡ (
        Ret.ok,
        record d {
          lease_duration = cast q.liveliness_lease_duration;
          liveliness = dds_liveliness q.liveliness;
        },
      )
  unfolding set_liveliness
  set_liveliness_eq d = elim X.liveliness [
    | inl h ↦ rw (h, (specified q.liveliness_lease_duration X.liveliness_lease_duration).0) refl
    | inr h ↦ rw (h, (specified q.liveliness_lease_duration X.liveliness_lease_duration).0) refl
  ]

  set_lifespan_eq :
      (d : Policies) (old : Duration)
      → d.lifespan ≡ some old
      → set_lifespan K q d ≡ record d { lifespan = some (cast q.lifespan) }
  unfolding set_lifespan
  set_lifespan_eq d old l = rw (l, (specified q.lifespan X.lifespan).0) refl

  get_readerwriter_qos_eq :
      (d : Policies) (old : Duration)
      → d.lifespan ≡ some old
      → get_readerwriter_qos K q d ≡ (Ret.ok, adjust_limits K (policies_of d))
  unfolding get_readerwriter_qos
  get_readerwriter_qos_eq d old l =
      rw
        (
          set_history_eq,
          set_reliability_eq,
          set_durability_eq,
          set_deadline_eq,
          set_liveliness_eq,
          set_lifespan_eq (record (policies_of d) { lifespan = d.lifespan }) old l,
        )
        refl

-- Adjusting the limits changes nothing that is read back.
datawriter_qos_to_ros-adjust_limits :
    (K : Constants) (d : Policies) (q : Profile)
    → datawriter_qos_to_ros (adjust_limits K d) q ≡ datawriter_qos_to_ros d q
unfolding adjust_limits datawriter_qos_to_ros readerwriter_qos_to_ros history_to_ros
    reliability_to_ros durability_to_ros liveliness_to_ros
datawriter_qos_to_ros-adjust_limits K d q =
    elim (Bool-cases (
      (is_keep_last K d.history && long_ltb 1 d.depth)
      && (d.max_samples_per_instance == K.length_unlimited))) [
        | inl e ↦ rw e refl
        | inr e ↦ rw e refl
      ]

module _ (K : Constants) (q before : Profile) (X : IsExplicit K q) where
  reliability_eq :
      (d : Policies) (p : Profile)
      → reliability_to_ros (policies_of K q X d) p
        ≡ (Ret.ok, record p { reliability = q.reliability })
  unfolding reliability_to_ros
  reliability_eq d p = elim X.reliability [ inl h ↦ rw h refl | inr h ↦ rw h refl ]

  durability_eq :
      (d : Policies) (p : Profile)
      → durability_to_ros (policies_of K q X d) p ≡ (Ret.ok, record p { durability = q.durability })
  unfolding durability_to_ros
  durability_eq d p = elim X.durability [ inl h ↦ rw h refl | inr h ↦ rw h refl ]

  liveliness_eq :
      (d : Policies) (p : Profile)
      → liveliness_to_ros (policies_of K q X d) p ≡ (
        Ret.ok,
        record p {
          deadline = q.deadline;
          liveliness_lease_duration = q.liveliness_lease_duration;
          liveliness = q.liveliness;
        },
      )
  unfolding liveliness_to_ros
  liveliness_eq d p = elim X.liveliness [
    | inl h ↦
        rw
          (
            h,
            (specified q.deadline X.deadline).1,
            (specified q.liveliness_lease_duration X.liveliness_lease_duration).1,
          )
          refl
    | inr h ↦
        rw
          (
            h,
            (specified q.deadline X.deadline).1,
            (specified q.liveliness_lease_duration X.liveliness_lease_duration).1,
          )
          refl
  ]

  datawriter_qos_to_ros_eq :
      (d : Policies) → datawriter_qos_to_ros (policies_of K q X d) before ≡ (Ret.ok, q)
  unfolding history_to_ros lifespan_to_ros readerwriter_qos_to_ros datawriter_qos_to_ros
  datawriter_qos_to_ros_eq d =
      rw
        (
          reliability_eq d,
          durability_eq d,
          liveliness_eq d,
          (specified q.lifespan X.lifespan).1,
          sym X.history,
        )
        refl

  -- A profile that is explicit, with a history of the last samples, comes back from the policies of
  -- a writer, which have a lifespan, as it went in, whatever the policies and the profile held before.
  pub datawriter_qos_to_ros-get_readerwriter_qos :
      (d : Policies) (old : Duration)
      → d.lifespan ≡ some old
      → datawriter_qos_to_ros (get_readerwriter_qos K q d).1 before ≡ (Ret.ok, q)
  datawriter_qos_to_ros-get_readerwriter_qos d old l =
      rw
        (
          get_readerwriter_qos_eq K q X d old l,
          datawriter_qos_to_ros-adjust_limits K (policies_of K q X d) before,
        )
        (datawriter_qos_to_ros_eq d)

module _ (K : Constants) where
  adjusted :
      (d : Policies)
      → d.history ≡ DdsHistory.keep_last
      → long_ltb 1 d.depth ≡ true
      → d.max_samples_per_instance ≡ K.length_unlimited
      → ((adjust_limits K d).depth ≡ d.depth)
        × ((adjust_limits K d).max_samples_per_instance ≡ d.depth)
        × (((adjust_limits K d).max_samples ≡ K.length_unlimited)
            ⊎ (long_ltb (adjust_limits K d).max_samples d.depth ≡ false))
  unfolding adjust_limits
  adjusted d h l u = rw (h, l, u) (ground arith)

  -- For an explicit profile with a history of more than one sample, and a writer's policies whose
  -- limit per instance was not set, the history and the limit per instance become the profile's depth, and
  -- the total limit is none or at least that depth.
  pub get_readerwriter_qos-limits :
      (q : Profile) (d : Policies) (old : Duration)
      → IsExplicit K q
      → d.lifespan ≡ some old
      → 1 < q.depth
      → d.max_samples_per_instance ≡ K.length_unlimited
      → ((get_readerwriter_qos K q d).1.depth ≡ q.depth)
        × ((get_readerwriter_qos K q d).1.max_samples_per_instance ≡ q.depth)
        × (((get_readerwriter_qos K q d).1.max_samples ≡ K.length_unlimited)
            ⊎ (long_ltb (get_readerwriter_qos K q d).1.max_samples q.depth ≡ false))
  get_readerwriter_qos-limits q d old X l h u =
      rw (get_readerwriter_qos_eq K q X d old l)
        (adjusted (policies_of K q X d) refl (ground (arith, X.depth)) u)
