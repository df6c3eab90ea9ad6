-- ===== src/Qos/Convert.antt =====
-- rmw_connextdds_get_readerwriter_qos, rmw_connextdds_readerwriter_qos_to_ros and the two that call
-- it, of rmw_connextdds_common/src/common/rmw_impl.cpp, as the build for Connext Professional has
-- them (RMW_CONNEXT_HAVE_LIFESPAN_QOS, RMW_CONNEXT_DDS_API_PRO).
-- An early return leaves the policies that were written before it as they then are.
use rmw_connextdds.Prelude.{
  ◌-◌, ◌^◌, ◌==◌, ltb, ◌||◌, ◌&&◌, not, Bool, true, false, if◌then◌else◌, Option, none, some,
}
use rmw_connextdds.Ret.{Ret}
use rmw_connextdds.Qos.Policies.{
  RosHistory, RosReliability, RosDurability, RosLiveliness, Profile, DdsHistory, DdsReliability,
  DdsDurability, DdsLiveliness, Duration, Policies, Constants, long_ltb, cast, extend, is_set,
}

-- The statements that follow, unless an early return came first.
infixl 5 ◌then_do◌
abbrev pub ◌then_do◌ {ℓ} : {A : Type ℓ} → Ret × A → (A → Ret × A) → Ret × A
(Ret.ok, a) then_do f = f a
(rc, a) then_do f = (rc, a)

module _ (K : Constants) where
  unfoldable pub set_history : Profile → Policies → Ret × Policies
  set_history q d = elim q.history [
    | RosHistory.system_default ↦ (Ret.ok, d)
    | RosHistory.keep_last ↦
        if q.depth == K.depth_system_default
        then (Ret.ok, record d { depth = 1; history = DdsHistory.keep_last })
        else (if ltb q.depth 1 || ltb (2 ^ 31 - 1) q.depth
            then (Ret.error, d)
            else (Ret.ok, record d { depth = q.depth; history = DdsHistory.keep_last }))
    | RosHistory.keep_all ↦ (Ret.ok, record d { history = DdsHistory.keep_all })
    | RosHistory.unknown ↦ (Ret.error, d)
  ]

  unfoldable pub set_reliability : Profile → Policies → Ret × Policies
  set_reliability q d =
      let d' : Policies = record d { max_blocking_time = K.duration_infinite } in
      elim q.reliability [
        | RosReliability.system_default ↦ (Ret.ok, d')
        | RosReliability.reliable ↦ (Ret.ok, record d' { reliability = DdsReliability.reliable })
        | RosReliability.best_effort ↦
            (Ret.ok, record d' { reliability = DdsReliability.best_effort })
        | RosReliability.unknown ↦ (Ret.error, d')
      ]

  unfoldable pub set_durability : Profile → Policies → Ret × Policies
  set_durability q d = elim q.durability [
    | RosDurability.system_default ↦ (Ret.ok, d)
    | RosDurability.volatile ↦ (Ret.ok, record d { durability = DdsDurability.volatile })
    | RosDurability.transient_local ↦
        (Ret.ok, record d { durability = DdsDurability.transient_local })
    | RosDurability.unknown ↦ (Ret.error, d)
  ]

  unfoldable pub set_deadline : Profile → Policies → Policies
  set_deadline q d = if is_set q.deadline then record d { deadline = cast q.deadline } else d

  unfoldable pub set_liveliness : Profile → Policies → Ret × Policies
  set_liveliness q d =
      let d' : Policies =
        (if is_set q.liveliness_lease_duration
          then record d { lease_duration = cast q.liveliness_lease_duration }
          else d) in
      elim q.liveliness [
        | RosLiveliness.system_default ↦ (Ret.ok, d')
        | RosLiveliness.automatic ↦ (Ret.ok, record d' { liveliness = DdsLiveliness.automatic })
        | RosLiveliness.manual_by_topic ↦
            (Ret.ok, record d' { liveliness = DdsLiveliness.manual_by_topic })
        | RosLiveliness.unknown ↦ (Ret.error, d')
      ]

  unfoldable pub set_lifespan : Profile → Policies → Policies
  set_lifespan q d = elim d.lifespan [
    | none ↦ d
    | some old ↦ if is_set q.lifespan then record d { lifespan = some (cast q.lifespan) } else d
  ]

  abbrev pub is_keep_last : DdsHistory → Bool
  is_keep_last DdsHistory.keep_last = true
  is_keep_last _ = false

  -- "Make sure that resource limits are consistent with history qos".
  unfoldable pub adjust_limits : Policies → Policies
  adjust_limits d =
      if (is_keep_last d.history && long_ltb 1 d.depth)
        && (d.max_samples_per_instance == K.length_unlimited)
      then record d {
        max_samples_per_instance = d.depth;
        max_samples =
            (if not (d.max_samples == K.length_unlimited) && long_ltb d.max_samples d.depth
              then d.depth
              else d.max_samples);
      }
      else d

  unfoldable pub get_readerwriter_qos : Profile → Policies → Ret × Policies
  get_readerwriter_qos q d =
      set_history q d
      then_do set_reliability q
      then_do set_durability q
      then_do (λ d1. set_liveliness q (set_deadline q d1))
      then_do (λ d2. (Ret.ok, adjust_limits (set_lifespan q d2)))

-- Back to a profile. The pointer to the history may be null, which `has_history` tells.
unfoldable pub history_to_ros : Bool → Policies → Profile → Ret × Profile
history_to_ros false d q = (Ret.ok, q)
history_to_ros true d q = elim d.history [
  | DdsHistory.keep_last ↦ (Ret.ok, record q { history = RosHistory.keep_last; depth = d.depth })
  | DdsHistory.keep_all ↦ (Ret.ok, record q { history = RosHistory.keep_all; depth = d.depth })
  | DdsHistory.other ↦ (Ret.error, q)
]

unfoldable pub reliability_to_ros : Policies → Profile → Ret × Profile
reliability_to_ros d q = elim d.reliability [
  | DdsReliability.reliable ↦ (Ret.ok, record q { reliability = RosReliability.reliable })
  | DdsReliability.best_effort ↦ (Ret.ok, record q { reliability = RosReliability.best_effort })
  | DdsReliability.other ↦ (Ret.error, q)
]

unfoldable pub durability_to_ros : Policies → Profile → Ret × Profile
durability_to_ros d q = elim d.durability [
  | DdsDurability.volatile ↦ (Ret.ok, record q { durability = RosDurability.volatile })
  | DdsDurability.transient_local ↦
      (Ret.ok, record q { durability = RosDurability.transient_local })
  | DdsDurability.other ↦ (Ret.error, q)
]

-- The two durations are written before the kind is looked at.
unfoldable pub liveliness_to_ros : Policies → Profile → Ret × Profile
liveliness_to_ros d q =
    let q' : Profile = record q {
      deadline = extend d.deadline;
      liveliness_lease_duration = extend d.lease_duration;
    } in
    elim d.liveliness [
      | DdsLiveliness.automatic ↦ (Ret.ok, record q' { liveliness = RosLiveliness.automatic })
      | DdsLiveliness.manual_by_topic ↦
          (Ret.ok, record q' { liveliness = RosLiveliness.manual_by_topic })
      | DdsLiveliness.other ↦ (Ret.error, q')
    ]

unfoldable pub lifespan_to_ros : Option Duration → Profile → Profile
lifespan_to_ros lifespan q = elim lifespan [
  | none ↦ q
  | some duration ↦ record q { lifespan = extend duration }
]

unfoldable pub readerwriter_qos_to_ros : Bool → Policies → Option Duration → Profile → Ret × Profile
readerwriter_qos_to_ros has_history d lifespan q =
    history_to_ros has_history d q
    then_do reliability_to_ros d
    then_do durability_to_ros d
    then_do liveliness_to_ros d
    then_do (λ q1. (Ret.ok, lifespan_to_ros lifespan q1))

-- A writer's policies have a lifespan; a reader's do not.
unfoldable pub datawriter_qos_to_ros : Policies → Profile → Ret × Profile
datawriter_qos_to_ros d q = readerwriter_qos_to_ros true d d.lifespan q

unfoldable pub datareader_qos_to_ros : Policies → Profile → Ret × Profile
datareader_qos_to_ros d q = readerwriter_qos_to_ros true d none q
