-- ===== src/Qos/Laws.antt =====
-- What the conversions of Qos/Convert.antt guarantee.
use rmw_connextdds.Prelude.{◌^◌, ◌≡◌, ◌≢◌, ◌↔◌, ◌⊎◌, ◌<◌, ◌≤◌, refl, true, arith}
use rmw_connextdds.Ret.{Ret}
use rmw_connextdds.Qos.Policies.{
  RosHistory, RosReliability, RosDurability, RosLiveliness, RosTime, Profile, Duration, Policies,
  Constants, cast, extend, is_set, duration_from_ros_time,
}
use rmw_connextdds.Qos.Convert.{
  ◌then_do◌, set_history, set_reliability, set_durability, set_deadline, set_liveliness,
  set_lifespan, adjust_limits, get_readerwriter_qos,
}

-- A duration is converted exactly when the DDS type can hold it, and then as it is; otherwise what
-- was there before is kept and the call fails.
pub duration_from_ros_time_lem :
    (old : Duration) (t : RosTime)
    → (t.sec < 2 ^ 31
        → t.nsec < 2 ^ 32
        → duration_from_ros_time old t ≡ (Ret.ok, record { sec = t.sec; nanosec = t.nsec }))
      × ((2 ^ 31 ≤ t.sec) ⊎ (2 ^ 32 ≤ t.nsec) → duration_from_ros_time old t ≡ (Ret.error, old))
unfolding duration_from_ros_time
duration_from_ros_time_lem old t = (λ h k. ground arith, λ h. ground arith)

-- A time that a DDS duration holds and that is not taken for "unspecified".
abbrev pub IsSpecified : RosTime → Type 0
IsSpecified t = ((0 < t.sec) ⊎ (0 < t.nsec)) × (t.sec < 2 ^ 31) × (t.nsec < 2 ^ 32)

pub specified : (t : RosTime) → IsSpecified t → (is_set t ≡ true) × (extend (cast t) ≡ t)
specified t (s, a, b) = (ground arith, ground arith)

-- A profile that leaves nothing to the system's default and can be expressed in DDS.
pub record IsExplicit (K : Constants) (q : Profile) : Type 0 where
  pub history : q.history ≡ RosHistory.keep_last
  pub depth : (q.depth ≢ K.depth_system_default) × (0 < q.depth) × (q.depth < 2 ^ 31)
  pub reliability :
      (q.reliability ≡ RosReliability.reliable) ⊎ (q.reliability ≡ RosReliability.best_effort)
  pub durability :
      (q.durability ≡ RosDurability.volatile) ⊎ (q.durability ≡ RosDurability.transient_local)
  pub liveliness :
      (q.liveliness ≡ RosLiveliness.automatic) ⊎ (q.liveliness ≡ RosLiveliness.manual_by_topic)
  pub deadline : IsSpecified q.deadline
  pub lifespan : IsSpecified q.lifespan
  pub liveliness_lease_duration : IsSpecified q.liveliness_lease_duration

-- When the helper accepts a profile.
pub record IsSupported (K : Constants) (q : Profile) : Type 0 where
  pub history : q.history ≢ RosHistory.unknown
  pub depth :
      q.history ≡ RosHistory.keep_last
      → (q.depth ≡ K.depth_system_default) ⊎ ((0 < q.depth) × (q.depth < 2 ^ 31))
  pub reliability : q.reliability ≢ RosReliability.unknown
  pub durability : q.durability ≢ RosDurability.unknown
  pub liveliness : q.liveliness ≢ RosLiveliness.unknown

then_do_ok :
    {A : Type 0} (r : Ret × A) (f : A → Ret × A)
    → ((r then_do f).0 ≡ Ret.ok) ↔ ((r.0 ≡ Ret.ok) × ((f r.1).0 ≡ Ret.ok))
then_do_ok (Ret.ok, a) f = ground arith
then_do_ok (Ret.error, a) f = ground arith
then_do_ok (Ret.timeout, a) f = ground arith
then_do_ok (Ret.bad_alloc, a) f = ground arith
then_do_ok (Ret.invalid_argument, a) f = ground arith
then_do_ok (Ret.incorrect_rmw_implementation, a) f = ground arith
then_do_ok (Ret.unsupported, a) f = ground arith

module _ (K : Constants) where
  set_history_ok :
      (q : Profile) (d : Policies)
      → ((set_history K q d).0 ≡ Ret.ok) ↔ (
          (q.history ≢ RosHistory.unknown)
          × (q.history ≡ RosHistory.keep_last
              → (q.depth ≡ K.depth_system_default) ⊎ ((0 < q.depth) × (q.depth < 2 ^ 31))))
  unfolding set_history
  set_history_ok q d = ground arith

  set_reliability_ok :
      (q : Profile) (d : Policies)
      → ((set_reliability K q d).0 ≡ Ret.ok) ↔ (q.reliability ≢ RosReliability.unknown)
  unfolding set_reliability
  set_reliability_ok q d = ground arith

  set_durability_ok :
      (q : Profile) (d : Policies)
      → ((set_durability K q d).0 ≡ Ret.ok) ↔ (q.durability ≢ RosDurability.unknown)
  unfolding set_durability
  set_durability_ok q d = ground arith

  set_liveliness_ok :
      (q : Profile) (d : Policies)
      → ((set_liveliness K q d).0 ≡ Ret.ok) ↔ (q.liveliness ≢ RosLiveliness.unknown)
  unfolding set_liveliness
  set_liveliness_ok q d = ground arith

  -- The conversion to DDS policies succeeds exactly for the profiles that name no unknown kind and
  -- no history depth that DDS cannot hold.
  pub get_readerwriter_qos_ok :
      (q : Profile) (d : Policies) → ((get_readerwriter_qos K q d).0 ≡ Ret.ok) ↔ IsSupported K q
  unfolding get_readerwriter_qos
  get_readerwriter_qos_ok q d =
      let r1 = set_history K q d in
      let r2 = r1 then_do set_reliability K q in
      let r3 = r2 then_do set_durability K q in
      let g : Policies → Ret × Policies = λ d1. set_liveliness K q (set_deadline K q d1) in
      let r4 = r3 then_do g in
      let f : Policies → Ret × Policies = λ d2. (Ret.ok, adjust_limits K (set_lifespan K q d2)) in
      let (o5, i5) = then_do_ok r4 f in
      let (o4, i4) = then_do_ok r3 g in
      let (o3, i3) = then_do_ok r2 (set_durability K q) in
      let (o2, i2) = then_do_ok r1 (set_reliability K q) in
      let (o1, i1) = set_history_ok q d in
      let (a2, b2) = set_reliability_ok q r1.1 in
      let (a3, b3) = set_durability_ok q r2.1 in
      let (a4, b4) = set_liveliness_ok q (set_deadline K q r3.1) in
      (
        λ h.
            let h4 = (o5 h).0 in
            let h3 = (o4 h4).0 in
            let h2 = (o3 h3).0 in
            record {
              history = (o1 (o2 h2).0).0;
              depth = (o1 (o2 h2).0).1;
              reliability = a2 (o2 h2).1;
              durability = a3 (o3 h3).1;
              liveliness = a4 (o4 h4).1;
            },
        λ X. i5 (
          i4 (
            i3 (i2 (i1 (X.history, X.depth), b2 X.reliability), b3 X.durability),
            b4 X.liveliness,
          ),
          refl,
        ),
      )
