-- ===== src/Qos/Policies.antt =====
-- The QoS policies on both sides of the conversion: rmw_qos_profile_t, and the DDS policies that
-- the helpers of rmw_connextdds_common/src/common/rmw_impl.cpp read and write.
-- A DDS_Long stands as its bit pattern, below 2 ^ 32.
use rmw_connextdds.Prelude.{ℕ, ◌+◌, ◌-◌, ◌%◌, ◌^◌, ◌==◌, ltb, ◌||◌, Bool, if◌then◌else◌, Option}
use rmw_connextdds.Ret.{Ret}

-- The kinds of a profile; `unknown` stands for every other value of the enumeration.
pub data RosHistory : Type 0 where
  system_default keep_last keep_all unknown : RosHistory

pub data RosReliability : Type 0 where
  system_default reliable best_effort unknown : RosReliability

pub data RosDurability : Type 0 where
  system_default transient_local volatile unknown : RosDurability

pub data RosLiveliness : Type 0 where
  system_default automatic manual_by_topic unknown : RosLiveliness

-- rmw_time_t: both numbers have 64 bits.
pub record RosTime : Type 0 where
  pub sec : ℕ
  pub nsec : ℕ

pub record Profile : Type 0 where
  pub history : RosHistory
  pub depth : ℕ
  pub reliability : RosReliability
  pub durability : RosDurability
  pub deadline : RosTime
  pub lifespan : RosTime
  pub liveliness : RosLiveliness
  pub liveliness_lease_duration : RosTime

-- The kinds of DDS; `other` stands for every other value of the enumeration.
pub data DdsHistory : Type 0 where
  keep_last keep_all other : DdsHistory

pub data DdsReliability : Type 0 where
  reliable best_effort other : DdsReliability

pub data DdsDurability : Type 0 where
  volatile transient_local other : DdsDurability

pub data DdsLiveliness : Type 0 where
  automatic manual_by_topic other : DdsLiveliness

pub record Duration : Type 0 where
  pub sec : ℕ
  pub nanosec : ℕ

-- The policies that the helpers are given pointers to; `lifespan` may be a null pointer.
pub record Policies : Type 0 where
  pub history : DdsHistory
  pub depth : ℕ
  pub reliability : DdsReliability
  pub max_blocking_time : Duration
  pub durability : DdsDurability
  pub deadline : Duration
  pub liveliness : DdsLiveliness
  pub lease_duration : Duration
  pub lifespan : Option Duration
  pub max_samples_per_instance : ℕ
  pub max_samples : ℕ

-- DDS_DURATION_INFINITE, DDS_LENGTH_UNLIMITED and RMW_QOS_POLICY_DEPTH_SYSTEM_DEFAULT.
pub record Constants : Type 0 where
  pub duration_infinite : Duration
  pub length_unlimited : ℕ
  pub depth_system_default : ℕ

-- `a < b` on DDS_Long.
abbrev pub long_ltb : ℕ → ℕ → Bool
long_ltb a b = ltb ((a + 2 ^ 31) % 2 ^ 32) ((b + 2 ^ 31) % 2 ^ 32)

-- The casts to DDS_Long and DDS_UnsignedLong.
abbrev pub cast : RosTime → Duration
cast t = record { sec = t.sec % 2 ^ 32; nanosec = t.nsec % 2 ^ 32 }

-- The cast back extends the sign.
abbrev pub extend : Duration → RosTime
extend d = record {
  sec = (if ltb d.sec (2 ^ 31) then d.sec else d.sec + (2 ^ 64 - 2 ^ 32));
  nsec = d.nanosec;
}

-- `sec != 0 || nsec != 0`
abbrev pub is_set : RosTime → Bool
is_set t = (if t.sec == 0 then (if t.nsec == 0 then Bool.false else Bool.true) else Bool.true)

-- The duration is written only where it fits.
unfoldable pub duration_from_ros_time : Duration → RosTime → Ret × Duration
duration_from_ros_time duration ros_time =
    if ltb (2 ^ 31 - 1) ros_time.sec || ltb (2 ^ 32 - 1) ros_time.nsec
    then (Ret.error, duration)
    else (Ret.ok, cast ros_time)
