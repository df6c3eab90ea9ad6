-- ===== src/Tests/Qos.antt =====
-- Quality of service at concrete inputs.
use rmw_connextdds.Prelude.{◌≡◌, ◌↔◌, ◌⊎◌, ◌^◌, ◌-◌, inl, refl, false, some, arith}
use rmw_connextdds.Ret.{Ret}
use rmw_connextdds.Names.Text.{codes}
use rmw_connextdds.Qos.Policies.{
  RosHistory, RosReliability, RosDurability, RosLiveliness, RosTime, Profile, DdsHistory,
  DdsReliability, DdsDurability, DdsLiveliness, Duration, Policies, Constants, long_ltb,
}
use rmw_connextdds.Qos.Convert.{get_readerwriter_qos, datawriter_qos_to_ros}
use rmw_connextdds.Qos.Laws.{IsExplicit, IsSupported, get_readerwriter_qos_ok}
use rmw_connextdds.Qos.RoundTrip.{
  datawriter_qos_to_ros-get_readerwriter_qos, get_readerwriter_qos-limits,
}
use rmw_connextdds.Qos.Profiles.{QosContext}

abbrev pub constants : Constants
constants = record {
  duration_infinite = record { sec = 2 ^ 31 - 1; nanosec = 2 ^ 32 - 1 };
  length_unlimited = 2 ^ 32 - 1;
  depth_system_default = 0;
}

abbrev one_second : RosTime
one_second = record { sec = 1; nsec = 0 }

abbrev pub profile : Profile
profile = record {
  history = RosHistory.keep_last;
  depth = 10;
  reliability = RosReliability.reliable;
  durability = RosDurability.volatile;
  deadline = one_second;
  lifespan = one_second;
  liveliness = RosLiveliness.automatic;
  liveliness_lease_duration = one_second;
}

abbrev no_time : Duration
no_time = record { sec = 0; nanosec = 0 }

abbrev pub policies : Policies
policies = record {
  history = DdsHistory.keep_all;
  depth = 1;
  reliability = DdsReliability.best_effort;
  max_blocking_time = no_time;
  durability = DdsDurability.transient_local;
  deadline = no_time;
  liveliness = DdsLiveliness.manual_by_topic;
  lease_duration = no_time;
  lifespan = some no_time;
  max_samples_per_instance = 2 ^ 32 - 1;
  max_samples = 4;
}

profile-IsExplicit : IsExplicit constants profile
profile-IsExplicit = record {
  history = refl;
  depth = (ground arith, omega arith, omega arith);
  reliability = inl refl;
  durability = inl refl;
  liveliness = inl refl;
  deadline = (inl (omega arith), omega arith, omega arith);
  lifespan = (inl (omega arith), omega arith, omega arith);
  liveliness_lease_duration = (inl (omega arith), omega arith, omega arith);
}

get_readerwriter_qos_ok_example :
    ((get_readerwriter_qos constants profile policies).0 ≡ Ret.ok) ↔ IsSupported constants profile
get_readerwriter_qos_ok_example = get_readerwriter_qos_ok constants profile policies

datawriter_qos_to_ros-get_readerwriter_qos_example :
    datawriter_qos_to_ros
      (get_readerwriter_qos constants profile policies).1
      (record profile { depth = 3; liveliness = RosLiveliness.unknown })
    ≡ (Ret.ok, profile)
datawriter_qos_to_ros-get_readerwriter_qos_example =
    datawriter_qos_to_ros-get_readerwriter_qos constants profile
      (record profile { depth = 3; liveliness = RosLiveliness.unknown }) profile-IsExplicit policies
      no_time refl

get_readerwriter_qos-limits_example :
    ((get_readerwriter_qos constants profile policies).1.depth ≡ 10)
    × ((get_readerwriter_qos constants profile policies).1.max_samples_per_instance ≡ 10)
    × (((get_readerwriter_qos constants profile policies).1.max_samples ≡ 2 ^ 32 - 1)
        ⊎ (long_ltb (get_readerwriter_qos constants profile policies).1.max_samples 10 ≡ false))
get_readerwriter_qos-limits_example =
    get_readerwriter_qos-limits constants profile policies no_time profile-IsExplicit refl
      (omega arith) refl

abbrev context : QosContext
context = record {
  qos_library = codes "my_lib";
  qos_ctx_namespace = codes "/foo/";
  qos_ctx_name = codes "ctx";
}
