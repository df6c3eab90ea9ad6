-- ===== src/WaitSet/Events.antt =====
-- The events of a reader or a writer: their DDS statuses, and get_status of the two kinds of status
-- conditions. common/rmw_impl.cpp and include/rmw_connextdds/rmw_impl.hpp.
use rmw_connextdds.Prelude.{ℕ, Bool, true, false, ◌||◌, Option, none, some, if◌then◌else◌}
use rmw_connextdds.Ret.{Ret}

-- rmw_event_type_t, with RMW_EVENT_INVALID and the values that stand for no event as `invalid`.
pub data RosEvent : Type 0 where
  liveliness_changed requested_deadline_missed requested_qos_incompatible message_lost : RosEvent
  liveliness_lost offered_deadline_missed offered_qos_incompatible invalid : RosEvent

-- The bits of DDS_StatusMask that the code names.
pub data DdsStatus : Type 0 where
  liveliness_changed requested_deadline_missed requested_incompatible_qos sample_lost : DdsStatus
  liveliness_lost offered_deadline_missed offered_incompatible_qos data_available : DdsStatus

-- A DDS_StatusKind: a bit, or UINT32_MAX, which has them all.
pub data DdsStatusKind : Type 0 where
  status : DdsStatus → DdsStatusKind
  uint32_max : DdsStatusKind

-- DDS_StatusMask
abbrev pub Mask : Type 0
Mask = DdsStatus → Bool

-- Whether two bits are the same one.
abbrev pub same_status : DdsStatus → DdsStatus → Bool
same_status DdsStatus.liveliness_changed DdsStatus.liveliness_changed = true
same_status DdsStatus.requested_deadline_missed DdsStatus.requested_deadline_missed = true
same_status DdsStatus.requested_incompatible_qos DdsStatus.requested_incompatible_qos = true
same_status DdsStatus.sample_lost DdsStatus.sample_lost = true
same_status DdsStatus.liveliness_lost DdsStatus.liveliness_lost = true
same_status DdsStatus.offered_deadline_missed DdsStatus.offered_deadline_missed = true
same_status DdsStatus.offered_incompatible_qos DdsStatus.offered_incompatible_qos = true
same_status DdsStatus.data_available DdsStatus.data_available = true
same_status _ _ = false

-- A DDS_StatusKind as a DDS_StatusMask.
abbrev pub mask : DdsStatusKind → Mask
mask (DdsStatusKind.status s) = same_status s
mask DdsStatusKind.uint32_max = λ s. true

-- DDS_STATUS_MASK_NONE, and `|` of two masks.
abbrev pub mask_none : Mask
mask_none s = false

abbrev pub mask_or : Mask → Mask → Mask
mask_or m n s = m s || n s

-- `have` is RMW_CONNEXT_HAVE_MESSAGE_LOST. The second component is what `*invalid` is set to.
unfoldable pub ros_event_to_dds : Bool → RosEvent → DdsStatusKind × Bool
ros_event_to_dds have RosEvent.liveliness_changed =
    (DdsStatusKind.status DdsStatus.liveliness_changed, false)
ros_event_to_dds have RosEvent.requested_deadline_missed =
    (DdsStatusKind.status DdsStatus.requested_deadline_missed, false)
ros_event_to_dds have RosEvent.liveliness_lost =
    (DdsStatusKind.status DdsStatus.liveliness_lost, false)
ros_event_to_dds have RosEvent.offered_deadline_missed =
    (DdsStatusKind.status DdsStatus.offered_deadline_missed, false)
ros_event_to_dds have RosEvent.requested_qos_incompatible =
    (DdsStatusKind.status DdsStatus.requested_incompatible_qos, false)
ros_event_to_dds have RosEvent.offered_qos_incompatible =
    (DdsStatusKind.status DdsStatus.offered_incompatible_qos, false)
ros_event_to_dds have RosEvent.message_lost =
    if have
    then (DdsStatusKind.status DdsStatus.sample_lost, false)
    else (DdsStatusKind.uint32_max, true)
ros_event_to_dds have RosEvent.invalid = (DdsStatusKind.uint32_max, true)

unfoldable pub ros_event_for_reader : Bool → RosEvent → Bool
ros_event_for_reader have RosEvent.liveliness_changed = true
ros_event_for_reader have RosEvent.requested_deadline_missed = true
ros_event_for_reader have RosEvent.requested_qos_incompatible = true
ros_event_for_reader have RosEvent.message_lost = have
ros_event_for_reader have _ = false

-- rmw_qos_policy_kind_t
pub data PolicyKind : Type 0 where
  invalid durability deadline liveliness reliability history lifespan : PolicyKind

-- DDS_QosPolicyId_t, with the policies that the code does not name as `other`.
pub data DdsPolicyId : Type 0 where
  durability deadline liveliness reliability history lifespan other : DdsPolicyId

unfoldable pub dds_qos_policy_to_rmw_qos_policy : DdsPolicyId → PolicyKind
dds_qos_policy_to_rmw_qos_policy DdsPolicyId.durability = PolicyKind.durability
dds_qos_policy_to_rmw_qos_policy DdsPolicyId.deadline = PolicyKind.deadline
dds_qos_policy_to_rmw_qos_policy DdsPolicyId.liveliness = PolicyKind.liveliness
dds_qos_policy_to_rmw_qos_policy DdsPolicyId.reliability = PolicyKind.reliability
dds_qos_policy_to_rmw_qos_policy DdsPolicyId.history = PolicyKind.history
dds_qos_policy_to_rmw_qos_policy DdsPolicyId.lifespan = PolicyKind.lifespan
dds_qos_policy_to_rmw_qos_policy DdsPolicyId.other = PolicyKind.invalid

-- A DDS status, as the DDS functions return it: the statuses of a count and its change, with the
-- policy of the incompatible ones, and that of the liveliness of readers.
pub record DdsCount : Type 0 where
  pub total_count : ℕ
  pub total_count_change : ℕ

pub record DdsIncompatible : Type 0 where
  pub total_count : ℕ
  pub total_count_change : ℕ
  pub last_policy_id : DdsPolicyId

pub record Liveliness : Type 0 where
  pub alive_count : ℕ
  pub alive_count_change : ℕ
  pub not_alive_count : ℕ
  pub not_alive_count_change : ℕ

-- What `event_info` points to, by the event.
pub data EventInfo : Type 0 where
  liveliness : Liveliness → EventInfo
  count : ℕ → ℕ → EventInfo
  incompatible : ℕ → ℕ → PolicyKind → EventInfo

-- The statuses of a DDS_DataReader and of a DDS_DataWriter: what the DDS functions that get them
-- return, `none` for a code other than DDS_RETCODE_OK.
pub record ReaderStatuses : Type 0 where
  pub liveliness_changed : Option Liveliness
  pub requested_deadline_missed : Option DdsCount
  pub requested_incompatible_qos : Option DdsIncompatible
  pub sample_lost : Option DdsCount

pub record WriterStatuses : Type 0 where
  pub liveliness_lost : Option DdsCount
  pub offered_deadline_missed : Option DdsCount
  pub offered_incompatible_qos : Option DdsIncompatible

abbrev pub from_count : EventInfo → Option DdsCount → Ret × EventInfo
from_count info none = (Ret.error, info)
from_count info (some s) = (Ret.ok, EventInfo.count s.total_count s.total_count_change)

abbrev pub from_incompatible : EventInfo → Option DdsIncompatible → Ret × EventInfo
from_incompatible info none = (Ret.error, info)
from_incompatible info (some s) = (
  Ret.ok,
  EventInfo.incompatible s.total_count s.total_count_change
      (dds_qos_policy_to_rmw_qos_policy s.last_policy_id),
)

abbrev pub from_liveliness : EventInfo → Option Liveliness → Ret × EventInfo
from_liveliness info none = (Ret.error, info)
from_liveliness info (some s) = (Ret.ok, EventInfo.liveliness s)

unfoldable pub subscriber_get_status :
    Bool → ReaderStatuses → RosEvent → EventInfo → Ret × EventInfo
subscriber_get_status have r RosEvent.liveliness_changed info =
    from_liveliness info r.liveliness_changed
subscriber_get_status have r RosEvent.requested_deadline_missed info =
    from_count info r.requested_deadline_missed
subscriber_get_status have r RosEvent.requested_qos_incompatible info =
    from_incompatible info r.requested_incompatible_qos
subscriber_get_status have r RosEvent.message_lost info =
    if have then from_count info r.sample_lost else (Ret.error, info)
subscriber_get_status have r _ info = (Ret.error, info)

unfoldable pub publisher_get_status : WriterStatuses → RosEvent → EventInfo → Ret × EventInfo
publisher_get_status w RosEvent.liveliness_lost info = from_count info w.liveliness_lost
publisher_get_status w RosEvent.offered_deadline_missed info =
    from_count info w.offered_deadline_missed
publisher_get_status w RosEvent.offered_qos_incompatible info =
    from_incompatible info w.offered_incompatible_qos
publisher_get_status w _ info = (Ret.error, info)
