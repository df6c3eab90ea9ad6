-- ===== src/WaitSet/Conditions.antt =====
-- The conditions that a wait set attaches: class RMW_Connext_Condition and its subclasses, in
-- include/rmw_connextdds/rmw_impl.hpp. The functions of DDS that they call are a parameter, and the
-- objects are stores by address. The wait sets stand in the same world, since conditions and wait
-- sets point to each other.
use rmw_connextdds.Prelude.{
  ℕ, Bool, true, false, List, Option, none, some, ◌==◌, if◌then◌else◌, update,
}
use rmw_connextdds.Ret.{Ret, is_ok}
use rmw_connextdds.Qos.Policies.{Duration}
use rmw_connextdds.WaitSet.Protocol.{WaitSetState}
use rmw_connextdds.WaitSet.Events.{DdsStatusKind, Mask, mask, mask_none, mask_or}
use rmw_connextdds.WaitSet.Handles.{Event, Target}

-- The DDS condition of the RMW condition at an address, and the data condition of a subscriber's.
pub data DdsCondition : Type 0 where
  of data_of : ℕ → DdsCondition

-- The results of DDS_WaitSet_detach_condition, with all the others as `other`.
pub data DetachCode : Type 0 where
  ok bad_parameter precondition_not_met other : DetachCode

-- What DDS_WaitSet_wait returns, with the codes other than DDS_RETCODE_OK and
-- DDS_RETCODE_TIMEOUT as `other`.
pub data WaitCode : Type 0 where
  ok timeout other : WaitCode

-- The DDS functions on wait sets and conditions. `true` is DDS_RETCODE_OK, or a true DDS_Boolean.
pub record Dds : Type 1 where
  pub State : Type 0
  pub attach_condition : ℕ → DdsCondition → State → Bool × State
  pub detach_condition : ℕ → DdsCondition → State → DetachCode × State
  pub set_enabled_statuses : ℕ → Mask → State → Bool × State
  pub get_enabled_statuses : ℕ → State → Mask
  pub set_trigger_value : DdsCondition → Bool → State → Bool × State
  pub get_status_changes : Target → State → Mask
  pub ensure_length : ℕ → State → Bool × State
  pub duration_infinite : Duration
  pub wait : ℕ → Duration → State → WaitCode × List DdsCondition × State

pub record Condition : Type 0 where
  pub attached_waitset : Option ℕ
  pub attached_waitset_dcond : Option ℕ
  pub deleted : Bool

-- The elements of the five kinds: those that a wait set has attached, or those of a call of wait.
pub record Elements : Type 0 where
  pub subscribers : List ℕ
  pub conditions : List ℕ
  pub clients : List ℕ
  pub services : List ℕ
  pub events : List ℕ

-- `cache` is attached_events_cache, with the latest entry first.
pub record WaitSet : Type 0 where
  pub state : WaitSetState
  pub attached : Elements
  pub cache : List (ℕ × Event)

module _ (D : Dds) where
  open D use {
    State, attach_condition, detach_condition, set_enabled_statuses, get_enabled_statuses,
    set_trigger_value,
  }

  pub record World : Type 0 where
    pub conditions : ℕ → Condition
    pub waitsets : ℕ → WaitSet
    pub dds : State

  abbrev pub done : World → Bool × State → Ret × World
  done w (b, st) = (if b then Ret.ok else Ret.error, record w { dds = st })

  -- The static RMW_Connext_Condition::attach and RMW_Connext_Condition::detach.
  unfoldable pub dds_attach : ℕ → DdsCondition → World → Ret × World
  dds_attach ws c w = done w (attach_condition ws c w.dds)

  abbrev pub is_detached : DetachCode → Bool
  is_detached DetachCode.other = false
  is_detached _ = true

  unfoldable pub dds_detach : ℕ → DdsCondition → World → Ret × World
  dds_detach ws c w = let (code, st) = detach_condition ws c w.dds in done w (is_detached code, st)

  abbrev pub set_attached_waitset : ℕ → Option ℕ → World → World
  set_attached_waitset c a w = record w {
    conditions = update w.conditions c (record (w.conditions c) { attached_waitset = a });
  }

  -- RMW_Connext_Condition::detach, which is not virtual.
  unfoldable pub detach : ℕ → World → Ret × World
  detach c w = elim (w.conditions c).attached_waitset [
    | none ↦ (Ret.ok, w)
    | some a ↦
        let (rc, w1) = dds_detach a (DdsCondition.of c) w in
        if is_ok rc then (rc, set_attached_waitset c none w1) else (rc, w1)
  ]

  -- The end of RMW_Connext_Condition::attach.
  unfoldable pub attach_to : ℕ → ℕ → World → Ret × World
  attach_to c ws w =
      let (rc, w1) = dds_attach ws (DdsCondition.of c) w in
      if is_ok rc then (rc, set_attached_waitset c (some ws) w1) else (rc, w1)

  unfoldable pub attach : ℕ → ℕ → World → Ret × World
  attach c ws w =
      if (w.conditions c).deleted then (Ret.error, w) else elim (w.conditions c).attached_waitset [
        | none ↦ attach_to c ws w
        | some a ↦
            if ws == a
            then (Ret.ok, w)
            else (let (rc, w1) = detach c w in if is_ok rc then attach_to c ws w1 else (rc, w1))
      ]

  unfoldable pub attach_data : ℕ → World → Ret × World
  attach_data c w = elim (w.conditions c).attached_waitset [
    | none ↦ (Ret.error, w)
    | some a ↦
        let (rc, w1) = dds_attach a (DdsCondition.data_of c) w in
        if is_ok rc
        then (
          rc,
          record w1 {
            conditions = update w1.conditions c (record (w1.conditions c) {
              attached_waitset_dcond = (w1.conditions c).attached_waitset;
            });
          },
        )
        else (rc, w1)
  ]

  -- RMW_Connext_SubscriberStatusCondition::detach.
  unfoldable pub subscriber_detach : ℕ → World → Ret × World
  subscriber_detach c w =
      let (rc, w1) = detach c w in
      if is_ok rc
      then elim (w1.conditions c).attached_waitset_dcond [
        | none ↦ (Ret.ok, w1)
        | some a ↦ dds_detach a (DdsCondition.data_of c) w1
      ]
      else (rc, w1)

  unfoldable pub reset_statuses : ℕ → World → Ret × World
  reset_statuses c w = done w (set_enabled_statuses c mask_none w.dds)

  unfoldable pub enable_statuses : ℕ → DdsStatusKind → World → Ret × World
  enable_statuses c kind w =
      done w (set_enabled_statuses c (mask_or (get_enabled_statuses c w.dds) (mask kind)) w.dds)

  unfoldable pub trigger : ℕ → World → Ret × World
  trigger c w = done w (set_trigger_value (DdsCondition.of c) true w.dds)

  unfoldable pub reset_trigger : ℕ → World → Ret × World
  reset_trigger c w = done w (set_trigger_value (DdsCondition.of c) false w.dds)
