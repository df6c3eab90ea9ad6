-- ===== src/WaitSet/Wait.antt =====
-- RMW_Connext_WaitSet::wait and process_wait in common/rmw_impl.cpp, as one thread runs them, with
-- the subscribers' loans of Endpoint.
use rmw_connextdds.Prelude.{
  ℕ, Bool, true, false, not, ◌||◌, ◌&&◌, ◌+◌, suc, List, [], ◌∷◌, Option, none, some, length, ltb,
  ◌==◌, if◌then◌else◌, update, map,
}
use rmw_connextdds.Ret.{Ret, is_ok}
use rmw_connextdds.Endpoint.Sample.{Platform}
use rmw_connextdds.Endpoint.Loan.{Subscriber, has_data}
use rmw_connextdds.Qos.Policies.{RosTime, Duration, duration_from_ros_time}
use rmw_connextdds.WaitSet.Protocol.{WaitSetState}
use rmw_connextdds.WaitSet.Events.{DdsStatus, Mask, mask, ros_event_to_dds}
use rmw_connextdds.WaitSet.Handles.{Event, condition}
use rmw_connextdds.WaitSet.Conditions.{
  Dds, DdsCondition, WaitCode, Condition, Elements, World, reset_trigger,
}
use rmw_connextdds.WaitSet.Attach.{
  Heap, Arrays, array, client_condition, event_condition, cached, set_state, detach, attach,
}

-- The arrays of a call of wait as it leaves them, with `none` for the null pointers it has written.
pub record Results : Type 0 where
  pub subscribers : List (Option ℕ)
  pub conditions : List (Option ℕ)
  pub clients : List (Option ℕ)
  pub services : List (Option ℕ)
  pub events : List (Option ℕ)

-- A mask that is not zero.
abbrev pub any_status : Mask → Bool
any_status m =
    m DdsStatus.liveliness_changed
    || m DdsStatus.requested_deadline_missed
    || m DdsStatus.requested_incompatible_qos
    || m DdsStatus.sample_lost
    || m DdsStatus.liveliness_lost
    || m DdsStatus.offered_deadline_missed
    || m DdsStatus.offered_incompatible_qos
    || m DdsStatus.data_available

-- RMW_Connext_GuardCondition::owns.
unfoldable pub owns : ℕ → DdsCondition → Bool
owns c (DdsCondition.of a) = c == a
owns c (DdsCondition.data_of a) = false

-- `active_condition` for a guard condition.
unfoldable pub active_condition : ℕ → List DdsCondition → Bool
active_condition c [] = false
active_condition c (x ∷ xs) = if owns c x then true else active_condition c xs

-- `DDS_RETCODE_OK == wait_rc || DDS_RETCODE_TIMEOUT == wait_rc`, and the second test alone.
abbrev pub is_waited : WaitCode → Bool
is_waited WaitCode.other = false
is_waited _ = true

abbrev pub is_timeout : WaitCode → Bool
is_timeout WaitCode.timeout = true
is_timeout _ = false

module _ (P : Platform) where
  -- The loop of process_wait over subscribers, or over clients or services through their
  -- subscribers: the array, the count of active conditions, and the subscribers.
  unfoldable pub process_readers :
      (ℕ → ℕ)
      → List ℕ
      → List (Option ℕ)
      → ℕ
      → (ℕ → Subscriber P)
      → List (Option ℕ) × ℕ × (ℕ → Subscriber P)
  process_readers subscriber [] es n subs = (es, n, subs)
  process_readers subscriber (x ∷ xs) [] n subs = ([], n, subs)
  process_readers subscriber (x ∷ xs) (e ∷ es) n subs =
      let a = subscriber x in
      let (found, s) = has_data P (subs a) in
      let (es', n', subs') =
        process_readers subscriber xs es (if found then suc n else n) (update subs a s) in
      ((if found then e else none) ∷ es', n', subs')

module _ (P : Platform) (D : Dds) (have : Bool) (H : Heap) where
  -- The conditions and wait sets, and the subscribers by their addresses.
  pub record Program : Type 0 where
    pub world : World D
    pub subscribers : ℕ → Subscriber P

  -- `valid` after a loop that checks the conditions of its elements.
  abbrev pub all_valid : (ℕ → ℕ) → (ℕ → Condition) → List ℕ → Bool
  all_valid cond f [] = true
  all_valid cond f (x ∷ xs) = if (f (cond x)).deleted then false else all_valid cond f xs

  unfoldable pub process_guards :
      List DdsCondition
      → List ℕ
      → List (Option ℕ)
      → ℕ
      → Bool
      → World D
      → List (Option ℕ) × ℕ × Bool × World D
  process_guards active [] es n failed w = (es, n, failed, w)
  process_guards active (c ∷ cs) [] n failed w = ([], n, failed, w)
  process_guards active (c ∷ cs) (e ∷ es) n failed w =
      if active_condition c active
      then (let (rc, w1) = reset_trigger D c w in
          let (es', n', failed', w2) =
            process_guards active cs es (suc n) (if is_ok rc then failed else true) w1 in
          (e ∷ es', n', failed', w2))
      else (let (es', n', failed', w2) = process_guards active cs es n failed w in
          (none ∷ es', n', failed', w2))

  -- RMW_Connext_Event::active, by has_status of the status condition.
  unfoldable pub active_event : Event → World D → Bool
  active_event event w =
      let changes = D.get_status_changes (condition have event) w.dds in
      let bits = mask (ros_event_to_dds have event.event_type).0 in
      any_status (λ s. changes s && bits s)

  unfoldable pub process_events :
      List (ℕ × Event) → List ℕ → List (Option ℕ) → ℕ → World D → List (Option ℕ) × ℕ
  process_events cache [] es n w = (es, n)
  process_events cache (x ∷ xs) [] n w = ([], n)
  process_events cache (x ∷ xs) (e ∷ es) n w =
      let found = active_event (cached D have H cache x) w in
      let (es', n') = process_events cache xs es (if found then suc n else n) w in
      ((if found then e else none) ∷ es', n')

  -- `active` is `active_conditions` of the wait set. The conditions of services are not checked.
  unfoldable pub process_wait :
      ℕ → List DdsCondition → Results → Program → Ret × Results × ℕ × Program
  process_wait ws active a p =
      let s = p.world.waitsets ws in
      let els = s.attached in
      let f = p.world.conditions in
      let (subs, n1, p1) =
        process_readers P (λ x. x) els.subscribers a.subscribers 0 p.subscribers in
      let (gcs, n2, failed, w2) =
        process_guards active els.conditions a.conditions n1 false p.world in
      let (cls, n3, p3) = process_readers P H.client_subscriber els.clients a.clients n2 p1 in
      let (srvs, n4, p4) = process_readers P H.service_subscriber els.services a.services n3 p3 in
      let (evs, n5) = process_events s.cache els.events a.events n4 w2 in
      let valid =
        all_valid H.subscriber_condition f els.subscribers
        && all_valid (λ c. c) f els.conditions
        && all_valid (client_condition D have H) f els.clients
        && all_valid (λ e. event_condition D have H (cached D have H s.cache e)) f els.events in
      (
        if not failed && valid then Ret.ok else Ret.error,
        record {
          subscribers = subs;
          conditions = gcs;
          clients = cls;
          services = srvs;
          events = evs;
        },
        n5,
        record { world = w2; subscribers = p4 },
      )

  abbrev pub pointers : Option (List ℕ) → List (Option ℕ)
  pointers a = map some (array a)

  abbrev pub results : Arrays → Results
  results a = record {
    subscribers = pointers a.subscribers;
    conditions = pointers a.conditions;
    clients = pointers a.clients;
    services = pointers a.services;
    events = pointers a.events;
  }

  -- The scope exits of a return with an error, in the order in which they run: the state, then the
  -- detach.
  unfoldable pub clean_up : ℕ → Program → Program
  clean_up ws p = record p {
    world = (detach D have H ws (set_state D have H ws WaitSetState.free p.world)).1;
  }

  abbrev pub attached_count : Elements → ℕ
  attached_count els =
      length els.subscribers
      + length els.conditions
      + length els.clients
      + length els.services
      + length els.events

  -- `others` is what the other threads do while this one waits on `state_cond`; `arrive` is what
  -- happens to the readers during DDS_WaitSet_wait.
  module _ (others : World D → World D) (arrive : (ℕ → Subscriber P) → ℕ → Subscriber P) where
    -- The end of wait, from the call of DDS_WaitSet_wait.
    unfoldable pub wait_blocked : ℕ → Arrays → Duration → Program → Ret × Results × Program
    wait_blocked ws a duration p =
        let w1 = set_state D have H ws WaitSetState.blocked p.world in
        let (code, active, st) = D.wait ws duration w1.dds in
        let w2 : World D = record w1 { dds = st } in
        let p2 : Program = record { world = w2; subscribers = arrive p.subscribers } in
        if not (is_waited code)
        then (Ret.error, results a, clean_up ws p2)
        else (let p3 : Program = record p2 {
          world = set_state D have H ws WaitSetState.releasing w2;
        } in
            let (rc, r, n, p4) = process_wait ws active (results a) p3 in
            if not (is_ok rc) then (rc, r, clean_up ws p4) else (
              if is_timeout code then Ret.timeout else Ret.ok,
              r,
              record p4 { world = set_state D have H ws WaitSetState.free p4.world },
            ))

    abbrev pub wait_duration : Option RosTime → Ret × Duration
    wait_duration none = (Ret.ok, D.duration_infinite)
    wait_duration (some t) = duration_from_ros_time D.duration_infinite t

    -- wait with the state acquired.
    unfoldable pub wait_acquired : ℕ → Arrays → Option RosTime → Program → Ret × Results × Program
    wait_acquired ws a timeout p =
        let (rc, w1) = attach D have H others ws a p.world in
        let p1 = record p { world = w1 } in
        if not (is_ok rc)
        then (rc, results a, clean_up ws p1)
        else (let count = attached_count (w1.waitsets ws).attached in
            if ltb 2_147_483_647 count
            then (Ret.error, results a, clean_up ws p1)
            else (let (resized, st) = D.ensure_length count w1.dds in
                let p2 = record p1 { world = record w1 { dds = st } } in
                if not resized
                then (Ret.error, results a, clean_up ws p2)
                else (let (rc', duration) = wait_duration timeout in
                    if not (is_ok rc')
                    then (rc', results a, clean_up ws p2)
                    else wait_blocked ws a duration p2)))

    unfoldable pub wait : ℕ → Arrays → Option RosTime → Program → Ret × Results × Program
    wait ws a timeout p =
        let go = λ (q : Program).
          wait_acquired ws a timeout
            (record q { world = set_state D have H ws WaitSetState.acquiring q.world }) in
        elim (p.world.waitsets ws).state [
          | WaitSetState.free ↦ go p
          | WaitSetState.invalidating ↦
              let p1 = record p { world = others p.world } in
              elim (p1.world.waitsets ws).state [
                | WaitSetState.free ↦ go p1
                | _ ↦ (Ret.error, results a, p1)
              ]
          | _ ↦ (Ret.error, results a, p)
        ]
