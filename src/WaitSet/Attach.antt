-- ===== src/WaitSet/Attach.antt =====
-- Attaching and detaching: require_attach, detach, attach, is_attached and invalidate of
-- RMW_Connext_WaitSet in common/rmw_impl.cpp, as one thread runs them.
use rmw_connextdds.Prelude.{
  ℕ, Bool, true, false, not, ◌||◌, List, [], ◌∷◌, ◌++◌, map, Option, none, some, length, ltb, ◌==◌,
  if◌then◌else◌, update,
}
use rmw_connextdds.Ret.{Ret, is_ok, ◌then_ok◌, for_each}
use rmw_connextdds.WaitSet.Protocol.{WaitSetState}
use rmw_connextdds.WaitSet.Events.{RosEvent, DdsStatus, DdsStatusKind, ros_event_to_dds}
use rmw_connextdds.WaitSet.Handles.{Event, Target, condition}
use rmw_connextdds.WaitSet.Conditions
use rmw_connextdds.WaitSet.Conditions.{
  Dds, Condition, Elements, WaitSet, World, set_attached_waitset, attach_data, reset_statuses,
  enable_statuses,
}

-- The addresses in two arrays of the same length are the same.
abbrev pub same_addresses : List ℕ → List ℕ → Bool
same_addresses [] [] = true
same_addresses [] (y ∷ ys) = false
same_addresses (x ∷ xs) [] = false
same_addresses (x ∷ xs) (y ∷ ys) = if x == y then same_addresses xs ys else false

-- The new elements are the array, `none` for a null pointer.
unfoldable pub require_attach : List ℕ → Option (List ℕ) → Bool
require_attach attached none = ltb 0 (length attached)
require_attach attached (some new) =
    if length new == 0
    then ltb 0 (length attached)
    else (if not (length new == length attached) then true else not (same_addresses attached new))

-- The arrays of a call of wait.
pub record Arrays : Type 0 where
  pub subscribers : Option (List ℕ)
  pub conditions : Option (List ℕ)
  pub clients : Option (List ℕ)
  pub services : Option (List ℕ)
  pub events : Option (List ℕ)

-- A loop over an array that is skipped for a null pointer.
abbrev pub array : Option (List ℕ) → List ℕ
array none = []
array (some xs) = xs

-- The elements that the arrays give.
abbrev pub elements : Arrays → Elements
elements a = record {
  subscribers = array a.subscribers;
  conditions = array a.conditions;
  clients = array a.clients;
  services = array a.services;
  events = array a.events;
}

unfoldable pub refresh_attach : Elements → Arrays → Bool
refresh_attach els a =
    require_attach els.subscribers a.subscribers
    || require_attach els.conditions a.conditions
    || require_attach els.events a.events
    || require_attach els.services a.services
    || require_attach els.clients a.clients

-- The objects that the elements point to, which nothing here changes: the conditions of subscribers
-- and publishers, the subscribers of clients and services, and the events.
pub record Heap : Type 0 where
  pub subscriber_condition : ℕ → ℕ
  pub publisher_condition : ℕ → ℕ
  pub client_subscriber : ℕ → ℕ
  pub service_subscriber : ℕ → ℕ
  pub events : ℕ → Event

module _ (D : Dds) (have : Bool) (H : Heap) where
  abbrev pub client_condition : ℕ → ℕ
  client_condition a = H.subscriber_condition (H.client_subscriber a)

  abbrev pub service_condition : ℕ → ℕ
  service_condition a = H.subscriber_condition (H.service_subscriber a)

  abbrev pub target_condition : Target → ℕ
  target_condition (Target.subscriber a) = H.subscriber_condition a
  target_condition (Target.publisher a) = H.publisher_condition a

  -- The address of the condition that RMW_Connext_Event::condition returns.
  abbrev pub event_condition : Event → ℕ
  event_condition event = target_condition (condition have event)

  -- `attached_events_cache[e]`: an event that is not there is made, with all its fields zero.
  abbrev pub cached : List (ℕ × Event) → ℕ → Event
  cached [] e = record { ours = false; address = 0; event_type = RosEvent.liveliness_changed }
  cached ((k, event) ∷ rest) e = if k == e then event else cached rest e

  -- The conditions that the attached lists stand for.
  abbrev pub attached_conditions : WaitSet → List ℕ
  attached_conditions s =
      map H.subscriber_condition s.attached.subscribers
      ++ s.attached.conditions
      ++ map client_condition s.attached.clients
      ++ map service_condition s.attached.services
      ++ map (λ e. event_condition (cached s.cache e)) s.attached.events

  -- A loop of `detach`: the conditions' detach, with whether one of them failed.
  abbrev pub detach_each : List ℕ → Bool × World D → Bool × World D
  detach_each [] r = r
  detach_each (c ∷ cs) (failed, w) =
      let (rc, w1) = Conditions.detach D c w in detach_each cs (failed || not (is_ok rc), w1)

  abbrev pub set_attached : ℕ → Elements → World D → World D
  set_attached ws els w = record w {
    waitsets = update w.waitsets ws (record (w.waitsets ws) { attached = els });
  }

  unfoldable pub detach : ℕ → World D → Ret × World D
  detach ws w =
      let els = (w.waitsets ws).attached in
      let (f1, w1) = detach_each (map H.subscriber_condition els.subscribers) (false, w) in
      let v1 = set_attached ws (record els { subscribers = [] }) w1 in
      let (f2, w2) = detach_each els.conditions (f1, v1) in
      let v2 = set_attached ws (record els { subscribers = []; conditions = [] }) w2 in
      let (f3, w3) = detach_each (map client_condition els.clients) (f2, v2) in
      let v3 =
        set_attached ws (record els { subscribers = []; conditions = []; clients = [] }) w3 in
      let (f4, w4) = detach_each (map service_condition els.services) (f3, v3) in
      let v4 =
        set_attached ws
          (record els { subscribers = []; conditions = []; clients = []; services = [] }) w4 in
      let (failed, w5) =
        detach_each (map (λ e. event_condition (cached (w.waitsets ws).cache e)) els.events)
          (f4, v4) in
      let last = record (w5.waitsets ws) {
        attached = record {
          subscribers = [];
          conditions = [];
          clients = [];
          services = [];
          events = [];
        };
        cache = [];
      } in
      (if failed then Ret.error else Ret.ok, record w5 { waitsets = update w5.waitsets ws last })

  abbrev pub occurs : ℕ → List ℕ → Bool
  occurs c [] = false
  occurs c (x ∷ xs) = if x == c then true else occurs c xs

  unfoldable pub is_attached : ℕ → ℕ → World D → Bool
  is_attached ws c w = occurs c (attached_conditions (w.waitsets ws))

  abbrev pub set_state : ℕ → WaitSetState → World D → World D
  set_state ws s w = record w {
    waitsets = update w.waitsets ws (record (w.waitsets ws) { state = s });
  }

  -- `emplace`, which keeps an entry that is there.
  abbrev pub emplace : ℕ → Event → List (ℕ × Event) → List (ℕ × Event)
  emplace e event cache =
      if occurs e (map (λ entry. entry.0) cache) then cache else (e, event) ∷ cache

  -- `others` is what the other threads do to the world while this one waits on `state_cond`.
  module _ (others : World D → World D) where
    unfoldable pub invalidate : ℕ → ℕ → World D → Ret × World D
    invalidate ws c w =
        if not (is_attached ws c w) then (Ret.ok, w) else elim (w.waitsets ws).state [
          | WaitSetState.free ↦
              let (rc, w1) = detach ws (set_state ws WaitSetState.invalidating w) in
              (rc, set_state ws WaitSetState.free w1)
          | WaitSetState.acquiring ↦
              let w1 = others w in if is_attached ws c w1 then (Ret.error, w1) else (Ret.ok, w1)
          | _ ↦ (Ret.error, w)
        ]

    -- RMW_Connext_Condition::invalidate.
    unfoldable pub invalidate_condition : ℕ → World D → World D
    invalidate_condition c w =
        if (w.conditions c).deleted
        then w
        else (let w1 = record w {
          conditions = update w.conditions c (record (w.conditions c) { deleted = true });
        } in
            elim (w.conditions c).attached_waitset [ none ↦ w1 | some a ↦ (invalidate a c w1).1 ])

    -- The start of each loop body of `attach`: take the condition from another wait set, and refuse
    -- a deleted one.
    unfoldable pub claim : ℕ → ℕ → World D → Ret × World D
    claim ws c w =
        let (detached, w1) = elim (w.conditions c).attached_waitset as (λ x. Bool × World D) [
          | none ↦ (false, w)
          | some other ↦ if ws == other then (false, w) else (true, (invalidate other c w).1)
        ] in
        if (w1.conditions c).deleted
        then (Ret.error, w1)
        else (Ret.ok, if detached then set_attached_waitset D c none w1 else w1)

    -- The rest of the body for the condition of a subscriber, a client or a service.
    unfoldable pub attach_reader : ℕ → ℕ → World D → Ret × World D
    attach_reader ws c w =
        claim ws c w
        then_ok reset_statuses D c
        then_ok enable_statuses D c (DdsStatusKind.status DdsStatus.data_available)
        then_ok Conditions.attach D c ws
        then_ok attach_data D c

    unfoldable pub reset_event : ℕ → ℕ → World D → Ret × World D
    reset_event ws e w =
        let c = event_condition (H.events e) in claim ws c w then_ok reset_statuses D c

    unfoldable pub attach_subscriber : ℕ → ℕ → World D → Ret × World D
    attach_subscriber ws a w = attach_reader ws (H.subscriber_condition a) w then_ok (λ v.
        let els = (v.waitsets ws).attached in
        (Ret.ok, set_attached ws (record els { subscribers = els.subscribers ++ (a ∷ []) }) v))

    unfoldable pub attach_client : ℕ → ℕ → World D → Ret × World D
    attach_client ws a w = attach_reader ws (client_condition a) w then_ok (λ v.
        let els = (v.waitsets ws).attached in
        (Ret.ok, set_attached ws (record els { clients = els.clients ++ (a ∷ []) }) v))

    unfoldable pub attach_service : ℕ → ℕ → World D → Ret × World D
    attach_service ws a w = attach_reader ws (service_condition a) w then_ok (λ v.
        let els = (v.waitsets ws).attached in
        (Ret.ok, set_attached ws (record els { services = els.services ++ (a ∷ []) }) v))

    unfoldable pub attach_event : ℕ → ℕ → World D → Ret × World D
    attach_event ws e w =
        let event = H.events e in
        let c = event_condition event in
        (if (w.conditions c).deleted then (Ret.error, w) else (Ret.ok, w))
        then_ok enable_statuses D c (ros_event_to_dds have event.event_type).0
        then_ok Conditions.attach D c ws
        then_ok (λ v.
            let s = v.waitsets ws in
            let els = s.attached in
            let s' = record s {
              attached = record els { events = els.events ++ (e ∷ []) };
              cache = emplace e event s.cache;
            } in
            (Ret.ok, record v { waitsets = update v.waitsets ws s' }))

    unfoldable pub attach_guard : ℕ → ℕ → World D → Ret × World D
    attach_guard ws c w = claim ws c w then_ok Conditions.attach D c ws then_ok (λ v.
        let els = (v.waitsets ws).attached in
        (Ret.ok, set_attached ws (record els { conditions = els.conditions ++ (c ∷ []) }) v))

    -- The loops of `attach`, after the detach.
    unfoldable pub attach_all : ℕ → Arrays → World D → Ret × World D
    attach_all ws a w =
        for_each (reset_event ws) (array a.events) w
        then_ok for_each (attach_subscriber ws) (array a.subscribers)
        then_ok for_each (attach_client ws) (array a.clients)
        then_ok for_each (attach_service ws) (array a.services)
        then_ok for_each (attach_event ws) (array a.events)
        then_ok for_each (attach_guard ws) (array a.conditions)

    unfoldable pub attach : ℕ → Arrays → World D → Ret × World D
    attach ws a w =
        if not (refresh_attach (w.waitsets ws).attached a)
        then (Ret.ok, w)
        else detach ws w then_ok attach_all ws a
