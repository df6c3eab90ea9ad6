-- ===== src/WaitSet/Handles.antt =====
-- The events that the RMW interface hands out and takes: common/rmw_event.cpp, and RMW_Connext_Event
-- of include/rmw_connextdds/rmw_impl.hpp.
use rmw_connextdds.Prelude.{
  ℕ, ◌≡◌, ◌≢◌, refl, Bool, true, false, not, Option, none, some, arith, Bool-cases, inl, inr, ◌⊎◌,
  if◌then◌else◌,
}
use rmw_connextdds.Ret.{Ret, is_ok}
use rmw_connextdds.WaitSet.Events.{
  RosEvent, ros_event_to_dds, ros_event_for_reader, EventInfo, ReaderStatuses, WriterStatuses,
  subscriber_get_status, publisher_get_status, from_count, from_incompatible, from_liveliness,
  DdsCount, DdsIncompatible, Liveliness,
}

-- An rmw_publisher_t or rmw_subscription_t: whether its implementation_identifier is this
-- implementation's, and the address of its RMW_Connext_Publisher or RMW_Connext_Subscriber.
pub record Handle : Type 0 where
  pub ours : Bool
  pub address : ℕ

-- An rmw_event_t.
pub record Event : Type 0 where
  pub ours : Bool
  pub address : ℕ
  pub event_type : RosEvent

-- What an event's address is taken for.
pub data Target : Type 0 where
  subscriber publisher : ℕ → Target

-- Whose condition RMW_Connext_Event::condition gets.
unfoldable pub condition : Bool → Event → Target
condition have event =
    if ros_event_for_reader have event.event_type
    then Target.subscriber event.address
    else Target.publisher event.address

unfoldable pub is_event_supported : Bool → RosEvent → Bool
is_event_supported have event_type = not (ros_event_to_dds have event_type).1

-- The event is what `*rmw_event` is afterwards; `none` is a null pointer.
unfoldable pub publisher_event_init :
    Bool → Option Event → Option Handle → RosEvent → Ret × Option Event
publisher_event_init have rmw_event none event_type = (Ret.invalid_argument, rmw_event)
publisher_event_init have rmw_event (some p) event_type =
    if not p.ours then (Ret.invalid_argument, rmw_event) else elim rmw_event [
      | none ↦ (Ret.invalid_argument, none)
      | some old ↦
          if not (is_event_supported have event_type)
          then (Ret.unsupported, some old)
          else (Ret.ok, some (record { ours = true; address = p.address; event_type = event_type }))
    ]

unfoldable pub subscription_event_init :
    Bool → Option Event → Option Handle → RosEvent → Ret × Option Event
subscription_event_init have rmw_event none event_type = (Ret.invalid_argument, rmw_event)
subscription_event_init have rmw_event (some s) event_type =
    if not s.ours then (Ret.invalid_argument, rmw_event) else elim rmw_event [
      | none ↦ (Ret.invalid_argument, none)
      | some old ↦
          if not (is_event_supported have event_type)
          then (Ret.unsupported, some old)
          else (Ret.ok, some (record { ours = true; address = s.address; event_type = event_type }))
    ]

-- The statuses of the readers of subscribers and the writers of publishers, by their addresses.
pub record Statuses : Type 0 where
  pub reader : ℕ → ReaderStatuses
  pub writer : ℕ → WriterStatuses

abbrev get_status : Bool → Statuses → Target → RosEvent → EventInfo → Ret × EventInfo
get_status have w (Target.subscriber a) e info = subscriber_get_status have (w.reader a) e info
get_status have w (Target.publisher a) e info = publisher_get_status (w.writer a) e info

-- `*taken` and `*event_info` are returned, `none` for null pointers.
unfoldable pub take_event :
    Bool
    → Statuses
    → Option Event
    → Option EventInfo
    → Option Bool
    → Ret × Option EventInfo × Option Bool
take_event have w none info taken = (Ret.invalid_argument, info, taken)
take_event have w (some event) info taken =
    if not event.ours then (Ret.invalid_argument, info, taken) else elim info [
      | none ↦ (Ret.invalid_argument, none, taken)
      | some i ↦ elim taken [
        | none ↦ (Ret.invalid_argument, some i, none)
        | some t ↦
            let (rc, i') = get_status have w (condition have event) event.event_type i in
            (rc, some i', some (is_ok rc))
      ]
    ]

-- The functions of DDS that get the statuses succeed.
pub record Available (w : Statuses) : Type 0 where
  pub liveliness_changed : (a : ℕ) → (w.reader a).liveliness_changed ≢ none
  pub requested_deadline_missed : (a : ℕ) → (w.reader a).requested_deadline_missed ≢ none
  pub requested_incompatible_qos : (a : ℕ) → (w.reader a).requested_incompatible_qos ≢ none
  pub sample_lost : (a : ℕ) → (w.reader a).sample_lost ≢ none
  pub liveliness_lost : (a : ℕ) → (w.writer a).liveliness_lost ≢ none
  pub offered_deadline_missed : (a : ℕ) → (w.writer a).offered_deadline_missed ≢ none
  pub offered_incompatible_qos : (a : ℕ) → (w.writer a).offered_incompatible_qos ≢ none

count-ok : (i : EventInfo) (o : Option DdsCount) → o ≢ none → (from_count i o).0 ≡ Ret.ok
count-ok i none h = absurd (h refl)
count-ok i (some s) h = refl

incompatible-ok :
    (i : EventInfo) (o : Option DdsIncompatible) → o ≢ none → (from_incompatible i o).0 ≡ Ret.ok
incompatible-ok i none h = absurd (h refl)
incompatible-ok i (some s) h = refl

liveliness-ok :
    (i : EventInfo) (o : Option Liveliness) → o ≢ none → (from_liveliness i o).0 ≡ Ret.ok
liveliness-ok i none h = absurd (h refl)
liveliness-ok i (some s) h = refl

module _ (have : Bool) where
  -- This implementation's event, of a supported type.
  abbrev IsMade : Event → Type 0
  IsMade t = (t.ours ≡ true) × (is_event_supported have t.event_type ≡ true)

  publisher_event_init-IsMade :
      (old : Option Event) (h : Option Handle) (e : RosEvent) (t : Event)
      → publisher_event_init have old h e ≡ (Ret.ok, some t)
      → IsMade t
  unfolding publisher_event_init
  publisher_event_init-IsMade old none e t m = absurd (cc)
  publisher_event_init-IsMade none (some p) e t m = absurd (ground arith)
  publisher_event_init-IsMade (some o) (some p) e t m =
      elim (Bool-cases (is_event_supported have e)) [
        | inl y ↦ ground (arith, m, y)
        | inr n ↦ absurd (ground (arith, m, n))
      ]

  subscription_event_init-IsMade :
      (old : Option Event) (h : Option Handle) (e : RosEvent) (t : Event)
      → subscription_event_init have old h e ≡ (Ret.ok, some t)
      → IsMade t
  unfolding subscription_event_init
  subscription_event_init-IsMade old none e t m = absurd (cc)
  subscription_event_init-IsMade none (some p) e t m = absurd (ground arith)
  subscription_event_init-IsMade (some o) (some p) e t m =
      elim (Bool-cases (is_event_supported have e)) [
        | inl y ↦ ground (arith, m, y)
        | inr n ↦ absurd (ground (arith, m, n))
      ]

module _ (have : Bool) (w : Statuses) (A : Available w) where
  subscriber-ok :
      (a : ℕ) (e : RosEvent) (i : EventInfo)
      → ros_event_for_reader have e ≡ true
      → (subscriber_get_status have (w.reader a) e i).0 ≡ Ret.ok
  unfolding subscriber_get_status ros_event_for_reader
  subscriber-ok a RosEvent.liveliness_changed i h = liveliness-ok i _ (A.liveliness_changed a)
  subscriber-ok a RosEvent.requested_deadline_missed i h =
      count-ok i _ (A.requested_deadline_missed a)
  subscriber-ok a RosEvent.requested_qos_incompatible i h =
      incompatible-ok i _ (A.requested_incompatible_qos a)
  subscriber-ok a RosEvent.message_lost i h = rw h (count-ok i _ (A.sample_lost a))
  subscriber-ok a RosEvent.liveliness_lost i h = absurd (cc)
  subscriber-ok a RosEvent.offered_deadline_missed i h = absurd (cc)
  subscriber-ok a RosEvent.offered_qos_incompatible i h = absurd (cc)
  subscriber-ok a RosEvent.invalid i h = absurd (cc)

  publisher-ok :
      (a : ℕ) (e : RosEvent) (i : EventInfo)
      → ros_event_for_reader have e ≡ false
      → is_event_supported have e ≡ true
      → (publisher_get_status (w.writer a) e i).0 ≡ Ret.ok
  unfolding publisher_get_status ros_event_for_reader is_event_supported ros_event_to_dds
  publisher-ok a RosEvent.liveliness_lost i h s = count-ok i _ (A.liveliness_lost a)
  publisher-ok a RosEvent.offered_deadline_missed i h s = count-ok i _ (A.offered_deadline_missed a)
  publisher-ok a RosEvent.offered_qos_incompatible i h s =
      incompatible-ok i _ (A.offered_incompatible_qos a)
  publisher-ok a RosEvent.message_lost i h s = absurd (ground (arith, h, s))
  publisher-ok a RosEvent.liveliness_changed i h s = absurd (cc)
  publisher-ok a RosEvent.requested_deadline_missed i h s = absurd (cc)
  publisher-ok a RosEvent.requested_qos_incompatible i h s = absurd (cc)
  publisher-ok a RosEvent.invalid i h s = absurd (cc)

  get_status-ok :
      (t : Event) (i : EventInfo)
      → is_event_supported have t.event_type ≡ true
      → (get_status have w (condition have t) t.event_type i).0 ≡ Ret.ok
  unfolding condition
  get_status-ok t i s = elim (Bool-cases (ros_event_for_reader have t.event_type)) [
    | inl r ↦ rw r (subscriber-ok t.address t.event_type i r)
    | inr r ↦ rw r (publisher-ok t.address t.event_type i r s)
  ]

  -- Taking an event of this implementation that is supported.
  take_event-supported :
      (t : Event) (info : EventInfo) (taken : Bool)
      → IsMade have t
      → ((take_event have w (some t) (some info) (some taken)).0 ≡ Ret.ok)
        × ((take_event have w (some t) (some info) (some taken)).2 ≡ some true)
  unfolding take_event condition
  take_event-supported t info taken (o, s) = let g = get_status-ok t info s in rw o (g, rw g refl)

  -- When the DDS functions that get a status succeed, an event that publisher_event_init or
  -- subscription_event_init has made is always taken: no event that they accept meets the
  -- unsupported case of get_status.
  pub event_init-take_event :
      (old : Option Event) (h : Option Handle) (e : RosEvent) (event : Event) (info : EventInfo)
      (taken : Bool)
      → (publisher_event_init have old h e ≡ (Ret.ok, some event))
        ⊎ (subscription_event_init have old h e ≡ (Ret.ok, some event))
      → ((take_event have w (some event) (some info) (some taken)).0 ≡ Ret.ok)
        × ((take_event have w (some event) (some info) (some taken)).2 ≡ some true)
  event_init-take_event old h e event info taken (inl m) =
      take_event-supported event info taken (publisher_event_init-IsMade have old h e event m)
  event_init-take_event old h e event info taken (inr m) =
      take_event-supported event info taken (subscription_event_init-IsMade have old h e event m)

-- publisher_event_init also accepts the events of readers: of such an event, `condition` takes the
-- address of the publisher for that of a subscriber.
pub publisher_event_init-reader :
    (have : Bool) (old : Event) (address : ℕ) (e : RosEvent)
    → ros_event_for_reader have e ≡ true
    → (event : Event) × (publisher_event_init have
          (some old)
          (some (record { ours = true; address = address }))
          e
        ≡ (Ret.ok, some event))
      × (condition have event ≡ Target.subscriber address)
unfolding publisher_event_init condition is_event_supported ros_event_to_dds ros_event_for_reader
publisher_event_init-reader have old address RosEvent.liveliness_changed r = (_, refl, refl)
publisher_event_init-reader have old address RosEvent.requested_deadline_missed r = (_, refl, refl)
publisher_event_init-reader have old address RosEvent.requested_qos_incompatible r = (_, refl, refl)
publisher_event_init-reader have old address RosEvent.message_lost r = rw r (_, refl, refl)
publisher_event_init-reader have old address RosEvent.liveliness_lost r = absurd (cc)
publisher_event_init-reader have old address RosEvent.offered_deadline_missed r = absurd (cc)
publisher_event_init-reader have old address RosEvent.offered_qos_incompatible r = absurd (cc)
publisher_event_init-reader have old address RosEvent.invalid r = absurd (cc)
