-- ===== src/Tests/WaitSet.antt =====
-- The wait set at concrete inputs: DDS does what it is asked, and its state is the list of the
-- conditions that are triggered.
use rmw_connextdds.Prelude.{
  ℕ, ◌≡◌, ◌⊎◌, ◌↔◌, inl, inr, refl, true, false, List, [], ◌∷◌, none, some, arith, All, update,
  if◌then◌else◌, ◌==◌, ◌||◌, ltb, leb, Bool-cases,
}
use rmw_connextdds.Ret.{Ret}
use rmw_connextdds.Endpoint.Sample.{Sample}
use rmw_connextdds.Endpoint.Loan.{
  Subscriber, loan_messages_if_needed, has_data, loan_messages, take_samples, set_data_available,
  return_messages, return_samples,
}
use rmw_connextdds.Endpoint.Queue.{queue}
use rmw_connextdds.Tests.Endpoint.{platform, documented, subscriber}
use rmw_connextdds.WaitSet.Protocol.{
  WaitSetState, Place, System, Move, wake_up, turn, notify_all, Reach, start, later,
}
use rmw_connextdds.WaitSet.Events.{RosEvent, DdsPolicyId, ros_event_to_dds, ros_event_for_reader}
use rmw_connextdds.WaitSet.Handles.{
  Event, Target, Statuses, Available, publisher_event_init, is_event_supported, condition,
  publisher_event_init-reader,
}
use rmw_connextdds.WaitSet.Conditions
use rmw_connextdds.WaitSet.Conditions.{
  attach_to, attach_data, dds_attach, reset_statuses, enable_statuses, reset_trigger, Dds,
  DdsCondition, DetachCode, WaitCode, Condition, Elements, WaitSet, World,
}
use rmw_connextdds.WaitSet.Attach.{
  Heap, Arrays, attach, elements, attached_conditions, refresh_attach, detach, require_attach,
  attach_all, reset_event, attach_subscriber, attach_client, attach_service, attach_event,
  attach_guard, attach_reader, claim,
}
use rmw_connextdds.WaitSet.Attached.{attach-attached}
use rmw_connextdds.WaitSet.Loops.{Unclaimed}
use rmw_connextdds.WaitSet.Built.{Joins}
use rmw_connextdds.WaitSet.Exclusion.{is_owner, Reach-exclusive}
use rmw_connextdds.WaitSet.Progress.{cleaning_race}
use rmw_connextdds.WaitSet.Refresh.{refresh_attach_iff}
use rmw_connextdds.WaitSet.Wait.{
  Program, wait, wait_acquired, wait_blocked, process_wait, process_readers, process_guards,
  process_events, active_event, active_condition, owns,
}
use rmw_connextdds.WaitSet.WaitLaws.{Holds}
use rmw_connextdds.WaitSet.Outcome.{WasFree, Settled, Refused, wait_lem}
use rmw_connextdds.WaitSet.Reports.{Shows, wait-Shows}

abbrev dds : Dds
dds = record {
  State = List DdsCondition;
  attach_condition = λ ws c st. (true, st);
  detach_condition = λ ws c st. (DetachCode.ok, st);
  set_enabled_statuses = λ c m st. (true, st);
  get_enabled_statuses = λ c st s. false;
  set_trigger_value = λ c b st. (true, st);
  get_status_changes = λ t st s. false;
  ensure_length = λ n st. (true, st);
  duration_infinite = record { sec = 2_147_483_647; nanosec = 4_294_967_295 };
  wait = λ ws t st. (WaitCode.ok, st, st);
}

abbrev heap : Heap
heap = record {
  subscriber_condition = λ a. a;
  publisher_condition = λ a. a;
  client_subscriber = λ a. a;
  service_subscriber = λ a. a;
  events = λ e. record { ours = true; address = e; event_type = RosEvent.liveliness_changed };
}

abbrev nothing : Elements
nothing = record { subscribers = []; conditions = []; clients = []; services = []; events = [] }

abbrev world : World dds
world = record {
  conditions =
      λ c. record { attached_waitset = none; attached_waitset_dcond = none; deleted = false };
  waitsets = λ ws. record { state = WaitSetState.free; attached = nothing; cache = [] };
  dds = DdsCondition.of 30 ∷ [];
}

abbrev arrays : Arrays
arrays = record {
  subscribers = some (10 ∷ 11 ∷ []);
  conditions = some (30 ∷ []);
  clients = some (12 ∷ []);
  services = none;
  events = some (14 ∷ []);
}

abbrev others : World dds → World dds
others w = w

-- Subscriber 11 has no sample, the others have some.
abbrev subscribers : ℕ → Subscriber platform
subscribers a =
    if a == 11
    then record subscriber { reader = []; loan_data = []; loan_len = 0; loan_next = 0 }
    else subscriber

abbrev program : Program platform dds true heap
program = record { world = world; subscribers = subscribers }

abbrev unclaimed : Unclaimed dds true heap 7 arrays world.conditions
unclaimed = record {
  subscribers = (inl refl, (inl refl, tt));
  conditions = (inl refl, tt);
  clients = (inl refl, tt);
  services = tt;
  events = (inl refl, tt);
}

loan_messages-ok : (s : Subscriber platform) → (loan_messages platform s).0 ≡ Ret.ok
unfolding loan_messages take_samples set_data_available
loan_messages-ok s =
    elim s.reader as (λ r. (loan_messages platform (record s { reader = r })).0 ≡ Ret.ok) [
      | [] ↦ refl
      | x ∷ xs ↦ refl
    ]

loans : (s : Subscriber platform) → (loan_messages_if_needed platform s).0 ≡ Ret.ok
unfolding loan_messages_if_needed return_messages return_samples set_data_available
loans s = elim (Bool-cases ((s.loan_len == 0) || leb s.loan_len s.loan_next)) [
  | inr n ↦ rw n refl
  | inl y ↦ elim (Bool-cases (ltb 0 s.loan_len)) [
    | inl z ↦ rw (y, z) (loan_messages-ok _)
    | inr z ↦ rw (y, z) (loan_messages-ok s)
  ]
]

abbrev queues : ℕ → List Sample
queues a = queue platform documented (subscribers a)

holds : Holds platform documented queues subscribers
holds = record {
  valid = λ k. elim (Bool-cases (k == 11)) [
    | inl e ↦ rw e (record { len = refl; next = omega arith })
    | inr e ↦ rw e (record { len = refl; next = omega arith })
  ];
  queues = λ k. refl;
}

waits : (wait platform dds true heap others (λ s. s) 7 arrays none program).0 ≡ Ret.ok
unfolding wait wait_acquired wait_blocked process_wait process_readers process_guards process_events
    active_event active_condition owns reset_trigger condition ros_event_to_dds ros_event_for_reader
    has_data loan_messages_if_needed return_messages return_samples loan_messages take_samples
    set_data_available attach detach refresh_attach require_attach attach_all reset_event
    attach_subscriber attach_client attach_service attach_event attach_guard attach_reader claim
    Conditions.attach attach_to attach_data dds_attach reset_statuses enable_statuses
waits = refl

wait-Shows_example :
    Shows platform documented loans dds true heap 7 others
      (λ s. s)
      queues
      arrays
      (wait platform dds true heap others (λ s. s) 7 arrays none program)
wait-Shows_example =
    wait-Shows platform documented loans dds true heap 7 others (λ s. s) arrays none program queues
      refl unclaimed holds waits

wait_lem_example :
    WasFree platform dds true heap 7 others (λ s. s) program
      × Settled platform dds true heap 7
          (wait platform dds true heap others (λ s. s) 7 arrays none program)
    ⊎ Refused platform dds true heap 7 others
        (λ s. s)
        arrays
        program
        (wait platform dds true heap others (λ s. s) 7 arrays none program)
wait_lem_example = wait_lem platform dds true heap 7 others (λ s. s) arrays none program

refreshes : refresh_attach nothing arrays ≡ true
unfolding refresh_attach require_attach
refreshes = refl

attaches : (attach dds true heap others 7 arrays world).0 ≡ Ret.ok
unfolding attach detach refresh_attach require_attach attach_all reset_event attach_subscriber
    attach_client attach_service attach_event attach_guard attach_reader claim Conditions.attach
    attach_to attach_data dds_attach reset_statuses enable_statuses condition ros_event_to_dds
    ros_event_for_reader
attaches = refl

attach-attached_example :
    (((attach dds true heap others 7 arrays world).1.waitsets 7).attached ≡ elements arrays)
    × All (Joins dds true heap 7 (attach dds true heap others 7 arrays world).1.conditions) (
        attached_conditions dds true heap
          ((attach dds true heap others 7 arrays world).1.waitsets 7))
attach-attached_example =
    attach-attached dds true heap 7 others arrays world unclaimed refreshes attaches

refresh_attach_iff_example : (refresh_attach nothing arrays ≡ false) ↔ (nothing ≡ elements arrays)
refresh_attach_iff_example = refresh_attach_iff nothing arrays

-- Thread 0 invalidates the wait set while thread 1 waits for the end of that.
abbrev queued : System
queued = record {
  state = WaitSetState.invalidating;
  place = update (update (λ i. Place.outside) 0 Place.invalidating) 1 Place.queueing;
  notifying = update (update (λ i. false) 0 false) 1 false;
}

queued-Reach : Reach queued
queued-Reach = later (later start (turn 0 refl Move.invalidate)) (turn 1 refl Move.queue)

Reach-exclusive_example :
    ((i j : ℕ) → is_owner (queued.place i) ≡ true → is_owner (queued.place j) ≡ true → i ≡ j)
    × ((queued.state ≡ WaitSetState.free) ↔ ((i : ℕ) → is_owner (queued.place i) ≡ false))
Reach-exclusive_example = Reach-exclusive queued-Reach

-- Thread 0 has told that it acquired the wait set, and has failed in wait.
abbrev failed : System
failed = record {
  state = WaitSetState.acquiring;
  place = update (λ j. wake_up (update (λ i. Place.outside) 0 Place.attaching j)) 0 Place.failing;
  notifying = update (update (update (λ i. false) 0 true) 0 false) 0 false;
}

failed-Reach : Reach failed
failed-Reach =
    later (later (later start (turn 0 refl Move.acquire)) (notify_all 0 refl))
      (turn 0 refl Move.fail_attach)

cleaning_race_example :
    (t : System) × Reach t × (t.place 0 ≡ Place.cleaning) × (t.place 1 ≡ Place.attaching)
cleaning_race_example = cleaning_race 0 1 failed-Reach refl refl

abbrev statuses : Statuses
statuses = record {
  reader = λ a. record {
    liveliness_changed = some (record {
      alive_count = 1;
      alive_count_change = 1;
      not_alive_count = 0;
      not_alive_count_change = 0;
    });
    requested_deadline_missed = some (record { total_count = 2; total_count_change = 1 });
    requested_incompatible_qos = some (record {
      total_count = 1;
      total_count_change = 1;
      last_policy_id = DdsPolicyId.reliability;
    });
    sample_lost = some (record { total_count = 0; total_count_change = 0 });
  };
  writer = λ a. record {
    liveliness_lost = some (record { total_count = 0; total_count_change = 0 });
    offered_deadline_missed = some (record { total_count = 0; total_count_change = 0 });
    offered_incompatible_qos = some (record {
      total_count = 1;
      total_count_change = 1;
      last_policy_id = DdsPolicyId.durability;
    });
  };
}

statuses-Available : Available statuses
statuses-Available = record {
  liveliness_changed = λ a. cc;
  requested_deadline_missed = λ a. cc;
  requested_incompatible_qos = λ a. cc;
  sample_lost = λ a. cc;
  liveliness_lost = λ a. cc;
  offered_deadline_missed = λ a. cc;
  offered_incompatible_qos = λ a. cc;
}

abbrev old : Event
old = record { ours = false; address = 0; event_type = RosEvent.invalid }

abbrev made : Event
made = record { ours = true; address = 5; event_type = RosEvent.offered_deadline_missed }

made_by :
    publisher_event_init true
      (some old)
      (some (record { ours = true; address = 5 }))
      RosEvent.offered_deadline_missed
    ≡ (Ret.ok, some made)
unfolding publisher_event_init is_event_supported ros_event_to_dds
made_by = refl

for_reader : ros_event_for_reader true RosEvent.liveliness_changed ≡ true
unfolding ros_event_for_reader
for_reader = refl

publisher_event_init-reader_example :
    (event : Event) × (publisher_event_init true
        (some old)
        (some (record { ours = true; address = 5 }))
        RosEvent.liveliness_changed
      ≡ (Ret.ok, some event))
    × (condition true event ≡ Target.subscriber 5)
publisher_event_init-reader_example =
    publisher_event_init-reader true old 5 RosEvent.liveliness_changed for_reader
