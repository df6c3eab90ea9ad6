-- ===== src/Discovery/Thread.antt =====
-- The discovery thread: rmw_connextdds_discovery_thread, rmw_connextdds_discovery_thread_start and
-- rmw_connextdds_discovery_thread_stop of rmw_connextdds_common/src/common/rmw_discovery.cpp.
use rmw_connextdds.Prelude.{
  Bool, true, false, ◌&&◌, not, List, [], ◌∷◌, Option, none, some, if◌then◌else◌,
}
use rmw_connextdds.Ret.{Ret, is_ok}
use rmw_connextdds.Graph.Cache.{GraphCache, Context}
use rmw_connextdds.Discovery.Samples.{
  Learning, Sample, Batch, ParticipantData, EndpointData, participant_on_data, publication_on_data,
  subscription_on_data, on_participant_info,
}

-- Which of the conditions are attached to the thread's wait set, and whether that exists.
pub record Attached : Type 0 where
  pub waitset : Bool
  pub exit : Bool
  pub partinfo : Bool
  pub dcps_part : Bool
  pub dcps_pub : Bool
  pub dcps_sub : Bool

-- Nothing is attached to the wait set, if there is one.
abbrev pub with_waitset : Bool → Attached
with_waitset waitset = record {
  waitset = waitset;
  exit = false;
  partinfo = false;
  dcps_part = false;
  dcps_pub = false;
  dcps_sub = false;
}

-- How the calls of the thread end: whether a reader is there, and whether a call succeeds.
pub record ThreadCalls : Type 0 where
  pub new_waitset : Bool
  pub dr_participants : Bool
  pub dr_publications : Bool
  pub dr_subscriptions : Bool
  pub attach_participants : Bool
  pub attach_publications : Bool
  pub attach_subscriptions : Bool
  pub reset_statuses : Bool
  pub enable_statuses : Bool
  pub attach_partinfo : Bool
  pub attach_exit : Bool
  pub set_maximum : Bool
  pub detach_exit : Bool
  pub detach_partinfo : Bool
  pub detach_participants : Bool
  pub detach_subscriptions : Bool
  pub detach_publications : Bool

-- A step that may go to `cleanup`.
infixl 20 ◌then_go◌
abbrev pub ◌then_go◌ : Bool × Attached → (Attached → Bool × Attached) → Bool × Attached
r then_go f = if r.0 then f r.1 else r

-- A reader's condition is attached, if there is a reader.
abbrev pub attach_reader : Bool → Bool → (Attached → Attached) → Attached → Bool × Attached
attach_reader reader attach mark a =
    if reader then (if attach then (true, mark a) else (false, a)) else (true, a)

abbrev pub check : Bool → (Attached → Attached) → Attached → Bool × Attached
check b mark a = if b then (true, mark a) else (false, a)

-- Up to the main loop.
unfoldable pub attach_conditions : ThreadCalls → Attached → Bool × Attached
attach_conditions T a =
    attach_reader T.dr_participants T.attach_participants (λ s. record s { dcps_part = true }) a
    then_go attach_reader T.dr_publications T.attach_publications
        (λ s. record s { dcps_pub = true })
    then_go attach_reader T.dr_subscriptions T.attach_subscriptions
        (λ s. record s { dcps_sub = true })
    then_go check T.reset_statuses (λ s. s)
    then_go check T.enable_statuses (λ s. s)
    then_go check T.attach_partinfo (λ s. record s { partinfo = true })
    then_go check T.attach_exit (λ s. record s { exit = true })
    then_go check T.set_maximum (λ s. s)

-- `if (attached) { if (failed to detach) return; }`
abbrev pub detach_one : Bool → Bool → (Attached → Attached) → Attached → Bool × Attached
detach_one attached detach unmark a =
    if attached then (if detach then (true, unmark a) else (false, a)) else (true, a)

-- From the label `cleanup` on.
unfoldable pub clean : ThreadCalls → Attached → Bool × Attached
clean T a =
    detach_one a.exit T.detach_exit (λ s. record s { exit = false }) a
    then_go detach_one a.partinfo T.detach_partinfo (λ s. record s { partinfo = false })
    then_go detach_one a.dcps_part T.detach_participants (λ s. record s { dcps_part = false })
    then_go detach_one a.dcps_sub T.detach_subscriptions (λ s. record s { dcps_sub = false })
    then_go detach_one a.dcps_pub T.detach_publications (λ s. record s { dcps_pub = false })
    then_go (λ s. (true, record s { waitset = false }))

module _ (C : GraphCache) (L : Learning C) where
  -- An active condition, with what its reader gives.
  pub data Active : Type 0 where
    exit : Active
    partinfo : List (Option C.Message) → Active
    dcps_part : List (Batch (Sample ParticipantData)) → Active
    dcps_pub : List (Batch (Sample EndpointData)) → Active
    dcps_sub : List (Batch (Sample EndpointData)) → Active
    unexpected : Active

  -- What one wait gives, `none` where it fails, and `thread_is_running` at the end of the round.
  pub record Round : Type 0 where
    pub active_conditions : Option (List Active)
    pub thread_is_running : Bool

  -- The first scan.
  unfoldable pub should_exit : List Active → Bool
  should_exit [] = false
  should_exit (exit ∷ cs) = true
  should_exit (partinfo takes ∷ cs) = should_exit cs
  should_exit (dcps_part bs ∷ cs) = should_exit cs
  should_exit (dcps_pub bs ∷ cs) = should_exit cs
  should_exit (dcps_sub bs ∷ cs) = should_exit cs
  should_exit (unexpected ∷ cs) = should_exit cs

  -- The second scan: false where it goes to `cleanup`.
  unfoldable pub process : List Active → Context C → Bool × Context C
  unfolding on_participant_info participant_on_data publication_on_data subscription_on_data
  process [] ctx = (true, ctx)
  process (exit ∷ cs) ctx = (false, ctx)
  process (partinfo takes ∷ cs) ctx = process cs (on_participant_info C L takes ctx).1
  process (dcps_part bs ∷ cs) ctx = process cs (participant_on_data C L bs ctx).1
  process (dcps_pub bs ∷ cs) ctx = process cs (publication_on_data C L bs ctx).1
  process (dcps_sub bs ∷ cs) ctx = process cs (subscription_on_data C L bs ctx).1
  process (unexpected ∷ cs) ctx = (false, ctx)

  -- One round: whether the loop goes on.
  unfoldable pub round : Round → Context C → Bool × Context C
  unfolding should_exit process
  round r ctx = elim r.active_conditions [
    | none ↦ (false, ctx)
    | some cs ↦
        let (ok, ctx1) = process cs ctx in
        if should_exit cs then (false, ctx) else (ok && r.thread_is_running, ctx1)
  ]

  -- The main loop: whether it has ended when the rounds are over, and what is known then.
  unfoldable pub main_loop : Bool → List Round → Context C → Bool × Context C
  unfolding round
  main_loop active [] ctx = (not active, ctx)
  main_loop active (r ∷ rs) ctx =
      let (goes_on, ctx1) = round r ctx in
      let rest = main_loop goes_on rs ctx1 in if active then rest else (true, ctx)

  -- The thread; `active` is `thread_is_running` at the start. Whether it has returned, which of its
  -- conditions are attached, and what is known.
  unfoldable pub discovery_thread :
      ThreadCalls → Bool → List Round → Context C → Bool × Attached × Context C
  unfolding attach_conditions main_loop clean
  discovery_thread T active rounds ctx =
      let (attached, a) = attach_conditions T (with_waitset true) in
      let (ended, ctx1) = main_loop active rounds ctx in
      if not T.new_waitset
      then (true, with_waitset false, ctx)
      else (if not attached
          then (true, (clean T a).1, ctx)
          else (if ended then (true, (clean T a).1, ctx1) else (false, a, ctx1)))

-- The part of rmw_dds_common::Context that starts and stops the thread.
pub record Listener : Type 0 where
  pub listener_thread_gc : Bool
  pub thread_is_running : Bool
  pub listener_thread : Bool

-- How the calls of the start and of the stop end.
pub record ListenerCalls : Type 0 where
  pub create_guard_condition : Bool
  pub create_thread : Bool
  pub destroy_guard_condition : Ret
  pub trigger_guard_condition : Ret
  pub join : Bool

-- `listener_thread_gc` tells whether there is a guard condition; the pointer is never reset.
unfoldable pub discovery_thread_start : ListenerCalls → Listener → Ret × Listener
discovery_thread_start T l =
    let l1 : Listener = record l { listener_thread_gc = true; thread_is_running = true } in
    let l2 : Listener = record l1 { thread_is_running = false } in
    if not T.create_guard_condition
    then (Ret.error, record l { listener_thread_gc = false })
    else (if T.create_thread then (Ret.ok, record l1 { listener_thread = true }) else (
      Ret.error,
      if is_ok T.destroy_guard_condition then record l2 { listener_thread_gc = false } else l2,
    ))

unfoldable pub discovery_thread_stop : ListenerCalls → Listener → Ret × Listener
discovery_thread_stop T l =
    let l1 : Listener = record l { thread_is_running = false } in
    let l2 : Listener = record l1 { listener_thread = false } in
    if not l.thread_is_running
    then (Ret.ok, l1)
    else (if not (is_ok T.trigger_guard_condition)
        then (T.trigger_guard_condition, l1)
        else (if not T.join
            then (Ret.error, l1)
            else (if is_ok T.destroy_guard_condition
                then (Ret.ok, record l2 { listener_thread_gc = false })
                else (T.destroy_guard_condition, l2))))
