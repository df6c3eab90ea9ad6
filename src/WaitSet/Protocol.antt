-- ===== src/WaitSet/Protocol.antt =====
-- The states of a wait set and the threads that move it between them: the sections of
-- RMW_Connext_WaitSet::wait and RMW_Connext_WaitSet::invalidate that hold `mutex_internal`, each a
-- step, with what a thread does between two of them as a place of its own, and the calls of
-- `state_cond.notify_all()`, which are steps of their own after the mutex is released.
use rmw_connextdds.Prelude.{ℕ, Bool, true, false, ◌≡◌, ◌≢◌, update}

pub data WaitSetState : Type 0 where
  free acquiring blocked releasing invalidating : WaitSetState

-- Where a thread stands.
pub data Place : Type 0 where
  outside : Place  -- in neither function
  queueing : Place  -- `wait`, asleep in the wait for the end of an invalidation
  woken : Place  -- `wait`, woken from there, before it has the mutex again
  attaching : Place  -- `wait`, from the acquisition to the call of DDS_WaitSet_wait
  sleeping : Place  -- `wait`, in DDS_WaitSet_wait
  processing : Place  -- `wait`, in process_wait
  failing : Place  -- `wait`, returning an error, before its first scope exit
  cleaning : Place  -- `wait`, returning an error, in the scope exit that detaches
  invalidating : Place  -- `invalidate`, detaching the free wait set
  awaiting : Place  -- `invalidate`, asleep in the wait for the next state
  signalled : Place  -- `invalidate`, woken from there, before it has the mutex again

-- `notifying` tells which threads have still to call `notify_all` after a change of the state.
pub record System : Type 0 where
  pub state : WaitSetState
  pub place : ℕ → Place
  pub notifying : ℕ → Bool

-- A step of one thread: the wait set's state and the thread's place, before and after, and whether
-- the thread goes on with a call of `notify_all`.
pub data Move : WaitSetState → Place → WaitSetState → Place → Bool → Type 0 where
  acquire : Move WaitSetState.free Place.outside WaitSetState.acquiring Place.attaching true
  queue :
      Move WaitSetState.invalidating Place.outside WaitSetState.invalidating Place.queueing false
  refuse :
      {s : WaitSetState}
      → s ≢ WaitSetState.free
      → s ≢ WaitSetState.invalidating
      → Move s Place.outside s Place.outside false
  refuse_invalidate :
      {s : WaitSetState}
      → s ≢ WaitSetState.free
      → s ≢ WaitSetState.acquiring
      → Move s Place.outside s Place.outside false
  wake : Move WaitSetState.free Place.woken WaitSetState.acquiring Place.attaching true
  wake_late : {s : WaitSetState} → s ≢ WaitSetState.free → Move s Place.woken s Place.outside false
  sleep : {s : WaitSetState} → Move s Place.attaching WaitSetState.blocked Place.sleeping true
  process : {s : WaitSetState} → Move s Place.sleeping WaitSetState.releasing Place.processing true
  return : {s : WaitSetState} → Move s Place.processing WaitSetState.free Place.outside true
  fail_attach : {s : WaitSetState} → Move s Place.attaching s Place.failing false
  fail_wait : {s : WaitSetState} → Move s Place.sleeping s Place.failing false
  fail_process : {s : WaitSetState} → Move s Place.processing s Place.failing false
  release : {s : WaitSetState} → Move s Place.failing WaitSetState.free Place.cleaning true
  cleaned : {s : WaitSetState} → Move s Place.cleaning s Place.outside false
  invalidate :
      Move WaitSetState.free Place.outside WaitSetState.invalidating Place.invalidating false
  invalidated : {s : WaitSetState} → Move s Place.invalidating WaitSetState.free Place.outside true
  await : Move WaitSetState.acquiring Place.outside WaitSetState.acquiring Place.awaiting false
  awaited : {s : WaitSetState} → Move s Place.signalled s Place.outside false

-- Where a thread stands once it is woken, if it was asleep on `state_cond`.
abbrev pub wake_up : Place → Place
wake_up Place.queueing = Place.woken
wake_up Place.awaiting = Place.signalled
wake_up p = p

-- A thread that has nothing to notify makes a move, or one that has wakes all that are asleep.
pub data Step (s : System) : System → Type 0 where
  turn :
      (i : ℕ) {state : WaitSetState} {place : Place} {told : Bool}
      → s.notifying i ≡ false
      → Move s.state (s.place i) state place told
      → Step s (record {
        state = state;
        place = update s.place i place;
        notifying = update s.notifying i told;
      })
  notify_all :
      (i : ℕ)
      → s.notifying i ≡ true
      → Step s
          (record s { place = λ j. wake_up (s.place j); notifying = update s.notifying i false })

abbrev pub init : System
init = record { state = WaitSetState.free; place = λ i. Place.outside; notifying = λ i. false }

-- A thread may also wake up without a notification.
pub data Reach : System → Type 0 where
  start : Reach init
  later : {s t : System} → Reach s → Step s t → Reach t
  spurious :
      {s : System} (i : ℕ)
      → Reach s
      → Reach (record s { place = update s.place i (wake_up (s.place i)) })
