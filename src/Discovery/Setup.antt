-- ===== src/Discovery/Setup.antt =====
-- The start and the end of the graph: rmw_connextdds_graph_initialize, rmw_connextdds_graph_enable
-- and rmw_connextdds_graph_finalize of rmw_connextdds_common/src/common/rmw_graph.cpp, with the
-- built-in readers of ndds/dds_api_ndds.cpp.
use rmw_connextdds.Prelude.{Bool, true, false, not, if◌then◌else◌}
use rmw_connextdds.Ret.{Ret, is_ok, ◌then_ok◌}
use rmw_connextdds.Discovery.Thread.{
  Listener, ListenerCalls, discovery_thread_start, discovery_thread_stop,
}

-- The graph's part of rmw_context_impl_t: which of its pointers are set, whether the cache tells of
-- its changes, and the discovery thread.
pub record Setup : Type 0 where
  pub graph_initialized : Bool
  pub publisher : Bool
  pub subscriber : Bool
  pub graph_guard_condition : Bool
  pub on_change_callback : Bool
  pub dr_participants : Bool
  pub dr_publications : Bool
  pub dr_subscriptions : Bool
  pub listener : Listener

-- How the calls end: whether those that create give an object, and whether the others succeed.
pub record SetupCalls : Type 0 where
  pub create_publisher : Bool
  pub create_subscriber : Bool
  pub create_guard_condition : Bool
  pub builtin_subscriber : Bool
  pub lookup_participants : Bool
  pub lookup_publications : Bool
  pub lookup_subscriptions : Bool
  pub enable_pub : Bool
  pub enable_sub : Bool
  pub enable_builtin_subscriber : Bool
  pub enable_builtin_readers : Bool
  pub start : ListenerCalls
  pub stop : ListenerCalls
  pub destroy_guard_condition : Bool
  pub destroy_subscriber : Bool
  pub destroy_publisher : Bool

-- `if (failed) return rc;`, or the change that a success makes.
abbrev pub or_return : Ret → Bool → (Setup → Setup) → Setup → Ret × Setup
or_return rc b change s = if b then (Ret.ok, change s) else (rc, s)

-- rmw_connextdds_dcps_participant_get_reader and those for publications and subscriptions.
abbrev pub get_reader : SetupCalls → Bool → (Setup → Setup) → Setup → Ret × Setup
get_reader T lookup change s =
    or_return Ret.error T.builtin_subscriber (λ t. t) s then_ok or_return Ret.error lookup change

-- All of graph_initialize but its last assignment.
unfoldable pub initialize_steps : SetupCalls → Setup → Ret × Setup
initialize_steps T s =
    or_return Ret.error (not s.graph_initialized) (λ t. t) s
    then_ok (λ t.
        or_return Ret.error T.create_publisher (λ u. record u { publisher = true })
          (record t { publisher = false }))
    then_ok (λ t.
        or_return Ret.error T.create_subscriber (λ u. record u { subscriber = true })
          (record t { subscriber = false }))
    then_ok (λ t.
        or_return Ret.bad_alloc T.create_guard_condition
          (λ u. record u { graph_guard_condition = true; on_change_callback = true })
          (record t { graph_guard_condition = false }))
    then_ok get_reader T T.lookup_participants (λ t. record t { dr_participants = true })
    then_ok get_reader T T.lookup_publications (λ t. record t { dr_publications = true })
    then_ok get_reader T T.lookup_subscriptions (λ t. record t { dr_subscriptions = true })

unfoldable pub graph_initialize : SetupCalls → Setup → Ret × Setup
unfolding initialize_steps
graph_initialize T s =
    initialize_steps T s then_ok (λ t. (Ret.ok, record t { graph_initialized = true }))

-- rmw_connextdds_enable_builtin_readers; `enable_builtin_readers` is for the three topics and
-- readers, of which the first that fails ends the call.
unfoldable pub enable_builtin_readers : SetupCalls → Setup → Ret × Setup
enable_builtin_readers T s =
    or_return Ret.error T.builtin_subscriber (λ t. t) s
    then_ok or_return Ret.error T.enable_builtin_subscriber (λ t. t)
    then_ok or_return Ret.error T.enable_builtin_readers (λ t. t)

unfoldable pub graph_enable : SetupCalls → Setup → Ret × Setup
unfolding enable_builtin_readers discovery_thread_start
graph_enable T s =
    or_return Ret.error T.enable_pub (λ t. t) s
    then_ok or_return Ret.error T.enable_sub (λ t. t)
    then_ok enable_builtin_readers T
    then_ok (λ t.
        let (rc, l) = discovery_thread_start T.start t.listener in (rc, record t { listener = l }))

-- `if (nullptr != object) { if (failed to destroy) return RMW_RET_ERROR; object = nullptr; }`
abbrev pub destroy : Bool → Bool → (Setup → Setup) → Setup → Ret × Setup
destroy object b reset s = if object then or_return Ret.error b reset s else (Ret.ok, s)

-- The discovery thread is stopped, and any failure of that is an error.
unfoldable pub stop_thread : SetupCalls → Setup → Ret × Setup
unfolding discovery_thread_stop
stop_thread T s =
    let (rc, l) = discovery_thread_stop T.stop s.listener in
    (if is_ok rc then Ret.ok else Ret.error, record s { listener = l })

-- What graph_finalize does when the graph is initialized.
unfoldable pub finalize_all : SetupCalls → Setup → Ret × Setup
unfolding stop_thread
finalize_all T s =
    stop_thread T s
    then_ok (λ t. (Ret.ok, record t { on_change_callback = false }))
    then_ok (λ t.
        destroy t.graph_guard_condition T.destroy_guard_condition
          (λ u. record u { graph_guard_condition = false }) t)
    then_ok (λ t.
        destroy t.subscriber T.destroy_subscriber (λ u. record u { subscriber = false }) t)
    then_ok (λ t. destroy t.publisher T.destroy_publisher (λ u. record u { publisher = false }) t)
    then_ok (λ t. (Ret.ok, record t { graph_initialized = false }))

unfoldable pub graph_finalize : SetupCalls → Setup → Ret × Setup
unfolding finalize_all
graph_finalize T s = if not s.graph_initialized then (Ret.ok, s) else finalize_all T s
