-- ===== src/Tests/Discovery.antt =====
-- Discovery at concrete samples, over the graph cache of the tests of the graph.
use rmw_connextdds.Prelude.{
  Bool, not, if◌then◌else◌, ℕ, ◌≡◌, ◌≢◌, refl, true, false, List, [], ◌∷◌, some,
}
use rmw_connextdds.Ret.{Ret}
use rmw_connextdds.Names.Text.{codes, text_eq}
use rmw_connextdds.Endpoint.Identity.{guid_to_gid, zeros}
use rmw_connextdds.Qos.Convert.{
  readerwriter_qos_to_ros, history_to_ros, reliability_to_ros, durability_to_ros, liveliness_to_ros,
  lifespan_to_ros,
}
use rmw_connextdds.Graph.Cache.{add_entity}
use rmw_connextdds.Tests.Graph.{cache, undoes, policies, profile, context}
use rmw_connextdds.Discovery.Samples.{
  Learning, Sample, valid, invalid, InstanceState, Batch, EndpointData, for_samples, key_to_gid,
  on_endpoint, add_remote_entity, publication_on_data, subscription_on_data,
}
use rmw_connextdds.Discovery.Delivery.{delivered, publication_on_data-own, on_endpoint-disposed}
use rmw_connextdds.Discovery.Presence.{
  Maps, Holds, unless_said, last_said, publication_on_data-Holds,
}
use rmw_connextdds.Graph.Cache.{GraphCache, Context}
use rmw_connextdds.Endpoint.Identity.{Gid}
use rmw_connextdds.Discovery.Thread.{
  Active, Round, ThreadCalls, with_waitset, discovery_thread, should_exit,
}
use rmw_connextdds.Discovery.Ending.{discovery_thread-ends}
use rmw_connextdds.Discovery.Thread.{ListenerCalls}
use rmw_connextdds.Discovery.Setup.{
  Setup, SetupCalls, graph_initialize, graph_enable, graph_finalize,
}
use rmw_connextdds.Discovery.Teardown.{graph_finalize-graph_initialize}
use rmw_connextdds.Discovery.Down.{IsDown}

-- A key is the identifier that it stands for.
abbrev learning : Learning cache
learning = record {
  add_participant = λ g enclave c. c;
  update_participant_entities = λ msg c. c;
  builtin_topic_key_to_guid = λ key. key;
  parse_key_value = λ bytes. [];
}

-- An endpoint of the participant whose key begins with `n`; this participant's begins with 1.
abbrev endpoint : ℕ → EndpointData
endpoint n = record {
  key = 9 ∷ zeros 15;
  participant_key = n ∷ zeros 15;
  topic_name = codes "rt/chatter";
  type_name = codes "String_";
  policies = policies;
}

abbrev own_batches : List (Batch (Sample EndpointData))
own_batches =
    record {
      samples = valid (endpoint 1) ∷ invalid InstanceState.alive [] ∷ [];
      return_loan = true;
    }
    ∷ record { samples = valid (endpoint 1) ∷ []; return_loan = false }
    ∷ []

publication_on_data-own_example :
    ((publication_on_data cache learning own_batches (context true)).1 ≡ context true)
    × ((subscription_on_data cache learning own_batches (context true)).1 ≡ context true)
unfolding guid_to_gid
publication_on_data-own_example =
    publication_on_data-own cache learning own_batches (context true) (refl, (tt, (refl, tt)))

not_own : (key_to_gid cache learning (endpoint 2).participant_key).bytes ≢ (context true).gid.bytes
unfolding guid_to_gid
not_own e = cc

added : (add_remote_entity cache learning (endpoint 2) false (context true)).0 ≡ Ret.ok
unfolding add_remote_entity guid_to_gid add_entity readerwriter_qos_to_ros history_to_ros
    reliability_to_ros durability_to_ros liveliness_to_ros lifespan_to_ros
added = refl

on_endpoint-disposed_example :
    (for_samples
      (on_endpoint cache learning false)
      (valid (endpoint 2) ∷ invalid InstanceState.not_alive_disposed (9 ∷ zeros 15) ∷ [])
      (context true)).cache
    ≡ (context true).cache
on_endpoint-disposed_example =
    on_endpoint-disposed cache learning undoes false (endpoint 2) (context true) not_own added

-- A cache that knows only which entities there are.
abbrev same_kind : Bool → Bool → Bool
same_kind true r = r
same_kind false r = not r

abbrev maps : GraphCache
maps = record {
  State = List ℕ → Bool → Bool;
  Message = ℕ;
  Network = Bool;
  add_entity = λ g topic type dp q r c. (
    not (c g.bytes r),
    λ b k. if same_kind r k then (if text_eq g.bytes b then true else c b k) else c b k,
  );
  remove_entity = λ g r c. (
    c g.bytes r,
    λ b k. if same_kind r k then (if text_eq g.bytes b then false else c b k) else c b k,
  );
  add_node = λ g n c. (0, c);
  remove_node = λ g n c. (1, c);
  associate_writer = λ w dp n c. (2, c);
  dissociate_writer = λ w dp n c. (3, c);
  associate_reader = λ r dp n c. (4, c);
  dissociate_reader = λ r dp n c. (5, c);
  remove_participant = λ g c. c;
  publish = λ msg up. (Ret.ok, up);
  uninitialized_guid = zeros 16;
  identifier = codes "rmw_connextdds";
  gid_storage_size = 24;
  qos_profile_default = profile;
}

same_kind_self : (r : Bool) → same_kind r r ≡ true
same_kind_self true = refl
same_kind_self false = refl

same_kind-not : (r : Bool) → same_kind r (not r) ≡ false
same_kind-not true = refl
same_kind-not false = refl

abbrev maps-Maps : Maps maps
maps-Maps = record {
  holds = λ e r c. c e.bytes r;
  add_entity-same = λ g topic type dp q r c e. rw (same_kind_self r) refl;
  add_entity-other = λ g topic type dp q r c e. rw (same_kind-not r) refl;
  remove_entity-same = λ g r c e. rw (same_kind_self r) refl;
  remove_entity-other = λ g r c e. rw (same_kind-not r) refl;
}

abbrev learning_maps : Learning maps
learning_maps = record {
  add_participant = λ g enclave c. c;
  update_participant_entities = λ msg c. c;
  builtin_topic_key_to_guid = λ key. key;
  parse_key_value = λ bytes. [];
}

abbrev no_entities : Context maps
no_entities = record {
  gid = (context true).gid;
  has_pub = true;
  cache = λ b r. false;
  network = true;
}

-- The endpoint of another participant is announced, and then has no writers any more.
abbrev remote_batches : List (Batch (Sample EndpointData))
remote_batches =
    record { samples = valid (endpoint 2) ∷ valid (endpoint 1) ∷ []; return_loan = true }
    ∷ record {
      samples = invalid InstanceState.not_alive_no_writers (9 ∷ zeros 15) ∷ [];
      return_loan = true;
    }
    ∷ []

abbrev remote : Gid
remote = key_to_gid maps learning_maps (9 ∷ zeros 15)

publication_on_data-Holds_example :
    Holds maps learning_maps maps-Maps false remote
      (unless_said
        (last_said maps learning_maps no_entities.gid false remote (delivered remote_batches))
        false)
      no_entities
      (publication_on_data maps learning_maps remote_batches no_entities).1
    × Holds maps learning_maps maps-Maps true remote
        (unless_said
          (last_said maps learning_maps no_entities.gid true remote (delivered remote_batches))
          false)
        no_entities
        (subscription_on_data maps learning_maps remote_batches no_entities).1
publication_on_data-Holds_example =
    publication_on_data-Holds maps learning_maps maps-Maps remote_batches remote no_entities

abbrev thread_calls : ThreadCalls
thread_calls = record {
  new_waitset = true;
  dr_participants = true;
  dr_publications = true;
  dr_subscriptions = true;
  attach_participants = true;
  attach_publications = true;
  attach_subscriptions = true;
  reset_statuses = true;
  enable_statuses = true;
  attach_partinfo = true;
  attach_exit = true;
  set_maximum = true;
  detach_exit = true;
  detach_partinfo = true;
  detach_participants = true;
  detach_subscriptions = true;
  detach_publications = true;
}

-- A publication is announced, and then the thread is told to end.
abbrev rounds : List (Round cache learning)
rounds =
    record { active_conditions = some (Active.dcps_pub own_batches ∷ []); thread_is_running = true }
    ∷ record { active_conditions = some (Active.exit ∷ []); thread_is_running = true }
    ∷ []

told : should_exit cache learning (Active.exit ∷ []) ≡ true
unfolding should_exit
told = refl

discovery_thread-ends_example :
    ((discovery_thread cache learning thread_calls true rounds (context true)).0 ≡ true)
    × ((discovery_thread cache learning thread_calls true rounds (context true)).1
        ≡ with_waitset false)
unfolding should_exit
discovery_thread-ends_example =
    discovery_thread-ends cache learning thread_calls true rounds (context true)
      (record { exit = refl; partinfo = refl; dcps_part = refl; dcps_sub = refl; dcps_pub = refl })
      refl

abbrev listener_calls : ListenerCalls
listener_calls = record {
  create_guard_condition = true;
  create_thread = true;
  destroy_guard_condition = Ret.ok;
  trigger_guard_condition = Ret.ok;
  join = true;
}

abbrev setup_calls : SetupCalls
setup_calls = record {
  create_publisher = true;
  create_subscriber = true;
  create_guard_condition = true;
  builtin_subscriber = true;
  lookup_participants = true;
  lookup_publications = true;
  lookup_subscriptions = true;
  enable_pub = true;
  enable_sub = true;
  enable_builtin_subscriber = true;
  enable_builtin_readers = true;
  start = listener_calls;
  stop = listener_calls;
  destroy_guard_condition = true;
  destroy_subscriber = true;
  destroy_publisher = true;
}

abbrev no_graph : Setup
no_graph = record {
  graph_initialized = false;
  publisher = false;
  subscriber = false;
  graph_guard_condition = false;
  on_change_callback = false;
  dr_participants = false;
  dr_publications = false;
  dr_subscriptions = false;
  listener = record {
    listener_thread_gc = false;
    thread_is_running = false;
    listener_thread = false;
  };
}

graph_finalize-graph_initialize_example :
    ((graph_initialize setup_calls no_graph).0 ≡ Ret.ok
      → ((graph_finalize setup_calls
            (graph_enable setup_calls (graph_initialize setup_calls no_graph).1).1).0
          ≡ Ret.ok)
        × IsDown
            (graph_finalize setup_calls
              (graph_enable setup_calls (graph_initialize setup_calls no_graph).1).1).1)
    × ((graph_initialize setup_calls no_graph).0 ≢ Ret.ok
        → graph_finalize setup_calls (graph_initialize setup_calls no_graph).1
          ≡ (Ret.ok, (graph_initialize setup_calls no_graph).1))
graph_finalize-graph_initialize_example =
    graph_finalize-graph_initialize setup_calls setup_calls setup_calls no_graph refl refl
      (record {
        trigger = refl;
        join = refl;
        condition = refl;
        guard = refl;
        subscriber = refl;
        publisher = refl;
      })
      refl
