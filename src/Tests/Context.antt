-- ===== src/Tests/Context.antt =====
-- The context at concrete outcomes of the calls of DDS.
use rmw_connextdds.Prelude.{ℕ, ◌≡◌, ◌≢◌, ◌⊎◌, refl, false, true, [], none, some, Bool, arith}
use rmw_connextdds.Ret.{Ret}
use rmw_connextdds.Names.Text.{codes}
use rmw_connextdds.Context.State.{
  TopicCalls, Calls, Context, clean_up, next_client_id, release_publisher, release_subscriber,
  release_participant, release_factory,
}
use rmw_connextdds.Context.Nodes.{
  initialize_node, finalize_node, initialize_first, initialize_dds, adopt_factory, create_entities,
  enable_entities,
}
use rmw_connextdds.Context.Lifecycle.{
  Releases, IsEmpty, IsRunning, after_calls, next_client_id-distinct,
}
use rmw_connextdds.Context.Startup.{initialize_node-first}
use rmw_connextdds.Context.Lifetime.{
  initialize_node-after_failure, finalize_node-initialize_node, finalize_node-last,
}

-- Every call succeeds, but enabling the publisher does as `enabled` says.
abbrev calls : Bool → Calls
calls enabled = record {
  environment = some (codes "my_lib");
  participant_factory = some 1;
  participant_qos = true;
  configure_security = true;
  create_participant = true;
  default_publisher_qos = true;
  create_publisher = true;
  default_subscriber_qos = true;
  create_subscriber = true;
  graph_initialize = true;
  enable_participant = true;
  enable_subscriber = true;
  enable_publisher = enabled;
  graph_enable = true;
  graph_finalize = true;
  delete_publisher_entities = true;
  delete_publisher = true;
  delete_subscriber_entities = true;
  delete_subscriber = true;
  delete_participant_entities = true;
  delete_participant = true;
  finalize_participant_factory = true;
  outstanding_participants = false;
  finalize_instance = true;
}

releases : (b : Bool) → Releases (calls b)
releases b = record {
  graph_finalize = refl;
  delete_publisher_entities = refl;
  delete_publisher = refl;
  delete_subscriber_entities = refl;
  delete_subscriber = refl;
  delete_participant_entities = refl;
  delete_participant = refl;
  finalize_participant_factory = refl;
  finalize_instance = refl;
}

abbrev empty : Context
empty = record {
  node_count = 0;
  localhost_only = false;
  qos_ctx_namespace = [];
  qos_ctx_name = [];
  qos_library = [];
  factory = none;
  participant = false;
  dds_pub = false;
  dds_sub = false;
  client_service_id = 4_294_967_295;
  gv_factory = none;
}

abbrev running : ℕ → Context
running n = record empty {
  node_count = n;
  factory = some 1;
  participant = true;
  dds_pub = true;
  dds_sub = true;
  gv_factory = some 1;
}

empty-IsEmpty : IsEmpty empty
empty-IsEmpty = record { participant = refl; dds_pub = refl; dds_sub = refl }

next_client_id-distinct_example :
    (next_client_id (after_calls 0 empty)).0 ≢ (next_client_id (after_calls 2 empty)).0
next_client_id-distinct_example =
    next_client_id-distinct 0 2 empty (omega arith) (omega arith) (omega arith)

initialize_node-first_example :
    (((initialize_node (calls true) (codes "n") (codes "/") true empty).0 ≡ Ret.ok)
      × IsRunning (initialize_node (calls true) (codes "n") (codes "/") true empty).1
      × ((initialize_node (calls true) (codes "n") (codes "/") true empty).1.node_count ≡ 1))
    ⊎ (((initialize_node (calls true) (codes "n") (codes "/") true empty).0 ≡ Ret.error)
        × IsEmpty (initialize_node (calls true) (codes "n") (codes "/") true empty).1)
initialize_node-first_example =
    initialize_node-first (calls true) (codes "n") (codes "/") true empty (releases true) refl
      empty-IsEmpty

-- The publisher cannot be enabled.
abbrev failed : Ret × Context
failed = initialize_node (calls false) (codes "n") (codes "/") true empty

failed_late : (failed.0 ≡ Ret.error) × (failed.1.node_count ≡ 1)
unfolding initialize_node initialize_first initialize_dds adopt_factory create_entities
    enable_entities clean_up release_publisher release_subscriber release_participant
    release_factory
failed_late = (refl, refl)

initialize_node-after_failure_example :
    ((initialize_node (calls true) (codes "m") (codes "/") true failed.1).0 ≡ Ret.ok)
    × IsEmpty (initialize_node (calls true) (codes "m") (codes "/") true failed.1).1
initialize_node-after_failure_example =
    initialize_node-after_failure (calls false) (calls true) (codes "n") (codes "m") (codes "/")
      (codes "/") true empty (releases false) refl empty-IsEmpty failed_late.0 failed_late.1

finalize_node-initialize_node_example :
    ((initialize_node (calls true) (codes "n") (codes "/") false (running 2)).0 ≡ Ret.ok)
    × (finalize_node
          (calls true)
          (initialize_node (calls true) (codes "n") (codes "/") false (running 2)).1
        ≡ (Ret.ok, running 2))
finalize_node-initialize_node_example =
    finalize_node-initialize_node (calls true) (calls true) (codes "n") (codes "/") (running 2)
      (omega arith) (omega arith)

finalize_node-last_example :
    ((finalize_node (calls true) (running 1)).0 ≡ Ret.ok)
    × IsEmpty (finalize_node (calls true) (running 1)).1
    × ((finalize_node (calls true) (running 1)).1.node_count ≡ 0)
finalize_node-last_example = finalize_node-last (calls true) (running 1) (releases true) refl

abbrev topic_calls : TopicCalls
topic_calls = record {
  lookup_topicdescription = true;
  find_topic = false;
  create_topic = true;
  enable = true;
}
