-- ===== src/Tests/Resource.antt =====
-- Publishers, clients and services at concrete outcomes of the calls of DDS.
use rmw_connextdds.Prelude.{
  ℕ, ◌≡◌, ◌++◌, ◌∷◌, [], List, refl, Bool, true, false, none, some, arith, length, All,
}
use rmw_connextdds.Ret.{Ret}
use rmw_connextdds.Names.Text.{codes}
use rmw_connextdds.Names.Mangle.{reply_topic}
use rmw_connextdds.Context.State.{assert_topic}
use rmw_connextdds.Qos.Convert.{
  get_readerwriter_qos, set_history, set_reliability, set_durability, set_liveliness,
}
use rmw_connextdds.Tests.Qos.{constants, profile, policies}
use rmw_connextdds.Resource.Types.{Held, register_type_support}
use rmw_connextdds.Resource.Publisher.{
  EndpointCalls, Publisher, create_publisher, destroy_publisher, publisher_create, writer_create,
  publisher_handle, create_endpoint, get_endpoint_qos, get_qos_policies, fq_topic_name,
}
use rmw_connextdds.Resource.Subscriber.{subscriber_create, reader_create, create_filtered}
use rmw_connextdds.Resource.Service.{
  ServiceCalls, client_create, service_create, reply_filter, hex, guid_field_name,
}
use rmw_connextdds.Resource.Balance.{create_publisher-destroy_publisher}
use rmw_connextdds.Resource.Failure.{IsLeft, create_publisher-IsLeft}
use rmw_connextdds.Resource.Counts.{counts}
use rmw_connextdds.Resource.Abandoned.{
  Releases, one_writer, client_create-counts, service_create-counts,
}
use rmw_connextdds.Resource.Filter.{IsByte, reply_filter_lem}

-- Every call succeeds, but the allocation of the object does as `made` says.
abbrev calls : Bool → EndpointCalls
calls made = record {
  types = record {
    construct = true;
    new_pool = true;
    create_typecode = true;
    new_plugin = true;
    register_type = true;
    unregister_type = true;
  };
  topic = record {
    lookup_topicdescription = false;
    find_topic = true;
    create_topic = true;
    enable = true;
  };
  default_qos = some policies;
  unbounded = false;
  assert_property = true;
  create_endpoint = true;
  new_object = made;
  enable_topic = true;
  enable_endpoint = true;
  allocate_handle = true;
  allocate_name = true;
  graph_created = true;
  delete_endpoint = true;
  delete_topic = true;
  return_messages = true;
  create_filtered = true;
  delete_filtered = true;
}

abbrev nothing : Held
nothing = record {
  types = [];
  supports = [];
  next = 7;
  topics = 0;
  filtered = 0;
  writers = 0;
  readers = 0;
  objects = 0;
  handles = 0;
  names = 0;
}

abbrev publisher : Publisher
publisher = record {
  type_support = 7;
  type_name = codes "T_";
  topic_name = codes "rt/chatter";
  created_topic = true;
}

created :
    (create_publisher constants
      (calls true)
      false
      (codes "T_")
      (codes "/chatter")
      false
      profile
      nothing).0
    ≡ some publisher
unfolding create_publisher publisher_create publisher_handle writer_create create_endpoint
    get_endpoint_qos get_qos_policies get_readerwriter_qos set_history set_reliability
    set_durability set_liveliness register_type_support assert_topic fq_topic_name
created = refl

create_publisher-destroy_publisher_example :
    destroy_publisher
      (calls true)
      (some publisher)
      (create_publisher constants
        (calls true)
        false
        (codes "T_")
        (codes "/chatter")
        false
        profile
        nothing).1
    ≡ (Ret.ok, record nothing { next = 8 })
create_publisher-destroy_publisher_example =
    create_publisher-destroy_publisher constants (calls true) false (codes "T_") (codes "/chatter")
      false profile nothing publisher created (λ p e. absurd cc) refl refl refl

not_created :
    (create_publisher constants
      (calls false)
      false
      (codes "T_")
      (codes "/chatter")
      false
      profile
      nothing).0
    ≡ none
unfolding create_publisher publisher_create publisher_handle writer_create create_endpoint
    get_endpoint_qos get_qos_policies get_readerwriter_qos set_history set_reliability
    set_durability set_liveliness register_type_support assert_topic fq_topic_name
not_created = refl

create_publisher-IsLeft_example :
    IsLeft constants
      (calls false)
      (codes "T_")
      nothing
      (create_publisher constants
        (calls false)
        false
        (codes "T_")
        (codes "/chatter")
        false
        profile
        nothing).1
create_publisher-IsLeft_example =
    create_publisher-IsLeft constants (calls false) false (codes "T_") (codes "/chatter") false
      profile nothing not_created (λ p e. absurd cc) refl refl refl

-- The subscriber's object cannot be allocated.
abbrev service_calls : ServiceCalls
service_calls = record {
  writer = calls true;
  reader = calls false;
  new_object = true;
  type_supports = true;
  request_type = codes "Q_";
  reply_type = codes "R_";
  writer_guid = 0 ∷ 1 ∷ 2 ∷ 3 ∷ 4 ∷ 5 ∷ 6 ∷ 7 ∷ 8 ∷ 9 ∷ 10 ∷ 171 ∷ 12 ∷ 13 ∷ 14 ∷ 255 ∷ [];
  allocate_cft_name = true;
  allocate_cft_filter = true;
}

releases : (made : Bool) → Releases (calls made)
releases made = record { unregister_type = refl; delete_endpoint = refl; delete_topic = refl }

client_not_created :
    (client_create constants service_calls (codes "/add") false profile nothing).0 ≡ none
unfolding client_create publisher_create writer_create create_endpoint get_endpoint_qos
    get_qos_policies get_readerwriter_qos set_history set_reliability set_durability set_liveliness
    register_type_support assert_topic fq_topic_name subscriber_create reader_create create_filtered
    reply_filter
client_not_created = refl

client_create-counts_example :
    counts (client_create constants service_calls (codes "/add") false profile nothing).1
    ≡ counts nothing
client_create-counts_example =
    client_create-counts constants service_calls (releases true) (releases false) (codes "/add")
      false profile nothing refl client_not_created

service_not_created :
    (service_create constants service_calls (codes "/add") false profile nothing).0 ≡ none
unfolding service_create publisher_create writer_create create_endpoint get_endpoint_qos
    get_qos_policies get_readerwriter_qos set_history set_reliability set_durability set_liveliness
    register_type_support assert_topic fq_topic_name subscriber_create reader_create create_filtered
    reply_filter
service_not_created = refl

service_create-counts_example :
    counts (service_create constants service_calls (codes "/add") false profile nothing).1
    ≡ one_writer
        (publisher_create constants
          (calls true)
          false
          (codes "R_")
          (reply_topic (codes "/add") false)
          false
          profile
          (record nothing { objects = 1 })).0
        nothing
service_create-counts_example =
    service_create-counts constants service_calls (releases true) (releases false) (codes "/add")
      false profile nothing refl refl service_not_created

-- The reply publisher is left.
service_left :
    counts (service_create constants service_calls (codes "/add") false profile nothing).1
    ≡ (1, 0, 1)
unfolding service_create publisher_create writer_create create_endpoint get_endpoint_qos
    get_qos_policies get_readerwriter_qos set_history set_reliability set_durability set_liveliness
    register_type_support assert_topic fq_topic_name subscriber_create reader_create create_filtered
    reply_filter
service_left = refl

reply_filter_lem_example :
    ((reply_filter (codes "rr/addReply") service_calls.writer_guid).cft_filter
      ≡ guid_field_name ++ (codes " = &hex(" ++ (hex service_calls.writer_guid ++ codes ")")))
    × ((k : List ℕ)
        → length k ≡ 16
        → All IsByte k
        → (reply_filter (codes "rr/addReply") service_calls.writer_guid).cft_name
          ≡ (reply_filter (codes "rr/addReply") k).cft_name
        → service_calls.writer_guid ≡ k)
reply_filter_lem_example =
    reply_filter_lem (codes "rr/addReply") service_calls.writer_guid refl (ground arith)
