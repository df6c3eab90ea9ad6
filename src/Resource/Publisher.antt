-- ===== src/Resource/Publisher.antt =====
-- Publishers: RMW_Connext_Publisher::create and finalize, rmw_connextdds_create_publisher and
-- rmw_connextdds_destroy_publisher of rmw_connextdds_common/src/common/rmw_impl.cpp, with the
-- creation of the writer in ndds/dds_api_ndds.cpp.
use rmw_connextdds.Prelude.{
  ℕ, suc, ◌-◌, Bool, false, ◌&&◌, ◌||◌, not, Option, none, some, [], ◌++◌, if◌then◌else◌,
}
use rmw_connextdds.Names.Text.{Text, codes, starts_with}
use rmw_connextdds.Names.Demangle.{
  ros_topic_prefix, ros_service_requester_prefix, ros_service_response_prefix,
}
use rmw_connextdds.Names.Mangle.{create_topic_name}
use rmw_connextdds.Ret.{Ret, is_ok}
use rmw_connextdds.Qos.Policies.{Profile, Policies, Constants}
use rmw_connextdds.Qos.Convert.{get_readerwriter_qos}
use rmw_connextdds.Context.State.{TopicCalls, assert_topic}
use rmw_connextdds.Resource.Types.{
  Held, TypeCalls, delete_support, register_type_support, unregister_type_support,
}

-- `fqtopic_name`: a topic of a service is named already.
unfoldable pub fq_topic_name : Text → Bool → Text
unfolding create_topic_name
fq_topic_name topic_name avoid =
    if starts_with (ros_service_response_prefix ++ codes "/") topic_name
      || starts_with (ros_service_requester_prefix ++ codes "/") topic_name
    then topic_name
    else create_topic_name ros_topic_prefix topic_name [] avoid

-- rmw_connextdds_get_qos_policies: the samples of an unbounded type come from the heap, which a
-- property says.
unfoldable pub get_qos_policies : Bool → Bool → Ret
get_qos_policies unbounded assert_property =
    if unbounded then (if assert_property then Ret.ok else Ret.error) else Ret.ok

-- rmw_connextdds_get_datawriter_qos and rmw_connextdds_get_datareader_qos, without the publish mode
-- of a writer.
unfoldable pub get_endpoint_qos : Constants → Bool → Bool → Profile → Policies → Ret × Policies
unfolding get_qos_policies
get_endpoint_qos K unbounded assert_property q d =
    let (rc, d1) = get_readerwriter_qos K q d in
    (if is_ok rc then get_qos_policies unbounded assert_property else Ret.error, d1)

-- How the calls end that the creation and the end of an endpoint make. `default_qos` is the default
-- QoS of the DDS publisher or subscriber, `none` where it cannot be had.
pub record EndpointCalls : Type 0 where
  pub types : TypeCalls
  pub topic : TopicCalls
  pub default_qos : Option Policies
  pub unbounded : Bool
  pub assert_property : Bool
  pub create_endpoint : Bool
  pub new_object : Bool
  pub enable_topic : Bool
  pub enable_endpoint : Bool
  pub allocate_handle : Bool
  pub allocate_name : Bool
  pub graph_created : Bool
  pub delete_endpoint : Bool
  pub delete_topic : Bool
  pub return_messages : Bool
  pub create_filtered : Bool
  pub delete_filtered : Bool

-- The topic that assert_topic has created or found, also where it then fails.
abbrev pub asserted : TopicCalls → Bool → Held → Held
asserted T internal h =
    if T.lookup_topicdescription
    then (if internal then h else (if T.find_topic then record h { topics = suc h.topics } else h))
    else (if T.create_topic then record h { topics = suc h.topics } else h)

-- `delete_topic`, where its result is only logged.
abbrev pub topic_exit : EndpointCalls → Bool → Held → Held
topic_exit C created h = if created && C.delete_topic then record h { topics = h.topics - 1 } else h

-- A RMW_Connext_Publisher.
pub record Publisher : Type 0 where
  pub type_support : ℕ
  pub type_name : Text
  pub topic_name : Text
  pub created_topic : Bool

-- `scope_exit_type_unregister`
abbrev pub type_exit : EndpointCalls → Bool → Text → ℕ → Held → Held
type_exit C registered name a h =
    delete_support a (if registered then (unregister_type_support C.types name h).1 else h)

-- RMW_Connext_Publisher::finalize, after the condition is invalidated. The source asks the writer for
-- its participant and its topic after the writer has been deleted; both are taken as valid here.
unfoldable pub publisher_finalize : EndpointCalls → Publisher → Held → Ret × Held
publisher_finalize C p h =
    let h1 : Held = record h { writers = h.writers - 1 } in
    let h2 : Held = (if p.created_topic then record h1 { topics = h1.topics - 1 } else h1) in
    let (rc, h3) = unregister_type_support C.types p.type_name h2 in
    if not C.delete_endpoint
    then (Ret.error, h)
    else (if p.created_topic && not C.delete_topic
        then (Ret.error, h1)
        else (if is_ok rc then (Ret.ok, delete_support p.type_support h3) else (rc, h3)))

-- `delete` of an object, and the `free` of a name and a handle.
abbrev pub delete_object : Held → Held
delete_object h = record h { objects = h.objects - 1 }

abbrev pub free_handle : Held → Held
free_handle h = record h { handles = h.handles - 1 }

abbrev pub free_name : Held → Held
free_name h = record h { names = h.names - 1 }

-- RMW_Connext_Publisher::enable and RMW_Connext_Subscriber::enable.
abbrev pub enable : EndpointCalls → Ret
enable C = if C.enable_topic && C.enable_endpoint then Ret.ok else Ret.error

-- rmw_connextdds_destroy_publisher; the object is `none` for a null pointer.
unfoldable pub destroy_publisher : EndpointCalls → Option Publisher → Held → Ret × Held
unfolding publisher_finalize
destroy_publisher C none h = (Ret.error, h)
destroy_publisher C (some p) h =
    let (rc, h1) = publisher_finalize C p h in
    if is_ok rc then (Ret.ok, free_handle (free_name (delete_object h1))) else (rc, h1)

-- The scope exit of rmw_connextdds_create_publisher.
unfoldable pub publisher_exit : EndpointCalls → Publisher → Held → Option Publisher × Held
unfolding publisher_finalize
publisher_exit C p h = (none, delete_object (publisher_finalize C p h).1)

-- rmw_connextdds_create_publisher, once the publisher is created. `graph_created` is whether the
-- graph accepts it.
unfoldable pub publisher_handle : EndpointCalls → Bool → Publisher → Held → Option Publisher × Held
unfolding publisher_exit
publisher_handle C internal p h =
    let h1 : Held = record h { handles = suc h.handles } in
    let h2 : Held = record h1 { names = suc h1.names } in
    if not C.allocate_handle
    then publisher_exit C p h
    else (if not C.allocate_name
        then publisher_exit C p (free_handle h1)
        else (if internal || (is_ok (enable C) && C.graph_created)
            then (some p, h2)
            else publisher_exit C p (free_handle (free_name h2))))

module _ (K : Constants) where
  -- rmw_connextdds_create_datawriter and rmw_connextdds_create_datareader: not a null pointer.
  unfoldable pub create_endpoint : EndpointCalls → Profile → Policies → Bool
  unfolding get_endpoint_qos
  create_endpoint C q d =
      is_ok (get_endpoint_qos K C.unbounded C.assert_property q d).0 && C.create_endpoint

  -- From the topic on; `h` holds the type and the topic.
  unfoldable pub writer_create :
      EndpointCalls → Text → Text → Profile → ℕ → Bool → Held → Option Publisher × Held
  unfolding create_endpoint
  writer_create C type_name topic q a created h = elim C.default_qos [
    | none ↦ (none, topic_exit C created h)
    | some d ↦
        let h1 : Held = record h { writers = suc h.writers } in
        if not (create_endpoint C q d)
        then (none, topic_exit C created h)
        else (if not C.new_object
            then (
              none,
              topic_exit C created
                  (if C.delete_endpoint then record h1 { writers = h1.writers - 1 } else h1),
            )
            else (
              some (record {
                type_support = a;
                type_name = type_name;
                topic_name = topic;
                created_topic = created;
              }),
              record h1 { objects = suc h1.objects },
            ))
  ]

  -- RMW_Connext_Publisher::create; `avoid` is avoid_ros_namespace_conventions.
  unfoldable pub publisher_create :
      EndpointCalls → Bool → Text → Text → Bool → Profile → Held → Option Publisher × Held
  unfolding writer_create
  publisher_create C internal type_name topic_name avoid q h =
      let (ts, registered, h1) = register_type_support C.types type_name h in
      elim ts [
        | none ↦ (none, h1)
        | some a ↦
            let (rc, created) = assert_topic C.topic internal false in
            let h2 = asserted C.topic internal h1 in
            let (p, h3) =
              (if is_ok rc
                then writer_create C type_name (fq_topic_name topic_name avoid) q a created h2
                else (none, h2)) in
            elim p [ none ↦ (none, type_exit C registered type_name a h3) | some x ↦ (some x, h3) ]
      ]

  -- rmw_connextdds_create_publisher.
  unfoldable pub create_publisher :
      EndpointCalls → Bool → Text → Text → Bool → Profile → Held → Option Publisher × Held
  unfolding publisher_create publisher_handle
  create_publisher C internal type_name topic_name avoid q h =
      let (impl, h1) = publisher_create C internal type_name topic_name avoid q h in
      elim impl [ none ↦ (none, h1) | some p ↦ publisher_handle C internal p h1 ]
