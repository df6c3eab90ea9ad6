-- ===== src/Resource/Subscriber.antt =====
-- Subscribers: RMW_Connext_Subscriber::create and finalize, rmw_connextdds_create_subscriber and
-- rmw_connextdds_destroy_subscriber of rmw_connextdds_common/src/common/rmw_impl.cpp, with the
-- content-filtered topics of ndds/dds_api_ndds.cpp.
use rmw_connextdds.Prelude.{
  ℕ, suc, ◌-◌, Bool, true, false, ◌&&◌, ◌||◌, not, Option, none, some, if◌then◌else◌,
}
use rmw_connextdds.Names.Text.{Text}
use rmw_connextdds.Ret.{Ret, is_ok}
use rmw_connextdds.Qos.Policies.{Profile, Constants}
use rmw_connextdds.Context.State.{assert_topic}
use rmw_connextdds.Resource.Types.{
  Held, delete_support, register_type_support, unregister_type_support,
}
use rmw_connextdds.Resource.Publisher.{
  EndpointCalls, fq_topic_name, create_endpoint, asserted, topic_exit, enable, delete_object,
  free_handle, free_name,
}

-- A content-filtered topic's name and filter.
pub record Filter : Type 0 where
  pub cft_name : Text
  pub cft_filter : Text

-- A RMW_Connext_Subscriber, as far as it holds something; `dds_topic_cft` tells whether the
-- pointer is set.
pub record Subscriber : Type 0 where
  pub type_support : ℕ
  pub type_name : Text
  pub topic_name : Text
  pub dds_topic_cft : Bool
  pub created_topic : Bool

-- The scope exit for the type, which does not delete the type support.
abbrev pub reader_type_exit : EndpointCalls → Bool → Text → Held → Held
reader_type_exit C registered name h =
    if registered then (unregister_type_support C.types name h).1 else h

-- rmw_connextdds_create_contentfilteredtopic, when there is a filter: whether the creation can go
-- on, whether there is one, and what is held.
unfoldable pub create_filtered : EndpointCalls → Option Filter → Held → Bool × Bool × Held
create_filtered C none h = (true, false, h)
create_filtered C (some f) h =
    if C.create_filtered
    then (true, true, record h { filtered = suc h.filtered })
    else (false, false, h)

-- RMW_Connext_Subscriber::finalize, after the condition is invalidated. `return_messages` is how
-- the return of the loan ends, if there is one. The participant, for which the source asks the deleted
-- reader, is taken as valid.
unfoldable pub subscriber_finalize : EndpointCalls → Subscriber → Held → Ret × Held
subscriber_finalize C s h =
    let h1 : Held = record h { readers = h.readers - 1 } in
    let h2 : Held = (if s.dds_topic_cft then record h1 { filtered = h1.filtered - 1 } else h1) in
    let h3 : Held = (if s.created_topic then record h2 { topics = h2.topics - 1 } else h2) in
    let (rc, h4) = unregister_type_support C.types s.type_name h3 in
    if not C.return_messages
    then (Ret.error, h)
    else (if not C.delete_endpoint
        then (Ret.error, h)
        else (if s.dds_topic_cft && not C.delete_filtered
            then (Ret.error, h1)
            else (if s.created_topic && not C.delete_topic
                then (Ret.error, h2)
                else (if is_ok rc then (Ret.ok, delete_support s.type_support h4) else (rc, h4)))))

-- rmw_connextdds_destroy_subscriber.
unfoldable pub destroy_subscriber : EndpointCalls → Option Subscriber → Held → Ret × Held
unfolding subscriber_finalize
destroy_subscriber C none h = (Ret.error, h)
destroy_subscriber C (some s) h =
    let (rc, h1) = subscriber_finalize C s h in
    if is_ok rc then (Ret.ok, free_handle (free_name (delete_object h1))) else (rc, h1)

-- The scope exit of rmw_connextdds_create_subscriber.
unfoldable pub subscriber_exit : EndpointCalls → Subscriber → Held → Option Subscriber × Held
unfolding subscriber_finalize
subscriber_exit C s h = (none, delete_object (subscriber_finalize C s h).1)

-- rmw_connextdds_create_subscriber, once the subscriber is created. `graph_created` is whether the
-- graph accepts it.
unfoldable pub subscriber_handle :
    EndpointCalls → Bool → Subscriber → Held → Option Subscriber × Held
unfolding subscriber_exit
subscriber_handle C internal s h =
    let h1 : Held = record h { handles = suc h.handles } in
    let h2 : Held = record h1 { names = suc h1.names } in
    if not C.allocate_handle
    then subscriber_exit C s h
    else (if not C.allocate_name
        then subscriber_exit C s (free_handle h1)
        else (if internal || (is_ok (enable C) && C.graph_created)
            then (some s, h2)
            else subscriber_exit C s (free_handle (free_name h2))))

module _ (K : Constants) where
  -- From the content-filtered topic on. The scope exit for the topic has copied `cft_topic` while
  -- it was null, so that it deletes the topic alone.
  unfoldable pub reader_create :
      EndpointCalls
      → Text
      → Text
      → Option Filter
      → Profile
      → ℕ
      → Bool
      → Held
      → Option Subscriber × Held
  unfolding create_filtered create_endpoint
  reader_create C type_name topic filter q a created h =
      let (goes_on, cft, h1) = create_filtered C filter h in
      if not goes_on then (none, topic_exit C created h1) else elim C.default_qos [
        | none ↦ (none, topic_exit C created h1)
        | some d ↦
            let h2 : Held = record h1 { readers = suc h1.readers } in
            if not (create_endpoint K C q d)
            then (none, topic_exit C created h1)
            else (if not C.new_object
                then (
                  none,
                  topic_exit C created
                      (if C.delete_endpoint then record h2 { readers = h2.readers - 1 } else h2),
                )
                else (
                  some (record {
                    type_support = a;
                    type_name = type_name;
                    topic_name = topic;
                    dds_topic_cft = cft;
                    created_topic = created;
                  }),
                  record h2 { objects = suc h2.objects },
                ))
      ]

  -- RMW_Connext_Subscriber::create.
  unfoldable pub subscriber_create :
      EndpointCalls
      → Bool
      → Text
      → Text
      → Bool
      → Option Filter
      → Profile
      → Held
      → Option Subscriber × Held
  unfolding reader_create
  subscriber_create C internal type_name topic_name avoid filter q h =
      let (ts, registered, h1) = register_type_support C.types type_name h in
      elim ts [
        | none ↦ (none, h1)
        | some a ↦
            let (rc, created) = assert_topic C.topic internal false in
            let h2 = asserted C.topic internal h1 in
            let (s, h3) =
              (if is_ok rc
                then reader_create C type_name (fq_topic_name topic_name avoid) filter q a created
                    h2
                else (none, h2)) in
            elim s [
              | none ↦ (none, reader_type_exit C registered type_name h3)
              | some x ↦ (some x, h3)
            ]
      ]

  -- rmw_connextdds_create_subscriber.
  unfoldable pub create_subscriber :
      EndpointCalls → Bool → Text → Text → Bool → Profile → Held → Option Subscriber × Held
  unfolding subscriber_create subscriber_handle
  create_subscriber C internal type_name topic_name avoid q h =
      let (impl, h1) = subscriber_create C internal type_name topic_name avoid none q h in
      elim impl [ none ↦ (none, h1) | some s ↦ subscriber_handle C internal s h1 ]
