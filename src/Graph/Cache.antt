-- ===== src/Graph/Cache.antt =====
-- The graph cache, which rmw_dds_common provides, and the context's part of the graph that
-- rmw_connextdds_common/src/common/rmw_graph.cpp keeps. The mutex of the source makes each
-- operation one step.
use rmw_connextdds.Prelude.{ℕ, Bool, true, false, List, Option, none, some, if◌then◌else◌}
use rmw_connextdds.Names.Text.{Text}
use rmw_connextdds.Ret.{Ret, is_ok}
use rmw_connextdds.Endpoint.Identity.{Gid, gid_to_guid, guid_to_gid, ih_to_gid}
use rmw_connextdds.Qos.Policies.{Profile, Policies, Duration}
use rmw_connextdds.Qos.Convert.{readerwriter_qos_to_ros}

-- rmw_node_t
pub record Node : Type 0 where
  pub name : Text
  pub namespace : Text

-- rmw_dds_common::GraphCache and rmw_publish. A call that gives the message to publish returns it
-- with the new cache. `uninitialized_guid` is what a DDS_GUID_t holds that nothing has written.
pub record GraphCache : Type 1 where
  pub State : Type 0
  pub Message : Type 0
  pub Network : Type 0
  pub add_entity : Gid → Text → Text → Gid → Profile → Bool → State → Bool × State
  pub remove_entity : Gid → Bool → State → Bool × State
  pub add_node : Gid → Node → State → Message × State
  pub remove_node : Gid → Node → State → Message × State
  pub associate_writer : Gid → Gid → Node → State → Message × State
  pub dissociate_writer : Gid → Gid → Node → State → Message × State
  pub associate_reader : Gid → Gid → Node → State → Message × State
  pub dissociate_reader : Gid → Gid → Node → State → Message × State
  pub remove_participant : Gid → State → State
  pub publish : Message → Network → Ret × Network
  pub uninitialized_guid : List ℕ
  pub identifier : Text
  pub gid_storage_size : ℕ
  pub qos_profile_default : Profile

-- A local RMW_Connext_Publisher or RMW_Connext_Subscriber. `policies` is what reading its QoS back
-- gives, none where that fails; `lifespan` is a null pointer for a reader.
pub record Entity : Type 0 where
  pub gid : Gid
  pub instance_handle : List ℕ
  pub topic_name : Text
  pub type_name : Text
  pub policies : Option Policies

module _ (C : GraphCache) where
  -- `has_pub` tells whether `ctx->common.pub` is set.
  pub record Context : Type 0 where
    pub gid : Gid
    pub has_pub : Bool
    pub cache : C.State
    pub network : C.Network

  unfoldable pub publish_update : C.Message → Context → Ret × Context
  publish_update msg ctx =
      if ctx.has_pub
      then (let (rc, network) = C.publish msg ctx.network in
          let ctx' : Context = record ctx { network = network } in
          if is_ok rc then (Ret.ok, ctx') else (Ret.error, ctx'))
      else (Ret.ok, ctx)

  -- `lifespan` is null for a reader; the history's pointer is null for both.
  unfoldable pub add_entity :
      List ℕ → List ℕ → Text → Text → Policies → Option Duration → Bool → Context → Ret × Context
  add_entity endp_guid dp_guid topic_name type_name policies lifespan is_reader ctx =
      let gid = guid_to_gid C.identifier C.gid_storage_size endp_guid in
      let dp_gid = guid_to_gid C.identifier C.gid_storage_size dp_guid in
      let (rc, qos_profile) =
        readerwriter_qos_to_ros false policies lifespan C.qos_profile_default in
      let (added, cache) =
        C.add_entity gid topic_name type_name dp_gid qos_profile is_reader ctx.cache in
      if is_ok rc
      then (if added
          then (Ret.ok, record ctx { cache = cache })
          else (Ret.error, record ctx { cache = cache }))
      else (Ret.error, ctx)

  unfoldable pub add_local : Entity → Bool → Context → Ret × Context
  add_local e is_reader ctx = elim e.policies [
    | none ↦ (Ret.error, ctx)
    | some policies ↦
        add_entity (gid_to_guid C.identifier e.gid C.uninitialized_guid).1
          (gid_to_guid C.identifier ctx.gid C.uninitialized_guid).1 e.topic_name e.type_name
          policies (if is_reader then none else policies.lifespan) is_reader ctx
  ]

  unfoldable pub add_local_publisher : Entity → Context → Ret × Context
  add_local_publisher pub_ ctx = add_local pub_ false ctx

  unfoldable pub add_local_subscriber : Entity → Context → Ret × Context
  add_local_subscriber sub_ ctx = add_local sub_ true ctx

  unfoldable pub remove_entity : List ℕ → Bool → Context → Ret × Context
  remove_entity instance_handle is_reader ctx =
      let (removed, cache) =
        C.remove_entity (ih_to_gid C.identifier C.gid_storage_size instance_handle) is_reader
          ctx.cache in
      (if removed then Ret.ok else Ret.error, record ctx { cache = cache })

  unfoldable pub remove_participant : List ℕ → Context → Ret × Context
  remove_participant instance_handle ctx = (
    Ret.ok,
    record ctx {
      cache =
          C.remove_participant (ih_to_gid C.identifier C.gid_storage_size instance_handle)
            ctx.cache;
    },
  )
