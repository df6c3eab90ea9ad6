-- ===== src/Graph/Nodes.antt =====
-- A node is created or deleted, and a service or client, which have a publisher and a subscriber
-- each: rmw_connextdds_graph_on_node_created, rmw_connextdds_graph_on_service_created,
-- rmw_connextdds_graph_on_client_created and the three for the deletion, of
-- rmw_connextdds_common/src/common/rmw_graph.cpp.
use rmw_connextdds.Prelude.{Bool, true, false, ◌&&◌, if◌then◌else◌}
use rmw_connextdds.Ret.{Ret, is_ok}
use rmw_connextdds.Graph.Cache.{
  Node, GraphCache, Entity, Context, publish_update, add_local_publisher, add_local_subscriber,
  remove_entity,
}
use rmw_connextdds.Graph.Endpoints.{update}

-- An RMW_Connext_Service or an RMW_Connext_Client.
pub record Pair : Type 0 where
  pub publisher : Entity
  pub subscriber : Entity

module _ (C : GraphCache) where
  unfoldable pub on_node_created : Node → Context C → Ret × Context C
  on_node_created node ctx =
      let (msg, ctx1) = update C (C.add_node ctx.gid node) ctx in
      let (rc, ctx2) = publish_update C msg ctx1 in
      let (_, ctx3) = update C (C.remove_node ctx.gid node) ctx2 in
      if is_ok rc then (Ret.ok, ctx2) else (Ret.error, ctx3)

  unfoldable pub on_node_deleted : Node → Context C → Ret × Context C
  on_node_deleted node ctx =
      let (msg, ctx1) = update C (C.remove_node ctx.gid node) ctx in
      let (rc, ctx2) = publish_update C msg ctx1 in
      if is_ok rc then (Ret.ok, ctx2) else (Ret.error, ctx2)

  -- What the scope exit of the source does. It holds copies of `added_sub` and `added_pub` as they
  -- are where it is made.
  unfoldable pub entities_reset : Bool → Bool → Pair → Context C → Context C
  entities_reset added_sub added_pub svc ctx =
      let ctx1 : Context C =
        (if added_sub then (remove_entity C svc.subscriber.instance_handle true ctx).1 else ctx) in
      if added_pub then (remove_entity C svc.publisher.instance_handle false ctx1).1 else ctx1

  unfoldable pub on_service_created : Node → Pair → Context C → Ret × Context C
  on_service_created node svc ctx =
      let added_sub = false in
      let added_pub = false in
      let (rc1, ctx1) = add_local_subscriber C svc.subscriber ctx in
      let (rc2, ctx2) = add_local_publisher C svc.publisher ctx1 in
      let (_, ctx3) = update C (C.associate_writer svc.publisher.gid ctx.gid node) ctx2 in
      let (msg, ctx4) = update C (C.associate_reader svc.subscriber.gid ctx.gid node) ctx3 in
      let (rc3, ctx5) = publish_update C msg ctx4 in
      let (_, ctx6) = update C (C.dissociate_writer svc.publisher.gid ctx.gid node) ctx5 in
      let (_, ctx7) = update C (C.dissociate_reader svc.subscriber.gid ctx.gid node) ctx6 in
      if is_ok rc1
      then (if is_ok rc2
          then (if is_ok rc3
              then (Ret.ok, ctx5)
              else (Ret.error, entities_reset added_sub added_pub svc ctx7))
          else (rc2, entities_reset added_sub added_pub svc ctx2))
      else (rc1, entities_reset added_sub added_pub svc ctx1)

  unfoldable pub on_service_deleted : Node → Pair → Context C → Ret × Context C
  on_service_deleted node svc ctx =
      let failed = false in
      let (rc1, ctx1) = remove_entity C svc.subscriber.instance_handle true ctx in
      let failed1 = failed && is_ok rc1 in
      let (rc2, ctx2) = remove_entity C svc.publisher.instance_handle false ctx1 in
      let failed2 = failed1 && is_ok rc2 in
      let (_, ctx3) = update C (C.dissociate_writer svc.publisher.gid ctx.gid node) ctx2 in
      let (msg, ctx4) = update C (C.dissociate_reader svc.subscriber.gid ctx.gid node) ctx3 in
      let (rc3, ctx5) = publish_update C msg ctx4 in
      let failed3 = failed2 && is_ok rc3 in (if failed3 then Ret.error else Ret.ok, ctx5)

  -- The source repeats the service's code for a client, word for word.
  unfoldable pub on_client_created : Node → Pair → Context C → Ret × Context C
  unfolding on_service_created
  on_client_created node client ctx = on_service_created node client ctx

  unfoldable pub on_client_deleted : Node → Pair → Context C → Ret × Context C
  unfolding on_service_deleted
  on_client_deleted node client ctx = on_service_deleted node client ctx
