-- ===== src/Graph/Endpoints.antt =====
-- A publisher or subscriber is created or deleted: rmw_connextdds_graph_on_publisher_created,
-- rmw_connextdds_graph_on_subscriber_created and the two for the deletion, of
-- rmw_connextdds_common/src/common/rmw_graph.cpp.
use rmw_connextdds.Prelude.{true, false, if◌then◌else◌}
use rmw_connextdds.Ret.{Ret, is_ok}
use rmw_connextdds.Graph.Cache.{
  Node, GraphCache, Entity, Context, publish_update, add_local_publisher, add_local_subscriber,
  remove_entity,
}

module _ (C : GraphCache) where
  -- The cache's functions that return a message, on the context.
  abbrev pub update : (C.State → C.Message × C.State) → Context C → C.Message × Context C
  update f ctx = let (msg, cache) = f ctx.cache in (msg, record ctx { cache = cache })

  unfoldable pub on_publisher_created : Node → Entity → Context C → Ret × Context C
  on_publisher_created node pub_ ctx =
      let (rc, ctx1) = add_local_publisher C pub_ ctx in
      let (msg, ctx2) = update (C.associate_writer pub_.gid ctx.gid node) ctx1 in
      let (rc', ctx3) = publish_update C msg ctx2 in
      let (_, ctx4) = remove_entity C pub_.instance_handle false ctx3 in
      let (_, ctx5) = update (C.dissociate_writer pub_.gid ctx.gid node) ctx4 in
      if is_ok rc then (if is_ok rc' then (rc', ctx3) else (rc', ctx5)) else (rc, ctx1)

  unfoldable pub on_publisher_deleted : Node → Entity → Context C → Ret × Context C
  on_publisher_deleted node pub_ ctx =
      let (rc, ctx1) = remove_entity C pub_.instance_handle false ctx in
      let (msg, ctx2) = update (C.dissociate_writer pub_.gid ctx.gid node) ctx1 in
      let (rc', ctx3) = publish_update C msg ctx2 in
      if is_ok rc' then (if is_ok rc then Ret.ok else Ret.error, ctx3) else (rc', ctx3)

  unfoldable pub on_subscriber_created : Node → Entity → Context C → Ret × Context C
  on_subscriber_created node sub_ ctx =
      let (rc, ctx1) = add_local_subscriber C sub_ ctx in
      let (msg, ctx2) = update (C.associate_reader sub_.gid ctx.gid node) ctx1 in
      let (rc', ctx3) = publish_update C msg ctx2 in
      let (_, ctx4) = remove_entity C sub_.instance_handle true ctx3 in
      let (_, ctx5) = update (C.dissociate_reader sub_.gid ctx.gid node) ctx4 in
      if is_ok rc then (if is_ok rc' then (rc', ctx3) else (rc', ctx5)) else (rc, ctx1)

  unfoldable pub on_subscriber_deleted : Node → Entity → Context C → Ret × Context C
  on_subscriber_deleted node sub_ ctx =
      let (rc, ctx1) = remove_entity C sub_.instance_handle true ctx in
      let (msg, ctx2) = update (C.dissociate_reader sub_.gid ctx.gid node) ctx1 in
      let (rc', ctx3) = publish_update C msg ctx2 in
      if is_ok rc' then (if is_ok rc then Ret.ok else Ret.error, ctx3) else (rc', ctx3)
