-- ===== src/Graph/Pairs.antt =====
-- Creating a publisher and deleting it again, and what a service that cannot be announced leaves.
use rmw_connextdds.Prelude.{◌≡◌, ◌⊎◌, inl, inr, refl, ap, Bool-cases, true, false, length}
use rmw_connextdds.Ret.{Ret, is_ok}
use rmw_connextdds.Endpoint.Identity.{guid_to_gid, ih_to_gid}
use rmw_connextdds.Graph.Cache.{
  Node, GraphCache, Entity, Context, publish_update, add_local, add_local_publisher,
  add_local_subscriber, remove_entity,
}
use rmw_connextdds.Graph.Endpoints.{update, on_publisher_created, on_publisher_deleted}
use rmw_connextdds.Graph.Nodes.{Pair, entities_reset, on_service_created}
use rmw_connextdds.Graph.Undo.{Undoes, publish_update-cache, key, key_eq, add_local_lem}

module _ (C : GraphCache) where
  -- The cache after a publisher is deleted, however that ends.
  on_publisher_deleted-cache :
      (node : Node) (p : Entity) (t : Context C)
      → (on_publisher_deleted C node p t).1.cache
        ≡ (C.dissociate_writer p.gid t.gid node
            (C.remove_entity
              (ih_to_gid C.identifier C.gid_storage_size p.instance_handle)
              false
              t.cache).1).1
  unfolding on_publisher_deleted remove_entity
  on_publisher_deleted-cache node p t =
      let t1 = (remove_entity C p.instance_handle false t).1 in
      let (msg, t2) = update C (C.dissociate_writer p.gid t.gid node) t1 in
      elim (Bool-cases (is_ok (publish_update C msg t2).0)) [
        | inl e ↦ rw e (publish_update-cache C msg t2)
        | inr e ↦ rw e (publish_update-cache C msg t2)
      ]

  -- The cache after a publisher is created.
  on_publisher_created-cache :
      (node : Node) (p : Entity) (ctx : Context C)
      → is_ok (on_publisher_created C node p ctx).0 ≡ true
      → (is_ok (add_local C p false ctx).0 ≡ true)
        × ((on_publisher_created C node p ctx).1.cache
            ≡ (C.associate_writer p.gid ctx.gid node (add_local C p false ctx).1.cache).1)
  unfolding on_publisher_created add_local_publisher
  on_publisher_created-cache node p ctx o =
      let (rc, ctx1) = add_local C p false ctx in
      let (msg, ctx2) = update C (C.associate_writer p.gid ctx.gid node) ctx1 in
      elim (Bool-cases (is_ok rc)) [
        | inr f ↦ absurd (let k : is_ok rc ≡ true = rw f at o in cc)
        | inl f ↦ elim (Bool-cases (is_ok (publish_update C msg ctx2).0)) [
          | inr e ↦
              absurd (let k : is_ok (publish_update C msg ctx2).0 ≡ true = rw (f, e) at o in cc)
          | inl e ↦ (f, rw (f, e) (publish_update-cache C msg ctx2))
        ]
      ]

module _ (C : GraphCache) (U : Undoes C) where
  -- A new publisher that is created and then deleted leaves the cache as it was before, where its
  -- instance handle is its identifier and the creation left the participant's identifier as it was,
  -- whether or not the deletion can be announced.
  pub on_publisher_deleted-on_publisher_created :
      (node : Node) (p : Entity) (ctx : Context C)
      → U.IsNewWriter p.gid ctx.gid node ctx.cache
      → length p.instance_handle ≡ 16
      → p.gid ≡ guid_to_gid C.identifier C.gid_storage_size p.instance_handle
      → (on_publisher_created C node p ctx).0 ≡ Ret.ok
      → (on_publisher_created C node p ctx).1.gid ≡ ctx.gid
      → (on_publisher_deleted C node p (on_publisher_created C node p ctx).1).1.cache ≡ ctx.cache
  on_publisher_deleted-on_publisher_created node p ctx new l h o g =
      let (f, c) = on_publisher_created-cache C node p ctx (ap is_ok o) in
      elim (add_local_lem C U p false ctx) [
        | inl (n, _) ↦ absurd cc
        | inr (_, u) ↦
            rw
              (
                on_publisher_deleted-cache C node p (on_publisher_created C node p ctx).1,
                g,
                c,
                ← (key_eq C p l h),
                U.remove_entity-associate_writer (key C p) p.gid ctx.gid node false
                    (add_local C p false ctx).1.cache,
                u,
              )
              (U.dissociate_writer-associate_writer p.gid ctx.gid node ctx.cache new)
      ]

  -- A service whose subscriber and publisher were added, and whose announcement cannot be published,
  -- is left in the cache: the call fails, the associations are taken back, and both entities stay.
  pub on_service_created-leaves :
      (node : Node) (svc : Pair) (ctx : Context C)
      → is_ok (add_local_subscriber C svc.subscriber ctx).0 ≡ true
      → is_ok (add_local_publisher C svc.publisher (add_local_subscriber C svc.subscriber ctx).1).0
        ≡ true
      → U.IsNewWriter svc.publisher.gid ctx.gid node
          (add_local_publisher C svc.publisher
            (add_local_subscriber C svc.subscriber ctx).1).1.cache
      → U.IsNewReader svc.subscriber.gid ctx.gid node
          (add_local_publisher C svc.publisher
            (add_local_subscriber C svc.subscriber ctx).1).1.cache
      → ((on_service_created C node svc ctx).0 ≡ Ret.ok)
        ⊎ (((on_service_created C node svc ctx).0 ≡ Ret.error)
            × ((on_service_created C node svc ctx).1.cache
                ≡ (add_local_publisher C svc.publisher
                    (add_local_subscriber C svc.subscriber ctx).1).1.cache))
  unfolding on_service_created entities_reset
  on_service_created-leaves node svc ctx a b w r =
      let ctx1 = (add_local_subscriber C svc.subscriber ctx).1 in
      let ctx2 = (add_local_publisher C svc.publisher ctx1).1 in
      let ctx3 = (update C (C.associate_writer svc.publisher.gid ctx.gid node) ctx2).1 in
      let (msg, ctx4) = update C (C.associate_reader svc.subscriber.gid ctx.gid node) ctx3 in
      elim (Bool-cases (is_ok (publish_update C msg ctx4).0)) [
        | inl e ↦ inl (rw (a, b, e) refl)
        | inr e ↦ inr (
          rw (a, b, e) refl,
          rw
              (
                a,
                b,
                e,
                publish_update-cache C msg ctx4,
                U.dissociate_writer-associate_reader svc.publisher.gid svc.subscriber.gid ctx.gid
                    node (C.associate_writer svc.publisher.gid ctx.gid node ctx2.cache).1,
                U.dissociate_writer-associate_writer svc.publisher.gid ctx.gid node ctx2.cache w,
              )
              (U.dissociate_reader-associate_reader svc.subscriber.gid ctx.gid node ctx2.cache r),
        )
      ]
