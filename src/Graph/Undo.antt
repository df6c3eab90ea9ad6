-- ===== src/Graph/Undo.antt =====
-- What the failures of an update of the graph leave behind.
use rmw_connextdds.Prelude.{
  ◌≡◌, ◌⊎◌, inl, inr, refl, ℕ, Bool, Bool-cases, true, false, if◌then◌else◌, List, length, ◌-◌,
  Option-cases, Option, none,
}
use rmw_connextdds.Names.Text.{Text, text_eq_self}
use rmw_connextdds.Ret.{Ret, is_ok, is_ok→eq}
use rmw_connextdds.Endpoint.Identity.{Gid, guid_size, zeros, guid_to_gid, gid_to_guid, ih_to_gid}
use rmw_connextdds.Qos.Policies.{Profile, Policies, Duration}
use rmw_connextdds.Qos.Convert.{readerwriter_qos_to_ros}
use rmw_connextdds.Graph.Cache.{
  Node, GraphCache, Entity, Context, publish_update, add_entity, add_local, add_local_publisher,
  add_local_subscriber, remove_entity,
}
use rmw_connextdds.Endpoint.Correlation.{take-take}
use rmw_connextdds.Graph.Endpoints.{update, on_publisher_created, on_subscriber_created}
use rmw_connextdds.Graph.Nodes.{on_node_created}

-- The graph cache's behaviour on a change that is taken back: an entity, a node or an association
-- that is added and then removed leaves the cache as it was, and entities and associations do not
-- touch each other. `IsNew` says of a cache that it does not hold a thing yet.
pub record Undoes (C : GraphCache) : Type 1 where
  pub IsNewNode : Gid → Node → C.State → Type 0
  pub IsNewWriter : Gid → Gid → Node → C.State → Type 0
  pub IsNewReader : Gid → Gid → Node → C.State → Type 0
  pub remove_entity-add_entity :
      (g : Gid) (topic type : Text) (dp : Gid) (q : Profile) (r : Bool) (c : C.State)
      → (C.add_entity g topic type dp q r c).0 ≡ true
      → C.remove_entity g r (C.add_entity g topic type dp q r c).1 ≡ (true, c)
  pub add_entity-fails :
      (g : Gid) (topic type : Text) (dp : Gid) (q : Profile) (r : Bool) (c : C.State)
      → (C.add_entity g topic type dp q r c).0 ≡ false
      → (C.add_entity g topic type dp q r c).1 ≡ c
  pub remove_node-add_node :
      (g : Gid) (n : Node) (c : C.State)
      → IsNewNode g n c
      → (C.remove_node g n (C.add_node g n c).1).1 ≡ c
  pub remove_entity-associate_writer :
      (g w dp : Gid) (n : Node) (r : Bool) (c : C.State)
      → C.remove_entity g r (C.associate_writer w dp n c).1
        ≡ ((C.remove_entity g r c).0, (C.associate_writer w dp n (C.remove_entity g r c).1).1)
  pub remove_entity-associate_reader :
      (g w dp : Gid) (n : Node) (r : Bool) (c : C.State)
      → C.remove_entity g r (C.associate_reader w dp n c).1
        ≡ ((C.remove_entity g r c).0, (C.associate_reader w dp n (C.remove_entity g r c).1).1)
  pub dissociate_writer-associate_writer :
      (w dp : Gid) (n : Node) (c : C.State)
      → IsNewWriter w dp n c
      → (C.dissociate_writer w dp n (C.associate_writer w dp n c).1).1 ≡ c
  pub dissociate_reader-associate_reader :
      (r dp : Gid) (n : Node) (c : C.State)
      → IsNewReader r dp n c
      → (C.dissociate_reader r dp n (C.associate_reader r dp n c).1).1 ≡ c
  pub dissociate_writer-associate_reader :
      (w r dp : Gid) (n : Node) (c : C.State)
      → (C.dissociate_writer w dp n (C.associate_reader r dp n c).1).1
        ≡ (C.associate_reader r dp n (C.dissociate_writer w dp n c).1).1

module _ (C : GraphCache) where
  -- Publishing leaves the cache alone.
  pub publish_update-cache :
      (msg : C.Message) (ctx : Context C) → (publish_update C msg ctx).1.cache ≡ ctx.cache
  unfolding publish_update
  publish_update-cache msg ctx = elim (Bool-cases ctx.has_pub) [
    | inr e ↦ rw e refl
    | inl e ↦ elim (Bool-cases (is_ok (C.publish msg ctx.network).0)) [
      | inl o ↦ rw (e, o) refl
      | inr o ↦ rw (e, o) refl
    ]
  ]

  pub publish_update-gid :
      (msg : C.Message) (ctx : Context C) → (publish_update C msg ctx).1.gid ≡ ctx.gid
  unfolding publish_update
  publish_update-gid msg ctx = elim (Bool-cases ctx.has_pub) [
    | inr e ↦ rw e refl
    | inl e ↦ elim (Bool-cases (is_ok (C.publish msg ctx.network).0)) [
      | inl o ↦ rw (e, o) refl
      | inr o ↦ rw (e, o) refl
    ]
  ]

  -- The identifier under which an entity stands in the cache.
  abbrev pub key : Entity → Gid
  key e =
      guid_to_gid C.identifier C.gid_storage_size
        (gid_to_guid C.identifier e.gid C.uninitialized_guid).1

  pub key_eq :
      (e : Entity)
      → length e.instance_handle ≡ 16
      → e.gid ≡ guid_to_gid C.identifier C.gid_storage_size e.instance_handle
      → key e ≡ ih_to_gid C.identifier C.gid_storage_size e.instance_handle
  unfolding guid_to_gid gid_to_guid ih_to_gid
  key_eq e l h =
      rw
        (
          h,
          text_eq_self C.identifier,
          take-take e.instance_handle (zeros (C.gid_storage_size - guid_size)) l,
        )
        refl

module _ (C : GraphCache) (U : Undoes C) where
  -- How an attempt to add the entity under the identifier `g` ends.
  abbrev pub Added : Gid → Bool → Context C → Ret × Context C → Type 0
  Added g r ctx result =
      ((is_ok result.0 ≡ false) × (result.1.cache ≡ ctx.cache))
      ⊎ ((is_ok result.0 ≡ true) × (C.remove_entity g r result.1.cache ≡ (true, ctx.cache)))

  pub add_entity-Added :
      (endp dp : List ℕ) (topic type : Text) (d : Policies) (l : Option Duration) (r : Bool)
      (ctx : Context C)
      → Added
          (guid_to_gid C.identifier C.gid_storage_size endp)
          r
          ctx
          (add_entity C endp dp topic type d l r ctx)
  unfolding add_entity
  add_entity-Added endp dp topic type d l r ctx =
      let gid = guid_to_gid C.identifier C.gid_storage_size endp in
      let dp_gid = guid_to_gid C.identifier C.gid_storage_size dp in
      let q = (readerwriter_qos_to_ros false d l C.qos_profile_default).1 in
      elim (Bool-cases (is_ok (readerwriter_qos_to_ros false d l C.qos_profile_default).0)) [
        | inr f ↦ rw f (inl (refl, refl))
        | inl o ↦ elim (Bool-cases (C.add_entity gid topic type dp_gid q r ctx.cache).0) [
          | inr n ↦ rw (o, n) (inl (refl, U.add_entity-fails gid topic type dp_gid q r ctx.cache n))
          | inl y ↦
              rw (o, y)
                (inr (refl, U.remove_entity-add_entity gid topic type dp_gid q r ctx.cache y))
        ]
      ]

  -- Adding a local entity either fails and changes nothing, or removing it takes it back.
  pub add_local_lem :
      (e : Entity) (r : Bool) (ctx : Context C) → Added (key C e) r ctx (add_local C e r ctx)
  unfolding add_local
  add_local_lem e r ctx = elim (Option-cases e.policies) [
    | inl n ↦ rw n (inl (refl, refl))
    | inr (d, y) ↦ rw y (
        add_entity-Added (gid_to_guid C.identifier e.gid C.uninitialized_guid).1
          (gid_to_guid C.identifier ctx.gid C.uninitialized_guid).1 e.topic_name e.type_name d
          (if r then none else d.lifespan) r ctx)
  ]

  -- Creating a node that the cache does not hold yet succeeds, or fails and leaves the cache as it
  -- was.
  pub on_node_created-fails :
      (node : Node) (ctx : Context C)
      → U.IsNewNode ctx.gid node ctx.cache
      → ((on_node_created C node ctx).0 ≡ Ret.ok)
        ⊎ (((on_node_created C node ctx).0 ≡ Ret.error)
            × ((on_node_created C node ctx).1.cache ≡ ctx.cache))
  unfolding on_node_created
  on_node_created-fails node ctx new =
      let (msg, ctx1) = update C (C.add_node ctx.gid node) ctx in
      elim (Bool-cases (is_ok (publish_update C msg ctx1).0)) [
        | inl e ↦ inl (rw e refl)
        | inr e ↦ inr (
          rw e refl,
          rw (e, publish_update-cache C msg ctx1)
              (U.remove_node-add_node ctx.gid node ctx.cache new),
        )
      ]

  -- Creating a publisher that the cache does not associate yet, and whose instance handle is its
  -- identifier, succeeds or leaves the cache as it was.
  pub on_publisher_created-fails :
      (node : Node) (p : Entity) (ctx : Context C)
      → U.IsNewWriter p.gid ctx.gid node ctx.cache
      → length p.instance_handle ≡ 16
      → p.gid ≡ guid_to_gid C.identifier C.gid_storage_size p.instance_handle
      → ((on_publisher_created C node p ctx).0 ≡ Ret.ok)
        ⊎ ((on_publisher_created C node p ctx).1.cache ≡ ctx.cache)
  unfolding on_publisher_created add_local_publisher remove_entity
  on_publisher_created-fails node p ctx new l h =
      let (rc, ctx1) = add_local C p false ctx in
      let (msg, ctx2) = update C (C.associate_writer p.gid ctx.gid node) ctx1 in
      elim (add_local_lem p false ctx) [
        | inl (f, c) ↦ inr (rw f c)
        | inr (o, u) ↦ elim (Bool-cases (is_ok (publish_update C msg ctx2).0)) [
          | inl e ↦ inl (rw (o, e) (is_ok→eq _ e))
          | inr e ↦ inr (
              rw
                (
                  o,
                  e,
                  publish_update-cache C msg ctx2,
                  ← (key_eq C p l h),
                  U.remove_entity-associate_writer (key C p) p.gid ctx.gid node false ctx1.cache,
                  u,
                )
                (U.dissociate_writer-associate_writer p.gid ctx.gid node ctx.cache new))
        ]
      ]

  -- Creating a subscriber that the cache does not associate yet, and whose instance handle is its
  -- identifier, succeeds or leaves the cache as it was.
  pub on_subscriber_created-fails :
      (node : Node) (p : Entity) (ctx : Context C)
      → U.IsNewReader p.gid ctx.gid node ctx.cache
      → length p.instance_handle ≡ 16
      → p.gid ≡ guid_to_gid C.identifier C.gid_storage_size p.instance_handle
      → ((on_subscriber_created C node p ctx).0 ≡ Ret.ok)
        ⊎ ((on_subscriber_created C node p ctx).1.cache ≡ ctx.cache)
  unfolding on_subscriber_created add_local_subscriber remove_entity
  on_subscriber_created-fails node p ctx new l h =
      let (rc, ctx1) = add_local C p true ctx in
      let (msg, ctx2) = update C (C.associate_reader p.gid ctx.gid node) ctx1 in
      elim (add_local_lem p true ctx) [
        | inl (f, c) ↦ inr (rw f c)
        | inr (o, u) ↦ elim (Bool-cases (is_ok (publish_update C msg ctx2).0)) [
          | inl e ↦ inl (rw (o, e) (is_ok→eq _ e))
          | inr e ↦ inr (
              rw
                (
                  o,
                  e,
                  publish_update-cache C msg ctx2,
                  ← (key_eq C p l h),
                  U.remove_entity-associate_reader (key C p) p.gid ctx.gid node true ctx1.cache,
                  u,
                )
                (U.dissociate_reader-associate_reader p.gid ctx.gid node ctx.cache new))
        ]
      ]
