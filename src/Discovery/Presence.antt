-- ===== src/Discovery/Presence.antt =====
-- Which endpoints the graph cache holds after the samples of a built-in topic.
use rmw_connextdds.Prelude.{
  ℕ, ◌≡◌, refl, sym, ◌∙◌, ap, Bool, true, false, not, inl, inr, Bool-cases, List, [], ◌∷◌, Option,
  none, some, if◌then◌else◌,
}
use rmw_connextdds.Names.Text.{Text, text_eq}
use rmw_connextdds.Ret.{is_ok}
use rmw_connextdds.Endpoint.Identity.{Gid, guid_to_gid, ih_to_gid}
use rmw_connextdds.Qos.Policies.{Profile}
use rmw_connextdds.Qos.Convert.{readerwriter_qos_to_ros}
use rmw_connextdds.Graph.Cache.{GraphCache, Context, add_entity, remove_entity}
use rmw_connextdds.Discovery.Samples.{
  Learning, Sample, valid, invalid, InstanceState, Batch, EndpointData, for_samples, key_to_gid,
  on_endpoint, add_remote_entity, publication_on_data, subscription_on_data,
}
use rmw_connextdds.Discovery.Delivery.{delivered, publication_on_data-handled}

-- The maps of rmw_dds_common::GraphCache, one for the writers and one for the readers, with the bytes
-- of an identifier as the key: `add_entity` is an insertion, which fails where the key is there
-- already, and `remove_entity` an erasure.
pub record Maps (C : GraphCache) : Type 0 where
  pub holds : Gid → Bool → C.State → Bool
  pub add_entity-same :
      (g : Gid) (topic type : Text) (dp : Gid) (q : Profile) (r : Bool) (c : C.State) (e : Gid)
      → holds e r (C.add_entity g topic type dp q r c).1
        ≡ (if text_eq g.bytes e.bytes then true else holds e r c)
  pub add_entity-other :
      (g : Gid) (topic type : Text) (dp : Gid) (q : Profile) (r : Bool) (c : C.State) (e : Gid)
      → holds e (not r) (C.add_entity g topic type dp q r c).1 ≡ holds e (not r) c
  pub remove_entity-same :
      (g : Gid) (r : Bool) (c : C.State) (e : Gid)
      → holds e r (C.remove_entity g r c).1
        ≡ (if text_eq g.bytes e.bytes then false else holds e r c)
  pub remove_entity-other :
      (g : Gid) (r : Bool) (c : C.State) (e : Gid)
      → holds e (not r) (C.remove_entity g r c).1 ≡ holds e (not r) c

-- `b` unless something else is said.
abbrev pub unless_said : Option Bool → Bool → Bool
unless_said none b = b
unless_said (some v) b = v

-- The later word, if there is one.
abbrev pub later_word : Option Bool → Option Bool → Option Bool
later_word none before = before
later_word (some v) before = some v

unless_said-later_word :
    (l w : Option Bool) (b : Bool)
    → unless_said (later_word l w) b ≡ unless_said l (unless_said w b)
unless_said-later_word none w b = refl
unless_said-later_word (some v) w b = refl

module _ (C : GraphCache) (L : Learning C) where
  -- The policies of an endpoint can be converted.
  abbrev pub is_convertible : EndpointData → Bool → Bool
  is_convertible d is_reader =
      is_ok
        (readerwriter_qos_to_ros false d.policies (if is_reader then none else d.policies.lifespan)
          C.qos_profile_default).0

  -- What a sample says of the endpoint `e` to a participant `own`: that it is there, that it is not,
  -- or nothing.
  abbrev pub said : Gid → Bool → Gid → Sample EndpointData → Option Bool
  said own is_reader e (valid d) =
      if text_eq (key_to_gid C L d.participant_key).bytes own.bytes
      then none
      else (if is_convertible d is_reader
          then (if text_eq (key_to_gid C L d.key).bytes e.bytes then some true else none)
          else none)
  said own is_reader e (invalid InstanceState.alive handle) = none
  said own is_reader e (invalid _ handle) =
      if text_eq (ih_to_gid C.identifier C.gid_storage_size handle).bytes e.bytes
      then some false
      else none

  -- The last thing that samples say of it.
  abbrev pub last_said : Gid → Bool → Gid → List (Sample EndpointData) → Option Bool
  last_said own is_reader e [] = none
  last_said own is_reader e (x ∷ xs) =
      later_word (last_said own is_reader e xs) (said own is_reader e x)

  module _ (M : Maps C) where
    -- After `ctx`, of the kind that the samples are about, the endpoint `e` is there if `b`, and of the
    -- other kind if it was.
    pub record Holds (is_reader : Bool) (e : Gid) (b : Bool) (ctx ctx' : Context C) : Type 0 where
      pub same : M.holds e is_reader ctx'.cache ≡ b
      pub other : M.holds e (not is_reader) ctx'.cache ≡ M.holds e (not is_reader) ctx.cache
      pub gid : ctx'.gid ≡ ctx.gid

    pick : (c v b : Bool) → (if c then v else b) ≡ unless_said (if c then some v else none) b
    pick true v b = refl
    pick false v b = refl

    remote_key :
        (d : EndpointData)
        → guid_to_gid C.identifier C.gid_storage_size (L.builtin_topic_key_to_guid d.key)
          ≡ key_to_gid C L d.key
    remote_key d = refl

    valid-Holds :
        (is_reader : Bool) (e : Gid) (d : EndpointData) (ctx : Context C)
        → Holds is_reader e
            (unless_said (said ctx.gid is_reader e (valid d)) (M.holds e is_reader ctx.cache))
            ctx
            (add_remote_entity C L d is_reader ctx).1
    unfolding add_remote_entity add_entity
    valid-Holds is_reader e d ctx =
        elim (Bool-cases (text_eq (key_to_gid C L d.participant_key).bytes ctx.gid.bytes)) [
          | inl o ↦ rw (add_remote_entity, o) (record { same = refl; other = refl; gid = refl })
          | inr o ↦ elim (Bool-cases (is_convertible d is_reader)) [
            | inr f ↦
                rw (add_remote_entity, o, add_entity, f)
                  (record { same = refl; other = refl; gid = refl })
            | inl f ↦
                let g = key_to_gid C L d.key in
                let dp = key_to_gid C L d.participant_key in
                let q =
                  (readerwriter_qos_to_ros false d.policies
                    (if is_reader then none else d.policies.lifespan) C.qos_profile_default).1 in
                let a = C.add_entity g d.topic_name d.type_name dp q is_reader ctx.cache in
                let s =
                  M.add_entity-same g d.topic_name d.type_name dp q is_reader ctx.cache e
                  ∙ pick (text_eq g.bytes e.bytes) true (M.holds e is_reader ctx.cache) in
                let t = M.add_entity-other g d.topic_name d.type_name dp q is_reader ctx.cache e in
                elim (Bool-cases a.0) [
                  | inl y ↦
                      rw (add_remote_entity, o, add_entity, f, y)
                        (record { same = s; other = t; gid = refl })
                  | inr y ↦
                      rw (add_remote_entity, o, add_entity, f, y)
                        (record { same = s; other = t; gid = refl })
                ]
          ]
        ]

    gone-Holds :
        (is_reader : Bool) (e : Gid) (handle : List ℕ) (ctx : Context C)
        → Holds is_reader e
            (unless_said
              (if text_eq (ih_to_gid C.identifier C.gid_storage_size handle).bytes e.bytes
                then some false
                else none)
              (M.holds e is_reader ctx.cache))
            ctx
            (remove_entity C handle is_reader ctx).1
    unfolding remove_entity
    gone-Holds is_reader e handle ctx =
        let g = ih_to_gid C.identifier C.gid_storage_size handle in
        record {
          same =
              M.remove_entity-same g is_reader ctx.cache e
              ∙ pick (text_eq g.bytes e.bytes) false (M.holds e is_reader ctx.cache);
          other = M.remove_entity-other g is_reader ctx.cache e;
          gid = refl;
        }

    on_endpoint-Holds :
        (is_reader : Bool) (e : Gid) (x : Sample EndpointData) (ctx : Context C)
        → Holds is_reader e
            (unless_said (said ctx.gid is_reader e x) (M.holds e is_reader ctx.cache))
            ctx
            (on_endpoint C L is_reader x ctx)
    unfolding on_endpoint
    on_endpoint-Holds is_reader e (valid d) ctx = valid-Holds is_reader e d ctx
    on_endpoint-Holds is_reader e (invalid InstanceState.alive handle) ctx = record {
      same = refl;
      other = refl;
      gid = refl;
    }
    on_endpoint-Holds is_reader e (invalid InstanceState.not_alive_disposed handle) ctx =
        gone-Holds is_reader e handle ctx
    on_endpoint-Holds is_reader e (invalid InstanceState.not_alive_no_writers handle) ctx =
        gone-Holds is_reader e handle ctx

    for_samples-Holds :
        (is_reader : Bool) (e : Gid) (xs : List (Sample EndpointData)) (ctx : Context C)
        → Holds is_reader e
            (unless_said (last_said ctx.gid is_reader e xs) (M.holds e is_reader ctx.cache))
            ctx
            (for_samples (on_endpoint C L is_reader) xs ctx)
    for_samples-Holds is_reader e [] ctx = record { same = refl; other = refl; gid = refl }
    for_samples-Holds is_reader e (x ∷ xs) ctx =
        let H = on_endpoint-Holds is_reader e x ctx in
        let T = for_samples-Holds is_reader e xs (on_endpoint C L is_reader x ctx) in
        record {
          same =
              T.same
              ∙ (ap
                    (λ g.
                      unless_said (last_said g is_reader e xs)
                        (M.holds e is_reader (on_endpoint C L is_reader x ctx).cache))
                    H.gid
                  ∙ (ap (unless_said (last_said ctx.gid is_reader e xs)) H.same
                      ∙ sym (
                          unless_said-later_word (last_said ctx.gid is_reader e xs)
                            (said ctx.gid is_reader e x) (M.holds e is_reader ctx.cache))));
          other = T.other ∙ H.other;
          gid = T.gid ∙ H.gid;
        }

    -- After the publications are read, the cache holds a writer exactly if the last sample that says
    -- something of it announces it, or none does and it was held before, and the readers that it holds
    -- are the same; and likewise with the subscriptions for the readers. The samples are those of the
    -- takes up to the first whose loan cannot be returned; a sample with data announces its endpoint,
    -- if that is another participant's and its policies can be converted, and a sample without data
    -- ends it, if its instance is disposed of or has no writers.
    pub publication_on_data-Holds :
        (bs : List (Batch (Sample EndpointData))) (e : Gid) (ctx : Context C)
        → Holds false e
            (unless_said (last_said ctx.gid false e (delivered bs)) (M.holds e false ctx.cache))
            ctx
            (publication_on_data C L bs ctx).1
          × Holds true e
              (unless_said (last_said ctx.gid true e (delivered bs)) (M.holds e true ctx.cache))
              ctx
              (subscription_on_data C L bs ctx).1
    publication_on_data-Holds bs e ctx =
        let (x, y) = (publication_on_data-handled C L ctx).1 bs in
        (
          rw (ap (λ r. r.1) x) (for_samples-Holds false e (delivered bs) ctx),
          rw (ap (λ r. r.1) y) (for_samples-Holds true e (delivered bs) ctx),
        )
