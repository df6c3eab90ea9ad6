-- ===== src/Discovery/Samples.antt =====
-- The samples of discovery: rmw_connextdds_graph_on_participant_info, add_participant,
-- add_remote_entity of rmw_connextdds_common/src/common/rmw_graph.cpp, and
-- rmw_connextdds_dcps_participant_on_data, publication_on_data and subscription_on_data of
-- ndds/dds_api_ndds.cpp.
use rmw_connextdds.Prelude.{ℕ, Bool, true, false, List, [], ◌∷◌, Option, none, some, if◌then◌else◌}
use rmw_connextdds.Names.Text.{Text, codes, text_eq}
use rmw_connextdds.Ret.{Ret}
use rmw_connextdds.Endpoint.Identity.{Gid, guid_to_gid}
use rmw_connextdds.Qos.Policies.{Policies}
use rmw_connextdds.Graph.Cache.{GraphCache, Context, add_entity, remove_entity, remove_participant}

-- DDS_InstanceStateKind
pub data InstanceState : Type 0 where
  alive not_alive_disposed not_alive_no_writers : InstanceState

-- A sample with valid data, or the state and the handle of its instance.
pub data Sample {ℓ} (A : Type ℓ) : Type ℓ where
  valid : A → Sample A
  invalid : InstanceState → List ℕ → Sample A

-- DDS_ParticipantBuiltinTopicData
pub record ParticipantData : Type 0 where
  pub key : List ℕ
  pub user_data : List ℕ

-- DDS_PublicationBuiltinTopicData and DDS_SubscriptionBuiltinTopicData
pub record EndpointData : Type 0 where
  pub key : List ℕ
  pub participant_key : List ℕ
  pub topic_name : Text
  pub type_name : Text
  pub policies : Policies

-- A take that succeeded: its samples, and whether the loan can be returned.
pub record Batch {ℓ} (A : Type ℓ) : Type ℓ where
  pub samples : List A
  pub return_loan : Bool

-- What rmw_dds_common::GraphCache, DDS and rmw do with what was learned.
pub record Learning (C : GraphCache) : Type 0 where
  pub add_participant : Gid → Text → C.State → C.State
  pub update_participant_entities : C.Message → C.State → C.State
  pub builtin_topic_key_to_guid : List ℕ → List ℕ
  pub parse_key_value : List ℕ → List (Text × List ℕ)

-- `map.find(key)`
abbrev pub find_key : Text → List (Text × List ℕ) → Option (List ℕ)
find_key key [] = none
find_key key ((k, v) ∷ map) = if text_eq k key then some v else find_key key map

-- The samples of a loan, one after the other.
abbrev pub for_samples {ℓ κ} : {A : Type ℓ} {S : Type κ} → (A → S → S) → List A → S → S
for_samples body [] s = s
for_samples body (x ∷ xs) s = for_samples body xs (body x s)

-- The loop of the three functions: each take gives a batch, until a take fails, for want of data or
-- otherwise. `body` is what
-- is done with a sample.
unfoldable pub on_data {ℓ κ} :
    {A : Type ℓ} {S : Type κ} → (A → S → S) → List (Batch A) → S → Ret × S
on_data body [] s = (Ret.ok, s)
on_data body (b ∷ bs) s =
    let s1 = for_samples body b.samples s in
    let rest = on_data body bs s1 in if b.return_loan then rest else (Ret.error, s1)

module _ (C : GraphCache) (L : Learning C) where
  -- rmw_connextdds_get_user_data_key; `none` where nothing is found.
  unfoldable pub get_user_data_key : List ℕ → Text → Option Text
  get_user_data_key [] key = none
  get_user_data_key (b ∷ user_data) key = find_key key (L.parse_key_value (b ∷ user_data))

  -- The identifier that a key stands for.
  abbrev pub key_to_gid : List ℕ → Gid
  key_to_gid key = guid_to_gid C.identifier C.gid_storage_size (L.builtin_topic_key_to_guid key)

  -- rmw_connextdds_graph_add_participant; an enclave that is a null pointer is an empty text.
  unfoldable pub add_participant : ParticipantData → Option Text → Context C → Ret × Context C
  add_participant data_ enclave ctx =
      if text_eq (key_to_gid data_.key).bytes ctx.gid.bytes then (Ret.ok, ctx) else (
        Ret.ok,
        record ctx {
          cache =
              L.add_participant (key_to_gid data_.key) (elim enclave [ none ↦ [] | some e ↦ e ])
                ctx.cache;
        },
      )

  -- rmw_connextdds_graph_add_remote_entity
  unfoldable pub add_remote_entity : EndpointData → Bool → Context C → Ret × Context C
  unfolding add_entity
  add_remote_entity data_ is_reader ctx =
      if text_eq (key_to_gid data_.participant_key).bytes ctx.gid.bytes
      then (Ret.ok, ctx)
      else add_entity C (L.builtin_topic_key_to_guid data_.key)
          (L.builtin_topic_key_to_guid data_.participant_key) data_.topic_name data_.type_name
          data_.policies (if is_reader then none else data_.policies.lifespan) is_reader ctx

  -- The bodies of the loops over a loan's samples, which ignore the results.
  unfoldable pub on_participant : Sample ParticipantData → Context C → Context C
  unfolding add_participant get_user_data_key remove_participant
  on_participant (valid data_) ctx =
      (add_participant data_ (get_user_data_key data_.user_data (codes "enclave")) ctx).1
  on_participant (invalid InstanceState.alive handle) ctx = ctx
  on_participant (invalid InstanceState.not_alive_disposed handle) ctx =
      (remove_participant C handle ctx).1
  on_participant (invalid InstanceState.not_alive_no_writers handle) ctx =
      (remove_participant C handle ctx).1

  unfoldable pub on_endpoint : Bool → Sample EndpointData → Context C → Context C
  unfolding add_remote_entity remove_entity
  on_endpoint is_reader (valid data_) ctx = (add_remote_entity data_ is_reader ctx).1
  on_endpoint is_reader (invalid InstanceState.alive handle) ctx = ctx
  on_endpoint is_reader (invalid InstanceState.not_alive_disposed handle) ctx =
      (remove_entity C handle is_reader ctx).1
  on_endpoint is_reader (invalid InstanceState.not_alive_no_writers handle) ctx =
      (remove_entity C handle is_reader ctx).1

  unfoldable pub participant_on_data :
      List (Batch (Sample ParticipantData)) → Context C → Ret × Context C
  unfolding on_data on_participant
  participant_on_data = on_data on_participant

  unfoldable pub publication_on_data :
      List (Batch (Sample EndpointData)) → Context C → Ret × Context C
  unfolding on_data on_endpoint
  publication_on_data = on_data (on_endpoint false)

  unfoldable pub subscription_on_data :
      List (Batch (Sample EndpointData)) → Context C → Ret × Context C
  unfolding on_data on_endpoint
  subscription_on_data = on_data (on_endpoint true)

  -- rmw_connextdds_graph_on_participant_info, over the takes: each gives a message or fails, until
  -- nothing is taken.
  unfoldable pub on_participant_info : List (Option C.Message) → Context C → Ret × Context C
  on_participant_info [] ctx = (Ret.ok, ctx)
  on_participant_info (none ∷ takes) ctx = (Ret.error, ctx)
  on_participant_info (some msg ∷ takes) ctx =
      on_participant_info takes (record ctx { cache = L.update_participant_entities msg ctx.cache })
