-- ===== src/Context/State.antt =====
-- The state of rmw_context_impl_t and its release: rmw_context_impl_t::clean_up, next_client_id and
-- assert_topic of rmw_connextdds_common/src/common/rmw_context.cpp.
use rmw_connextdds.Prelude.{
  ℕ, ◌+◌, ◌%◌, ◌^◌, Bool, true, false, ◌&&◌, Option, none, some, if◌then◌else◌,
}
use rmw_connextdds.Names.Text.{Text}
use rmw_connextdds.Ret.{Ret}

-- How the calls of DDS, of the environment and of the other modules end, for one call of an
-- operation. A Boolean tells whether the call of its name succeeds.
pub record Calls : Type 0 where
  pub environment : Option Text
  pub participant_factory : Option ℕ
  pub participant_qos : Bool
  pub configure_security : Bool
  pub create_participant : Bool
  pub default_publisher_qos : Bool
  pub create_publisher : Bool
  pub default_subscriber_qos : Bool
  pub create_subscriber : Bool
  pub graph_initialize : Bool
  pub enable_participant : Bool
  pub enable_subscriber : Bool
  pub enable_publisher : Bool
  pub graph_enable : Bool
  pub graph_finalize : Bool
  pub delete_publisher_entities : Bool
  pub delete_publisher : Bool
  pub delete_subscriber_entities : Bool
  pub delete_subscriber : Bool
  pub delete_participant_entities : Bool
  pub delete_participant : Bool
  pub finalize_participant_factory : Bool
  pub outstanding_participants : Bool
  pub finalize_instance : Bool

-- A Boolean tells whether the pointer of its name is set; a factory is known by its address, and
-- `gv_factory` is RMW_Connext_gv_DomainParticipantFactory. `node_count` is a size_t.
pub record Context : Type 0 where
  pub node_count : ℕ
  pub localhost_only : Bool
  pub qos_ctx_namespace : Text
  pub qos_ctx_name : Text
  pub qos_library : Text
  pub factory : Option ℕ
  pub participant : Bool
  pub dds_pub : Bool
  pub dds_sub : Bool
  pub client_service_id : ℕ
  pub gv_factory : Option ℕ

-- The rest of the operation, unless a step failed.
infixl 5 ◌then_next◌
abbrev pub ◌then_next◌ : Ret × Context → (Context → Ret × Context) → Ret × Context
(Ret.ok, s) then_next f = f s
(rc, s) then_next f = (rc, s)

-- A step that fails where `b` is false.
abbrev pub require : Bool → Context → Ret × Context
require b s = (if b then Ret.ok else Ret.error, s)

module _ (D : Calls) where
  unfoldable pub release_publisher : Context → Ret × Context
  release_publisher s =
      if s.dds_pub
      then require (D.delete_publisher_entities && D.delete_publisher) s
        then_next (λ t. (Ret.ok, record t { dds_pub = false }))
      else (Ret.ok, s)

  unfoldable pub release_subscriber : Context → Ret × Context
  release_subscriber s =
      if s.dds_sub
      then require (D.delete_subscriber_entities && D.delete_subscriber) s
        then_next (λ t. (Ret.ok, record t { dds_sub = false }))
      else (Ret.ok, s)

  unfoldable pub release_participant : Context → Ret × Context
  release_participant s =
      if s.participant
      then require (D.delete_participant_entities && D.delete_participant) s
        then_next (λ t. (Ret.ok, record t { participant = false }))
      else (Ret.ok, s)

  abbrev pub is_set : Option ℕ → Bool
  is_set none = false
  is_set (some f) = true

  unfoldable pub release_factory : Context → Ret × Context
  release_factory s =
      (if is_set s.gv_factory
        then require D.finalize_participant_factory s then_next (λ t.
          if D.outstanding_participants
          then (Ret.ok, t)
          else (require D.finalize_instance t
              then_next (λ u. (Ret.ok, record u { gv_factory = none }))))
        else (Ret.ok, s))
      then_next (λ t. (Ret.ok, record t { factory = none }))

  unfoldable pub clean_up : Bool → Context → Ret × Context
  clean_up finalize_factory s =
      require D.graph_finalize s
      then_next release_publisher
      then_next release_subscriber
      then_next release_participant
      then_next (λ t.
          if finalize_factory && is_set t.factory then release_factory t else (Ret.ok, t))

-- The counter has 32 bits.
unfoldable pub next_client_id : Context → ℕ × Context
next_client_id s =
    (s.client_service_id, record s { client_service_id = (s.client_service_id + 1) % 2 ^ 32 })

-- How the calls of assert_topic end.
pub record TopicCalls : Type 0 where
  pub lookup_topicdescription : Bool
  pub find_topic : Bool
  pub create_topic : Bool
  pub enable : Bool

-- The result, and `created`, which keeps its value where nothing sets it.
unfoldable pub assert_topic : TopicCalls → Bool → Bool → Ret × Bool
assert_topic T internal created =
    let enabled : Bool → Ret × Bool =
      λ c. (if internal then (Ret.ok, c) else (if T.enable then (Ret.ok, c) else (Ret.error, c))) in
    if T.lookup_topicdescription
    then (if internal
        then enabled false
        else (if T.find_topic then enabled true else (Ret.error, created)))
    else (if T.create_topic then enabled true else (Ret.error, created))
