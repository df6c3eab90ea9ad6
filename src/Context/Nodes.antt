-- ===== src/Context/Nodes.antt =====
-- rmw_context_impl_t::initialize_node and finalize_node of
-- rmw_connextdds_common/src/common/rmw_context.cpp. The mutex makes each one step.
use rmw_connextdds.Prelude.{
  ℕ, ◌+◌, ◌-◌, ◌%◌, ◌^◌, ◌==◌, Bool, true, false, not, ◌&&◌, ◌||◌, none, some, if◌then◌else◌,
}
use rmw_connextdds.Names.Text.{Text}
use rmw_connextdds.Ret.{Ret}
use rmw_connextdds.Context.State.{Calls, Context, ◌then_next◌, clean_up}

module _ (D : Calls) where
  -- A step of the initialization: where it fails, what there is is cleaned up, and the result of
  -- that is ignored.
  abbrev pub check : Bool → Context → Ret × Context
  check b s = if b then (Ret.ok, s) else (Ret.error, (clean_up D true s).1)

  -- The global factory is the first one; another context's factory has to be the same.
  unfoldable pub adopt_factory : ℕ → Context → Ret × Context
  adopt_factory f s = elim s.gv_factory [
    | none ↦ (Ret.ok, record s { gv_factory = some f })
    | some g ↦ check (f == g) s
  ]

  unfoldable pub create_entities : Context → Ret × Context
  create_entities s =
      check D.participant_qos s
      then_next check D.configure_security
      then_next check D.create_participant
      then_next (λ t. check D.default_publisher_qos (record t { participant = true }))
      then_next check D.create_publisher
      then_next (λ t. check D.default_subscriber_qos (record t { dds_pub = true }))
      then_next check D.create_subscriber
      then_next (λ t. check D.graph_initialize (record t { dds_sub = true }))

  unfoldable pub enable_entities : Context → Ret × Context
  enable_entities s =
      check D.enable_participant s
      then_next check D.enable_subscriber
      then_next check D.enable_publisher
      then_next check D.graph_enable

  -- The initialization from the participant factory on.
  unfoldable pub initialize_dds : Context → Ret × Context
  initialize_dds s = elim D.participant_factory [
    | none ↦ (Ret.error, s)
    | some f ↦
        adopt_factory f (record s { factory = some f })
        then_next create_entities
        then_next (λ t. enable_entities (record t { node_count = 1 }))
  ]

  unfoldable pub initialize_first : Text → Text → Bool → Context → Ret × Context
  initialize_first node_name node_namespace localhost_only s =
      let s1 : Context = record s {
        localhost_only = localhost_only;
        qos_ctx_namespace = node_namespace;
        qos_ctx_name = node_name;
      } in
      elim D.environment [
        | none ↦ (Ret.error, s1)
        | some qos_library ↦ initialize_dds (record s1 { qos_library = qos_library })
      ]

  unfoldable pub initialize_node : Text → Text → Bool → Context → Ret × Context
  initialize_node node_name node_namespace localhost_only s =
      if s.node_count == 0
      then initialize_first node_name node_namespace localhost_only s
      else (if (s.localhost_only && not localhost_only) || (not s.localhost_only && localhost_only)
          then (Ret.error, s)
          else (Ret.ok, record s { node_count = (s.node_count + 1) % 2 ^ 64 }))

  -- The factory is kept.
  unfoldable pub finalize_node : Context → Ret × Context
  finalize_node s =
      let s1 : Context = record s { node_count = (s.node_count + (2 ^ 64 - 1)) % 2 ^ 64 } in
      if s1.node_count == 0 then clean_up D false s1 else (Ret.ok, s1)
