-- ===== src/Qos/Profiles.antt =====
-- The names of the QoS profiles that are looked up for a context and for a topic: the
-- rmw_connextdds_list functions of rmw_connextdds_common/src/common/rmw_impl.cpp. Only a failed
-- allocation makes them throw, and that branch is left out.
use rmw_connextdds.Prelude.{Bool, true, false, List, [], ◌∷◌, ◌++◌, if◌then◌else◌}
use rmw_connextdds.Names.Text.{Text, codes, text_eq}
use rmw_connextdds.Ret.{Ret}

-- The part of rmw_context_impl_t that names its QoS.
pub record QosContext : Type 0 where
  pub qos_library : Text
  pub qos_ctx_namespace : Text
  pub qos_ctx_name : Text

abbrev pub default_qos_library : Text
default_qos_library = codes "ros2"

abbrev pub tag_node : Text
tag_node = codes "[node]"

abbrev pub tag_publisher : Text
tag_publisher = codes "[pub]"

abbrev pub tag_subscription : Text
tag_subscription = codes "[sub]"

abbrev pub tag_client : Text
tag_client = codes "[client]"

abbrev pub tag_service : Text
tag_service = codes "[service]"

abbrev pub tag_request : Text
tag_request = codes "[request]"

abbrev pub tag_reply : Text
tag_reply = codes "[reply]"

-- `ctx->qos_library.size() > 0`
abbrev pub has_lib : QosContext → Bool
has_lib c = elim c.qos_library [ [] ↦ false | _ ∷ _ ↦ true ]

unfoldable pub find_string_in_list : List Text → Text → Bool
find_string_in_list [] profile = false
find_string_in_list (profile_str ∷ profile_names) profile =
    let rest = find_string_in_list profile_names profile in
    if text_eq profile_str profile then true else rest

unfoldable pub list_context_qos_profiles : QosContext → List Text → Ret × List Text
list_context_qos_profiles c profiles =
    let with_lib : List Text =
      (c.qos_library ++ codes "::" ++ c.qos_ctx_namespace ++ c.qos_ctx_name)
      ∷ (c.qos_library ++ codes "::" ++ c.qos_ctx_name)
      ∷ (c.qos_library ++ codes "::" ++ c.qos_ctx_namespace ++ tag_node)
      ∷ (c.qos_library ++ codes "::" ++ tag_node)
      ∷ [] in
    let default : List Text =
      (c.qos_ctx_namespace ++ c.qos_ctx_name ++ codes "::" ++ tag_node)
      ∷ (c.qos_ctx_namespace ++ codes "::" ++ tag_node)
      ∷ (default_qos_library ++ codes "::" ++ c.qos_ctx_namespace ++ c.qos_ctx_name)
      ∷ (default_qos_library ++ codes "::" ++ c.qos_ctx_name)
      ∷ (default_qos_library ++ codes "::" ++ c.qos_ctx_namespace ++ tag_node)
      ∷ (default_qos_library ++ codes "::" ++ tag_node)
      ∷ [] in
    (Ret.ok, (profiles ++ (if has_lib c then with_lib else [])) ++ default)

unfoldable pub list_pubsub_qos_profiles : QosContext → Text → Text → List Text → Ret × List Text
list_pubsub_qos_profiles c topic_name type_tag profiles =
    let with_lib : List Text =
      (c.qos_library
        ++ codes "::"
        ++ c.qos_ctx_namespace
        ++ c.qos_ctx_name
        ++ topic_name
        ++ type_tag)
      ∷ (c.qos_library ++ codes "::" ++ c.qos_ctx_namespace ++ c.qos_ctx_name ++ topic_name)
      ∷ (c.qos_library ++ codes "::" ++ c.qos_ctx_name ++ topic_name ++ type_tag)
      ∷ (c.qos_library ++ codes "::" ++ c.qos_ctx_name ++ topic_name)
      ∷ (c.qos_library ++ codes "::" ++ type_tag ++ topic_name)
      ∷ (c.qos_library ++ codes "::" ++ topic_name)
      ∷ (c.qos_library ++ codes "::" ++ type_tag)
      ∷ [] in
    let default : List Text =
      (c.qos_ctx_namespace ++ c.qos_ctx_name ++ codes "::" ++ topic_name ++ type_tag)
      ∷ (c.qos_ctx_namespace ++ c.qos_ctx_name ++ codes "::" ++ topic_name)
      ∷ (c.qos_ctx_namespace ++ c.qos_ctx_name ++ codes "::" ++ type_tag)
      ∷ (c.qos_ctx_namespace ++ codes "::" ++ c.qos_ctx_name ++ topic_name ++ type_tag)
      ∷ (c.qos_ctx_namespace ++ codes "::" ++ c.qos_ctx_name ++ topic_name)
      ∷ (c.qos_ctx_namespace ++ codes "::" ++ c.qos_ctx_name ++ type_tag)
      ∷ (c.qos_ctx_namespace ++ codes "::" ++ topic_name ++ type_tag)
      ∷ (c.qos_ctx_namespace ++ codes "::" ++ topic_name)
      ∷ (c.qos_ctx_namespace ++ codes "::" ++ type_tag)
      ∷ (default_qos_library
          ++ codes "::"
          ++ c.qos_ctx_namespace
          ++ c.qos_ctx_name
          ++ topic_name
          ++ type_tag)
      ∷ (default_qos_library ++ codes "::" ++ c.qos_ctx_namespace ++ c.qos_ctx_name ++ topic_name)
      ∷ (default_qos_library ++ codes "::" ++ c.qos_ctx_name ++ topic_name ++ type_tag)
      ∷ (default_qos_library ++ codes "::" ++ c.qos_ctx_name ++ topic_name)
      ∷ (default_qos_library ++ codes "::" ++ topic_name ++ type_tag)
      ∷ (default_qos_library ++ codes "::" ++ topic_name)
      ∷ (default_qos_library ++ codes "::" ++ type_tag)
      ∷ [] in
    (Ret.ok, (profiles ++ (if has_lib c then with_lib else [])) ++ default)

unfoldable pub list_publisher_qos_profiles : QosContext → Text → List Text → Ret × List Text
unfolding list_pubsub_qos_profiles
list_publisher_qos_profiles c topic_name profiles =
    list_pubsub_qos_profiles c topic_name tag_publisher profiles

unfoldable pub list_subscription_qos_profiles : QosContext → Text → List Text → Ret × List Text
unfolding list_pubsub_qos_profiles
list_subscription_qos_profiles c topic_name profiles =
    list_pubsub_qos_profiles c topic_name tag_subscription profiles
