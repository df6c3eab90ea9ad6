-- ===== src/Names/Mangle.antt =====
-- The names of topics and types in rmw_connextdds_common/src/common/rmw_impl.cpp.
use rmw_connextdds.Prelude.{Bool, [], ◌∷◌, ◌++◌, if◌then◌else◌}
use rmw_connextdds.Names.Text.{Text, codes}
use rmw_connextdds.Names.Demangle.{ros_service_requester_prefix, ros_service_response_prefix}

unfoldable pub create_topic_name : Text → Text → Text → Bool → Text
create_topic_name prefix topic_name suffix avoid_ros_namespace_conventions =
    if avoid_ros_namespace_conventions
    then topic_name ++ suffix
    else (prefix ++ topic_name) ++ suffix

-- The topics of `RMW_Connext_Client::create` and `RMW_Connext_Service::create`.
unfoldable pub reply_topic : Text → Bool → Text
unfolding create_topic_name
reply_topic svc_name avoid =
    create_topic_name ros_service_response_prefix svc_name (codes "Reply") avoid

unfoldable pub request_topic : Text → Bool → Text
unfolding create_topic_name
request_topic svc_name avoid =
    create_topic_name ros_service_requester_prefix svc_name (codes "Request") avoid

-- `msg_namespace << "::"`, unless it is empty.
abbrev pub with_separator : Text → Text
with_separator [] = []
with_separator (c ∷ ns) = (c ∷ ns) ++ codes "::"

-- The static overload, which the others call.
unfoldable pub create_type_name : Text → Text → Text → Bool → Text
create_type_name message_namespace message_name message_suffix mangle_prefix =
    with_separator message_namespace
    ++ (codes "dds"
        ++ ((if mangle_prefix then codes "_" else [])
            ++ (codes "::" ++ (message_name ++ message_suffix))))

unfoldable pub create_message_type_name : Text → Text → Bool → Text
unfolding create_type_name
create_message_type_name message_namespace message_name mangle_names =
    create_type_name message_namespace message_name (if mangle_names then codes "_" else [])
      mangle_names

unfoldable pub create_type_name_request : Text → Text → Bool → Text
unfolding create_type_name
create_type_name_request service_namespace service_name mangle_names =
    create_type_name service_namespace service_name
      (if mangle_names then codes "_Request_" else codes "Request") mangle_names

unfoldable pub create_type_name_response : Text → Text → Bool → Text
unfolding create_type_name
create_type_name_response service_namespace service_name mangle_names =
    create_type_name service_namespace service_name
      (if mangle_names then codes "_Response_" else codes "Response") mangle_names
