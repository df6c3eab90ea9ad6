-- ===== src/Tests/Names.antt =====
-- Names at concrete inputs: the topic `/chatter`, the service `/add` and the types of `std_msgs`.
use rmw_connextdds.Prelude.{◌≡◌, refl, ◌↔◌, ◌⊎◌, false, true, [], ◌++◌, arith}
use rmw_connextdds.Names.Text.{Text, codes, ok, out_of_range, find}
use rmw_connextdds.Names.Demangle.{
  ros_topic_prefix, demangle_if_ros_topic, demangle_ros_topic_from_topic,
  demangle_service_from_topic, demangle_if_ros_type, demangle_service_type_only,
}
use rmw_connextdds.Names.Mangle.{
  create_topic_name, reply_topic, request_topic, create_message_type_name, create_type_name_request,
  create_type_name_response,
}
use rmw_connextdds.Names.RoundTrip.{
  demangle_topic-create_topic_name, demangle_if_ros_topic_throws, demangle_service-request_topic,
}
use rmw_connextdds.Names.Types.{
  demangle_if_ros_type-create_message_type_name, demangle_service_type_only-create_type_name,
}

demangle_topic-create_topic_name_example :
    let dds_name = create_topic_name ros_topic_prefix (codes "/chatter") [] false in
    (demangle_if_ros_topic dds_name ≡ ok (codes "/chatter"))
    × (demangle_ros_topic_from_topic dds_name ≡ ok (codes "/chatter"))
    × (demangle_service_from_topic dds_name ≡ ok [])
demangle_topic-create_topic_name_example = demangle_topic-create_topic_name (codes "chatter")

demangle_if_ros_topic_throws_example :
    (demangle_if_ros_topic (codes "rq") ≡ out_of_range)
    ↔ ((codes "rq" ≡ codes "rt") ⊎ (codes "rq" ≡ codes "rq") ⊎ (codes "rq" ≡ codes "rr"))
demangle_if_ros_topic_throws_example = demangle_if_ros_topic_throws (codes "rq")

demangle_service-request_topic_example :
    (demangle_service_from_topic (request_topic (codes "/add") false) ≡ ok (codes "/add"))
    × (demangle_service_from_topic (reply_topic (codes "/add") false) ≡ ok (codes "/add"))
demangle_service-request_topic_example = demangle_service-request_topic (codes "add")

-- A replacement of every `::` in the one namespace that the tests use.
abbrev replace_all : Text → Text → Text → Text
replace_all s from to = codes "std_msgs/msg/"

demangle_if_ros_type-create_message_type_name_example :
    demangle_if_ros_type replace_all
      (create_message_type_name (codes "std_msgs::msg") (codes "String") true)
    ≡ ok (codes "std_msgs/msg/" ++ codes "String")
unfolding create_message_type_name find
demangle_if_ros_type-create_message_type_name_example =
    demangle_if_ros_type-create_message_type_name replace_all (codes "std_msgs::msg")
      (codes "String") refl (omega arith)

demangle_service_type_only-create_type_name_example :
    (demangle_service_type_only replace_all
        (create_type_name_request (codes "std_msgs::msg") (codes "Add") true)
      ≡ ok (codes "std_msgs/msg/" ++ codes "Add"))
    × (demangle_service_type_only replace_all
          (create_type_name_response (codes "std_msgs::msg") (codes "Add") true)
        ≡ ok (codes "std_msgs/msg/" ++ codes "Add"))
unfolding create_type_name_request create_type_name_response find
demangle_service_type_only-create_type_name_example =
    demangle_service_type_only-create_type_name replace_all (codes "std_msgs::msg") (codes "Add")
      refl (omega arith) (omega arith)
