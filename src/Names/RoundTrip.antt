-- ===== src/Names/RoundTrip.antt =====
-- Demangling undoes the mangling of topic names.
use rmw_connextdds.Prelude.{
  ℕ, ◌≡◌, refl, ◌↔◌, ◌⊎◌, false, [], ◌∷◌, ◌++◌, append-nil, arith, length-append, take-append,
}
use rmw_connextdds.Names.Text.{Text, codes, ok, out_of_range}
use rmw_connextdds.Names.Demangle.{
  ros_topic_prefix, resolve_prefix, strip_suffix, demangle_if_ros_topic,
  demangle_ros_topic_from_topic, strip_ros_prefix_if_exists, demangle_service_with,
  demangle_service_from_topic, demangle_service_reply_from_topic,
  demangle_service_request_from_topic, strip_prefixes,
}
use rmw_connextdds.Names.Mangle.{create_topic_name, reply_topic, request_topic}
use rmw_connextdds.Names.Search.{rfind-append}

-- A topic name that begins with a slash comes back from its DDS name, by either function for
-- topics, and the DDS name is no service's.
pub demangle_topic-create_topic_name :
    (n : Text)
    → let dds_name = create_topic_name ros_topic_prefix (b'/' ∷ n) [] false in
      (demangle_if_ros_topic dds_name ≡ ok (b'/' ∷ n))
      × (demangle_ros_topic_from_topic dds_name ≡ ok (b'/' ∷ n))
      × (demangle_service_from_topic dds_name ≡ ok [])
unfolding create_topic_name demangle_if_ros_topic demangle_ros_topic_from_topic
    strip_ros_prefix_if_exists strip_prefixes resolve_prefix demangle_service_from_topic
    demangle_service_reply_from_topic demangle_service_request_from_topic demangle_service_with
demangle_topic-create_topic_name n = rw (append-nil n) (ground arith, ground arith, refl)

-- Demangling throws on exactly the three names that are a prefix and nothing more.
pub demangle_if_ros_topic_throws :
    (t : Text)
    → (demangle_if_ros_topic t ≡ out_of_range)
      ↔ ((t ≡ codes "rt") ⊎ (t ≡ codes "rq") ⊎ (t ≡ codes "rr"))
unfolding demangle_if_ros_topic strip_ros_prefix_if_exists strip_prefixes
demangle_if_ros_topic_throws [] = ground arith
demangle_if_ros_topic_throws (a ∷ []) = ground arith
demangle_if_ros_topic_throws (a ∷ b ∷ []) = ground arith
demangle_if_ros_topic_throws (a ∷ b ∷ c ∷ s) = ground arith

strip_suffix-append : (x : Text) (c : ℕ) (p : Text) → strip_suffix (x ++ c ∷ p) (c ∷ p) ≡ ok x
unfolding strip_suffix
strip_suffix-append x c p =
    rw (rfind-append x c p, strip_suffix)
      (ground (arith, length-append x (c ∷ p), take-append x (c ∷ p)))

request_topic_lem :
    (n : Text) → demangle_service_from_topic (request_topic (b'/' ∷ n) false) ≡ ok (b'/' ∷ n)
unfolding request_topic demangle_service_from_topic demangle_service_reply_from_topic
    demangle_service_request_from_topic demangle_service_with resolve_prefix
request_topic_lem n = ground (arith, strip_suffix-append (b'/' ∷ n) b'R' (codes "equest"))

reply_topic_lem :
    (n : Text) → demangle_service_from_topic (reply_topic (b'/' ∷ n) false) ≡ ok (b'/' ∷ n)
unfolding reply_topic demangle_service_from_topic demangle_service_reply_from_topic
    demangle_service_with resolve_prefix
reply_topic_lem n = ground (arith, strip_suffix-append (b'/' ∷ n) b'R' (codes "eply"))

-- The request topic and the reply topic of a service whose name begins with a slash both demangle to
-- that name.
pub demangle_service-request_topic :
    (n : Text)
    → (demangle_service_from_topic (request_topic (b'/' ∷ n) false) ≡ ok (b'/' ∷ n))
      × (demangle_service_from_topic (reply_topic (b'/' ∷ n) false) ≡ ok (b'/' ∷ n))
demangle_service-request_topic n = (request_topic_lem n, reply_topic_lem n)
