-- ===== src/Names/Demangle.antt =====
-- rmw_connextdds_common/src/common/demangle.cpp: the ROS names behind DDS topic and type names.
-- `find_and_replace` of rcpputils is a parameter.
use rmw_connextdds.Prelude.{
  ℕ, ◌+◌, ◌-◌, ◌%◌, ◌^◌, Bool, true, false, not, List, [], ◌∷◌, ◌++◌, Option, none, some, length,
  ◌==◌, if◌then◌else◌,
}
use rmw_connextdds.Names.Text.{
  Text, codes, Outcome, ok, undefined, ◌>>=◌, text_eq, starts_with, find, rfind, char_at, substr,
  substr_from,
}

abbrev pub ros_topic_prefix : Text
ros_topic_prefix = codes "rt"

abbrev pub ros_service_requester_prefix : Text
ros_service_requester_prefix = codes "rq"

abbrev pub ros_service_response_prefix : Text
ros_service_response_prefix = codes "rr"

abbrev pub ros_prefixes : List Text
ros_prefixes = ros_topic_prefix ∷ ros_service_requester_prefix ∷ ros_service_response_prefix ∷ []

-- `name.rfind(prefix, 0) == 0 && name.at(prefix.length()) == '/'`
abbrev pub has_prefix : Text → Text → Outcome Bool
has_prefix name prefix =
    if starts_with prefix name
    then (do c ← char_at name (length prefix); ok (c == b'/'))
    else ok false

unfoldable pub resolve_prefix : Text → Text → Outcome Text
resolve_prefix name prefix = do
  found ← has_prefix name prefix
  if found then substr_from name (length prefix) else ok []

-- The loop over the prefixes.
unfoldable pub strip_prefixes : List Text → Text → Outcome Text
strip_prefixes [] topic_name = ok topic_name
strip_prefixes (prefix ∷ rest) topic_name = do
  found ← has_prefix topic_name prefix
  elim found [
    | true ↦ substr_from topic_name (length prefix)
    | false ↦ strip_prefixes rest topic_name
  ]

unfoldable pub strip_ros_prefix_if_exists : Text → Outcome Text
strip_ros_prefix_if_exists = strip_prefixes ros_prefixes

unfoldable pub demangle_if_ros_topic : Text → Outcome Text
demangle_if_ros_topic topic_name = strip_ros_prefix_if_exists topic_name

unfoldable pub demangle_ros_topic_from_topic : Text → Outcome Text
demangle_ros_topic_from_topic topic_name = resolve_prefix topic_name ros_topic_prefix

-- The suffix test on a service name: both warnings end in the empty name.
unfoldable pub strip_suffix : Text → Text → Outcome Text
strip_suffix service_name suffix = elim (rfind suffix service_name) [
  | some position ↦
      if length service_name - position - length suffix == 0
      then substr service_name 0 position
      else ok []
  | none ↦ ok []
]

-- The overload with a prefix and a suffix.
unfoldable pub demangle_service_with : Text → Text → Text → Outcome Text
demangle_service_with prefix topic_name suffix = do
  service_name ← resolve_prefix topic_name prefix
  if text_eq [] service_name then ok [] else strip_suffix service_name suffix

unfoldable pub demangle_service_request_from_topic : Text → Outcome Text
demangle_service_request_from_topic topic_name =
    demangle_service_with ros_service_requester_prefix topic_name (codes "Request")

unfoldable pub demangle_service_reply_from_topic : Text → Outcome Text
demangle_service_reply_from_topic topic_name =
    demangle_service_with ros_service_response_prefix topic_name (codes "Reply")

unfoldable pub demangle_service_from_topic : Text → Outcome Text
demangle_service_from_topic topic_name = do
  demangled_topic ← demangle_service_reply_from_topic topic_name
  if text_eq [] demangled_topic
      then demangle_service_request_from_topic topic_name
      else ok demangled_topic

abbrev pub dds_namespace : Text
dds_namespace = codes "dds_::"

-- The last byte: `s[s.size() - 1]` is out of bounds on the empty string.
abbrev pub last_byte : Text → Outcome ℕ
last_byte [] = undefined
last_byte (c ∷ []) = ok c
last_byte (c ∷ d ∷ s) = last_byte (d ∷ s)

-- A position of a string is below 2 ^ 64, and subtraction wraps.
abbrev pub sub_size : ℕ → ℕ → ℕ
sub_size a b = (a + 2 ^ 64 - b) % 2 ^ 64

abbrev pub response_suffix : Text
response_suffix = codes "_Response_"

abbrev pub request_suffix : Text
request_suffix = codes "_Request_"

-- The loop over the suffixes: the value of `suffix_position` when it ends, with `none` for npos.
unfoldable pub suffix_loop : List Text → Option ℕ → Text → Option ℕ
suffix_loop [] position name = position
suffix_loop (suffix ∷ rest) position name = elim (rfind suffix name) [
  | none ↦ suffix_loop rest none name
  | some at ↦ elim (length name - at - length suffix == 0) [
    | true ↦ some at
    | false ↦ suffix_loop rest (some at) name
  ]
]

module _ (find_and_replace : Text → Text → Text → Text) where
  unfoldable pub demangle_if_ros_type : Text → Outcome Text
  demangle_if_ros_type dds_type_string = do
    c ← last_byte dds_type_string
    if not (c == b'_') then ok dds_type_string else elim (find dds_namespace dds_type_string) [
      | none ↦ ok dds_type_string
      | some position ↦ do
        type_namespace ← substr dds_type_string 0 position
        let start = position + length dds_namespace
        type_name ← substr dds_type_string start (sub_size (length dds_type_string - 1) start)
        ok (find_and_replace type_namespace (codes "::") (codes "/") ++ type_name)
    ]

  unfoldable pub demangle_service_type_only : Text → Outcome Text
  demangle_service_type_only dds_type_name = elim (find dds_namespace dds_type_name) [
    | none ↦ ok []
    | some ns_position ↦
        elim (suffix_loop (response_suffix ∷ request_suffix ∷ []) (some 0) dds_type_name) [
          | none ↦ ok []
          | some suffix_position ↦ do
            type_namespace ← substr dds_type_name 0 ns_position
            let start = ns_position + length dds_namespace
            type_name ← substr dds_type_name start (sub_size suffix_position start)
            ok (find_and_replace type_namespace (codes "::") (codes "/") ++ type_name)
        ]
  ]

unfoldable pub identity_demangle : Text → Text
identity_demangle name = name
