-- ===== src/Qos/Services.antt =====
-- The names of the QoS profiles of a client and of a service, of their request topic and of their
-- reply topic: rmw_connextdds_list_clientservice_qos_profiles and the two that call it, of
-- rmw_connextdds_common/src/common/rmw_impl.cpp.
use rmw_connextdds.Prelude.{List, [], ◌∷◌, ◌++◌, if◌then◌else◌}
use rmw_connextdds.Names.Text.{Text, codes}
use rmw_connextdds.Ret.{Ret}
use rmw_connextdds.Qos.Profiles.{
  QosContext, default_qos_library, tag_client, tag_service, tag_request, tag_reply, has_lib,
}

-- The calls of push_back: on `req_profiles`, on `rep_profiles`, on the one and then the other.
pub data Push : Type 0 where
  req rep both : Text → Push

unfoldable pub run_pushes : List Push → List Text × List Text → List Text × List Text
run_pushes [] (reqs, reps) = (reqs, reps)
run_pushes (req s ∷ ps) (reqs, reps) = run_pushes ps (reqs ++ (s ∷ []), reps)
run_pushes (rep s ∷ ps) (reqs, reps) = run_pushes ps (reqs, reps ++ (s ∷ []))
run_pushes (both s ∷ ps) (reqs, reps) = run_pushes ps (reqs ++ (s ∷ []), reps ++ (s ∷ []))

-- The pushes under `has_lib`.
unfoldable pub library_pushes : QosContext → Text → Text → List Push
library_pushes c service_name type_tag =
    req (
      c.qos_library
      ++ codes "::"
      ++ c.qos_ctx_namespace
      ++ c.qos_ctx_name
      ++ codes "/"
      ++ service_name
      ++ type_tag
      ++ tag_request)
    ∷ rep (
        c.qos_library
        ++ codes "::"
        ++ c.qos_ctx_namespace
        ++ c.qos_ctx_name
        ++ codes "/"
        ++ service_name
        ++ type_tag
        ++ tag_reply)
    ∷ both (
        c.qos_library
        ++ codes "::"
        ++ c.qos_ctx_namespace
        ++ c.qos_ctx_name
        ++ codes "/"
        ++ service_name
        ++ type_tag)
    ∷ req (
        c.qos_library
        ++ codes "::"
        ++ c.qos_ctx_namespace
        ++ c.qos_ctx_name
        ++ codes "/"
        ++ service_name
        ++ tag_request)
    ∷ rep (
        c.qos_library
        ++ codes "::"
        ++ c.qos_ctx_namespace
        ++ c.qos_ctx_name
        ++ codes "/"
        ++ service_name
        ++ tag_reply)
    ∷ both (
        c.qos_library
        ++ codes "::"
        ++ c.qos_ctx_namespace
        ++ c.qos_ctx_name
        ++ codes "/"
        ++ service_name)
    ∷ req (
        c.qos_library
        ++ codes "::"
        ++ c.qos_ctx_name
        ++ codes "/"
        ++ service_name
        ++ type_tag
        ++ tag_request)
    ∷ rep (
        c.qos_library
        ++ codes "::"
        ++ c.qos_ctx_name
        ++ codes "/"
        ++ service_name
        ++ type_tag
        ++ tag_reply)
    ∷ both (c.qos_library ++ codes "::" ++ c.qos_ctx_name ++ codes "/" ++ service_name ++ type_tag)
    ∷ both (c.qos_library ++ codes "::" ++ c.qos_ctx_name ++ codes "/" ++ service_name)
    ∷ req (c.qos_library ++ codes "::" ++ service_name ++ type_tag ++ tag_request)
    ∷ rep (c.qos_library ++ codes "::" ++ service_name ++ type_tag ++ tag_reply)
    ∷ both (c.qos_library ++ codes "::" ++ service_name ++ type_tag)
    ∷ req (c.qos_library ++ codes "::" ++ service_name ++ tag_request)
    ∷ rep (c.qos_library ++ codes "::" ++ service_name ++ tag_reply)
    ∷ both (c.qos_library ++ codes "::" ++ service_name)
    ∷ req (c.qos_library ++ codes "::" ++ type_tag ++ tag_request)
    ∷ rep (c.qos_library ++ codes "::" ++ type_tag ++ tag_reply)
    ∷ both (c.qos_library ++ codes "::" ++ type_tag)
    ∷ []

-- The pushes after them.
unfoldable pub default_pushes : QosContext → Text → Text → List Push
default_pushes c service_name type_tag =
    req (
      c.qos_ctx_namespace
      ++ c.qos_ctx_name
      ++ codes "::"
      ++ service_name
      ++ type_tag
      ++ tag_request)
    ∷ rep (
        c.qos_ctx_namespace
        ++ c.qos_ctx_name
        ++ codes "::"
        ++ service_name
        ++ type_tag
        ++ tag_reply)
    ∷ both (c.qos_ctx_namespace ++ c.qos_ctx_name ++ codes "::" ++ service_name ++ type_tag)
    ∷ req (c.qos_ctx_namespace ++ c.qos_ctx_name ++ codes "::" ++ service_name ++ tag_request)
    ∷ rep (c.qos_ctx_namespace ++ c.qos_ctx_name ++ codes "::" ++ service_name ++ tag_reply)
    ∷ both (c.qos_ctx_namespace ++ c.qos_ctx_name ++ codes "::" ++ service_name)
    ∷ req (c.qos_ctx_namespace ++ c.qos_ctx_name ++ codes "::" ++ type_tag ++ tag_request)
    ∷ rep (c.qos_ctx_namespace ++ c.qos_ctx_name ++ codes "::" ++ type_tag ++ tag_reply)
    ∷ both (c.qos_ctx_namespace ++ c.qos_ctx_name ++ codes "::" ++ type_tag)
    ∷ req (
        default_qos_library
        ++ codes "::"
        ++ c.qos_ctx_namespace
        ++ c.qos_ctx_name
        ++ codes "/"
        ++ service_name
        ++ type_tag
        ++ tag_request)
    ∷ rep (
        default_qos_library
        ++ codes "::"
        ++ c.qos_ctx_namespace
        ++ c.qos_ctx_name
        ++ codes "/"
        ++ service_name
        ++ type_tag
        ++ tag_reply)
    ∷ both (
        default_qos_library
        ++ codes "::"
        ++ c.qos_ctx_namespace
        ++ c.qos_ctx_name
        ++ codes "/"
        ++ service_name
        ++ type_tag)
    ∷ req (
        default_qos_library
        ++ codes "::"
        ++ c.qos_ctx_namespace
        ++ c.qos_ctx_name
        ++ codes "/"
        ++ service_name
        ++ tag_request)
    ∷ rep (
        default_qos_library
        ++ codes "::"
        ++ c.qos_ctx_namespace
        ++ c.qos_ctx_name
        ++ codes "/"
        ++ service_name
        ++ tag_reply)
    ∷ both (
        default_qos_library
        ++ codes "::"
        ++ c.qos_ctx_namespace
        ++ c.qos_ctx_name
        ++ codes "/"
        ++ service_name)
    ∷ req (
        default_qos_library
        ++ codes "::"
        ++ c.qos_ctx_name
        ++ codes "/"
        ++ service_name
        ++ type_tag
        ++ tag_request)
    ∷ rep (
        default_qos_library
        ++ codes "::"
        ++ c.qos_ctx_name
        ++ codes "/"
        ++ service_name
        ++ type_tag
        ++ tag_reply)
    ∷ both (
        default_qos_library
        ++ codes "::"
        ++ c.qos_ctx_name
        ++ codes "/"
        ++ service_name
        ++ type_tag)
    ∷ req (default_qos_library ++ codes "::" ++ c.qos_ctx_name ++ service_name ++ tag_request)
    ∷ rep (default_qos_library ++ codes "::" ++ c.qos_ctx_name ++ service_name ++ tag_reply)
    ∷ both (default_qos_library ++ codes "::" ++ c.qos_ctx_name ++ service_name)
    ∷ req (default_qos_library ++ codes "::" ++ service_name ++ type_tag ++ tag_request)
    ∷ rep (default_qos_library ++ codes "::" ++ service_name ++ type_tag ++ tag_reply)
    ∷ both (default_qos_library ++ codes "::" ++ service_name ++ type_tag)
    ∷ req (default_qos_library ++ codes "::" ++ service_name ++ tag_request)
    ∷ rep (default_qos_library ++ codes "::" ++ service_name ++ tag_reply)
    ∷ both (default_qos_library ++ codes "::" ++ service_name)
    ∷ req (default_qos_library ++ codes "::" ++ type_tag ++ tag_request)
    ∷ rep (default_qos_library ++ codes "::" ++ type_tag ++ tag_reply)
    ∷ both (default_qos_library ++ codes "::" ++ type_tag)
    ∷ []

unfoldable pub list_clientservice_qos_profiles :
    QosContext → Text → Text → List Text × List Text → Ret × List Text × List Text
list_clientservice_qos_profiles c service_name type_tag profiles =
    let with_lib =
      (if has_lib c
        then run_pushes (library_pushes c service_name type_tag) profiles
        else profiles) in
    let (reqs, reps) = run_pushes (default_pushes c service_name type_tag) with_lib in
    (Ret.ok, reqs, reps)

unfoldable pub list_client_qos_profiles :
    QosContext → Text → List Text × List Text → Ret × List Text × List Text
unfolding list_clientservice_qos_profiles
list_client_qos_profiles c service_name profiles =
    list_clientservice_qos_profiles c service_name tag_client profiles

unfoldable pub list_service_qos_profiles :
    QosContext → Text → List Text × List Text → Ret × List Text × List Text
unfolding list_clientservice_qos_profiles
list_service_qos_profiles c service_name profiles =
    list_clientservice_qos_profiles c service_name tag_service profiles
