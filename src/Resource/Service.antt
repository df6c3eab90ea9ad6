-- ===== src/Resource/Service.antt =====
-- Clients and services: RMW_Connext_Client::create, enable, is_service_available and finalize, and
-- those of RMW_Connext_Service, of rmw_connextdds_common/src/common/rmw_impl.cpp.
use rmw_connextdds.Prelude.{
  ℕ, suc, ◌+◌, ◌-◌, ◌*◌, ◌/◌, ◌%◌, Bool, false, ◌&&◌, not, List, [], ◌∷◌, ◌++◌, Option, none, some,
  length, take, ltb, if◌then◌else◌,
}
use rmw_connextdds.Names.Text.{Text, codes}
use rmw_connextdds.Names.Mangle.{request_topic, reply_topic}
use rmw_connextdds.Ret.{Ret, is_ok, ◌then_ok◌}
use rmw_connextdds.Qos.Policies.{Profile, Constants}
use rmw_connextdds.Resource.Types.{Held}
use rmw_connextdds.Resource.Publisher.{
  EndpointCalls, Publisher, publisher_create, publisher_finalize, enable, delete_object,
}
use rmw_connextdds.Resource.Subscriber.{Filter, Subscriber, subscriber_create, subscriber_finalize}

-- `%02X` of a byte, and GUID_FMT of the 16 bytes.
abbrev pub hex_digit : ℕ → ℕ
hex_digit n = if ltb n 10 then n + b'0' else n - 10 + b'A'

abbrev pub hex : List ℕ → Text
hex [] = []
hex (b ∷ bytes) = hex_digit (b / 16) ∷ hex_digit (b % 16) ∷ hex bytes

-- "@related_sample_identity.writer_guid.value"
abbrev pub guid_field_name : Text
guid_field_name = codes "@related_sample_identity.writer_guid.value"

-- The content-filtered topic of a client's replies. snprintf leaves as many characters as the
-- buffer has room for.
unfoldable pub reply_filter : Text → List ℕ → Filter
reply_filter reply_topic writer_guid =
    let cft_name_len = length reply_topic + 1 + 16 * 2 in
    let cft_filter_len = length guid_field_name + length (codes " = &hex(") + 16 * 2 + 1 in
    record {
      cft_name = take cft_name_len (reply_topic ++ (codes "_" ++ hex writer_guid));
      cft_filter =
          take cft_filter_len
            (guid_field_name ++ (codes " = &hex(" ++ (hex writer_guid ++ codes ")")));
    }

-- How the calls end that a client or service makes, besides those of its publisher and subscriber:
-- whether the type supports are found and the allocations succeed, with the names of the types and
-- the GUID of the client's writer.
pub record ServiceCalls : Type 0 where
  pub writer : EndpointCalls
  pub reader : EndpointCalls
  pub new_object : Bool
  pub type_supports : Bool
  pub request_type : Text
  pub reply_type : Text
  pub writer_guid : List ℕ
  pub allocate_cft_name : Bool
  pub allocate_cft_filter : Bool

-- A RMW_Connext_Client, with `none` for null pointers.
pub record Client : Type 0 where
  pub request_pub : Option Publisher
  pub reply_sub : Option Subscriber

-- `if (RMW_RET_OK != pub->finalize()) return RMW_RET_ERROR; delete pub;`
abbrev pub end_publisher : ServiceCalls → Publisher → Held → Ret × Held
end_publisher C p h =
    let (rc, h1) = publisher_finalize C.writer p h in
    if is_ok rc then (Ret.ok, delete_object h1) else (Ret.error, h1)

abbrev pub end_subscriber : ServiceCalls → Subscriber → Held → Ret × Held
end_subscriber C s h =
    let (rc, h1) = subscriber_finalize C.reader s h in
    if is_ok rc then (Ret.ok, delete_object h1) else (Ret.error, h1)

unfoldable pub client_finalize : ServiceCalls → Client → Held → Ret × Held
client_finalize C c h =
    elim c.request_pub [ none ↦ (Ret.ok, h) | some p ↦ end_publisher C p h ]
    then_ok (λ h1. elim c.reply_sub [ none ↦ (Ret.ok, h1) | some s ↦ end_subscriber C s h1 ])

-- The scope exit of RMW_Connext_Client::create.
abbrev pub client_exit : ServiceCalls → Client → Held → Option Client × Held
client_exit C c h = (none, delete_object (client_finalize C c h).1)

-- A RMW_Connext_Service that has been created.
pub record Service : Type 0 where
  pub reply_pub : Publisher
  pub request_sub : Subscriber

unfoldable pub service_finalize : ServiceCalls → Service → Held → Ret × Held
service_finalize C s h = end_publisher C s.reply_pub h then_ok end_subscriber C s.request_sub

-- RMW_Connext_Client::enable and RMW_Connext_Service::enable.
unfoldable pub enable_both : ServiceCalls → Ret
enable_both C = if is_ok (enable C.writer) then enable C.reader else enable C.writer

-- RMW_Connext_Publisher::subscriptions_count and RMW_Connext_Subscriber::publications_count: the
-- count of the DDS status, `none` where that cannot be had.
unfoldable pub matched_count : Option ℕ → ℕ
matched_count none = 0
matched_count (some n) = n

-- RMW_Connext_Client::is_service_available.
unfoldable pub is_service_available : Option ℕ → Option ℕ → Bool
unfolding matched_count
is_service_available subscriptions publications =
    ltb 0 (matched_count subscriptions) && ltb 0 (matched_count publications)

module _ (K : Constants) where
  unfoldable pub client_create : ServiceCalls → Text → Bool → Profile → Held → Option Client × Held
  unfolding client_finalize reply_filter
  client_create C svc_name avoid q h =
      let h1 : Held = record h { objects = suc h.objects } in
      let c0 : Client = record { request_pub = none; reply_sub = none } in
      let (p, h2) =
        publisher_create K C.writer false C.request_type (request_topic svc_name avoid) avoid q
          h1 in
      let c1 : Client = record { request_pub = p; reply_sub = none } in
      let topic = reply_topic svc_name avoid in
      let (s, h3) =
        subscriber_create K C.reader false C.reply_type topic avoid
          (some (reply_filter topic C.writer_guid)) q h2 in
      if not C.new_object
      then (none, h)
      else (if not C.type_supports then client_exit C c0 h1 else elim p [
        | none ↦ client_exit C c1 h2
        | some x ↦
            if not (C.allocate_cft_name && C.allocate_cft_filter)
            then client_exit C c1 h2
            else elim s [
              | none ↦ client_exit C c1 h3
              | some y ↦ (some (record { request_pub = some x; reply_sub = some y }), h3)
            ]
      ])

  -- RMW_Connext_Service::create, whose scope exit deletes the object alone.
  unfoldable pub service_create :
      ServiceCalls → Text → Bool → Profile → Held → Option Service × Held
  service_create C svc_name avoid q h =
      let h1 : Held = record h { objects = suc h.objects } in
      let (p, h2) =
        publisher_create K C.writer false C.reply_type (reply_topic svc_name avoid) avoid q h1 in
      let (s, h3) =
        subscriber_create K C.reader false C.request_type (request_topic svc_name avoid) avoid none
          q h2 in
      if not C.new_object
      then (none, h)
      else (if not C.type_supports then (none, delete_object h1) else elim p [
        | none ↦ (none, delete_object h2)
        | some x ↦ elim s [
          | none ↦ (none, delete_object h3)
          | some y ↦ (some (record { reply_pub = x; request_sub = y }), h3)
        ]
      ])
