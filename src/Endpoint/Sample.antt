-- ===== src/Endpoint/Sample.antt =====
-- Samples as the DDS reader loans them, the services of the platform that the subscriber calls,
-- and what is done with one sample: message_info and the request-reply header of
-- common/rmw_impl.cpp, rmw_connextdds_filter_sample of ndds/dds_api_ndds.cpp.
use rmw_connextdds.Prelude.{
  ℕ, ◌+◌, ◌-◌, ◌*◌, ◌%◌, ◌^◌, Bool, true, false, not, List, [], ◌∷◌, Option, none, some, length,
  take, ltb, if◌then◌else◌,
}
use rmw_connextdds.Names.Text.{Text, text_eq}
use rmw_connextdds.Endpoint.Identity.{
  Gid, SequenceNumber, sn_dds_to_ros, guid_to_gid, ih_to_gid, guid_size,
}

pub record SampleIdentity : Type 0 where
  pub writer_guid : List ℕ
  pub sequence_number : SequenceNumber

-- `sec` is the bit pattern of a signed 32-bit number.
pub record Time : Type 0 where
  pub sec : ℕ
  pub nanosec : ℕ

pub record SampleInfo : Type 0 where
  pub valid_data : Bool
  pub publication_handle : List ℕ
  pub original_publication_virtual_guid : List ℕ
  pub identity : SampleIdentity
  pub related_identity : SampleIdentity
  pub source_timestamp : Time
  pub reception_timestamp : Time

pub record Sample : Type 0 where
  pub info : SampleInfo
  pub bytes : List ℕ

-- rcutils_uint8_array_t: `buffer_length` is the length of `buffer`.
pub record ByteArray : Type 0 where
  pub buffer : List ℕ
  pub buffer_capacity : ℕ

pub data Loaned : Type 0 where
  loaned : List Sample → Loaned
  no_data : Loaned
  failed : Loaned

-- The DDS reader, the type support and rcutils, which the program calls.
pub record Platform : Type 1 where
  pub State : Type 0
  pub Message : Type 0
  pub read_or_take : State → Loaned × State
  pub unloan : State → Bool × State
  pub return_loan : State → Bool × State
  pub set_trigger_value : Bool → State → Bool × State
  pub deserialize : List ℕ → Option Message
  pub array_resize : ByteArray → ℕ → Option ByteArray
  pub same_guid : List ℕ → List ℕ → Bool
  pub identifier : Text
  pub gid_storage_size : ℕ

-- `dds_time_to_u64`: the cast of a negative second count extends its sign.
unfoldable pub dds_time_to_u64 : Time → ℕ
dds_time_to_u64 t =
    (1_000_000_000 * (if ltb t.sec (2 ^ 31) then t.sec else t.sec + (2 ^ 64 - 2 ^ 32)) + t.nanosec)
    % 2 ^ 64

pub record MessageInfo : Type 0 where
  pub publisher_gid : Gid
  pub source_timestamp : ℕ
  pub received_timestamp : ℕ

-- The header of an RMW_Connext_RequestReplyMessage.
pub record RequestReplyHeader : Type 0 where
  pub request : Bool
  pub gid : Gid
  pub sn : ℕ

-- rcutils_uint8_array_copy: `none` where the destination cannot be resized.
unfoldable pub uint8_array_copy :
    (ByteArray → ℕ → Option ByteArray) → ByteArray → List ℕ → Option ByteArray
uint8_array_copy resize dst [] = some (record dst { buffer = [] })
uint8_array_copy resize dst (b ∷ src) =
    elim (if ltb dst.buffer_capacity (length (b ∷ src))
      then resize dst (length (b ∷ src))
      else some dst) [ none ↦ none | some dst' ↦ some (record dst' { buffer = b ∷ src }) ]

module _ (P : Platform) where
  open P use {Message, deserialize, array_resize, same_guid, identifier, gid_storage_size}

  unfoldable pub message_info_from_dds : SampleInfo → MessageInfo
  message_info_from_dds from = record {
    publisher_gid = ih_to_gid identifier gid_storage_size from.publication_handle;
    source_timestamp = dds_time_to_u64 from.source_timestamp;
    received_timestamp = dds_time_to_u64 from.reception_timestamp;
  }

  unfoldable pub requestreply_header_from_dds : Bool → SampleInfo → RequestReplyHeader
  requestreply_header_from_dds request info =
      let src = if request then info.identity else info.related_identity in
      record {
        request = request;
        gid = guid_to_gid identifier gid_storage_size src.writer_guid;
        sn = sn_dds_to_ros src.sequence_number;
      }

  -- `ignore_local` and `participant_handle` are the subscriber's; the function always succeeds.
  unfoldable pub filter_sample : Bool → List ℕ → Option (List ℕ) → SampleInfo → Bool
  filter_sample ignore_local participant_handle request_writer_handle info =
      let local =
        text_eq (take 12 participant_handle) (take 12 info.original_publication_virtual_guid) in
      if (if ignore_local then not local else true)
      then elim request_writer_handle [
        | none ↦ true
        | some handle ↦ same_guid (take guid_size handle) info.related_identity.writer_guid
      ]
      else false

  -- What take_next writes into one of the caller's messages.
  pub data Content : Type 0 where
    serialized : ByteArray → Content
    deserialized : Message → Content
    request_reply : RequestReplyHeader → Message → Content

  pub record Taken : Type 0 where
    pub content : Content
    pub message_info : MessageInfo

  -- `kind` tells a type with the request and reply header, and the caller's `rr_msg->request`.
  unfoldable pub convert : Bool → Option Bool → ByteArray → Sample → Option Content
  convert true kind dst x = elim (uint8_array_copy array_resize dst x.bytes) [
    | none ↦ none
    | some dst' ↦ some (serialized dst')
  ]
  convert false kind dst x = elim (deserialize x.bytes) [
    | none ↦ none
    | some message ↦ some (elim kind [
      | none ↦ deserialized message
      | some request ↦ request_reply (requestreply_header_from_dds request x.info) message
    ])
  ]
