-- ===== src/Endpoint/Exchange.antt =====
-- Requests and replies: RMW_Connext_Client and RMW_Connext_Service of common/rmw_impl.cpp, and the
-- request-reply branch of rmw_connextdds_write_message in ndds/dds_api_ndds.cpp.
use rmw_connextdds.Prelude.{
  ℕ, ◌^◌, ◌-◌, Bool, true, false, List, [], ◌∷◌, ◌++◌, Option, none, some, take, if◌then◌else◌,
}
use rmw_connextdds.Names.Text.{Text}
use rmw_connextdds.Ret.{Ret, is_ok}
use rmw_connextdds.Endpoint.Identity.{
  Gid, SequenceNumber, sn_ros_to_dds, sn_dds_to_ros, gid_to_guid, guid_size,
}
use rmw_connextdds.Endpoint.Sample.{
  SampleIdentity, ByteArray, Platform, Taken, RequestReplyHeader, request_reply,
}
use rmw_connextdds.Endpoint.Loan.{Subscriber, take_next}

pub record WriteParams : Type 0 where
  pub related_sample_identity : SampleIdentity
  pub replace_auto : Bool

-- DDS_DataWriter_write_w_params_untypedI: the sequence number assigned, or none where it fails.
pub record Writer : Type 1 where
  pub State : Type 0
  pub Payload : Type 0
  pub write : Payload → WriteParams → State → Option SequenceNumber × State
  pub no_identity : SampleIdentity

-- rmw_service_info_t, with the payload read beside it.
pub record ServiceInfo (Message : Type 0) : Type 0 where
  pub sequence_number : ℕ
  pub writer_guid : List ℕ
  pub source_timestamp : ℕ
  pub received_timestamp : ℕ
  pub payload : Message

module _ (W : Writer) (id : Text) where
  -- The write itself, with the number read back for a request.
  unfoldable pub write_params :
      RequestReplyHeader → W.Payload → ℕ → WriteParams → W.State → Ret × ℕ × W.State
  write_params rr payload sn_out params st =
      let (assigned, st') = W.write payload params st in
      elim assigned [
        | none ↦ (Ret.error, sn_out, st')
        | some sn ↦ (Ret.ok, (if rr.request then sn_dds_to_ros sn else sn_out), st')
      ]

  unfoldable pub write_message : RequestReplyHeader → W.Payload → ℕ → W.State → Ret × ℕ × W.State
  unfolding write_params
  write_message rr payload sn_out st =
      if rr.request
      then write_params rr payload sn_out
          (record { related_sample_identity = W.no_identity; replace_auto = true }) st
      else (let (rc, guid) = gid_to_guid id rr.gid W.no_identity.writer_guid in
          let related : SampleIdentity = record {
            writer_guid = guid;
            sequence_number = sn_ros_to_dds rr.sn;
          } in
          if is_ok rc
          then write_params rr payload sn_out
              (record { related_sample_identity = related; replace_auto = false }) st
          else (rc, sn_out, st))

  -- `rr_msg.sn` is -1 before the write.
  unfoldable pub send_request : Gid → W.Payload → ℕ → W.State → Ret × ℕ × W.State
  unfolding write_message
  send_request gid payload sequence_id st =
      write_message (record { request = true; gid = gid; sn = 2 ^ 64 - 1 }) payload sequence_id st

  -- `rest` are the bytes of `rr_msg.gid.data` past the 16 that are copied.
  unfoldable pub send_response : List ℕ → ℕ → List ℕ → W.Payload → W.State → Ret × ℕ × W.State
  unfolding write_message
  send_response rest sequence_number writer_guid payload st =
      write_message
        (record {
          request = false;
          gid = record {
            implementation_identifier = id;
            bytes = take guid_size writer_guid ++ rest;
          };
          sn = sequence_number;
        })
        payload 0 st

module _ (P : Platform) where
  -- take_message: one message, and the rest of the state.
  unfoldable pub take_message :
      ℕ
      → Bool
      → Option (List ℕ)
      → (ℕ → ByteArray)
      → Subscriber P
      → Option (Ret × Subscriber P × Option (Taken P))
  take_message fuel request handle buffers s =
      elim (take_next P fuel
        (record {
          max_samples = 1;
          serialized = false;
          request_writer_handle = handle;
          kind = some request;
          buffers = buffers;
        })
        s) [
          | none ↦ none
          | some r ↦ some (elim r.2 [
            | [] ↦ (r.0, r.1, none)
            | t ∷ rest ↦ if is_ok r.0 then (r.0, r.1, some t) else (r.0, r.1, none)
          ])
        ]

  unfoldable pub service_info : Taken P → Option (ServiceInfo P.Message)
  service_info t = elim t.content [
    | request_reply rr message ↦ some (record {
      sequence_number = rr.sn;
      writer_guid = take guid_size rr.gid.bytes;
      source_timestamp = t.message_info.source_timestamp;
      received_timestamp = t.message_info.received_timestamp;
      payload = message;
    })
    | _ ↦ none
  ]

  -- The id of the request that was taken, or the reply's; `none` where nothing was taken.
  unfoldable pub take_service :
      ℕ
      → Bool
      → Option (List ℕ)
      → (ℕ → ByteArray)
      → Subscriber P
      → Option (Ret × Subscriber P × Option (ServiceInfo P.Message))
  take_service fuel request handle buffers s = elim (take_message fuel request handle buffers s) [
    | none ↦ none
    | some (rc, s', taken) ↦ some (rc, s', elim taken [ none ↦ none | some t ↦ service_info t ])
  ]

  -- RMW_Connext_Service::take_request.
  unfoldable pub take_request :
      ℕ
      → (ℕ → ByteArray)
      → Subscriber P
      → Option (Ret × Subscriber P × Option (ServiceInfo P.Message))
  take_request fuel buffers s = take_service fuel true none buffers s

  -- RMW_Connext_Client::take_response, for the client whose request writer has this handle.
  unfoldable pub take_response :
      ℕ
      → List ℕ
      → (ℕ → ByteArray)
      → Subscriber P
      → Option (Ret × Subscriber P × Option (ServiceInfo P.Message))
  take_response fuel handle buffers s = take_service fuel false (some handle) buffers s
