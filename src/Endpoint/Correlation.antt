-- ===== src/Endpoint/Correlation.antt =====
-- A reply goes to the client that sent the request, and to no other.
use rmw_connextdds.Prelude.{
  ℕ, ◌^◌, ◌<◌, ◌-◌, ◌≡◌, ◌↔◌, refl, sym, ap, true, false, List, [], ◌++◌, Option, none, some,
  length, take, arith, take-append_eq, take_all,
}
use rmw_connextdds.Names.Text.{Text, text_eq_self}
use rmw_connextdds.Ret.{Ret}
use rmw_connextdds.Endpoint.Identity.{
  SequenceNumber, sn_ros_to_dds, sn_dds_to_ros, sn_round_trip, gid_to_guid, guid_to_gid, guid_size,
  zeros,
}
use rmw_connextdds.Endpoint.Sample.{
  SampleIdentity, SampleInfo, Platform, MessageInfo, request_reply, filter_sample,
  requestreply_header_from_dds,
}
use rmw_connextdds.Endpoint.Exchange.{
  WriteParams, Writer, ServiceInfo, write_params, write_message, send_response, service_info,
}

-- The identity that a response names as its request's.
abbrev reply_params : ℕ → List ℕ → List ℕ → WriteParams
reply_params sn guid rest = record {
  related_sample_identity = record {
    writer_guid = take guid_size (take guid_size guid ++ rest);
    sequence_number = sn_ros_to_dds sn;
  };
  replace_auto = false;
}

module _ (W : Writer) where
  -- How a write of a reply ends: the caller's sequence number is not read back.
  abbrev pub reply_written : Option SequenceNumber × W.State → Ret × ℕ × W.State
  reply_written r = elim r.0 [ none ↦ (Ret.error, 0, r.1) | some sn ↦ (Ret.ok, 0, r.1) ]

  send_response_lem :
      (id : Text) (rest : List ℕ) (sn : ℕ) (guid : List ℕ) (payload : W.Payload) (st : W.State)
      → send_response W id rest sn guid payload st
        ≡ reply_written (W.write payload (reply_params sn guid rest) st)
  unfolding send_response write_message write_params gid_to_guid
  send_response_lem id rest sn guid payload st = rw (text_eq_self id) refl

-- Sixteen bytes survive being copied into a longer array and read back.
pub take-take : (g rest : List ℕ) → length g ≡ 16 → take guid_size (take guid_size g ++ rest) ≡ g
take-take g rest h = rw (take_all guid_size g (omega arith)) (take-append_eq guid_size g rest h)

reply_params-identity :
    (id : SampleIdentity) (sn : ℕ) (guid pad rest : List ℕ)
    → length id.writer_guid ≡ 16
    → id.sequence_number.high < 2 ^ 32
    → id.sequence_number.low < 2 ^ 32
    → sn ≡ sn_dds_to_ros id.sequence_number
    → guid ≡ take guid_size (take guid_size id.writer_guid ++ pad)
    → reply_params sn guid rest ≡ record { related_sample_identity = id; replace_auto = false }
reply_params-identity id sn guid pad rest g hi lo e f =
    rw
      (
        e,
        f,
        take-take id.writer_guid pad g,
        take-take id.writer_guid rest g,
        (sn_round_trip 0 id.sequence_number.high id.sequence_number.low (omega arith) hi lo).1,
      )
      refl

module _ (P : Platform) where
  service_info-fields :
      (x : SampleInfo) (message : P.Message) (info : ServiceInfo P.Message) (mi : MessageInfo)
      → service_info P (record {
        content = request_reply (requestreply_header_from_dds P true x) message;
        message_info = mi;
      })
        ≡ some info
      → (info.sequence_number ≡ sn_dds_to_ros x.identity.sequence_number)
        × (info.writer_guid
            ≡ take guid_size
                (take guid_size x.identity.writer_guid ++ zeros (P.gid_storage_size - guid_size)))
  unfolding service_info requestreply_header_from_dds guid_to_gid
  service_info-fields x message info mi e = (
    sym (ap (λ o. elim o [ none ↦ 0 | some i ↦ i.sequence_number ]) e),
    sym (ap (λ o. elim o [ none ↦ [] | some i ↦ i.writer_guid ]) e),
  )

module _ (P : Platform) (W : Writer) where
  -- Where identifiers of 16 bytes are compared as they are and sequence numbers have halves of 32
  -- bits, the response that a service sends for a
  -- request it has taken is written with the identity of the request's sample, and a reply with that
  -- related identity passes the filter of a client, not ignoring local samples, exactly if the
  -- client's request writer has the handle that the sample's writer has.
  pub send_response-service_info :
      ((a b : List ℕ) → (P.same_guid a b ≡ true) ↔ (a ≡ b))
      → (x y : SampleInfo) (message : P.Message) (info : ServiceInfo P.Message) (mi : MessageInfo)
        (rest : List ℕ) (payload : W.Payload) (st : W.State) (participant handle : List ℕ)
      → length x.identity.writer_guid ≡ 16
      → length handle ≡ 16
      → x.identity.sequence_number.high < 2 ^ 32
      → x.identity.sequence_number.low < 2 ^ 32
      → service_info P (record {
        content = request_reply (requestreply_header_from_dds P true x) message;
        message_info = mi;
      })
        ≡ some info
      → y.related_identity ≡ x.identity
      → (send_response W P.identifier rest info.sequence_number info.writer_guid payload st
          ≡ reply_written W (
              W.write payload
                (record { related_sample_identity = x.identity; replace_auto = false })
                st))
        × ((filter_sample P false participant (some handle) y ≡ true)
            ↔ (handle ≡ x.identity.writer_guid))
  unfolding filter_sample
  send_response-service_info law x y message info mi rest payload st participant handle g h hi lo e
        r =
      (
        rw
            (
              send_response_lem W P.identifier rest info.sequence_number info.writer_guid payload
                  st,
              reply_params-identity x.identity info.sequence_number info.writer_guid
                  (zeros (P.gid_storage_size - guid_size)) rest g hi lo
                  (service_info-fields P x message info mi e).0
                  (service_info-fields P x message info mi e).1,
            )
            refl,
        rw (take_all guid_size handle (omega arith), r) (law handle x.identity.writer_guid),
      )
