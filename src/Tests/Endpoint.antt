-- ===== src/Tests/Endpoint.antt =====
-- A subscriber at a concrete platform: the reader's state is the list of the samples it keeps, a
-- take removes them all, and a message is its bytes.
use rmw_connextdds.Prelude.{
  ℕ, ◌≡◌, ◌≢◌, ◌↔◌, refl, sym, append-nil, false, true, List, [], ◌∷◌, none, some, Bool, arith,
}
use rmw_connextdds.Ret.{Ret}
use rmw_connextdds.Names.Text.{codes, text_eq, text_eq_self, text_eq→eq}
use rmw_connextdds.Endpoint.Identity.{
  sn_ros_to_dds, sn_dds_to_ros, sn_round_trip, guid_to_gid, zeros,
}
use rmw_connextdds.Endpoint.Sample.{
  SampleInfo, Sample, Loaned, Platform, MessageInfo, request_reply, requestreply_header_from_dds,
  filter_sample,
}
use rmw_connextdds.Endpoint.Loan.{Subscriber, loan_messages_if_needed, has_data, Call, take_next}
use rmw_connextdds.Endpoint.Queue.{Documented, IsValid, TakesFrom, queue}
use rmw_connextdds.Endpoint.Ready.{has_data-queue}
use rmw_connextdds.Endpoint.Take.{Finishes, take_next-Finishes}
use rmw_connextdds.Endpoint.Exchange.{Writer, ServiceInfo, service_info, send_response}
use rmw_connextdds.Endpoint.Correlation.{reply_written, send_response-service_info}

sn_round_trip_example :
    (sn_dds_to_ros (sn_ros_to_dds 5_000_000_000) ≡ 5_000_000_000)
    × (sn_ros_to_dds (sn_dds_to_ros (record { high = 1; low = 7 })) ≡ record { high = 1; low = 7 })
sn_round_trip_example = sn_round_trip 5_000_000_000 1 7 (omega arith) (omega arith) (omega arith)

abbrev pub take_all_pending : List Sample → Loaned × List Sample
take_all_pending [] = (Loaned.no_data, [])
take_all_pending (x ∷ xs) = (Loaned.loaned (x ∷ xs), [])

abbrev pub platform : Platform
platform = record {
  State = List Sample;
  Message = List ℕ;
  read_or_take = take_all_pending;
  unloan = λ st. (true, st);
  return_loan = λ st. (true, st);
  set_trigger_value = λ b st. (true, st);
  deserialize = λ bytes. some bytes;
  array_resize = λ a n. some (record a { buffer_capacity = n });
  same_guid = text_eq;
  identifier = codes "rmw_connextdds";
  gid_storage_size = 24;
}

pub takes_pending :
    (st : List Sample) → TakesFrom st (take_all_pending st).0 (take_all_pending st).1
takes_pending [] = (refl, refl)
takes_pending (x ∷ xs) = (sym (append-nil (x ∷ xs)), λ e. absurd cc)

abbrev pub documented : Documented platform
documented = record {
  pending = λ st. st;
  take_pending = takes_pending;
  unloan_pending = λ st. (refl, refl);
  return_pending = λ st. refl;
  trigger_pending = λ b st. refl;
}

abbrev pub guid : ℕ → List ℕ
guid n = n ∷ zeros 15

abbrev pub sample : ℕ → Bool → Sample
sample n valid = record {
  info = record {
    valid_data = valid;
    publication_handle = guid n;
    original_publication_virtual_guid = guid n;
    identity = record { writer_guid = guid n; sequence_number = record { high = 0; low = n } };
    related_identity = record {
      writer_guid = guid 1;
      sequence_number = record { high = 0; low = 1 };
    };
    source_timestamp = record { sec = n; nanosec = 0 };
    reception_timestamp = record { sec = n; nanosec = 5 };
  };
  bytes = n ∷ [];
}

-- One sample is loaned and read, one is loaned, and two are pending, one of them without data.
abbrev pub subscriber : Subscriber platform
subscriber = record {
  reader = sample 3 false ∷ sample 4 true ∷ [];
  loan_data = sample 1 true ∷ sample 2 true ∷ [];
  loan_len = 2;
  loan_next = 1;
  ignore_local = false;
  participant_handle = guid 9;
}

abbrev call : Call platform
call = record {
  max_samples = 2;
  serialized = false;
  request_writer_handle = none;
  kind = none;
  buffers = λ n. record { buffer = []; buffer_capacity = 0 };
}

has_data-queue_example :
    IsValid platform (has_data platform subscriber).1
    × (queue platform documented (has_data platform subscriber).1
        ≡ queue platform documented subscriber)
    × ((has_data platform subscriber).0 ≡ true → queue platform documented subscriber ≢ [])
    × ((has_data platform subscriber).0 ≡ false
        → (loan_messages_if_needed platform subscriber).0 ≡ Ret.ok
        → queue platform documented subscriber ≡ [])
has_data-queue_example =
    has_data-queue platform documented subscriber (record { len = refl; next = omega arith })

take_next-Finishes_example :
    Finishes platform documented call subscriber [] (take_next platform 5 call subscriber)
take_next-Finishes_example =
    take_next-Finishes platform documented 5 call subscriber
      (record { len = refl; next = omega arith }) (omega arith)

-- A writer that counts, and keeps what was written last.
abbrev writer : Writer
writer = record {
  State = List ℕ;
  Payload = ℕ;
  write = λ payload params st. (some (record { high = 0; low = payload }), payload ∷ st);
  no_identity = record { writer_guid = zeros 16; sequence_number = record { high = 0; low = 0 } };
}

same_guid_law : (a b : List ℕ) → (text_eq a b ≡ true) ↔ (a ≡ b)
same_guid_law a b = (text_eq→eq a b, λ e. rw e (text_eq_self b))

abbrev request : SampleInfo
request = (sample 6 true).info

abbrev reply : SampleInfo
reply = record request { related_identity = request.identity }

abbrev message_info : MessageInfo
message_info = record {
  publisher_gid = record { implementation_identifier = codes "rmw_connextdds"; bytes = [] };
  source_timestamp = 0;
  received_timestamp = 1;
}

abbrev info : ServiceInfo (List ℕ)
info = record {
  sequence_number = 6;
  writer_guid = guid 6;
  source_timestamp = 0;
  received_timestamp = 1;
  payload = 8 ∷ [];
}

info-service_info :
    service_info platform (record {
      content = request_reply (requestreply_header_from_dds platform true request) (8 ∷ []);
      message_info = message_info;
    })
    ≡ some info
unfolding service_info requestreply_header_from_dds guid_to_gid sn_dds_to_ros
info-service_info = refl

send_response-service_info_example :
    (send_response writer platform.identifier [] info.sequence_number info.writer_guid 7 []
      ≡ reply_written writer (
          writer.write 7
            (record { related_sample_identity = request.identity; replace_auto = false })
            []))
    × ((filter_sample platform false (guid 9) (some (guid 6)) reply ≡ true) ↔ (guid 6 ≡ guid 6))
send_response-service_info_example =
    send_response-service_info platform writer same_guid_law request reply (8 ∷ []) info
      message_info [] 7 [] (guid 9) (guid 6) refl refl (omega arith) (omega arith) info-service_info
      refl
