-- ===== src/Endpoint/Identity.antt =====
-- Global identifiers and sequence numbers: rmw_connextdds_gid_to_guid, rmw_connextdds_guid_to_gid
-- (common/rmw_impl.cpp), rmw_connextdds_ih_to_gid (ndds/dds_api_ndds.cpp) and the sequence-number
-- macros of include/rmw_connextdds/rmw_impl.hpp.
-- An int64_t and a DDS_Long stand as their bit patterns, below 2 ^ 64 and 2 ^ 32.
use rmw_connextdds.Prelude.{
  ℕ, zero, suc, ◌+◌, ◌-◌, ◌*◌, ◌/◌, ◌%◌, ◌^◌, ◌<◌, ◌≡◌, List, [], ◌∷◌, ◌++◌, arith, take,
  if◌then◌else◌,
}
use rmw_connextdds.Names.Text.{Text, text_eq}
use rmw_connextdds.Ret.{Ret}

-- `identifier` is a pointer to a name in the source, and compared as one.
pub record Gid : Type 0 where
  pub implementation_identifier : Text
  pub bytes : List ℕ

-- `sizeof(DDS_GUID_t::value)`
abbrev pub guid_size : ℕ
guid_size = 16

abbrev pub zeros : ℕ → List ℕ
zeros zero = []
zeros (suc n) = 0 ∷ zeros n

pub record SequenceNumber : Type 0 where
  pub high : ℕ
  pub low : ℕ

unfoldable pub sn_ros_to_dds : ℕ → SequenceNumber
sn_ros_to_dds sn = record { high = (sn / 2 ^ 32) % 2 ^ 32; low = sn % 2 ^ 32 }

-- The shift leaves the low 32 bits zero, so `|` adds.
unfoldable pub sn_dds_to_ros : SequenceNumber → ℕ
sn_dds_to_ros sn = (sn.high * 2 ^ 32) % 2 ^ 64 + sn.low

-- Either conversion undoes the other, on every 64-bit number and every pair of 32-bit halves.
pub sn_round_trip :
    (n high low : ℕ)
    → n < 2 ^ 64
    → high < 2 ^ 32
    → low < 2 ^ 32
    → (sn_dds_to_ros (sn_ros_to_dds n) ≡ n)
      × ((sn_ros_to_dds (sn_dds_to_ros (record { high = high; low = low })))
          ≡ record { high = high; low = low })
unfolding sn_ros_to_dds sn_dds_to_ros
sn_round_trip n high low h k l = (omega arith, ground arith)

-- `id` is RMW_CONNEXTDDS_ID; `guid` is what the output held before.
module _ (id : Text) where
  unfoldable pub gid_to_guid : Gid → List ℕ → Ret × List ℕ
  gid_to_guid gid guid =
      if text_eq gid.implementation_identifier id
      then (Ret.ok, take guid_size gid.bytes)
      else (Ret.incorrect_rmw_implementation, guid)

-- `storage` is RMW_GID_STORAGE_SIZE, which is at least 16.
module _ (id : Text) (storage : ℕ) where
  unfoldable pub guid_to_gid : List ℕ → Gid
  guid_to_gid guid = record {
    implementation_identifier = id;
    bytes = take guid_size guid ++ zeros (storage - guid_size);
  }

  -- An instance handle's key hash has 16 bytes.
  unfoldable pub ih_to_gid : List ℕ → Gid
  ih_to_gid key_hash = record {
    implementation_identifier = id;
    bytes = take guid_size key_hash ++ zeros (storage - guid_size);
  }
