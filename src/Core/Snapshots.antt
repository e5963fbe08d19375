-- ===== src/Core/Snapshots.antt =====
-- `FileNode` of src/core/file_node.rs and `Snapshot` of src/core/snapshot.rs. A path is its text. A JSON value is kept as the
-- bytes that serde_json writes for it; `from_slice` stands for its parser, and `blake3` for the hash of the blake3 crate.
pub mod Builder
use layertwine.Prelude.{
  ℕ, ◌≡◌, Bool, true, false, ◌||◌, List, [], ◌∷◌, ◌++◌, Option, none, some, Text, codes, head?,
  if◌then◌else◌, Result, ok, err, Error, ◌>>=◌,
}
use layertwine.Core.Ids.{Bytes, id_bytes, as_bytes}
use layertwine.Core.Partition.{SnapshotId}
use layertwine.Core.Sources.{starts_with}

abbrev pub DeltaId : Type 0
DeltaId = ℕ

pub record FileNode : Type 0 where
  pub file_path : Text
  pub base_hash : ℕ

pub data SnapshotContent : Type 0 where
  file_content json_metadata structured : Bytes → SnapshotContent

pub data SnapshotCompression : Type 0 where
  uncompressed zstd : SnapshotCompression

pub record Snapshot : Type 0 where
  pub id : SnapshotId
  pub file : FileNode
  pub deltas : List DeltaId
  pub parents : List SnapshotId
  pub partition_type : Text
  pub created_at : ℕ
  pub has_conflicts : Bool
  pub content : Option SnapshotContent
  pub source : Text
  pub compression : SnapshotCompression

unfoldable pub to_bytes : SnapshotContent → Bytes
to_bytes (SnapshotContent.file_content bytes) = bytes
to_bytes (SnapshotContent.json_metadata value) = value
to_bytes (SnapshotContent.structured bytes) = bytes

unfoldable pub content_type : SnapshotContent → Text
content_type (SnapshotContent.file_content bytes) = codes "file"
content_type (SnapshotContent.json_metadata value) = codes "json"
content_type (SnapshotContent.structured bytes) = codes "structured"

unfoldable pub matches_source : SnapshotContent → Text → Bool
matches_source (SnapshotContent.file_content bytes) source = starts_with source (codes "file://")
matches_source (SnapshotContent.json_metadata value) source =
    starts_with source (codes "agent://")
    || (starts_with source (codes "graph://") || starts_with source (codes "system://"))
matches_source (SnapshotContent.structured bytes) source = true

abbrev pub json_of : Option Bytes → Result SnapshotContent
json_of none = err Error.serialization
json_of (some value) = ok (SnapshotContent.json_metadata value)

module _ (from_slice : Bytes → Option Bytes) where
  unfoldable pub from_bytes : (source : Text) → Bytes → Result SnapshotContent
  from_bytes source bytes =
      if starts_with source (codes "file://")
      then ok (SnapshotContent.file_content bytes)
      else if starts_with source (codes "agent://") || starts_with source (codes "graph://")
      then json_of (from_slice bytes)
      else if starts_with source (codes "system://")
      then json_of (from_slice bytes)
      else ok (SnapshotContent.structured bytes)

  -- `zstd::encode_all` and `zstd::decode_all`.
  module _ (encode_all decode_all : Bytes → Option Bytes) where
    abbrev pub compressed : Option Bytes → Snapshot → Result Snapshot
    compressed none s = err Error.serialization
    compressed (some bytes) s =
        ok (record s { content = some (SnapshotContent.structured bytes); compression = zstd })

    abbrev pub compress_of :
        SnapshotCompression → Option SnapshotContent → Snapshot → Result Snapshot
    compress_of uncompressed (some c) s = compressed (encode_all (to_bytes c)) s
    compress_of uncompressed none s = ok s
    compress_of zstd c s = ok s

    unfoldable pub compress_content : Snapshot → Result Snapshot
    compress_content s = compress_of s.compression s.content s

    abbrev pub decompressed : Option Bytes → Snapshot → Result Snapshot
    decompressed none s = err Error.serialization
    decompressed (some bytes) s = from_bytes s.source bytes >>= λ c.
        ok (record s { content = some c; compression = uncompressed })

    abbrev pub decompress_of :
        SnapshotCompression → Option SnapshotContent → Snapshot → Result Snapshot
    decompress_of zstd (some (SnapshotContent.structured bytes)) s =
        decompressed (decode_all bytes) s
    decompress_of zstd (some (SnapshotContent.file_content bytes)) s = ok s
    decompress_of zstd (some (SnapshotContent.json_metadata bytes)) s = ok s
    decompress_of zstd none s = ok s
    decompress_of uncompressed c s = ok s

    unfoldable pub decompress_content : Snapshot → Result Snapshot
    decompress_content s = decompress_of s.compression s.content s

-- The bytes of a list of ids, one after the other.
unfoldable pub flat_ids : List ℕ → Bytes
flat_ids [] = []
flat_ids (id ∷ ids) = id_bytes id ++ flat_ids ids

abbrev pub flag_byte : Bool → Bytes
flag_byte true = 1 ∷ []
flag_byte false = 0 ∷ []

module _ (blake3 : Bytes → ℕ) where
  unfoldable pub file_node : (file_path : Text) (content : Bytes) → FileNode
  file_node file_path content = record { file_path = file_path; base_hash = blake3 content }

  abbrev pub content_part : Option SnapshotContent → Bytes
  content_part none = as_bytes (codes "none")
  content_part (some c) = as_bytes (content_type c) ++ id_bytes (blake3 (to_bytes c))

  -- What `compute_id` hands to the hasher, in its order.
  unfoldable pub hashed : Snapshot → Bytes
  hashed s =
      as_bytes s.file.file_path
      ++ (id_bytes s.file.base_hash
          ++ (flat_ids s.deltas
              ++ (flat_ids s.parents
                  ++ (as_bytes s.partition_type
                      ++ (flag_byte s.has_conflicts
                          ++ (as_bytes s.source ++ content_part s.content))))))

  unfoldable pub compute_id : Snapshot → SnapshotId
  compute_id s = blake3 (hashed s)

  abbrev pub with_id : Snapshot → Snapshot
  with_id s = record s { id = compute_id s }

  unfoldable pub new_initial : (now : ℕ) → FileNode → DeltaId → Snapshot
  new_initial now file delta_id = with_id (record {
    id = 0;
    file = file;
    deltas = delta_id ∷ [];
    parents = [];
    partition_type = [];
    created_at = now;
    has_conflicts = false;
    content = none;
    source = [];
    compression = uncompressed;
  })

  unfoldable pub from_parent : (now : ℕ) → Snapshot → DeltaId → Text → Snapshot
  from_parent now parent delta_id partition_type = with_id (record {
    id = 0;
    file = parent.file;
    deltas = parent.deltas ++ (delta_id ∷ []);
    parents = parent.id ∷ [];
    partition_type = partition_type;
    created_at = now;
    has_conflicts = false;
    content = parent.content;
    source = parent.source;
    compression = parent.compression;
  })

  unfoldable pub new_with_content :
      (now : ℕ)
      → FileNode
      → SnapshotContent
      → (source partition_type : Text) → List SnapshotId
      → List DeltaId
      → Snapshot
  new_with_content now file content source partition_type parents deltas = with_id (record {
    id = 0;
    file = file;
    deltas = deltas;
    parents = parents;
    partition_type = partition_type;
    created_at = now;
    has_conflicts = false;
    content = some content;
    source = source;
    compression = uncompressed;
  })

  unfoldable pub apply_delta : (now : ℕ) → Snapshot → DeltaId → Snapshot
  apply_delta now s delta_id = from_parent now s delta_id s.partition_type

  unfoldable pub snapshot_ids : List Snapshot → List SnapshotId
  snapshot_ids [] = []
  snapshot_ids (s ∷ ss) = s.id ∷ snapshot_ids ss

  -- `parents[0]` panics where there is none.
  unfoldable pub merge :
      (now : ℕ) → List Snapshot → DeltaId → Text → (has_conflicts : Bool) → Result Snapshot
  merge now [] delta_id partition_type has_conflicts = err Error.panic
  merge now (first ∷ others) delta_id partition_type has_conflicts = ok (
      with_id (record {
        id = 0;
        file = first.file;
        deltas = first.deltas ++ (delta_id ∷ []);
        parents = snapshot_ids (first ∷ others);
        partition_type = partition_type;
        created_at = now;
        has_conflicts = has_conflicts;
        content = first.content;
        source = first.source;
        compression = first.compression;
      }))
