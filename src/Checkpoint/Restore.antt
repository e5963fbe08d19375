-- ===== src/Checkpoint/Restore.antt =====
-- Restores of src/checkpoint/restore.rs. `from_utf8_lossy` stands for that function of the standard library; the
-- ancestry chain is read as a list, since its fuel is enough.
pub mod Inspect
pub mod Apply
use layertwine.Prelude.{
  ℕ, ◌≡◌, Bool, true, false, not, ◌&&◌, ◌||◌, List, [], ◌∷◌, ◌++◌, Option, none, some, Text, codes,
  text_eq, get_last?, length, leb, ◌==◌, if◌then◌else◌, Result, ok, err, Error, ◌>>=◌, Action,
  ◌>>>=◌, ◌>>>◌, lookup, get_or_default, contains,
}
use layertwine.Core.Ids.{Bytes, as_bytes}
use layertwine.Core.Names.{strip_prefix}
use layertwine.Core.Deltas.{Delta}
use layertwine.Core.Partition.{SnapshotId}
use layertwine.Core.Snapshots
use layertwine.Core.Snapshots.{Snapshot, SnapshotContent, to_bytes, content_type}
use layertwine.Core.Sources.{matches_glob}
use layertwine.Checkpoint.Dag.{CheckpointId}
use layertwine.Checkpoint.TimeIndex
use layertwine.Checkpoint.TimeIndex.{query_range, find_nearest}
use layertwine.Checkpoint.Types.{Checkpoint, CheckpointDiff}
use layertwine.Storage.Checkpoints.{Store}
use layertwine.Storage.Contents.{get_deltas}
use layertwine.Layered.Contents.{reconstruct_text}
use layertwine.Checkpoint.Repo.{CheckpointRepo}
use layertwine.Checkpoint.Repo.History.{get_checkpoint, get_ancestry_chain, get_snapshot_by_id}

pub record RestoreRequest : Type 0 where
  pub checkpoint_id : Option CheckpointId
  pub source_filter : Option (List Text)
  pub time_range : Option (ℕ × ℕ)

pub record RestoreResponse : Type 0 where
  pub checkpoint : Checkpoint
  pub snapshots : List (SnapshotId × (SnapshotContent × Text))
  pub ancestry : List CheckpointId

abbrev pub last_path : Option Delta → Snapshot → Text
last_path none s = s.file.file_path
last_path (some d) s = d.file.file_path

abbrev pub stored_content : Option SnapshotContent → SnapshotContent
stored_content none = SnapshotContent.file_content []
stored_content (some c) = c

-- `filters.iter().any(|f| matches_glob(source, f))`.
unfoldable pub any_match : (source : Text) → List Text → Bool
any_match source [] = false
any_match source (f ∷ filters) = matches_glob source f || any_match source filters

unfoldable pub filter_sources :
    List (SnapshotId × Text) → (filters : List Text) → List SnapshotId → List SnapshotId
filter_sources sources filters [] = []
filter_sources sources filters (id ∷ ids) =
    let rest = filter_sources sources filters ids in
    if any_match (get_or_default [] (lookup id sources)) filters then id ∷ rest else rest

-- `max_by_key(|(t, _)| t)`, which takes the last of the greatest.
unfoldable pub latest_of : TimeIndex.Entry → List TimeIndex.Entry → TimeIndex.Entry
latest_of best [] = best
latest_of best (e ∷ es) = latest_of (if leb best.0 e.0 then e else best) es

abbrev pub latest_entry : List TimeIndex.Entry → Result TimeIndex.Entry
latest_entry [] = err Error.not_found
latest_entry (e ∷ es) = ok (latest_of e es)

abbrev pub entry_or_not_found : Option TimeIndex.Entry → Result TimeIndex.Entry
entry_or_not_found none = err Error.not_found
entry_or_not_found (some e) = ok e

module _ (from_utf8_lossy : Bytes → Text) where
  -- The content and the source of a snapshot: with a storage, the text of its deltas and the path of the last.
  unfoldable pub content_in : Option Store → Snapshot → Result (SnapshotContent × Text)
  content_in none s = ok (stored_content s.content, s.source)
  content_in (some store) s = reconstruct_text from_utf8_lossy store s >>= λ text. ok (
    SnapshotContent.file_content (as_bytes text),
    last_path (get_last? (get_deltas store s.deltas)) s,
  )

  unfoldable pub load_all_snapshot_contents :
      CheckpointRepo → List SnapshotId → Result (List (SnapshotId × (SnapshotContent × Text)))
  load_all_snapshot_contents repo [] = ok []
  load_all_snapshot_contents repo (id ∷ ids) =
      let rest = load_all_snapshot_contents repo ids in
      get_snapshot_by_id repo id >>= λ s.
      content_in repo.storage s >>= λ c. rest >>= λ cs. ok ((id, c) ∷ cs)

  abbrev pub responded :
      CheckpointRepo → CheckpointId → Checkpoint → List SnapshotId → Result RestoreResponse
  responded repo id cp ids = load_all_snapshot_contents repo ids >>= λ snapshots. ok (record {
    checkpoint = cp;
    snapshots = snapshots;
    ancestry = get_or_default [] (get_ancestry_chain repo id);
  })

  unfoldable pub restore_full : CheckpointRepo → CheckpointId → Result RestoreResponse
  restore_full repo id = get_checkpoint repo id >>= λ cp. responded repo id cp cp.baseline_snapshots

  unfoldable pub restore_selective :
      CheckpointRepo → CheckpointId → (source_filters : List Text) → Result RestoreResponse
  restore_selective repo id filters = get_checkpoint repo id >>= λ cp.
      responded repo id cp (filter_sources cp.snapshot_sources filters cp.baseline_snapshots)

  -- Without filters, and with an empty list of them, all is restored.
  abbrev pub restore_filtered :
      CheckpointRepo → CheckpointId → Option (List Text) → Result RestoreResponse
  restore_filtered repo id none = restore_full repo id
  restore_filtered repo id (some []) = restore_full repo id
  restore_filtered repo id (some (f ∷ filters)) = restore_selective repo id (f ∷ filters)

  unfoldable pub restore_by_time_range :
      CheckpointRepo → (start end : ℕ) → Option (List Text) → Result RestoreResponse
  restore_by_time_range repo start end filters =
      query_range repo.time_index start end >>= λ candidates.
      latest_entry candidates >>= λ e. restore_filtered repo e.1 filters

  unfoldable pub restore_by_time :
      CheckpointRepo → (target_time : ℕ) → Option (List Text) → Result RestoreResponse
  restore_by_time repo target_time filters =
      entry_or_not_found (find_nearest repo.time_index target_time) >>= λ e.
      restore_filtered repo e.1 filters

  -- By id, an empty list of filters restores nothing.
  abbrev pub restore_by_id :
      CheckpointRepo → Option CheckpointId → Option (List Text) → Result RestoreResponse
  restore_by_id repo none filters = err Error.general
  restore_by_id repo (some id) none = restore_full repo id
  restore_by_id repo (some id) (some filters) = restore_selective repo id filters

  abbrev pub restore_at : CheckpointRepo → Option (ℕ × ℕ) → RestoreRequest → Result RestoreResponse
  restore_at repo (some (start, end)) request =
      restore_by_time_range repo start end request.source_filter
  restore_at repo none request = restore_by_id repo request.checkpoint_id request.source_filter

  unfoldable pub restore : CheckpointRepo → RestoreRequest → Result RestoreResponse
  restore repo request = restore_at repo request.time_range request
