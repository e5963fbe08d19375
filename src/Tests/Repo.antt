-- ===== src/Tests/Repo.antt =====
-- Runs of the checkpoint repository of src/checkpoint/repo.rs, with the number of bytes for a hash.
use layertwine.Prelude.{
  ℕ, suc, ◌≡◌, ◌↔◌, refl, true, false, List, [], ◌∷◌, ◌++◌, none, some, Text, codes, text_eq,
  get_elem?, length, leb, ==_refl, if◌then◌else◌, take, arith, ok, err, Error, lookup, contains,
}
use layertwine.Core.Ids.{Bytes, from_hex, to_hex, as_bytes, utf8_char, be_bytes}
use layertwine.Core.Ids.Hex.{from_hex-to_hex}
use layertwine.Core.Partition.{SnapshotId}
use layertwine.Core.Snapshots.{flat_ids}
use layertwine.Checkpoint.Dag.{CheckpointId}
use layertwine.Checkpoint.Dag.Search.{Reach}
use layertwine.Checkpoint.Types
use layertwine.Checkpoint.Types.{
  Checkpoint, Branch, checkpoint, branch, metadata_of, set_head, sort_sources, source_bytes,
  is_empty_list,
}
use layertwine.Checkpoint.Types.Hashed.{compute_id_cuts}
use layertwine.Storage.Checkpoints.{Store}
use layertwine.Checkpoint.Repo.{
  CheckpointRepo, current, indexed, new, commit, merge_branches, create_branch, switch_branch,
  remove_branch, create_root_checkpoint, branch_position, has_branch,
}
use layertwine.Checkpoint.Repo.Load.{load}
use layertwine.Checkpoint.Repo.History.{parents_of, get_ancestry_chain, log_from}
use layertwine.Checkpoint.Repo.History.Chain.{get_ancestry_chain_lem}
use layertwine.Checkpoint.Repo.History.Log.{found, log_from_lem}
use layertwine.Checkpoint.Repo.Valid.{IsValid}
use layertwine.Checkpoint.Repo.Root.{
  new-IsValid, load_empty_lem, empty_store, root_store, root-Agrees,
}
use layertwine.Checkpoint.Repo.Backed.{Agrees}
use layertwine.Checkpoint.Repo.Commits.{IsBacked, Recorded, made, commit_lem, merge_branches_lem}
use layertwine.Checkpoint.Repo.Switches.{Branched, create_branch_lem, switch_branch_lem}
use layertwine.Checkpoint.Repo.Failures.{commit_dangles, write_result, remove_branch_shifts}
use layertwine.Checkpoint.Repo.Reload.RoundTrip.{SameView, load_lem}

abbrev count_bytes : Bytes → ℕ
count_bytes bytes = length bytes

abbrev repo : CheckpointRepo
repo = new 5 count_bytes (7 ∷ [])

abbrev root : Checkpoint
root = checkpoint count_bytes 5 (7 ∷ []) [] (metadata_of (codes "system") (codes "root checkpoint"))

abbrev main : Branch
main = branch 5 (codes "main") root.id

-- The same repository on a storage that takes some more writes.
abbrev on_store : ℕ → CheckpointRepo
on_store room = record repo { storage = some (root_store room root main) }

on_store-IsValid : (room : ℕ) → IsValid (on_store room)
on_store-IsValid room = new-IsValid 5 count_bytes (7 ∷ [])

agrees :
    Agrees repo.branches repo.current_branch repo.checkpoint_dag repo.checkpoints
      (root_store 20 root main)
unfolding new create_root_checkpoint
agrees = root-Agrees 5 20 root

on_store_5-IsBacked : IsBacked 5 (on_store 20)
on_store_5-IsBacked = (agrees, omega arith)

on_store_8-IsBacked : IsBacked 8 (on_store 20)
on_store_8-IsBacked = (agrees, omega arith)

on_store_1-IsBacked : IsBacked 1 (on_store 20)
on_store_1-IsBacked = (agrees, omega arith)

on_main : get_elem? repo.branches repo.current_branch ≡ some main
unfolding new create_root_checkpoint
on_main = refl

main_first : get_elem? repo.branches 0 ≡ some main
unfolding new create_root_checkpoint
main_first = refl

root_found : lookup main.head repo.checkpoints ≡ some root
unfolding new create_root_checkpoint lookup branch
root_found = rw (==_refl root.id) refl

root_id : root.id ≡ 53
unfolding checkpoint Types.compute_id Types.hashed flat_ids as_bytes utf8_char be_bytes metadata_of
    sort_sources source_bytes
root_id = refl

abbrev next : Checkpoint
next = made count_bytes 6 (8 ∷ []) (codes "more") (codes "me") (main.head ∷ [])

abbrev joined : Checkpoint
joined = made count_bytes 6 (8 ∷ []) (codes "more") (codes "me") (main.head ∷ main.head ∷ [])

next_id : next.id ≡ 70
unfolding checkpoint Types.compute_id Types.hashed flat_ids as_bytes utf8_char be_bytes metadata_of
    sort_sources source_bytes
next_id = refl

joined_id : joined.id ≡ 102
unfolding checkpoint Types.compute_id Types.hashed flat_ids as_bytes utf8_char be_bytes metadata_of
    sort_sources source_bytes
joined_id = refl

fresh : lookup next.id repo.checkpoints ≡ none
unfolding new create_root_checkpoint lookup
fresh = rw (next_id, root_id) refl

joined_fresh : lookup joined.id repo.checkpoints ≡ none
unfolding new create_root_checkpoint lookup
joined_fresh = rw (joined_id, root_id) refl

root_differs : text_eq root.baseline_snapshots (8 ∷ []) ≡ false
unfolding checkpoint
root_differs = refl

main_position : branch_position repo.branches (codes "main") ≡ some 0
unfolding new create_root_checkpoint branch_position branch
main_position = refl

no_task : has_branch repo.branches (codes "task") ≡ false
unfolding has_branch branch_position new create_root_checkpoint branch
no_task = refl

main_name : main.name ≡ codes "main"
unfolding branch
main_name = refl

commit_lem_example :
    (after : CheckpointRepo) × (commit 6 count_bytes
        (8 ∷ [])
        (codes "more")
        (codes "me")
        (on_store 20)
      ≡ (ok next.id, after))
    × Recorded 6 0 next (on_store 20) after
commit_lem_example =
    commit_lem count_bytes 6 (8 ∷ []) (codes "more") (codes "me") 0 main root (on_store 20)
      (on_store-IsValid 20) on_store_5-IsBacked on_main root_found refl root_differs fresh

-- The main branch merged into itself.
merge_branches_lem_example :
    (after : CheckpointRepo) × (merge_branches 6 count_bytes
        (codes "main")
        (8 ∷ [])
        (codes "more")
        (codes "me")
        (on_store 20)
      ≡ (ok joined.id, after))
    × Recorded 6 0 joined (on_store 20) after
merge_branches_lem_example =
    merge_branches_lem count_bytes 6 (8 ∷ []) (codes "more") (codes "me") 0 0 (codes "main") main
      main (on_store 20) (on_store-IsValid 20) on_store_8-IsBacked on_main main_position main_first
      refl joined_fresh

create_branch_lem_example :
    (after : CheckpointRepo) × (create_branch 6 (codes "task") (on_store 20) ≡ (ok tt, after))
    × Branched 0 (branch 6 (codes "task") main.head) (on_store 20) after
create_branch_lem_example =
    create_branch_lem 6 0 (codes "task") main (on_store 20) (on_store-IsValid 20)
      on_store_1-IsBacked on_main no_task

switch_branch_lem_example :
    (after : CheckpointRepo) × (switch_branch (codes "main") (on_store 20) ≡ (ok main.head, after))
    × (current after ≡ ok main)
    × IsValid after
    × IsBacked 0 after
switch_branch_lem_example =
    switch_branch_lem 0 0 (codes "main") main (on_store 20) (on_store-IsValid 20)
      on_store_1-IsBacked main_position main_first main_name

load_lem_example :
    (after : CheckpointRepo) × (load 9 count_bytes (root_store 20 root main)
      ≡ (ok after, root_store 20 root main))
    × SameView (on_store 20) after
load_lem_example =
    load_lem (on_store 20) (root_store 20 root main) (on_store-IsValid 20) agrees 9 count_bytes

load_empty_lem_example :
    (after : CheckpointRepo) × (store : Store) × (load 5 count_bytes (empty_store 3)
      ≡ (ok after, store))
    × (after.storage ≡ some store)
    × IsValid after
    × IsBacked 0 after
load_empty_lem_example = load_empty_lem 5 0 count_bytes

commit_dangles_example :
    (after : CheckpointRepo) × (commit 6 count_bytes
        (8 ∷ [])
        (codes "more")
        (codes "me")
        (on_store 0)
      ≡ (err Error.storage, after))
    × (current after ≡ ok (set_head 6 main next.id))
    × (after.checkpoints ≡ (on_store 0).checkpoints)
    × ((later : ℕ) (ids : List SnapshotId) (message' author' : Text)
        → is_empty_list ids ≡ false
        → commit later count_bytes ids message' author' after ≡ (err Error.not_found, after))
commit_dangles_example =
    commit_dangles count_bytes 6 (8 ∷ []) (codes "more") (codes "me") main root
      (root_store 0 root main) (on_store 0) on_main root_found refl refl refl root_differs fresh

in_memory : repo.storage ≡ none
unfolding new create_root_checkpoint
in_memory = refl

remove_branch_shifts_example :
    (after : CheckpointRepo) × (remove_branch (codes "main") (on_store 3)
      ≡ (write_result (on_store 3).storage, after))
    × (current after
        ≡ indexed (
            get_elem? (on_store 3).branches (
              if leb 0 (on_store 3).current_branch
              then suc (on_store 3).current_branch
              else (on_store 3).current_branch)))
remove_branch_shifts_example =
    remove_branch_shifts (codes "main") 0 main (on_store 3) main_position main_first

get_ancestry_chain_lem_example :
    (chain : List CheckpointId) × (get_ancestry_chain repo 53 ≡ some chain)
    × ((x : CheckpointId) → (contains chain x ≡ true) ↔ Reach (parents_of repo.checkpoints) 53 x)
get_ancestry_chain_lem_example = get_ancestry_chain_lem repo 53

log_from_lem_example :
    (chain : List CheckpointId) × (get_ancestry_chain repo 53 ≡ some chain)
    × (log_from repo 53 10 ≡ some (take 10 (found repo.checkpoints chain)))
log_from_lem_example = log_from_lem repo 53 10

from_hex-to_hex_example : from_hex (to_hex 258) ≡ ok (some 258)
from_hex-to_hex_example = from_hex-to_hex 258 (omega arith)

compute_id_cuts_example :
    (checkpoint count_bytes 5
      (7 ∷ [])
      (1 ∷ 2 ∷ [])
      (metadata_of (codes "ab" ++ codes "c") (codes "d"))).id
    ≡ (checkpoint count_bytes 6 (2 ∷ 7 ∷ []) (1 ∷ []) (metadata_of (codes "ab") (codes "cd"))).id
compute_id_cuts_example =
    compute_id_cuts count_bytes 5 6 (1 ∷ []) (2 ∷ []) (7 ∷ []) (codes "ab") (codes "c") (codes "d")
