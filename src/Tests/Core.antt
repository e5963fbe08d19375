-- ===== src/Tests/Core.antt =====
-- Runs of the names and the partitions of src/core.
use layertwine.Prelude.{◌++◌, ◌≡◌, ◌↔◌, refl, [], ◌∷◌, some, Text, codes, true}
use layertwine.Core.Names.{PartitionType, name, from_name}
use layertwine.Core.Names.RoundTrip.{partition_names}
use layertwine.Core.Sources.{matches_glob, starts_with, strip_suffix}
use layertwine.Core.Sources.Patterns.{IsStem, matches_glob_lem}
use layertwine.Core.Partition.{Partition}
use layertwine.Core.Partition.History.{IsCurrent}

partition_names_example :
    (from_name (codes "approval/a1") ≡ some (PartitionType.approval (codes "a1")))
    ↔ (codes "approval/a1" ≡ name (PartitionType.approval (codes "a1")))
partition_names_example =
    partition_names (codes "approval/a1") (PartitionType.approval (codes "a1"))

abbrev partition : Partition
partition = record {
  id = 1;
  name = codes "manual_edit";
  current_snapshot = 12;
  history = 10 ∷ 11 ∷ 12 ∷ [];
  partition_type = PartitionType.manual;
}

partition-IsCurrent : IsCurrent partition
partition-IsCurrent = refl

matches_glob_lem_example :
    (stem : Text) × IsStem (codes "file://src/**") stem
    × ((source : Text)
        → (matches_glob source (codes "file://src/**") ≡ true)
          ↔ ((rest : Text) × (source ≡ stem ++ rest)))
matches_glob_lem_example = matches_glob_lem (codes "file://src/**")

-- A sibling of the directory src is taken in.
sibling : matches_glob (codes "file://src-old/a") (codes "file://src/**") ≡ true
unfolding matches_glob starts_with strip_suffix
sibling = refl
