-- ===== src/Layered/Ensure/Approval.antt =====
-- The partitions that the layers ensure, and the rejection of a submission: src/layered/approval.rs.
use layertwine.Prelude.{
  ℕ, ◌≡◌, ◌≢◌, refl, sym, ap, ◌∙◌, false, List, [], ◌∷◌, some, Text, head?, take, if◌then◌else◌,
  Result, ok, err, >>=-eq-ok, ==_refl,
}
use layertwine.Core.Partition.{Partition, PartitionId, SnapshotId}
use layertwine.Core.Partition.History.{IsCurrent}
use layertwine.Storage.Partitions.{PartitionTable, find, get_partition, create_partition, baseline}
use layertwine.Storage.Partitions.Laws.{create_partition_lem, reset_partition_to_baseline_lem}
use layertwine.Layered.Ensure.{
  ensure, got, is_pending, approval_agent_partition_id, reject_approval,
}

-- A partition that was ensured is there, and ensuring it again changes nothing and gives the same partition.
ensure-again :
    (table after : PartitionTable) (p q : Partition)
    → ensure table p ≡ ok (after, q)
    → (get_partition after p.id ≡ ok q) × (ensure after p ≡ ok (after, q))
unfolding ensure
ensure-again table after p q h = go (get_partition table p.id) refl h
  where
    again :
        (r : Partition)
        → get_partition after p.id ≡ ok r
        → got (get_partition after p.id) after p ≡ ok (after, r)
    again r e = rw e refl

    go :
        (m : Result Partition)
        → get_partition table p.id ≡ m
        → got m table p ≡ ok (after, q)
        → (get_partition after p.id ≡ ok q)
          × (got (get_partition after p.id) after p ≡ ok (after, q))
    go (ok there) e h =
        let t : table ≡ after = cc in
        let r : there ≡ q = cc in
        let found : get_partition after p.id ≡ ok q =
          ap (λ t. get_partition t p.id) (sym t) ∙ e ∙ ap ok r in
        (found, again q found)
    go (err x) e h =
        let (made, created, e2) = >>=-eq-ok (create_partition table p) (λ after. ok (after, p)) h in
        let t : made ≡ after = cc in
        let r : p ≡ q = cc in
        let law = create_partition_lem table made p p.id created in
        let found : get_partition after p.id ≡ ok q =
          ap (λ t. get_partition t p.id) (sym t)
          ∙ law
          ∙ ap (λ b. if b then ok p else get_partition table p.id) (==_refl p.id)
          ∙ ap ok r in
        (found, again q found)

take-one :
    (history : List SnapshotId) (base : SnapshotId)
    → head? history ≡ some base
    → take 1 history ≡ base ∷ []
take-one [] base h = absurd (cc)
take-one (x ∷ history) base h = cc

module _ (uuid_v5 : ℕ → Text → PartitionId) where
  -- Rejecting the submission of an agent whose partition is there, with a history that starts at a baseline, succeeds:
  -- it answers with that baseline, the partition points to it again and is not pending, its history is the baseline alone, and no
  -- other partition changes.
  pub reject_approval_lem :
      (table : PartitionTable) (agent_id : Text) (p : Partition) (base : SnapshotId)
      → find table (approval_agent_partition_id uuid_v5 agent_id) ≡ some p
      → head? p.history ≡ some base
      → (after : PartitionTable) × (reject_approval uuid_v5 table agent_id ≡ ok (after, base))
        × (find after (approval_agent_partition_id uuid_v5 agent_id) ≡ some (baseline base p))
        × (is_pending (baseline base p) ≡ false)
        × IsCurrent (baseline base p)
        × ((j : PartitionId)
            → approval_agent_partition_id uuid_v5 agent_id ≢ j
            → find after j ≡ find table j)
  unfolding reject_approval get_partition
  reject_approval_lem table agent_id p base h b =
      let (after, reset, found, others) =
        reset_partition_to_baseline_lem table (approval_agent_partition_id uuid_v5 agent_id) p base
          h b in
      let one = take-one p.history base b in
      (
        after,
        rw (h, b, reset) refl,
        found,
        unfold baseline in rw one refl,
        unfold baseline in rw one refl,
        others,
      )
