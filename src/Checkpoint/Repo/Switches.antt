-- ===== src/Checkpoint/Repo/Switches.antt =====
-- The branches that a `CheckpointRepo` (src/checkpoint/repo.rs) creates and switches to, in memory and on its storage.
use layertwine.Prelude.{
  ℕ, ◌+◌, ◌-◌, ◌≡◌, refl, ap, sym, ◌∙◌, true, false, List, [], ◌∷◌, ◌++◌, Option, none, some, Text,
  codes, text_eq, get_elem?, arith, Bool-cases, Option-cases, inl, inr, some_inj, ok, lookup,
}
use layertwine.Checkpoint.Dag.{CheckpointId}
use layertwine.Checkpoint.Types.{Checkpoint, Branch, branch}
use layertwine.Storage.Checkpoints
use layertwine.Storage.Checkpoints.{Store, statement, replace_text, without_branch, lookup_text}
use layertwine.Storage.Checkpoints.Rows.{statement_ok, lookup_text-replace}
use layertwine.Checkpoint.Repo.{
  CheckpointRepo, current, on_storage, branch_position, has_branch, find_branch, add_branch,
  create_branch, create_branch_from, switch_branch,
}
use layertwine.Checkpoint.Repo.Branches.{
  branch_head, branch_head-append, branch_position-append-left, branch_position-append-new,
  get_elem?-append, get_elem?-append-left, All-append, All-get,
}
use layertwine.Checkpoint.Repo.Names.{UniqueNames-append}
use layertwine.Checkpoint.Repo.Valid.{IsValid, has_key}
use layertwine.Checkpoint.Repo.Backed.{Agrees}
use layertwine.Checkpoint.Repo.Commits.{IsBacked, BackedBy}

has_branch-false :
    (branches : List Branch) (name : Text)
    → has_branch branches name ≡ false
    → branch_position branches name ≡ none
unfolding has_branch
has_branch-false branches name h = elim (Option-cases (branch_position branches name)) [
  | inl missing ↦ missing
  | inr (i, found) ↦ absurd (let e = rw (has_branch, found) at h in cc)
]

-- The repository with one more branch.
abbrev pub with_branch : Branch → CheckpointRepo → CheckpointRepo
with_branch b repo = record repo { branches = repo.branches ++ (b ∷ []) }

with_branch-IsValid :
    (b : Branch) (repo : CheckpointRepo)
    → IsValid repo
    → branch_position repo.branches b.name ≡ none
    → has_key b.head repo.checkpoints ≡ true
    → IsValid (with_branch b repo)
with_branch-IsValid b repo v missing known = record {
  on_branch = (
    v.on_branch.0,
    get_elem?-append-left repo.branches b v.on_branch.0 repo.current_branch v.on_branch.1,
  );
  names = λ i c h. (elim (get_elem?-append repo.branches b c i h) [
    | inl there ↦ branch_position-append-left repo.branches b c.name i (v.names i c there)
    | inr (e, l) ↦ rw (e, l) (branch_position-append-new repo.branches b missing)
  ]);
  heads = All-append (λ b. has_key b.head repo.checkpoints ≡ true) repo.branches b v.heads known;
  keys = v.keys;
  edges = v.edges;
  closed = v.closed;
  ranked = v.ranked;
  indexed = v.indexed;
  times = v.times;
}

branch_head-missing :
    (branches : List Branch) (name : Text)
    → branch_position branches name ≡ none
    → branch_head branches name ≡ none
unfolding branch_head branch_position
branch_head-missing [] name h = refl
branch_head-missing (b ∷ bs) name h = elim (Bool-cases (text_eq b.name name)) [
  | inl same ↦ absurd (let e = rw same at h in cc)
  | inr differ ↦ elim (Option-cases (branch_position bs name)) [
    | inl missing ↦ rw differ (branch_head-missing bs name missing)
    | inr (i, found) ↦ absurd (let e = rw (differ, found) at h in cc)
  ]
]

-- A row that is replaced where there was none is appended.
without_missing :
    (branches : List Branch) (name : Text)
    → branch_head branches name ≡ none
    → without_branch name branches ≡ branches
unfolding branch_head without_branch
without_missing [] name h = refl
without_missing (b ∷ bs) name h = elim (Bool-cases (text_eq b.name name)) [
  | inl same ↦ absurd (let e = rw same at h in cc)
  | inr differ ↦ rw (differ, without_missing bs name (rw differ at h)) refl
]

position_missing :
    (branches : List Branch) (name : Text)
    → branch_head branches name ≡ none
    → branch_position branches name ≡ none
unfolding branch_head branch_position
position_missing [] name h = refl
position_missing (b ∷ bs) name h = elim (Bool-cases (text_eq b.name name)) [
  | inl same ↦ absurd (let e = rw same at h in cc)
  | inr differ ↦ rw (differ, position_missing bs name (rw differ at h)) refl
]

-- The repository after a branch has been added at a checkpoint: it is valid and backed, with that branch at the end.
pub record Branched (n : ℕ) (b : Branch) (before after : CheckpointRepo) : Type 0 where
  pub valid : IsValid after
  pub persisted : IsBacked n after
  pub branches : after.branches ≡ before.branches ++ (b ∷ [])
  pub same :
      (after.checkpoints ≡ before.checkpoints) × (after.current_branch ≡ before.current_branch)

with_branch-Agrees :
    (b : Branch) (repo : CheckpointRepo) (store : Store) (room : ℕ)
    → IsValid repo
    → branch_position repo.branches b.name ≡ none
    → Agrees repo.branches repo.current_branch repo.checkpoint_dag repo.checkpoints store
    → Agrees
        (repo.branches ++ (b ∷ []))
        repo.current_branch
        repo.checkpoint_dag
        repo.checkpoints
        (record store { branches = without_branch b.name store.branches ++ (b ∷ []); room = room })
with_branch-Agrees b repo store room v missing a =
    let absent = a.heads b.name ∙ branch_head-missing repo.branches b.name missing in
    record {
      rows = a.rows;
      heads = λ name.
          rw
            (
              without_missing store.branches b.name absent,
              branch_head-append store.branches b name
                  (position_missing store.branches b.name absent),
              a.heads name,
            )
            (sym (branch_head-append repo.branches b name missing));
      edges = a.edges;
      generations = a.generations;
      named = λ c h.
          (a.named c (
            v.on_branch.1
            ∙ (sym (
                  get_elem?-append-left repo.branches b v.on_branch.0 repo.current_branch
                    v.on_branch.1)
                ∙ h)));
      unique_ids = a.unique_ids;
      unique_names =
          rw (without_missing store.branches b.name absent)
            (UniqueNames-append store.branches b a.unique_names absent);
    }

add_branch_lem :
    (n : ℕ) (b : Branch) (repo : CheckpointRepo)
    → IsValid repo
    → IsBacked (1 + n) repo
    → branch_position repo.branches b.name ≡ none
    → has_key b.head repo.checkpoints ≡ true
    → (after : CheckpointRepo) × (add_branch b repo ≡ (ok tt, after)) × Branched n b repo after
unfolding add_branch on_storage Checkpoints.store_branch
add_branch_lem n b repo v persisted missing known = go repo.storage refl persisted
  where
    go :
        (st : Option Store)
        → repo.storage ≡ st
        → BackedBy (1 + n) repo st
        → (after : CheckpointRepo) × (add_branch b repo ≡ (ok tt, after)) × Branched n b repo after
    go none e _ = (
      with_branch b repo,
      rw e refl,
      record {
        valid = with_branch-IsValid b repo v missing known;
        persisted = rw e tt;
        branches = refl;
        same = (refl, refl);
      },
    )
    go (some store) e (agrees, room) =
        let change : Store → Store =
          λ s. record s { branches = without_branch b.name s.branches ++ (b ∷ []) } in
        let written : statement change store
            ≡ (ok tt, change (record store { room = store.room - 1 })) =
          statement_ok change store (store.room - 1) (omega arith) in
        (
          record (with_branch b repo) {
            storage = some (change (record store { room = store.room - 1 }));
          },
          rw (e, written) refl,
          record {
            valid = with_branch-IsValid b repo v missing known;
            persisted =
                (with_branch-Agrees b repo store (store.room - 1) v missing agrees, omega arith);
            branches = refl;
            same = (refl, refl);
          },
        )

-- A name that no branch has: the new branch stands at the head of the current one, in a valid repository that agrees with its
-- storage.
pub create_branch_lem :
    (now n : ℕ) (name : Text) (b : Branch) (repo : CheckpointRepo)
    → IsValid repo
    → IsBacked (1 + n) repo
    → get_elem? repo.branches repo.current_branch ≡ some b
    → has_branch repo.branches name ≡ false
    → (after : CheckpointRepo) × (create_branch now name repo ≡ (ok tt, after))
      × Branched n (branch now name b.head) repo after
unfolding create_branch current branch
create_branch_lem now n name b repo v persisted here new =
    let known =
      All-get (λ b. has_key b.head repo.checkpoints ≡ true) repo.current_branch repo.branches b
        v.heads here in
    let (after, done, branched) =
      add_branch_lem n (branch now name b.head) repo v persisted
        (has_branch-false repo.branches name new) known in
    (after, rw (new, here) done, branched)

-- The same at any checkpoint of the repository.
pub create_branch_from_lem :
    (now n : ℕ) (name : Text) (cp : Checkpoint) (id : CheckpointId) (repo : CheckpointRepo)
    → IsValid repo
    → IsBacked (1 + n) repo
    → lookup id repo.checkpoints ≡ some cp
    → has_branch repo.branches name ≡ false
    → (after : CheckpointRepo) × (create_branch_from now name id repo ≡ (ok tt, after))
      × Branched n (branch now name id) repo after
unfolding create_branch_from branch
create_branch_from_lem now n name cp id repo v persisted found new =
    let (after, done, branched) =
      add_branch_lem n (branch now name id) repo v persisted
        (has_branch-false repo.branches name new) (rw found refl) in
    (after, rw (found, new) done, branched)

-- A name that a branch has: the repository is on that branch afterwards, valid and in agreement with its storage, and the result is
-- the head of that branch.
pub switch_branch_lem :
    (n i : ℕ) (name : Text) (b : Branch) (repo : CheckpointRepo)
    → IsValid repo
    → IsBacked (1 + n) repo
    → branch_position repo.branches name ≡ some i
    → get_elem? repo.branches i ≡ some b
    → b.name ≡ name
    → (after : CheckpointRepo) × (switch_branch name repo ≡ (ok b.head, after))
      × (current after ≡ ok b)
      × IsValid after
      × IsBacked n after
unfolding switch_branch find_branch on_storage current Checkpoints.store_metadata
switch_branch_lem n i name b repo v persisted position here named = go repo.storage refl persisted
  where
    valid : IsValid (record repo { current_branch = i })
    valid = record {
      on_branch = (b, here);
      names = v.names;
      heads = v.heads;
      keys = v.keys;
      edges = v.edges;
      closed = v.closed;
      ranked = v.ranked;
      indexed = v.indexed;
      times = v.times;
    }

    go :
        (st : Option Store)
        → repo.storage ≡ st
        → BackedBy (1 + n) repo st
        → (after : CheckpointRepo) × (switch_branch name repo ≡ (ok b.head, after))
          × (current after ≡ ok b)
          × IsValid after
          × IsBacked n after
    go none e _ = (
      record repo { current_branch = i },
      rw (position, e, here) refl,
      rw here refl,
      valid,
      rw e tt,
    )
    go (some store) e (agrees, room) =
        let change : Store → Store =
          λ s. record s { metadata = replace_text (codes "current_branch") name s.metadata } in
        let written : statement change store
            ≡ (ok tt, change (record store { room = store.room - 1 })) =
          statement_ok change store (store.room - 1) (omega arith) in
        (
          record repo {
            current_branch = i;
            storage = some (change (record store { room = store.room - 1 }));
          },
          rw (position, e, written, here) refl,
          rw here refl,
          valid,
          (
            record {
              rows = agrees.rows;
              heads = agrees.heads;
              edges = agrees.edges;
              generations = agrees.generations;
              named = λ c h.
                  (lookup_text-replace (codes "current_branch") name store.metadata
                    ∙ ap some (sym named ∙ ap (λ b. b.name) (some_inj (sym here ∙ h))));
              unique_ids = agrees.unique_ids;
              unique_names = agrees.unique_names;
            },
            omega arith,
          ),
        )
