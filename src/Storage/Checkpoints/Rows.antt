-- ===== src/Storage/Checkpoints/Rows.antt =====
-- What the rows of the checkpoint tables say after each write (src/storage/sqlite).
use layertwine.Prelude.{
  ℕ, zero, suc, ◌≡◌, refl, ◌∙◌, true, false, ◌&&◌, ◌||◌, List, [], ◌∷◌, ◌++◌, none, some, Text,
  text_eq, text_eq_refl, ◌==◌, if◌then◌else◌, arith, Bool-cases, inl, inr, ok, err, Error, lookup,
  insert, lookup-insert, get_or_default,
}
use layertwine.Checkpoint.Dag.{CheckpointId, or_insert}
use layertwine.Checkpoint.Dag.Ranked.{lookup-or_insert}
use layertwine.Checkpoint.Types.{Checkpoint}
use layertwine.Storage.Checkpoints.{
  Store, statement, statement_at, find_checkpoint, has_edge, edge_or_ignore, store_dag_edge,
  replace_text, lookup_text,
}

-- A statement succeeds where there is room for it.
pub statement_ok :
    (change : Store → Store) (s : Store) (r : ℕ)
    → s.room ≡ suc r
    → statement change s ≡ (ok tt, change (record s { room = r }))
unfolding statement
statement_ok change s r h = rw h refl

pub statement_full :
    (change : Store → Store) (s : Store) → s.room ≡ 0 → statement change s ≡ (err Error.storage, s)
unfolding statement
statement_full change s h = refused s.room h
  where
    refused : (room : ℕ) → room ≡ 0 → statement_at room change s ≡ (err Error.storage, s)
    refused zero e = refl
    refused (suc room) e = absurd (omega arith)

pub find_checkpoint-append :
    (cps : List Checkpoint) (cp : Checkpoint) (id : CheckpointId)
    → find_checkpoint cps cp.id ≡ none
    → find_checkpoint (cps ++ (cp ∷ [])) id
      ≡ (if cp.id == id then some cp else find_checkpoint cps id)
unfolding find_checkpoint
find_checkpoint-append [] cp id h = refl
find_checkpoint-append (c ∷ cps) cp id h = elim (Bool-cases (c.id == cp.id)) [
  | inl same ↦ absurd (let e = rw same at h in cc)
  | inr differ ↦ elim (Bool-cases (c.id == id)) [
    | inl here ↦ let o : (cp.id == id) ≡ false = ground arith in rw (here, o) refl
    | inr other ↦ rw other (find_checkpoint-append cps cp id (rw differ at h))
  ]
]

has_edge-append :
    (edges : List (CheckpointId × CheckpointId)) (p c x y : CheckpointId)
    → has_edge (edges ++ ((p, c) ∷ [])) x y ≡ (has_edge edges x y || ((p == x) && (c == y)))
unfolding has_edge
has_edge-append [] p c x y = ground arith
has_edge-append ((q, d) ∷ edges) p c x y = ground (arith, has_edge-append edges p c x y)

pub has_edge-or_ignore :
    (edges : List (CheckpointId × CheckpointId)) (p c x y : CheckpointId)
    → has_edge (edge_or_ignore p c edges) x y ≡ (has_edge edges x y || ((p == x) && (c == y)))
unfolding edge_or_ignore
has_edge-or_ignore edges p c x y = elim (Bool-cases (has_edge edges p c)) [
  | inl there ↦ rw there (elim (Bool-cases ((p == x) && (c == y))) [
    | inl same ↦
        let e : p ≡ x = ground arith in
        let f : c ≡ y = ground arith in
        let g : has_edge edges x y ≡ true = rw (← e, ← f) there in rw g refl
    | inr differ ↦ rw differ (ground arith)
  ])
  | inr missing ↦ rw missing (has_edge-append edges p c x y)
]

-- The row of an edge, and of its child's generation; the rows of the other tables are untouched.
pub store_dag_edge_lem :
    (p c : CheckpointId) (gen : ℕ) (s : Store) (r : ℕ)
    → s.room ≡ suc (suc (suc r))
    → store_dag_edge p c gen s ≡ (
      ok tt,
      record s {
        dag_edges = edge_or_ignore p c s.dag_edges;
        dag_generations = or_insert p 0 (insert c gen s.dag_generations);
        room = r;
      },
    )
unfolding store_dag_edge statement
store_dag_edge_lem p c gen s r h = rw h refl

pub generation-store_dag_edge :
    (p c x : CheckpointId) (gen : ℕ) (rows : List (CheckpointId × ℕ))
    → get_or_default 0 (lookup x (or_insert p 0 (insert c gen rows)))
      ≡ (if c == x then gen else get_or_default 0 (lookup x rows))
unfolding get_or_default
generation-store_dag_edge p c x gen rows =
    lookup-or_insert p x 0 (insert c gen rows) ∙ elim (Bool-cases (c == x)) [
      | inl same ↦ rw (lookup-insert c x gen rows, same) refl
      | inr other ↦ rw (lookup-insert c x gen rows, other) refl
    ]

pub lookup_text-replace :
    (key value : Text) (rows : List (Text × Text))
    → lookup_text key (replace_text key value rows) ≡ some value
unfolding lookup_text replace_text
lookup_text-replace key value [] = rw (text_eq_refl key) refl
lookup_text-replace key value ((k, v) ∷ rows) = elim (Bool-cases (text_eq k key)) [
  | inl same ↦ rw (same, text_eq_refl key) refl
  | inr differ ↦ rw (differ, differ) (lookup_text-replace key value rows)
]
