-- ===== src/Layered/Edits/Shown.antt =====
-- What an edit of src/layered/manual.rs and src/layered/agent.rs leaves to be read.
use layertwine.Prelude.{
  ◌≡◌, ◌≢◌, refl, ap, ◌∙◌, false, ◌&&◌, List, [], ◌∷◌, ◌++◌, Option, none, some, Text, text_eq,
  ◌==◌, ==_refl, arith, Bool-cases, inl, inr, ok, >>=-eq-ok, contains,
}
use layertwine.Core.Ids.{Bytes}
use layertwine.Core.LineDiff.{LineDiff}
use layertwine.Core.Deltas.{Delta}
use layertwine.Core.Snapshots.{Snapshot, DeltaId, FileNode}
use layertwine.Engine.Lines.{newline, lines, join, ends_with_newline}
use layertwine.Engine.Lines.Join.{HasNoCr, join-lines}
use layertwine.Engine.Apply.{apply_line_diff, apply_diffs, apply_deltas}
use layertwine.Engine.Diff.Rebuild.{restore_newline_lem}
use layertwine.Storage.Checkpoints.{Store}
use layertwine.Storage.Contents.{
  find_delta, without_delta, with_found, take_deltas, get_deltas, find_file, get_file_content,
  file_or_ignore,
}
use layertwine.Layered.Contents.{diffs_of, reconstruct_text}

find_delta-new :
    (ds : List Delta) (d : Delta)
    → find_delta ds d.id ≡ none
    → find_delta (ds ++ (d ∷ [])) d.id ≡ some d
unfolding find_delta
find_delta-new [] d h = rw (==_refl d.id) refl
find_delta-new (e ∷ ds) d h = elim (Bool-cases (e.id == d.id)) [
  | inl same ↦ absurd (let e = rw same at h in cc)
  | inr other ↦ rw other (find_delta-new ds d (rw other at h))
]

find_delta-others :
    (ds : List Delta) (d : Delta) (id : DeltaId)
    → (d.id == id) ≡ false
    → find_delta (ds ++ (d ∷ [])) id ≡ find_delta ds id
unfolding find_delta
find_delta-others [] d id other = rw other refl
find_delta-others (e ∷ ds) d id other = rw (find_delta-others ds d id other) refl

with_found-append :
    (found : Option Delta) (ds : List Delta) (d : Delta)
    → with_found found (ds ++ (d ∷ [])) ≡ with_found found ds ++ (d ∷ [])
with_found-append none ds d = refl
with_found-append (some e) ds d = refl

without_delta-append :
    (ds : List Delta) (d : Delta) (id : DeltaId)
    → (d.id == id) ≡ false
    → without_delta id (ds ++ (d ∷ [])) ≡ without_delta id ds ++ (d ∷ [])
unfolding without_delta
without_delta-append [] d id other = rw other refl
without_delta-append (e ∷ ds) d id other = elim (Bool-cases (e.id == id)) [
  | inl same ↦ rw same (without_delta-append ds d id other)
  | inr differ ↦ rw differ (ap (◌∷◌ e) (without_delta-append ds d id other))
]

without_delta-none :
    (ds : List Delta) (id x : DeltaId)
    → find_delta ds x ≡ none
    → find_delta (without_delta id ds) x ≡ none
unfolding find_delta without_delta
without_delta-none [] id x h = refl
without_delta-none (e ∷ ds) id x h = elim (Bool-cases (e.id == x)) [
  | inl same ↦ absurd (let e = rw same at h in cc)
  | inr differ ↦
      let rest = without_delta-none ds id x (rw differ at h) in
      elim (Bool-cases (e.id == id)) [
        | inl gone ↦ rw gone rest
        | inr stays ↦ rw (stays, differ) rest
      ]
]

-- A new delta comes after those that were found.
take_deltas-append :
    (ds : List Delta) (d : Delta) (ids : List DeltaId)
    → find_delta ds d.id ≡ none
    → contains ids d.id ≡ false
    → take_deltas (ds ++ (d ∷ [])) (ids ++ (d.id ∷ [])) ≡ take_deltas ds ids ++ (d ∷ [])
unfolding take_deltas
take_deltas-append ds d [] fresh absent = rw (find_delta-new ds d fresh) refl
take_deltas-append ds d (i ∷ ids) fresh absent =
    let other : (d.id == i) ≡ false = ground arith in
    let rest =
      take_deltas-append (without_delta i ds) d ids (without_delta-none ds i d.id fresh)
        (ground arith) in
    rw (without_delta-append ds d i other, find_delta-others ds d i other, rest)
      (with_found-append (find_delta ds i) (take_deltas (without_delta i ds) ids) d)

diffs_of-append :
    (ds : List Delta) (d : Delta) → diffs_of (ds ++ (d ∷ [])) ≡ diffs_of ds ++ (d.diff ∷ [])
unfolding diffs_of
diffs_of-append [] d = refl
diffs_of-append (e ∷ ds) d = ap (◌∷◌ e.diff) (diffs_of-append ds d)

-- A diff after others is applied to what they give.
apply_diffs-append :
    (old middle new : List Text) (diffs : List LineDiff) (diff : LineDiff)
    → apply_diffs old diffs ≡ ok middle
    → apply_line_diff middle diff ≡ ok new
    → apply_diffs old (diffs ++ (diff ∷ [])) ≡ ok new
unfolding apply_diffs
apply_diffs-append old middle new [] diff h applied =
    let e : old ≡ middle = cc in rw (e, applied) refl
apply_diffs-append old middle new (d ∷ diffs) diff h applied =
    let (next, first, others) =
      >>=-eq-ok (apply_line_diff old d) (λ next. apply_diffs next diffs) h in
    rw first (apply_diffs-append next middle new diffs diff others applied)

-- Some diffs whose lines are those of a text rebuild that text.
apply_deltas_rebuilt :
    (base text : Text) (diffs : List LineDiff) (diff : LineDiff)
    → apply_diffs (lines base) (diffs ++ (diff ∷ [])) ≡ ok (lines text)
    → ends_with_newline base ≡ ends_with_newline text
    → HasNoCr text
    → text ≢ newline ∷ []
    → apply_deltas base (diffs ++ (diff ∷ [])) ≡ ok text
unfolding apply_deltas
apply_deltas_rebuilt base text [] diff h same no_cr n =
    rw (h, same)
      (ap ok (
        restore_newline_lem (ends_with_newline text) (join (lines text)) text
          (join-lines text no_cr) n))
apply_deltas_rebuilt base text (d ∷ diffs) diff h same no_cr n =
    rw (h, same)
      (ap ok (
        restore_newline_lem (ends_with_newline text) (join (lines text)) text
          (join-lines text no_cr) n))

find_file-kept :
    (files : List (FileNode × Bytes)) (file file' : FileNode) (content content' : Bytes)
    → find_file files file.file_path file.base_hash ≡ some content
    → find_file
        (file_or_ignore (find_file files file'.file_path file'.base_hash) files file' content')
        file.file_path
        file.base_hash
      ≡ some content
unfolding find_file
find_file-kept files file file' content content' h =
    go (find_file files file'.file_path file'.base_hash)
  where
    kept :
        (files : List (FileNode × Bytes))
        → find_file files file.file_path file.base_hash ≡ some content
        → find_file (files ++ ((file', content') ∷ [])) file.file_path file.base_hash ≡ some content
    kept [] h = absurd (cc)
    kept ((f, c) ∷ files) h =
        elim (Bool-cases (text_eq f.file_path file.file_path && f.base_hash == file.base_hash)) [
          | inl same ↦ rw same (rw same at h)
          | inr other ↦ rw other (kept files (rw other at h))
        ]

    go :
        (found : Option Bytes)
        → find_file (file_or_ignore found files file' content') file.file_path file.base_hash
          ≡ some content
    go none = kept files h
    go (some old) = h

module _ (from_utf8_lossy : Bytes → Text) where
  -- A snapshot whose file is stored shows a text: its deltas turn the lines of the file into those of the text, both end
  -- with a newline or neither does, and the text is what is reconstructed.
  pub record Shows (store : Store) (s : Snapshot) (text : Text) : Type 0 where
    pub base : Bytes
    pub found : find_file store.file_nodes s.file.file_path s.file.base_hash ≡ some base
    pub applied :
        apply_diffs (lines (from_utf8_lossy base)) (diffs_of (get_deltas store s.deltas))
        ≡ ok (lines text)
    pub same_end : ends_with_newline (from_utf8_lossy base) ≡ ends_with_newline text
    pub shown : reconstruct_text from_utf8_lossy store s ≡ ok text

  -- A snapshot without deltas shows its file.
  pub initial-Shows :
      (store : Store) (s : Snapshot) (base : Bytes)
      → find_file store.file_nodes s.file.file_path s.file.base_hash ≡ some base
      → s.deltas ≡ []
      → Shows store s (from_utf8_lossy base)
  unfolding get_deltas take_deltas diffs_of apply_diffs reconstruct_text get_file_content
      apply_deltas
  initial-Shows store s base found none_yet = record {
    base = base;
    found = found;
    applied = rw none_yet refl;
    same_end = refl;
    shown = rw (found, none_yet) refl;
  }

  -- A new delta with the diff from the text that is shown to another shows that one, on tables that have the delta and one more file.
  pub Shows-append :
      (store : Store) (after : Store) (s s' : Snapshot) (old new : Text) (d : Delta)
      (file : FileNode) (content : Bytes)
      → Shows store s old
      → after.deltas ≡ store.deltas ++ (d ∷ [])
      → after.file_nodes
        ≡ file_or_ignore
            (find_file store.file_nodes file.file_path file.base_hash)
            store.file_nodes
            file
            content
      → s'.file ≡ s.file
      → s'.deltas ≡ s.deltas ++ (d.id ∷ [])
      → find_delta store.deltas d.id ≡ none
      → contains s.deltas d.id ≡ false
      → apply_line_diff (lines old) d.diff ≡ ok (lines new)
      → ends_with_newline old ≡ ends_with_newline new
      → HasNoCr new
      → new ≢ newline ∷ []
      → Shows after s' new
  unfolding get_deltas reconstruct_text get_file_content
  Shows-append store after s s' old new d file content before deltas files same_file chain fresh
        absent step ends no_cr n =
      let taken : take_deltas after.deltas s'.deltas
          ≡ take_deltas store.deltas s.deltas ++ (d ∷ []) =
        rw (deltas, chain) (take_deltas-append store.deltas d s.deltas fresh absent) in
      let found : find_file after.file_nodes s'.file.file_path s'.file.base_hash
          ≡ some before.base =
        rw (files, same_file)
          (find_file-kept store.file_nodes s.file file before.base content before.found) in
      let old_diffs = diffs_of (take_deltas store.deltas s.deltas) in
      let all : diffs_of (take_deltas after.deltas s'.deltas) ≡ old_diffs ++ (d.diff ∷ []) =
        ap diffs_of taken ∙ diffs_of-append (take_deltas store.deltas s.deltas) d in
      let applied =
        apply_diffs-append (lines (from_utf8_lossy before.base)) (lines old) (lines new) old_diffs
          d.diff before.applied step in
      record {
        base = before.base;
        found = found;
        applied = rw all applied;
        same_end = before.same_end ∙ ends;
        shown =
            rw (found, all)
              (apply_deltas_rebuilt (from_utf8_lossy before.base) new old_diffs d.diff applied
                (before.same_end ∙ ends) no_cr n);
      }
