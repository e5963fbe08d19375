-- ===== src/Checkpoint/Repo/Branches.antt =====
-- The list of branches of a `CheckpointRepo` (src/checkpoint/repo.rs) and the rows of the table `branches`: the head under a
-- name, after each change.
use layertwine.Prelude.{
  ℕ, zero, suc, ◌≡◌, refl, ap, sym, ◌∙◌, false, List, [], ◌∷◌, ◌++◌, Option, none, some, Text,
  text_eq, text_eq_iff, text_eq_refl, get_elem?, if◌then◌else◌, arith, Bool-cases, Option-cases,
  inl, inr, All, some_inj, ◌⊎◌, length, subst,
}
use layertwine.Checkpoint.Dag.{CheckpointId}
use layertwine.Checkpoint.Types.{Branch, set_head}
use layertwine.Checkpoint.Repo.{update_at, branch_position}
use layertwine.Storage.Checkpoints.{headed}

-- The head of the first branch with a name.
unfoldable pub branch_head : List Branch → Text → Option CheckpointId
branch_head [] name = none
branch_head (b ∷ bs) name =
    let rest = branch_head bs name in if text_eq b.name name then some b.head else rest

pub text_eq_sym : (s t : Text) → text_eq s t ≡ text_eq t s
text_eq_sym s t = elim (Bool-cases (text_eq s t)) [
  | inl same ↦ let e = (text_eq_iff s t).0 same in rw e refl
  | inr differ ↦ elim (Bool-cases (text_eq t s)) [
    | inl same ↦ let e = (text_eq_iff t s).0 same in rw e refl
    | inr other ↦ differ ∙ sym other
  ]
]

pub get_elem?-update_at :
    (i : ℕ) (change : Branch → Branch) (bs : List Branch) (b : Branch)
    → get_elem? bs i ≡ some b
    → get_elem? (update_at i change bs) i ≡ some (change b)
unfolding update_at
get_elem?-update_at i change [] b h = absurd (cc)
get_elem?-update_at zero change (c ∷ bs) b h = cc
get_elem?-update_at (suc i) change (c ∷ bs) b h = get_elem?-update_at i change bs b h

-- A branch of the changed list has the name of the branch that stood there.
pub name-update_at :
    (i j now id : ℕ) (bs : List Branch) (b : Branch)
    → get_elem? (update_at i (λ b. set_head now b id) bs) j ≡ some b
    → (c : Branch) × (get_elem? bs j ≡ some c) × (b.name ≡ c.name)
unfolding update_at set_head
name-update_at i j now id [] b h = absurd (cc)
name-update_at zero zero now id (c ∷ bs) b h = (c, refl, ap (λ b. b.name) (sym (some_inj h)))
name-update_at zero (suc j) now id (c ∷ bs) b h = (b, h, refl)
name-update_at (suc i) zero now id (c ∷ bs) b h = (b, h, refl)
name-update_at (suc i) (suc j) now id (c ∷ bs) b h = name-update_at i j now id bs b h

pub branch_position-update_at :
    (i now id : ℕ) (bs : List Branch) (name : Text)
    → branch_position (update_at i (λ b. set_head now b id) bs) name ≡ branch_position bs name
unfolding update_at branch_position set_head
branch_position-update_at i now id [] name = refl
branch_position-update_at zero now id (c ∷ bs) name = refl
branch_position-update_at (suc i) now id (c ∷ bs) name =
    rw (branch_position-update_at i now id bs name) refl

-- A later branch of a name is not found at an earlier place.
position_suc :
    (c : Branch) (bs : List Branch) (name : Text) (i : ℕ)
    → branch_position (c ∷ bs) name ≡ some (suc i)
    → (text_eq c.name name ≡ false) × (branch_position bs name ≡ some i)
unfolding branch_position
position_suc c bs name i h = elim (Bool-cases (text_eq c.name name)) [
  | inl same ↦ absurd (let e = rw same at h in cc)
  | inr differ ↦ elim (Option-cases (branch_position bs name)) [
    | inl missing ↦ absurd (let e = rw (differ, missing) at h in cc)
    | inr (j, found) ↦
        let e = rw (differ, found) at h in
        (differ, found ∙ (let k : suc j ≡ suc i = some_inj e in ap some (omega arith)))
  ]
]

pub branch_head-update_at :
    (i now id : ℕ) (bs : List Branch) (b : Branch) (name : Text)
    → get_elem? bs i ≡ some b
    → branch_position bs b.name ≡ some i
    → branch_head (update_at i (λ b. set_head now b id) bs) name
      ≡ (if text_eq b.name name then some id else branch_head bs name)
unfolding update_at branch_head set_head
branch_head-update_at i now id [] b name h p = absurd (cc)
branch_head-update_at zero now id (c ∷ bs) b name h p =
    let e = some_inj h in
    elim (Bool-cases (text_eq c.name name)) [
      | inl same ↦ rw (← e, same) refl
      | inr differ ↦ rw (← e, differ) refl
    ]
branch_head-update_at (suc i) now id (c ∷ bs) b name h p =
    let (differ, q) = position_suc c bs b.name i p in
    elim (Bool-cases (text_eq c.name name)) [
      | inl same ↦
          let e = (text_eq_iff c.name name).0 same in
          let o : text_eq b.name name ≡ false = text_eq_sym b.name name ∙ (rw (← e) differ) in
          rw (same, o) refl
      | inr other ↦ rw other (branch_head-update_at i now id bs b name h q)
    ]

pub All-update_at :
    (P : CheckpointId → Type 0) (i now id : ℕ) (bs : List Branch)
    → All (λ b. P b.head) bs
    → P id
    → All (λ b. P b.head) (update_at i (λ b. set_head now b id) bs)
unfolding update_at set_head
All-update_at P i now id [] h p = tt
All-update_at P zero now id (b ∷ bs) (h, hs) p = (p, hs)
All-update_at P (suc i) now id (b ∷ bs) (h, hs) p = (h, All-update_at P i now id bs hs p)

pub All-get {ℓ} :
    (P : Branch → Type ℓ) (i : ℕ) (bs : List Branch) (b : Branch)
    → All P bs
    → get_elem? bs i ≡ some b
    → P b
All-get P i [] b h e = absurd (cc)
All-get P zero (c ∷ bs) b (h, hs) e = subst P (some_inj e) h
All-get P (suc i) (c ∷ bs) b (h, hs) e = All-get P i bs b hs e

pub All-append {ℓ} :
    (P : Branch → Type ℓ) (bs : List Branch) (b : Branch) → All P bs → P b → All P (bs ++ (b ∷ []))
All-append P [] b h p = (p, tt)
All-append P (c ∷ bs) b (h, hs) p = (h, All-append P bs b hs p)

pub All-heads :
    (P Q : CheckpointId → Type 0) (bs : List Branch)
    → ((id : CheckpointId) → P id → Q id)
    → All (λ b. P b.head) bs
    → All (λ b. Q b.head) bs
All-heads P Q [] f h = tt
All-heads P Q (b ∷ bs) f (h, hs) = (f b.head h, All-heads P Q bs f hs)

-- Where a branch of the list with one more stands.
pub get_elem?-append :
    (bs : List Branch) (b c : Branch) (j : ℕ)
    → get_elem? (bs ++ (b ∷ [])) j ≡ some c
    → (get_elem? bs j ≡ some c) ⊎ ((c ≡ b) × (j ≡ length bs))
get_elem?-append [] b c zero h = inr (sym (some_inj h), refl)
get_elem?-append [] b c (suc j) h = absurd (cc)
get_elem?-append (d ∷ bs) b c zero h = inl h
get_elem?-append (d ∷ bs) b c (suc j) h = elim (get_elem?-append bs b c j h) [
  | inl there ↦ inl there
  | inr (e, l) ↦ inr (e, ap suc l)
]

pub get_elem?-append-left :
    (bs : List Branch) (b c : Branch) (j : ℕ)
    → get_elem? bs j ≡ some c
    → get_elem? (bs ++ (b ∷ [])) j ≡ some c
get_elem?-append-left [] b c j h = absurd (cc)
get_elem?-append-left (d ∷ bs) b c zero h = h
get_elem?-append-left (d ∷ bs) b c (suc j) h = get_elem?-append-left bs b c j h

pub branch_position-append-left :
    (bs : List Branch) (b : Branch) (name : Text) (i : ℕ)
    → branch_position bs name ≡ some i
    → branch_position (bs ++ (b ∷ [])) name ≡ some i
unfolding branch_position
branch_position-append-left [] b name i h = absurd (cc)
branch_position-append-left (c ∷ bs) b name i h = elim (Bool-cases (text_eq c.name name)) [
  | inl same ↦ rw same (rw same at h)
  | inr differ ↦ elim (Option-cases (branch_position bs name)) [
    | inl missing ↦ absurd (let e = rw (differ, missing) at h in cc)
    | inr (j, found) ↦
        rw (differ, branch_position-append-left bs b name j found) (rw (differ, found) at h)
  ]
]

append_differs :
    (c : Branch) (bs : List Branch) (b : Branch)
    → branch_position (c ∷ bs) b.name ≡ none
    → (text_eq c.name b.name ≡ false) × (branch_position bs b.name ≡ none)
unfolding branch_position
append_differs c bs b h = elim (Bool-cases (text_eq c.name b.name)) [
  | inl same ↦ absurd (let e = rw same at h in cc)
  | inr differ ↦ elim (Option-cases (branch_position bs b.name)) [
    | inl missing ↦ (differ, missing)
    | inr (j, found) ↦ absurd (let e = rw (differ, found) at h in cc)
  ]
]

pub branch_position-append-new :
    (bs : List Branch) (b : Branch)
    → branch_position bs b.name ≡ none
    → branch_position (bs ++ (b ∷ [])) b.name ≡ some (length bs)
unfolding branch_position
branch_position-append-new [] b h = rw (text_eq_refl b.name) refl
branch_position-append-new (c ∷ bs) b h =
    let (differ, missing) = append_differs c bs b h in
    rw (differ, branch_position-append-new bs b missing) refl

pub branch_head-append :
    (bs : List Branch) (b : Branch) (name : Text)
    → branch_position bs b.name ≡ none
    → branch_head (bs ++ (b ∷ [])) name
      ≡ (if text_eq b.name name then some b.head else branch_head bs name)
unfolding branch_head
branch_head-append [] b name h = refl
branch_head-append (c ∷ bs) b name h = elim (Bool-cases (text_eq c.name name)) [
  | inl same ↦
      let e = (text_eq_iff c.name name).0 same in
      let differ : text_eq c.name b.name ≡ false = (append_differs c bs b h).0 in
      let o : text_eq b.name name ≡ false = text_eq_sym b.name name ∙ (rw (← e) differ) in
      rw (same, o) refl
  | inr other ↦ rw other (branch_head-append bs b name (append_differs c bs b h).1)
]

-- The position and the head are found together.
pub branch_head-position :
    (bs : List Branch) (b : Branch) (i : ℕ)
    → get_elem? bs i ≡ some b
    → branch_position bs b.name ≡ some i
    → branch_head bs b.name ≡ some b.head
unfolding branch_head
branch_head-position [] b i h p = absurd (cc)
branch_head-position (c ∷ bs) b zero h p = rw (some_inj h, text_eq_refl b.name) refl
branch_head-position (c ∷ bs) b (suc i) h p =
    let (differ, q) = position_suc c bs b.name i p in rw differ (branch_head-position bs b i h q)

pub headed_other :
    (now id : ℕ) (changed name : Text) (bs : List Branch)
    → text_eq changed name ≡ false
    → branch_head (headed now changed id bs) name ≡ branch_head bs name
unfolding branch_head headed
headed_other now id changed name [] h = refl
headed_other now id changed name (c ∷ bs) h = elim (Bool-cases (text_eq c.name changed)) [
  | inl same ↦
      let e = (text_eq_iff c.name changed).0 same in
      let o : text_eq c.name name ≡ false = rw e h in
      rw (same, o) (headed_other now id changed name bs h)
  | inr differ ↦ rw (differ, headed_other now id changed name bs h) refl
]

headed_same :
    (now id : ℕ) (changed : Text) (bs : List Branch) (old : CheckpointId)
    → branch_head bs changed ≡ some old
    → branch_head (headed now changed id bs) changed ≡ some id
unfolding branch_head headed
headed_same now id changed [] old h = absurd (cc)
headed_same now id changed (c ∷ bs) old h = elim (Bool-cases (text_eq c.name changed)) [
  | inl same ↦ rw (same, same) refl
  | inr differ ↦ rw (differ, differ) (headed_same now id changed bs old (rw differ at h))
]

pub branch_head-headed :
    (now id : ℕ) (changed name : Text) (bs : List Branch) (old : CheckpointId)
    → branch_head bs changed ≡ some old
    → branch_head (headed now changed id bs) name
      ≡ (if text_eq changed name then some id else branch_head bs name)
branch_head-headed now id changed name bs old h = elim (Bool-cases (text_eq changed name)) [
  | inl same ↦
      let e = (text_eq_iff changed name).0 same in
      rw (same, ← e) (headed_same now id changed bs old h)
  | inr differ ↦ rw differ (headed_other now id changed name bs differ)
]
