-- ===== src/Core/Names/RoundTrip.antt =====
-- The names of src/core/types.rs and the values that they stand for.
use layertwine.Prelude.{
  ◌≡◌, ◌↔◌, refl, true, [], ◌∷◌, ◌++◌, Option, none, some, Text, codes, text_eq, text_eq_iff,
  if◌then◌else◌, arith, Bool-cases, ◌⊎◌, inl, inr, some_inj,
}
use layertwine.Core.Names.{
  LayerType, PartitionType, layer_name, layer_from_name, index, layer_eq, name, to_layer,
  strip_prefix, first_some, map_some, from_name, layer_is, partition_type_matches_layer,
}

-- A ladder of texts: the value found stands under its text.
ladder :
    {A : Type 0} (s t : Text) (x y : A) (rest : Option A)
    → (if text_eq s t then some x else rest) ≡ some y
    → ((s ≡ t) × (x ≡ y)) ⊎ (rest ≡ some y)
ladder s t x y rest h = elim (Bool-cases (text_eq s t)) [
  | inl same ↦ inl ((text_eq_iff s t).0 same, some_inj (rw same at h))
  | inr other ↦ inr (rw other at h)
]

layer_from_name-layer_name : (l : LayerType) → layer_from_name (layer_name l) ≡ some l
unfolding layer_from_name layer_name
layer_from_name-layer_name LayerType.manual_edit = refl
layer_from_name-layer_name LayerType.agent_edit = refl
layer_from_name-layer_name LayerType.approval = refl
layer_from_name-layer_name LayerType.integrated = refl
layer_from_name-layer_name LayerType.unified = refl
layer_from_name-layer_name LayerType.staged = refl

layer_name-layer_from_name :
    (s : Text) (l : LayerType) → layer_from_name s ≡ some l → s ≡ layer_name l
unfolding layer_from_name layer_name
layer_name-layer_from_name s l h = elim (ladder s _ _ l _ h) [
  | inl (e, f) ↦ rw (← f) e
  | inr h1 ↦ elim (ladder s _ _ l _ h1) [
    | inl (e, f) ↦ rw (← f) e
    | inr h2 ↦ elim (ladder s _ _ l _ h2) [
      | inl (e, f) ↦ rw (← f) e
      | inr h3 ↦ elim (ladder s _ _ l _ h3) [
        | inl (e, f) ↦ rw (← f) e
        | inr h4 ↦ elim (ladder s _ _ l _ h4) [
          | inl (e, f) ↦ rw (← f) e
          | inr h5 ↦ elim (ladder s _ _ l _ h5) [ inl (e, f) ↦ rw (← f) e | inr h6 ↦ cc ]
        ]
      ]
    ]
  ]
]

-- A text is read as a layer exactly if it is that layer's name.
layer_names : (s : Text) (l : LayerType) → (layer_from_name s ≡ some l) ↔ (s ≡ layer_name l)
layer_names s l = (layer_name-layer_from_name s l, λ e. rw e (layer_from_name-layer_name l))

strip_prefix-eq : (s prefix rest : Text) → strip_prefix s prefix ≡ some rest → s ≡ prefix ++ rest
unfolding strip_prefix
strip_prefix-eq s [] rest h = ground arith
strip_prefix-eq [] (p ∷ prefix) rest h = cc
strip_prefix-eq (c ∷ s) (p ∷ prefix) rest h = ground (arith, strip_prefix-eq s prefix rest)

from_name-name : (pt : PartitionType) → from_name (name pt) ≡ some pt
unfolding from_name name strip_prefix
from_name-name PartitionType.manual = refl
from_name-name (PartitionType.agent id) = refl
from_name-name (PartitionType.approval id) = refl
from_name-name (PartitionType.integrated id) = refl
from_name-name PartitionType.unified = refl
from_name-name PartitionType.staged = refl

name-from_name : (s : Text) (pt : PartitionType) → from_name s ≡ some pt → s ≡ name pt
unfolding from_name name
name-from_name s pt h = elim (ladder s _ _ pt _ h) [
  | inl (e, f) ↦ rw (← f) e
  | inr h1 ↦ elim (ladder s _ _ pt _ h1) [
    | inl (e, f) ↦ rw (← f) e
    | inr h2 ↦ elim (ladder s _ _ pt _ h2) [
      | inl (e, f) ↦ rw (← f) e
      | inr h3 ↦
          prefixes (strip_prefix s (codes "agent/")) (strip_prefix s (codes "approval/"))
            (strip_prefix s (codes "integrated/")) refl refl refl h3
    ]
  ]
]
  where
    prefixes :
        (a b c : Option Text)
        → strip_prefix s (codes "agent/") ≡ a
        → strip_prefix s (codes "approval/") ≡ b
        → strip_prefix s (codes "integrated/") ≡ c
        → first_some
            (map_some PartitionType.agent a)
            (first_some (map_some PartitionType.approval b) (map_some PartitionType.integrated c))
          ≡ some pt
        → s ≡ name pt
    prefixes (some a) b c e f g k = rw (← (some_inj k)) (strip_prefix-eq s (codes "agent/") a e)
    prefixes none (some b) c e f g k =
        rw (← (some_inj k)) (strip_prefix-eq s (codes "approval/") b f)
    prefixes none none (some c) e f g k =
        rw (← (some_inj k)) (strip_prefix-eq s (codes "integrated/") c g)
    prefixes none none none e f g k = cc

-- A text is read as a partition type exactly if it is that type's name: names are read back, and no
-- other text is accepted.
pub partition_names : (s : Text) (pt : PartitionType) → (from_name s ≡ some pt) ↔ (s ≡ name pt)
partition_names s pt = (name-from_name s pt, λ e. rw e (from_name-name pt))

layer_eq_iff : (a b : LayerType) → (layer_eq a b ≡ true) ↔ (a ≡ b)
unfolding layer_eq index
layer_eq_iff a b = ground arith

-- The partition type written into a snapshot matches exactly the layer of that partition type.
partition_type_matches_layer-name :
    (pt : PartitionType) (l : LayerType)
    → (partition_type_matches_layer (name pt) l ≡ true) ↔ (to_layer pt ≡ l)
unfolding partition_type_matches_layer layer_is
partition_type_matches_layer-name pt l =
    rw (from_name-name pt, layer_is) (layer_eq_iff (to_layer pt) l)
