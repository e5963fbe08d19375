-- ===== src/Core/Names.antt =====
-- `LayerType` and `PartitionType` of src/core/types.rs, and their names. An `AgentInstanceId` is its text.
pub mod RoundTrip
use layertwine.Prelude.{
  ℕ, ◌≡◌, Bool, true, false, List, [], ◌∷◌, ◌++◌, Option, none, some, Text, codes, text_eq, ◌==◌,
  if◌then◌else◌,
}

pub data LayerType : Type 0 where
  manual_edit agent_edit approval integrated unified staged : LayerType

unfoldable pub layer_name : LayerType → Text
layer_name manual_edit = codes "manual_edit"
layer_name agent_edit = codes "agent_edit"
layer_name approval = codes "approval"
layer_name integrated = codes "integrated"
layer_name unified = codes "unified"
layer_name staged = codes "staged"

unfoldable pub layer_from_name : Text → Option LayerType
layer_from_name s =
    if text_eq s (codes "manual_edit")
    then some manual_edit
    else if text_eq s (codes "agent_edit")
    then some agent_edit
    else if text_eq s (codes "approval")
    then some approval
    else if text_eq s (codes "integrated")
    then some integrated
    else if text_eq s (codes "unified")
    then some unified
    else if text_eq s (codes "staged")
    then some staged
    else none

-- The derived `==` of `LayerType`: the variants by their position.
unfoldable pub index : LayerType → ℕ
index manual_edit = 0
index agent_edit = 1
index approval = 2
index integrated = 3
index unified = 4
index staged = 5

unfoldable pub layer_eq : LayerType → LayerType → Bool
unfolding index
layer_eq a b = index a == index b

pub data PartitionType : Type 0 where
  manual : PartitionType
  agent : Text → PartitionType
  approval : Text → PartitionType
  integrated : Text → PartitionType
  unified : PartitionType
  staged : PartitionType

unfoldable pub name : PartitionType → Text
name manual = codes "manual"
name (agent id) = codes "agent/" ++ id
name (PartitionType.approval id) = codes "approval/" ++ id
name (PartitionType.integrated feature) = codes "integrated/" ++ feature
name PartitionType.unified = codes "unified"
name PartitionType.staged = codes "staged"

unfoldable pub to_layer : PartitionType → LayerType
to_layer manual = manual_edit
to_layer (agent id) = agent_edit
to_layer (PartitionType.approval id) = LayerType.approval
to_layer (PartitionType.integrated feature) = LayerType.integrated
to_layer PartitionType.unified = LayerType.unified
to_layer PartitionType.staged = LayerType.staged

-- `s.strip_prefix(prefix)`.
unfoldable pub strip_prefix : Text → (prefix : Text) → Option Text
strip_prefix s [] = some s
strip_prefix [] (p ∷ prefix) = none
strip_prefix (c ∷ s) (p ∷ prefix) =
    let rest = strip_prefix s prefix in if c == p then rest else none

unfoldable pub first_some : Option PartitionType → Option PartitionType → Option PartitionType
first_some none other = other
first_some (some found) other = some found

unfoldable pub map_some : (Text → PartitionType) → Option Text → Option PartitionType
map_some f none = none
map_some f (some rest) = some (f rest)

unfoldable pub from_name : Text → Option PartitionType
unfolding first_some map_some
from_name s =
    if text_eq s (codes "manual")
    then some manual
    else if text_eq s (codes "unified")
    then some PartitionType.unified
    else if text_eq s (codes "staged")
    then some PartitionType.staged
    else first_some (map_some agent (strip_prefix s (codes "agent/"))) (
        first_some (map_some PartitionType.approval (strip_prefix s (codes "approval/")))
          (map_some PartitionType.integrated (strip_prefix s (codes "integrated/"))))

unfoldable pub layer_is : LayerType → Option PartitionType → Bool
layer_is target none = false
layer_is target (some pt) = layer_eq (to_layer pt) target

-- `partition_type_matches_layer` of src/layered/transition.rs.
unfoldable pub partition_type_matches_layer : Text → LayerType → Bool
unfolding layer_is
partition_type_matches_layer partition_type target = layer_is target (from_name partition_type)
