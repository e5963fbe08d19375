-- ===== src/Layered/Transition/Flows.antt =====
-- Which flows between the layers src/layered/transition.rs allows.
use layertwine.Prelude.{ℕ, ◌<◌, ◌≡◌, refl, arith, ok}
use layertwine.Core.Names.{
  LayerType, manual_edit, agent_edit, approval, integrated, unified, staged,
}
use layertwine.Layered.Transition.{
  forward_allowed, check_forward_valid, rollback_allowed, check_rollback_valid,
}

-- One or more forward steps, each of which the check allows.
pub data Flows : LayerType → LayerType → Type 0 where
  step : {a b : LayerType} → check_forward_valid a b ≡ ok tt → Flows a b
  more : {a b c : LayerType} → check_forward_valid a b ≡ ok tt → Flows b c → Flows a c

-- How far a layer is from a commit.
unfoldable distance : LayerType → ℕ
distance staged = 0
distance integrated = 1
distance approval = 2
distance agent_edit = 3
distance manual_edit = 1
distance unified = 0

forward-closer : (a b : LayerType) → check_forward_valid a b ≡ ok tt → distance b < distance a
unfolding check_forward_valid forward_allowed distance
forward-closer manual_edit staged h = omega arith
forward-closer agent_edit approval h = omega arith
forward-closer approval integrated h = omega arith
forward-closer integrated staged h = omega arith
forward-closer a b h = absurd (cc)

Flows-closer : (a b : LayerType) → Flows a b → distance b < distance a
Flows-closer a b (step h) = forward-closer a b h
Flows-closer a b (more {b = m} h rest) =
    let first = forward-closer a m h in let later = Flows-closer m b rest in omega arith

-- No sequence of allowed forward steps comes back to the layer it started from.
pub Flows-irreflexive : (a : LayerType) → ¬ Flows a a
Flows-irreflexive a f = let less = Flows-closer a a f in absurd (omega arith)

-- Where a rollback from one layer to another is allowed, allowed forward steps lead from the second back to the first,
-- and none lead from the first to the second.
pub rollback-Flows : (a b : LayerType) → check_rollback_valid a b ≡ ok tt → Flows b a × ¬ Flows a b
unfolding check_rollback_valid rollback_allowed check_forward_valid forward_allowed
rollback-Flows staged manual_edit h = (
  step refl,
  λ f. let less = Flows-closer staged manual_edit f in unfold distance in absurd (omega arith),
)
rollback-Flows staged agent_edit h = (
  more {b = approval} refl (more {b = integrated} refl (step refl)),
  λ f. let less = Flows-closer staged agent_edit f in unfold distance in absurd (omega arith),
)
rollback-Flows staged approval h = (
  more {b = integrated} refl (step refl),
  λ f. let less = Flows-closer staged approval f in unfold distance in absurd (omega arith),
)
rollback-Flows approval agent_edit h = (
  step refl,
  λ f. let less = Flows-closer approval agent_edit f in unfold distance in absurd (omega arith),
)
rollback-Flows a b h = absurd (cc)
