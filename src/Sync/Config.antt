-- ===== src/Sync/Config.antt =====
-- What the control loop takes from outside: the feature gates (pkg/feature/feature.go names them),
-- the clock, intstr.GetScaledValueFromIntOrPercent, and ApplyRevision, which is a strategic merge
-- patch of apimachinery.
use xstatefulset.Base.{ℕ, ℤ, Bool, List}
use xstatefulset.Api.{Result, IntOrPercent, XStatefulSet, ControllerRevision}
use xstatefulset.PodControl.Platform.{Platform}

pub record Config (W : Type 0) : Type 0 where
  pub platform : Platform W
  pub max_unavailable_gate : Bool
  -- The time at which the sync reads the clock, in nanoseconds.
  pub now : ℕ
  pub scaled_value : IntOrPercent → ℕ → Bool → Result ℤ
  pub apply_revision : XStatefulSet → ControllerRevision → Result XStatefulSet
  -- The order in which the goroutines of one batch make their calls.
  pub schedule : List ℕ → List ℕ
