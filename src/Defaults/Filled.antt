-- ===== src/Defaults/Filled.antt =====
-- What SetDefaults_XStatefulSet (api/apps/v1/defaults.go) fills in, and what it leaves alone.
use mathlib.Core.Option
use xstatefulset.Base.{pos, ◌≡◌, refl, ap, Bool, true, false, Option, none, some}
use xstatefulset.Api.{
  ordered_ready, UpdateStrategyType, rolling_update, on_delete, int, RollingUpdateStrategy,
  IntOrPercent, retain,
}
use xstatefulset.Defaults.{
  RawRetentionPolicy, RawSpec, or_default, empty_strategy, default_type, fill_strategy,
  default_strategy, fill_retention, set_defaults,
}

-- A field before and after defaulting: the default where it was missing, or else what stood in it.
pub data IsFilledBy {ℓ} {A : Type ℓ} (default : A) : Option A → Option A → Type ℓ where
  missing : IsFilledBy default none (some default)
  given : (a : A) → IsFilledBy default (some a) (some a)

or_default-IsFilledBy {ℓ} : {A : Type ℓ} (a : A) (o : Option A) → IsFilledBy a o (or_default a o)
or_default-IsFilledBy a none = missing
or_default-IsFilledBy a (some b) = given b

-- The bound on the unavailable pods, by the gate.
pub data IsFilledBound : Bool → Option IntOrPercent → Option IntOrPercent → Type 0 where
  gated :
      {before after : Option IntOrPercent}
      → IsFilledBy (int (pos 1)) before after
      → IsFilledBound true before after
  not_gated : {bound : Option IntOrPercent} → IsFilledBound false bound bound

-- The strategy of a rolling update: the partition is filled in, and the bound where the gate is on.
pub record IsFilledStrategy (gate : Bool) (before after : RollingUpdateStrategy) : Type 0 where
  pub partition : IsFilledBy 0 before.partition after.partition
  pub bound : IsFilledBound gate before.max_unavailable after.max_unavailable

-- The strategy, by its type before: a missing type becomes RollingUpdate, with a strategy of its own;
-- the strategy beside OnDelete, and a missing one beside RollingUpdate, stay as they are.
pub data StrategyFilled (gate : Bool)
    : Option UpdateStrategyType
      → Option RollingUpdateStrategy
      → Option UpdateStrategyType
      → Option RollingUpdateStrategy
      → Type 0 where
  no_type :
      {rolling : Option RollingUpdateStrategy} (before after : RollingUpdateStrategy)
      → IsFilledBy empty_strategy rolling (some before)
      → IsFilledStrategy gate before after
      → StrategyFilled gate none rolling (some rolling_update) (some after)
  rolls :
      {before after : RollingUpdateStrategy}
      → IsFilledStrategy gate before after
      → StrategyFilled gate (some rolling_update) (some before) (some rolling_update) (some after)
  no_strategy : StrategyFilled gate (some rolling_update) none (some rolling_update) none
  on_deletion :
      {rolling : Option RollingUpdateStrategy}
      → StrategyFilled gate (some on_delete) rolling (some on_delete) rolling

pub record IsFilled (gate : Bool) (before after : RawSpec) : Type 0 where
  pub pod_management_policy :
      IsFilledBy ordered_ready before.pod_management_policy after.pod_management_policy
  pub strategy :
      StrategyFilled gate before.strategy_type before.rolling after.strategy_type after.rolling
  pub replicas : IsFilledBy 1 before.replicas after.replicas
  pub limit : IsFilledBy (pos 10) before.revision_history_limit after.revision_history_limit
  pub retention : RawRetentionPolicy
  pub retention_given : after.retention_policy ≡ some retention
  pub when_deleted :
      IsFilledBy retain
        (Option.bind before.retention_policy (λ p. p.when_deleted))
        retention.when_deleted
  pub when_scaled :
      IsFilledBy retain
        (Option.bind before.retention_policy (λ p. p.when_scaled))
        retention.when_scaled

fill_strategy-IsFilledStrategy :
    (gate : Bool) (s : RollingUpdateStrategy) → IsFilledStrategy gate s (fill_strategy gate s)
fill_strategy-IsFilledStrategy true s = record {
  partition = or_default-IsFilledBy 0 s.partition;
  bound = gated (or_default-IsFilledBy (int (pos 1)) s.max_unavailable);
}
fill_strategy-IsFilledStrategy false s = record {
  partition = or_default-IsFilledBy 0 s.partition;
  bound = not_gated;
}

default_strategy-StrategyFilled :
    (gate : Bool) (type : Option UpdateStrategyType) (rolling : Option RollingUpdateStrategy)
    → let out = default_type type rolling in
      StrategyFilled gate type rolling out.0 (default_strategy gate out.0 out.1)
default_strategy-StrategyFilled gate none none =
    no_type empty_strategy _ (or_default-IsFilledBy empty_strategy none)
      (fill_strategy-IsFilledStrategy gate empty_strategy)
default_strategy-StrategyFilled gate none (some s) =
    no_type s _ (or_default-IsFilledBy empty_strategy (some s))
      (fill_strategy-IsFilledStrategy gate s)
default_strategy-StrategyFilled gate (some rolling_update) none = no_strategy
default_strategy-StrategyFilled gate (some rolling_update) (some s) =
    rolls (fill_strategy-IsFilledStrategy gate s)
default_strategy-StrategyFilled gate (some on_delete) rolling = on_deletion

fill_retention-IsFilledBy :
    (p : Option RawRetentionPolicy)
    → IsFilledBy retain (Option.bind p (λ q. q.when_deleted)) (fill_retention p).when_deleted
      × IsFilledBy retain (Option.bind p (λ q. q.when_scaled)) (fill_retention p).when_scaled
unfolding Option.bind
fill_retention-IsFilledBy none =
    (or_default-IsFilledBy retain none, or_default-IsFilledBy retain none)
fill_retention-IsFilledBy (some p) =
    (or_default-IsFilledBy retain p.when_deleted, or_default-IsFilledBy retain p.when_scaled)

or_default-again {ℓ} :
    {A : Type ℓ} (a : A) (o : Option A) → or_default a (or_default a o) ≡ or_default a o
or_default-again a none = refl
or_default-again a (some b) = refl

fill_strategy-again :
    (gate : Bool) (s : RollingUpdateStrategy)
    → fill_strategy gate (fill_strategy gate s) ≡ fill_strategy gate s
fill_strategy-again true s = λ i. record {
  partition = or_default-again 0 s.partition i;
  max_unavailable = or_default-again (int (pos 1)) s.max_unavailable i;
}
fill_strategy-again false s = λ i. record {
  partition = or_default-again 0 s.partition i;
  max_unavailable = s.max_unavailable;
}

fill_retention-again :
    (p : Option RawRetentionPolicy) → fill_retention (some (fill_retention p)) ≡ fill_retention p
fill_retention-again none = refl
fill_retention-again (some p) = λ i. record {
  when_deleted = or_default-again retain p.when_deleted i;
  when_scaled = or_default-again retain p.when_scaled i;
}

abbrev strategy_of :
    Bool
    → Option UpdateStrategyType
    → Option RollingUpdateStrategy
    → Option UpdateStrategyType × Option RollingUpdateStrategy
strategy_of gate type rolling =
    let out = default_type type rolling in (out.0, default_strategy gate out.0 out.1)

strategy-again :
    (gate : Bool) (type : Option UpdateStrategyType) (rolling : Option RollingUpdateStrategy)
    → let out = strategy_of gate type rolling in strategy_of gate out.0 out.1 ≡ out
strategy-again gate none none =
    ap (λ s. (some rolling_update, some s)) (fill_strategy-again gate empty_strategy)
strategy-again gate none (some s) =
    ap (λ s. (some rolling_update, some s)) (fill_strategy-again gate s)
strategy-again gate (some rolling_update) none = refl
strategy-again gate (some rolling_update) (some s) =
    ap (λ s. (some rolling_update, some s)) (fill_strategy-again gate s)
strategy-again gate (some on_delete) rolling = refl

-- Defaulting fills each missing field with its default, OrderedReady, RollingUpdate with partition 0,
-- 1 replica, 10 revisions and Retain twice, and maxUnavailable 1 where the gate is on, and keeps each
-- field that was given; the strategy beside OnDelete, and a missing one beside RollingUpdate, it
-- leaves. A second defaulting changes nothing.
pub set_defaults-IsFilled :
    (gate : Bool) (spec : RawSpec)
    → IsFilled gate spec (set_defaults gate spec)
      × (set_defaults gate (set_defaults gate spec) ≡ set_defaults gate spec)
unfolding set_defaults
set_defaults-IsFilled gate spec =
    let (deleted, scaled) = fill_retention-IsFilledBy spec.retention_policy in
    (
      record {
        pod_management_policy = or_default-IsFilledBy ordered_ready spec.pod_management_policy;
        strategy = default_strategy-StrategyFilled gate spec.strategy_type spec.rolling;
        replicas = or_default-IsFilledBy 1 spec.replicas;
        limit = or_default-IsFilledBy (pos 10) spec.revision_history_limit;
        retention = fill_retention spec.retention_policy;
        retention_given = refl;
        when_deleted = deleted;
        when_scaled = scaled;
      },
      λ i. record {
        pod_management_policy = or_default-again ordered_ready spec.pod_management_policy i;
        strategy_type = (strategy-again gate spec.strategy_type spec.rolling i).0;
        rolling = (strategy-again gate spec.strategy_type spec.rolling i).1;
        retention_policy = some (fill_retention-again spec.retention_policy i);
        replicas = or_default-again 1 spec.replicas i;
        revision_history_limit = or_default-again (pos 10) spec.revision_history_limit i;
      },
    )
