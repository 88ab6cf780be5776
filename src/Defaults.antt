-- ===== src/Defaults.antt =====
-- SetDefaults_XStatefulSet (api/apps/v1/defaults.go): the fields that it looks at, as they are before
-- and after; an empty text or a nil pointer is `none`.
pub mod Filled
use xstatefulset.Base.{ℕ, ℤ, pos, Bool, Option, none, some, if◌then◌else◌}
use xstatefulset.Api.{
  PodManagementPolicy, ordered_ready, UpdateStrategyType, rolling_update, on_delete, int,
  RollingUpdateStrategy, Retention, retain,
}

pub record RawRetentionPolicy : Type 0 where
  pub when_deleted : Option Retention
  pub when_scaled : Option Retention

pub record RawSpec : Type 0 where
  pub pod_management_policy : Option PodManagementPolicy
  pub strategy_type : Option UpdateStrategyType
  pub rolling : Option RollingUpdateStrategy
  pub retention_policy : Option RawRetentionPolicy
  pub replicas : Option ℕ
  pub revision_history_limit : Option ℤ

abbrev pub or_default {ℓ} : {A : Type ℓ} → A → Option A → Option A
or_default a none = some a
or_default a (some b) = some b

abbrev pub empty_strategy : RollingUpdateStrategy
empty_strategy = record { partition = none; max_unavailable = none }

-- The type of the strategy, with an empty strategy beside a type that was missing.
abbrev pub default_type :
    Option UpdateStrategyType
    → Option RollingUpdateStrategy
    → Option UpdateStrategyType × Option RollingUpdateStrategy
default_type none rolling = (some rolling_update, or_default empty_strategy rolling)
default_type (some t) rolling = (some t, rolling)

abbrev pub fill_strategy : Bool → RollingUpdateStrategy → RollingUpdateStrategy
fill_strategy gate s = record {
  partition = or_default 0 s.partition;
  max_unavailable = if gate then or_default (int (pos 1)) s.max_unavailable else s.max_unavailable;
}

-- The strategy is filled in under the RollingUpdate type only.
abbrev pub default_strategy :
    Bool → Option UpdateStrategyType → Option RollingUpdateStrategy → Option RollingUpdateStrategy
default_strategy gate (some rolling_update) (some s) = some (fill_strategy gate s)
default_strategy gate _ rolling = rolling

abbrev pub fill_retention : Option RawRetentionPolicy → RawRetentionPolicy
fill_retention none = record { when_deleted = some retain; when_scaled = some retain }
fill_retention (some p) = record {
  when_deleted = or_default retain p.when_deleted;
  when_scaled = or_default retain p.when_scaled;
}

-- `gate` is the MaxUnavailableStatefulSet gate.
unfoldable pub set_defaults : Bool → RawSpec → RawSpec
set_defaults gate spec =
    let (type, rolling) = default_type spec.strategy_type spec.rolling in
    record {
      pod_management_policy = or_default ordered_ready spec.pod_management_policy;
      strategy_type = type;
      rolling = default_strategy gate type rolling;
      retention_policy = some (fill_retention spec.retention_policy);
      replicas = or_default 1 spec.replicas;
      revision_history_limit = or_default (pos 10) spec.revision_history_limit;
    }
