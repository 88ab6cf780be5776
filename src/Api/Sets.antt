-- ===== src/Api/Sets.antt =====
-- The XStatefulSet as `sync` hands it to the control loop, that is after `Scheme.Default`: the
-- pointers that defaulting fills are plain values here. Defaulting itself is the module Defaults.
-- Replicas, the first ordinal, the partition and the seconds are counts, so natural numbers.
use xstatefulset.Base.{ℕ, ℤ, List, Option, Text}
use xstatefulset.Api.Meta.{ObjectMeta, Labels}
use xstatefulset.Api.Pods.{PersistentVolumeClaim, PodTemplate}

pub data PodManagementPolicy : Type 0 where
  ordered_ready parallel : PodManagementPolicy

pub data UpdateStrategyType : Type 0 where
  rolling_update on_delete : UpdateStrategyType

-- intstr.IntOrString, where the text form is read as a percentage or not at all.
pub data IntOrPercent : Type 0 where
  int : ℤ → IntOrPercent
  percent : ℕ → IntOrPercent
  malformed : IntOrPercent

-- The partition stays a pointer: defaulting fills it under the RollingUpdate type only.
pub record RollingUpdateStrategy : Type 0 where
  pub partition : Option ℕ
  pub max_unavailable : Option IntOrPercent

-- A retention policy; `other` is any text but the two that the code knows.
pub data Retention : Type 0 where
  retain delete other : Retention

pub record RetentionPolicy : Type 0 where
  pub when_deleted : Retention
  pub when_scaled : Retention

pub record XStatefulSetSpec : Type 0 where
  pub replicas : ℕ
  pub selector : Labels
  pub template : PodTemplate
  pub volume_claim_templates : List PersistentVolumeClaim
  pub service_name : Text
  pub pod_management_policy : PodManagementPolicy
  pub strategy_type : UpdateStrategyType
  pub rolling : Option RollingUpdateStrategy
  pub revision_history_limit : ℤ
  pub min_ready_seconds : ℕ
  pub retention_policy : Option RetentionPolicy
  pub ordinals_start : Option ℕ

-- The counters are int32 in the code, and `current_replicas` may go below zero there.
pub record XStatefulSetStatus : Type 0 where
  pub observed_generation : ℕ
  pub replicas : ℕ
  pub ready_replicas : ℕ
  pub current_replicas : ℤ
  pub updated_replicas : ℕ
  pub available_replicas : ℕ
  pub current_revision : Text
  pub update_revision : Text
  pub collision_count : Option ℕ

pub record XStatefulSet : Type 0 where
  pub meta : ObjectMeta
  pub spec : XStatefulSetSpec
  pub status : XStatefulSetStatus
