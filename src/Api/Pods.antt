-- ===== src/Api/Pods.antt =====
-- Pods, their conditions and volumes, and persistent volume claims.
use xstatefulset.Base.{ℕ, ℤ, List, Option, Text}
use xstatefulset.Api.Meta.{ObjectMeta, Labels}

-- `unset` is the empty phase of a pod that the API server has not stored yet.
pub data Phase : Type 0 where
  unset pending running succeeded failed unknown : Phase

pub data ConditionStatus : Type 0 where
  cond_true cond_false cond_unknown : ConditionStatus

pub record PodCondition : Type 0 where
  pub type : Text
  pub status : ConditionStatus
  pub reason : Text
  pub message : Text
  pub last_probe_time : Option ℕ
  pub last_transition_time : Option ℕ

-- The claim name of a volume whose source is a claim; `none` for any other source.
pub record Volume : Type 0 where
  pub name : Text
  pub claim_name : Option Text

pub record Pod : Type 0 where
  pub meta : ObjectMeta
  pub phase : Phase
  pub conditions : List PodCondition
  pub volumes : List Volume
  pub hostname : Text
  pub subdomain : Text

pub record PersistentVolumeClaim : Type 0 where
  pub meta : ObjectMeta

pub record PodTemplate : Type 0 where
  pub labels : Labels
  pub volumes : List Volume

pub record ControllerRevision : Type 0 where
  pub meta : ObjectMeta
  pub revision : ℤ
  pub data_raw : List ℕ
