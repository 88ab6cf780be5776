-- ===== src/PodControl/Platform.antt =====
-- What the pod control relies on: the object manager of the API server, retry.RetryOnConflict of
-- client-go, the order in which Go visits a map, and the log of the calls that change something.
use xstatefulset.Base.{◌≡◌, Bool, true, false, Option, none, some, List, ◌∷◌, Text}
use xstatefulset.Api.{Error, Result, Pod, PersistentVolumeClaim}
use xstatefulset.Claims.Storage.{ClaimMap, IsRange}

pub data Verb : Type 0 where
  create update : Verb
  deletion : Verb

-- A call that changes the API server's objects, or an event that is recorded; an event carries
-- whether there was an error.
pub data Call : Type 0 where
  create_pod update_pod delete_pod : Pod → Call
  create_claim update_claim : PersistentVolumeClaim → Call
  pod_event : Verb → Pod → Bool → Call
  claim_event : Verb → PersistentVolumeClaim → Bool → Call
  conflict_event : PersistentVolumeClaim → Call

-- StatefulPodControlObjectManager: the API server and the listers, over the state `W` of the world.
pub record ObjectManager (W : Type 0) : Type 0 where
  pub do_create_pod : Pod → W → Option Error × W
  pub get_pod : (namespace name : Text) → W → Result Pod
  pub do_update_pod : Pod → W → Option Error × W
  pub do_delete_pod : Pod → W → Option Error × W
  pub do_create_claim : PersistentVolumeClaim → W → Option Error × W
  pub get_claim : (namespace name : Text) → W → Result PersistentVolumeClaim
  pub do_update_claim : PersistentVolumeClaim → W → Option Error × W

-- The state of the world and the calls made so far, the last one first.
pub record Env (W : Type 0) : Type 0 where
  pub world : W
  pub calls : List Call

-- The state of UpdateStatefulPod's closure: its pod, whether it tried an update, and the world.
pub record Attempt (W : Type 0) : Type 0 where
  pub pod : Pod
  pub attempted : Bool
  pub env : Env W

pub record Platform (W : Type 0) : Type 0 where
  pub manager : ObjectManager W
  pub retry_on_conflict :
      (Attempt W → Option Error × Attempt W) → Attempt W → Option Error × Attempt W
  pub range : ClaimMap → ClaimMap

-- What the code relies on: a retried body runs at least once and the error is that of its last run,
-- so what every run keeps is kept; and a map is visited entry by entry.
pub record IsPlatform {W : Type 0} (p : Platform W) : Type 1 where
  pub retries :
      (body : Attempt W → Option Error × Attempt W) (P : Attempt W → Type 0) (a : Attempt W)
      → ((b : Attempt W) → P b → P (body b).1)
      → P a
      → (b : Attempt W) × P b × (p.retry_on_conflict body a ≡ body b)
  pub visits : IsRange p.range

abbrev pub Action : Type 0 → Type 0 → Type 0
Action W A = Env W → A × Env W

module _ {W : Type 0} where
  abbrev pub log : Call → Action W (Unit {0})
  log c env = (tt, record env { calls = c ∷ env.calls })

  -- A call of the object manager, with its entry in the log.
  abbrev pub call : Call → (W → Option Error × W) → Action W (Option Error)
  call c f env =
      let (error, world) = f env.world in (error, record { world = world; calls = c ∷ env.calls })

  infixl 5 ◌>>=◌ ◌>>◌
  abbrev pub ◌>>=◌ : {A B : Type 0} → Action W A → (A → Action W B) → Action W B
  ◌>>=◌ m f env = let (a, after) = m env in f a after

  abbrev pub ◌>>◌ : {A B : Type 0} → Action W A → Action W B → Action W B
  m >> k = m >>= λ _. k

  abbrev pub return : {A : Type 0} → A → Action W A
  return a env = (a, env)

abbrev pub is_error : Option Error → Bool
is_error none = false
is_error (some e) = true
