-- ===== src/Controller/Settling.antt =====
-- What becomes of a key that the queue delivers, in every case of sync.
use xstatefulset.Base.{
  Text, ℕ, ◌≡◌, ◌∙◌, refl, sym, ap, inl, inr, true, Option, none, some, ◌&&◌, ltb, List, [], ◌∷◌,
  ◌++◌, Bool-cases, Option-cases, append_assoc,
}
use xstatefulset.Api.{Error, Result-cases, Pod, XStatefulSet}
use xstatefulset.Sync.Config.{Config}
use xstatefulset.Sync.Revisions.{HistoryControl}
use xstatefulset.Sync.Perform.{update_and_truncate}
use xstatefulset.Controller.{
  QueueCall, add_rate_limited, add_after, forget, done, Selector, Cluster, ControllerState,
  enqueue_ss_after,
}
use xstatefulset.Controller.Syncing.{
  adopt_orphan_revisions, get_pods_for_stateful_set, at_world, falls_short, sync_stateful_set,
  sync_found, sync, settle_key, process_next_work_item, worker,
}

-- A sync that fails leaves the queue alone; one that does not may ask for the set to come back later.
pub data Requeue (before after : List QueueCall) : Option Error → Type 0 where
  no_requeue : {error : Option Error} → after ≡ before → Requeue before after error
  one_later :
      (key : Text) (nanos : ℕ) → after ≡ add_after key nanos ∷ before → Requeue before after none

-- How the result of a sync settles its key: a failed one comes back with a delay that grows, the
-- record of the failures of another is dropped.
pub data Settles (key : Text) : Option Error → QueueCall → Type 0 where
  retries : {e : Error} → Settles key (some e) (add_rate_limited key)
  forgets : Settles key none (forget key)

module _ {W : Type 0} (k : Cluster W) (h : HistoryControl W) (c : Config W) where
  abbrev Kept : ControllerState W → Option Error × ControllerState W → Type 0
  Kept st out = Requeue st.queue out.1.queue out.0

  enqueue_ss_after-Requeue :
      (set : XStatefulSet) (nanos : ℕ) (st : ControllerState W)
      → Kept st (none, enqueue_ss_after k set nanos st)
  unfolding enqueue_ss_after
  enqueue_ss_after-Requeue set nanos st = elim (Result-cases (k.key_of set.meta)) [
    | inl (key, q) ↦ rw (q, enqueue_ss_after) (one_later key nanos refl)
    | inr (e, q) ↦ rw (q, enqueue_ss_after) (no_requeue refl)
  ]

  sync_stateful_set-Requeue :
      (set : XStatefulSet) (pods : List Pod) (st : ControllerState W)
      → Kept st (sync_stateful_set k h c set pods st)
  unfolding sync_stateful_set
  sync_stateful_set-Requeue set pods st =
      let ((status, error), env) = update_and_truncate h c set pods st.env in
      elim (Option-cases error) [
        | inr (e, q) ↦ rw (q, sync_stateful_set) (no_requeue refl)
        | inl n ↦
            elim (Bool-cases (ltb 0 set.spec.min_ready_seconds && falls_short k h c set status)) [
              | inl x ↦
                  rw (n, x, sync_stateful_set)
                    (enqueue_ss_after-Requeue set _ (record st { env = env }))
              | inr x ↦ rw (n, x, sync_stateful_set) (no_requeue refl)
            ]
      ]

  sync_found-Requeue :
      (set : XStatefulSet) (selector : Selector) (st : ControllerState W)
      → Kept st (sync_found k h c set selector st)
  unfolding sync_found
  sync_found-Requeue set selector st =
      let (adoption, world1) = adopt_orphan_revisions k h c set st.env.world in
      let ((pods, claims), world2) = get_pods_for_stateful_set k h c set selector world1 in
      elim (Option-cases adoption) [
        | inr (e, q) ↦ rw (q, sync_found) (no_requeue refl)
        | inl n ↦ elim (Option-cases claims) [
          | inr (e, q) ↦ rw (n, q, sync_found) (no_requeue refl)
          | inl m ↦
              rw (n, m, sync_found) (sync_stateful_set-Requeue set pods (at_world k h c world2 st))
        ]
      ]

  sync-Requeue : (key : Text) (st : ControllerState W) → Kept st (sync k h c key st)
  unfolding sync
  sync-Requeue key st = elim (Result-cases (k.split_key key)) [
    | inr (e, q) ↦ rw (q, sync) (no_requeue refl)
    | inl ((namespace, name), q) ↦ elim (Result-cases (k.get_set namespace name st.env.world)) [
      | inr (e, x) ↦ rw (q, x, sync) (no_requeue refl)
      | inl (set, x) ↦ elim (Result-cases (k.as_selector set)) [
        | inr (e, y) ↦ rw (q, x, y, sync) (no_requeue refl)
        | inl (selector, y) ↦
            rw (q, x, y, sync) (sync_found-Requeue (h.set_defaults set) selector st)
      ]
    ]
  ]

  -- How one key is settled: what was asked of the queue before stays, the sync's error decides between
  -- coming back with a delay and being forgotten, and the key is done last.
  pub record IsSettled (key : Text) (before : ControllerState W) (after : List QueueCall)
      : Type 0 where
    pub middle : List QueueCall
    pub synced : Requeue before.queue middle (sync k h c key before).0
    pub call : QueueCall
    pub settles : Settles key (sync k h c key before).0 call
    pub settled : after ≡ done key ∷ (call ∷ middle)

  settle_key-Settles :
      (key : Text) (error : Option Error) → Settles key error (settle_key k h c key error)
  settle_key-Settles key (some e) = retries
  settle_key-Settles key none = forgets

  -- A key that is delivered is always settled, whatever its sync did: after an error it is added again
  -- with a delay, and nothing else is added; without one it is forgotten, and at most one more look
  -- at the set is asked for; it is marked done at the end, and the worker goes on.
  pub process_next_work_item-IsSettled :
      (key : Text) (st : ControllerState W)
      → ((process_next_work_item k h c (some key) st).0 ≡ true)
        × IsSettled key st (process_next_work_item k h c (some key) st).1.queue
  unfolding process_next_work_item
  process_next_work_item-IsSettled key st = (
    refl,
    record {
      middle = _;
      synced = sync-Requeue key st;
      call = _;
      settles = settle_key-Settles key (sync k h c key st).0;
      settled = refl;
    },
  )

  -- A queue that holds what settled a key, and what was asked of it later.
  pub record IsHandled (key : Text) (before : ControllerState W) (queue : List QueueCall)
      : Type 0 where
    pub own : List QueueCall
    pub settled : IsSettled key before own
    pub later : List QueueCall
    pub grown : queue ≡ later ++ own

  -- The answers of Get that deliver these keys.
  abbrev pub deliver : List Text → List (Option Text)
  deliver [] = []
  deliver (key ∷ keys) = some key ∷ deliver keys

  Grows : List QueueCall → List QueueCall → Type 0
  Grows before after = (later : List QueueCall) × (after ≡ later ++ before)

  Requeue-Grows :
      {before after : List QueueCall} {error : Option Error}
      → Requeue before after error
      → Grows before after
  unfolding Grows
  Requeue-Grows (no_requeue e) = ([], e)
  Requeue-Grows (one_later key nanos e) = (add_after key nanos ∷ [], e)

  process_next_work_item-Grows :
      (key : Text) (st : ControllerState W)
      → Grows st.queue (process_next_work_item k h c (some key) st).1.queue
  unfolding process_next_work_item Grows
  process_next_work_item-Grows key st =
      let (later, e) = Requeue-Grows (sync-Requeue key st) in
      let call = settle_key k h c key (sync k h c key st).0 in
      (done key ∷ (call ∷ later), ap (λ (l : List QueueCall). done key ∷ (call ∷ l)) e)

  worker-Grows :
      (answers : List (Option Text)) (st : ControllerState W)
      → Grows st.queue (worker k h c answers st).queue
  unfolding worker process_next_work_item Grows
  worker-Grows [] st = ([], refl)
  worker-Grows (none ∷ answers) st = ([], refl)
  worker-Grows (some key ∷ answers) st =
      let next = (process_next_work_item k h c (some key) st).1 in
      let (first, p) = process_next_work_item-Grows key st in
      let (rest, q) = worker-Grows answers next in
      (
        rest ++ first,
        q ∙ ap (λ (l : List QueueCall). rest ++ l) p ∙ sym (append_assoc rest first st.queue),
      )

  worker-append :
      (keys : List Text) (rest : List (Option Text)) (st : ControllerState W)
      → worker k h c (deliver keys ++ rest) st ≡ worker k h c rest (worker k h c (deliver keys) st)
  unfolding worker process_next_work_item
  worker-append [] rest st = refl
  worker-append (key ∷ keys) rest st = worker-append keys rest _

  -- Whatever the syncs of the others do, a worker settles every key that Get delivers to it, as the
  -- error of the key's own sync says, in the state that the keys before it left; and from the shutdown
  -- on it does nothing more.
  pub worker-IsHandled :
      (keys : List Text) (key : Text) (rest : List (Option Text)) (st : ControllerState W)
      → let before = worker k h c (deliver keys) st in
        IsHandled key before (worker k h c (deliver keys ++ (some key ∷ rest)) st).queue
        × (worker k h c (deliver keys ++ (none ∷ rest)) st ≡ before)
  unfolding worker process_next_work_item Grows
  worker-IsHandled keys key rest st =
      let before = worker k h c (deliver keys) st in
      let next = (process_next_work_item k h c (some key) before).1 in
      let (later, e) = worker-Grows rest next in
      (
        record {
          own = next.queue;
          settled = (process_next_work_item-IsSettled key before).1;
          later = later;
          grown =
              ap (λ (s : ControllerState W). s.queue) (worker-append keys (some key ∷ rest) st) ∙ e;
        },
        worker-append keys (none ∷ rest) st,
      )
