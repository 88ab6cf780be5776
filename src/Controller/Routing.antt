-- ===== src/Controller/Routing.antt =====
-- Which sets a pod event brings into the queue.
use xstatefulset.Base.{
  Text, ◌≡◌, refl, ap, subst, ◌∙◌, inl, inr, true, Option, none, some, List, [], ◌∷◌, arith,
  Bool-cases, In, text_eq,
}
use xstatefulset.Api.{ok, Result-cases, ObjectMeta, OwnerReference, XStatefulSet, controller_kind}
use xstatefulset.Controller.{
  QueueCall, add, Cluster, ControllerState, resolve_controller_ref, enqueue_stateful_set,
  enqueue_all,
}
use xstatefulset.Controller.Handlers.{enqueue_owner}

module _ {W : Type 0} (k : Cluster W) where
  -- A reference names a set: the kind is right, and the set of that name has its UID.
  pub record Names (namespace : Text) (ref : OwnerReference) (world : W) (set : XStatefulSet)
      : Type 0 where
    pub kind : text_eq ref.kind controller_kind.kind ≡ true
    pub found : k.get_set namespace ref.name world ≡ ok set
    pub uid : text_eq set.meta.uid ref.uid ≡ true

  ok_inj : {a b : XStatefulSet} → some a ≡ some b → a ≡ b
  ok_inj e = cc

  pub Names-resolve_controller_ref :
      (namespace : Text) (ref : OwnerReference) (world : W) (set : XStatefulSet)
      → Names namespace ref world set
      → resolve_controller_ref k namespace ref world ≡ some set
  unfolding resolve_controller_ref
  Names-resolve_controller_ref namespace ref world set n =
      rw (n.kind, n.found, n.uid, resolve_controller_ref) refl

  -- resolveControllerRef gives the set that the reference names, by kind, name and UID, and no other.
  pub resolve_controller_ref-Names :
      (namespace : Text) (ref : OwnerReference) (world : W) (set : XStatefulSet)
      → (Names namespace ref world set → resolve_controller_ref k namespace ref world ≡ some set)
        × (resolve_controller_ref k namespace ref world ≡ some set → Names namespace ref world set)
  unfolding resolve_controller_ref
  resolve_controller_ref-Names namespace ref world set = (
    Names-resolve_controller_ref namespace ref world set,
    λ e. elim (Bool-cases (text_eq ref.kind controller_kind.kind)) [
      | inr x ↦ absurd (ground (arith, e, x))
      | inl x ↦ elim (Result-cases (k.get_set namespace ref.name world)) [
        | inr (f, q) ↦ absurd (ground (arith, e, x, q))
        | inl (s, q) ↦ elim (Bool-cases (text_eq s.meta.uid ref.uid)) [
          | inr y ↦ absurd (ground (arith, e, x, q, y))
          | inl y ↦
              let same : s ≡ set = ground (arith, e, x, q, y) in
              record {
                kind = x;
                found = q ∙ ap (λ (a : XStatefulSet). ok a) same;
                uid = subst (λ (a : XStatefulSet). text_eq a.meta.uid ref.uid ≡ true) same y;
              }
        ]
      ]
    ],
  )

  abbrev pub Has : QueueCall → ControllerState W → Type 0
  Has call st = In call st.queue

  pub enqueue_stateful_set-adds :
      (set : XStatefulSet) (key : Text) (st : ControllerState W)
      → k.key_of set.meta ≡ ok key
      → Has (add key) (enqueue_stateful_set k set.meta st)
  unfolding enqueue_stateful_set
  enqueue_stateful_set-adds set key st e = rw (e, enqueue_stateful_set) (In.here refl)

  pub enqueue_stateful_set-keeps :
      (obj : ObjectMeta) (call : QueueCall) (st : ControllerState W)
      → Has call st
      → Has call (enqueue_stateful_set k obj st)
  unfolding enqueue_stateful_set
  enqueue_stateful_set-keeps obj call st i = elim (Result-cases (k.key_of obj)) [
    | inl (key, q) ↦ rw (q, enqueue_stateful_set) (In.there i)
    | inr (e, q) ↦ rw (q, enqueue_stateful_set) i
  ]

  pub enqueue_all-keeps :
      (sets : List XStatefulSet) (call : QueueCall) (st : ControllerState W)
      → Has call st
      → Has call (enqueue_all k sets st)
  unfolding enqueue_all
  enqueue_all-keeps [] call st i = i
  enqueue_all-keeps (set ∷ sets) call st i =
      enqueue_all-keeps sets call _ (enqueue_stateful_set-keeps set.meta call st i)

  pub enqueue_all-adds :
      (sets : List XStatefulSet) (set : XStatefulSet) (key : Text) (st : ControllerState W)
      → In set sets
      → k.key_of set.meta ≡ ok key
      → Has (add key) (enqueue_all k sets st)
  unfolding enqueue_all
  enqueue_all-adds [] set key st x q = elim x [ ]
  enqueue_all-adds (s ∷ sets) set key st (In.here e) q = enqueue_all-keeps sets (add key) _ (
      subst (λ (a : XStatefulSet). Has (add key) (enqueue_stateful_set k a.meta st)) e
        (enqueue_stateful_set-adds set key st q))
  enqueue_all-adds (s ∷ sets) set key st (In.there i) q = enqueue_all-adds sets set key _ i q

  pub enqueue_owner-adds :
      (namespace : Text) (ref : OwnerReference) (set : XStatefulSet) (key : Text)
      (st : ControllerState W)
      → Names namespace ref st.env.world set
      → k.key_of set.meta ≡ ok key
      → Has (add key) (enqueue_owner k namespace (some ref) st)
  unfolding enqueue_owner
  enqueue_owner-adds namespace ref set key st n e =
      rw (Names-resolve_controller_ref namespace ref st.env.world set n, enqueue_owner)
        (enqueue_stateful_set-adds set key st e)

  pub enqueue_owner-env :
      (namespace : Text) (ref : Option OwnerReference) (st : ControllerState W)
      → (enqueue_owner k namespace ref st).env ≡ st.env
  unfolding enqueue_owner enqueue_stateful_set
  enqueue_owner-env namespace none st = refl
  enqueue_owner-env namespace (some ref) st = ground arith
