-- ===== src/Certificates/Race.antt =====
-- Replicas of the manager that run EnsureCertificate at the same time.
use xstatefulset.Base.{
  ℕ, ◌≡◌, sym, ap, ◌∙◌, inl, inr, Option, none, some, List, [], ◌∷◌, Text, lookup, text_eq, ◌==◌,
  if◌then◌else◌, arith, Bool-cases, Option-cases,
}
use xstatefulset.Api.{is_not_found, is_already_exists, Result, ok, Result-cases}
use xstatefulset.Certificates.{
  CertBundle, SecretData, read, ca_key, SecretClient, to_secret, ca_bundle, ensure_certificate,
}
use xstatefulset.Certificates.Steps.{
  Phase, looking, generating, fetching, creating, finished, looked, created, fetched, step, steps,
  ensure_certificate-steps,
}

-- What the API server keeps: a secret that is there stays as it is, whatever is called; one that is
-- shown, or whose creation gave no error, is there.
pub record IsSecretStore {W : Type 0} (c : SecretClient W) (stored : W → Option SecretData)
    : Type 0 where
  pub get_keeps : (w : W) (s : SecretData) → stored w ≡ some s → stored (c.get w).1 ≡ some s
  pub create_keeps :
      (new s : SecretData) (w : W) → stored w ≡ some s → stored (c.create new w).1 ≡ some s
  pub generate_keeps :
      (names : List Text) (w : W) (s : SecretData)
      → stored w ≡ some s
      → stored (c.generate names w).1 ≡ some s
  pub shown : (w : W) (s : SecretData) → (c.get w).0 ≡ ok s → stored (c.get w).1 ≡ some s
  pub made :
      (new : SecretData) (w : W) → (c.create new w).0 ≡ none → stored (c.create new w).1 ≡ some new

module _ {W : Type 0} (c : SecretClient W) (dns_names : ℕ → List Text)
    (stored : W → Option SecretData) (law : IsSecretStore c stored) where
  -- The replicas, by number, and the API server.
  pub record System : Type 0 where
    pub world : W
    pub phase : ℕ → Phase

  -- The replica i makes its next call.
  abbrev pub advance : ℕ → System → System
  advance i s =
      let (phase, world) = step c (dns_names i) (s.phase i) s.world in
      record { world = world; phase = λ j. if j == i then phase else s.phase j }

  abbrev pub run : List ℕ → System → System
  run [] s = s
  run (i ∷ is) s = run is (advance i s)

  -- A bundle that a replica ended with is that of the secret.
  abbrev Told : Phase → W → Type 0
  Told p w =
      (ca : Text)
      → p ≡ finished (ok ca)
      → (s : SecretData) × (stored w ≡ some s) × (read ca_key s ≡ some ca)

  abbrev IsTold : System → Type 0
  IsTold s = (i : ℕ) → Told (s.phase i) s.world

  step-keeps_secret :
      (names : List Text) (p : Phase) (w : W) (s : SecretData)
      → stored w ≡ some s
      → stored (step c names p w).1 ≡ some s
  unfolding step
  step-keeps_secret names looking w s h = law.get_keeps w s h
  step-keeps_secret names generating w s h = law.generate_keeps names w s h
  step-keeps_secret names fetching w s h = law.get_keeps w s h
  step-keeps_secret names (creating b) w s h = law.create_keeps (to_secret b) s w h
  step-keeps_secret names (finished r) w s h = h

  finished_inj : {a b : Result Text} → finished a ≡ finished b → a ≡ b
  finished_inj e = cc

  ok_inj : {a b : Text} → ok a ≡ ok b → a ≡ b
  ok_inj e = cc

  read_ca : (s : SecretData) (ca : Text) → ca_bundle s ≡ ok ca → read ca_key s ≡ some ca
  read_ca s ca e = elim (Option-cases (read ca_key s)) [
    | inl n ↦ absurd (ground (arith, e, n))
    | inr (x, q) ↦ q ∙ ap some (ground (arith, e, q))
  ]

  shown-Told :
      (w : W) (s : SecretData) (ca : Text)
      → (c.get w).0 ≡ ok s
      → finished (ca_bundle s) ≡ finished (ok ca)
      → (x : SecretData) × (stored (c.get w).1 ≡ some x) × (read ca_key x ≡ some ca)
  shown-Told w s ca q e = (s, law.shown w s q, read_ca s ca (finished_inj e))

  created-Told :
      (names : List Text) (b : CertBundle) (w : W)
      → Told (created c names b (c.create (to_secret b) w).0) (c.create (to_secret b) w).1
  unfolding lookup text_eq
  created-Told names b w ca e = elim (Option-cases (c.create (to_secret b) w).0) [
    | inl n ↦ (
      to_secret b,
      law.made (to_secret b) w n,
      ap some (ok_inj (finished_inj (sym (ap (created c names b) n) ∙ e))),
    )
    | inr (f, q) ↦ elim (Bool-cases (is_already_exists f)) [
      | inl x ↦ absurd (ground (arith, e, q, x))
      | inr x ↦ absurd (ground (arith, e, q, x))
    ]
  ]

  step-Told :
      (names : List Text) (p : Phase) (w : W)
      → Told p w
      → Told (step c names p w).0 (step c names p w).1
  unfolding step
  step-Told names looking w h = λ ca e. elim (Result-cases (c.get w).0) [
    | inl (s, q) ↦ shown-Told w s ca q (sym (ap (looked c names) q) ∙ e)
    | inr (f, q) ↦ elim (Bool-cases (is_not_found f)) [
      | inl x ↦ absurd (ground (arith, e, q, x))
      | inr x ↦ absurd (ground (arith, e, q, x))
    ]
  ]
  step-Told names generating w h = λ ca e. elim (Result-cases (c.generate names w).0) [
    | inl (b, q) ↦ absurd (ground (arith, e, q))
    | inr (f, q) ↦ absurd (ground (arith, e, q))
  ]
  step-Told names fetching w h = λ ca e. elim (Result-cases (c.get w).0) [
    | inl (s, q) ↦ shown-Told w s ca q (sym (ap (fetched c names) q) ∙ e)
    | inr (f, q) ↦ absurd (ground (arith, e, q))
  ]
  step-Told names (creating b) w h = created-Told names b w
  step-Told names (finished r) w h = h

  advance-IsTold : (i : ℕ) (s : System) → IsTold s → IsTold (advance i s)
  advance-IsTold i s h j = elim (Bool-cases (j == i)) [
    | inl x ↦ rw x (step-Told (dns_names i) (s.phase i) s.world (h i))
    | inr x ↦ rw x (λ ca e.
        let (secret, there, told) = h j ca e in
        (secret, step-keeps_secret (dns_names i) (s.phase i) s.world secret there, told))
  ]

  run-IsTold : (is : List ℕ) (s : System) → IsTold s → IsTold (run is s)
  run-IsTold [] s h = h
  run-IsTold (i ∷ is) s h = run-IsTold is (advance i s) (advance-IsTold i s h)

some_inj : {A : Type 0} {x y : A} → some x ≡ some y → x ≡ y
some_inj e = cc

same_read :
    {o : Option SecretData} (s t : SecretData) (a b : Text)
    → o ≡ some s
    → o ≡ some t
    → read ca_key s ≡ some a
    → read ca_key t ≡ some b
    → a ≡ b
same_read s t a b h k x y = some_inj (sym x ∙ ap (read ca_key) (some_inj (sym h ∙ k)) ∙ y)

-- Over an API server that keeps a secret once it is there: however the calls of any number of replicas
-- that run EnsureCertificate interleave, two that ended without an error ended with the same CA
-- bundle, that of the secret, which is there; and the four calls of one replica alone, from any world
-- and for at least one name, end as EnsureCertificate does.
pub ensure_certificate-agrees :
    {W : Type 0} (c : SecretClient W) (dns_names : ℕ → List Text) (stored : W → Option SecretData)
    (law : IsSecretStore c stored) (schedule : List ℕ) (world : W) (i j : ℕ) (a b : Text)
    (name : Text) (names : List Text) (w : W)
    → let after =
        run c dns_names stored law schedule (record { world = world; phase = λ _. looking }) in
      after.phase i ≡ finished (ok a)
      → after.phase j ≡ finished (ok b)
      → (a ≡ b)
        × ((s : SecretData) × (stored after.world ≡ some s) × (read ca_key s ≡ some a))
        × (steps c (name ∷ names) 4 (looking, w) ≡ (
          finished (ensure_certificate c (name ∷ names) w).0,
          (ensure_certificate c (name ∷ names) w).1,
        ))
ensure_certificate-agrees c dns_names stored law schedule world i j a b name names w p q =
    let start : System c dns_names stored law = record { world = world; phase = λ _. looking } in
    let told = run-IsTold c dns_names stored law schedule start (λ k ca e. absurd (cc)) in
    let (s, there, x) = told i a p in
    let (t, there_too, y) = told j b q in
    (same_read s t a b there there_too x y, (s, there, x), ensure_certificate-steps c name names w)
