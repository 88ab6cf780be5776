-- ===== src/Certificates/Steps.antt =====
-- EnsureCertificate, call by call.
use xstatefulset.Base.{
  ℕ, zero, suc, ◌≡◌, refl, inl, inr, not, Option, none, some, List, ◌∷◌, Text, if◌then◌else◌,
  Bool-cases, Option-cases,
}
use xstatefulset.Api.{
  Error, wrapped, is_not_found, is_already_exists, Result, ok, err, Result-cases,
}
use xstatefulset.Certificates.{
  CertBundle, SecretData, SecretClient, to_secret, ca_bundle, fetch, create_secret, generate_secret,
  ensure_certificate,
}

-- Where a run of EnsureCertificate stands between its calls.
pub data Phase : Type 0 where
  looking generating fetching : Phase
  creating : CertBundle → Phase
  finished : Result Text → Phase

module _ {W : Type 0} (c : SecretClient W) (dns_names : List Text) where
  abbrev pub looked : Result SecretData → Phase
  looked (ok entries) = finished (ca_bundle entries)
  looked (err e) = if not (is_not_found e) then finished (err (wrapped e)) else generating

  abbrev pub generated : Result CertBundle → Phase
  generated (ok bundle) = creating bundle
  generated (err e) = finished (err (wrapped e))

  abbrev pub created : CertBundle → Option Error → Phase
  created bundle none = finished (ok bundle.ca_pem)
  created bundle (some e) = if is_already_exists e then fetching else finished (err (wrapped e))

  abbrev pub fetched : Result SecretData → Phase
  fetched (ok entries) = finished (ca_bundle entries)
  fetched (err e) = finished (err (wrapped e))

  -- One call of EnsureCertificate.
  unfoldable pub step : Phase → W → Phase × W
  step looking world = let (r, after) = c.get world in (looked r, after)
  step generating world = let (r, after) = c.generate dns_names world in (generated r, after)
  step (creating b) world = let (r, after) = c.create (to_secret b) world in (created b r, after)
  step fetching world = let (r, after) = c.get world in (fetched r, after)
  step (finished r) world = (finished r, world)

  abbrev pub steps : ℕ → Phase × W → Phase × W
  steps zero s = s
  steps (suc n) s = steps n (step s.0 s.1)

  fetch-steps : (w : W) → step fetching w ≡ (finished (fetch c w).0, (fetch c w).1)
  unfolding step fetch
  fetch-steps w = elim (Result-cases (c.get w).0) [
    | inl (entries, q) ↦ rw (q, step, fetch) refl
    | inr (e, q) ↦ rw (q, step, fetch) refl
  ]

  create_secret-steps :
      (b : CertBundle) (w : W)
      → steps 2 (creating b, w) ≡ (finished (create_secret c b w).0, (create_secret c b w).1)
  unfolding step create_secret fetch
  create_secret-steps b w = elim (Option-cases (c.create (to_secret b) w).0) [
    | inl q ↦ rw (q, step, create_secret) refl
    | inr (e, q) ↦ elim (Bool-cases (is_already_exists e)) [
      | inl x ↦ rw (q, x, step, create_secret) (fetch-steps (c.create (to_secret b) w).1)
      | inr x ↦ rw (q, x, step, create_secret) refl
    ]
  ]

  generate_secret-steps :
      (w : W)
      → steps 3 (generating, w)
        ≡ (finished (generate_secret c dns_names w).0, (generate_secret c dns_names w).1)
  unfolding step generate_secret create_secret
  generate_secret-steps w = elim (Result-cases (c.generate dns_names w).0) [
    | inr (e, q) ↦ rw (q, step, generate_secret) refl
    | inl (b, q) ↦ rw (q, step, generate_secret) (create_secret-steps b (c.generate dns_names w).1)
  ]

-- Four calls, made one after the other, are a run of EnsureCertificate.
pub ensure_certificate-steps :
    {W : Type 0} (c : SecretClient W) (name : Text) (names : List Text) (w : W)
    → steps c (name ∷ names) 4 (looking, w) ≡ (
      finished (ensure_certificate c (name ∷ names) w).0,
      (ensure_certificate c (name ∷ names) w).1,
    )
unfolding step ensure_certificate
ensure_certificate-steps c name names w = elim (Result-cases (c.get w).0) [
  | inl (entries, q) ↦ rw (q, step, ensure_certificate) refl
  | inr (e, q) ↦ elim (Bool-cases (is_not_found e)) [
    | inl x ↦
        rw (q, x, step, ensure_certificate) (generate_secret-steps c (name ∷ names) (c.get w).1)
    | inr x ↦ rw (q, x, step, ensure_certificate) refl
  ]
]
