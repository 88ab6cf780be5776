-- ===== src/Certificates.antt =====
-- The certificate of the webhook server (pkg/webhook/cert/secret.go): the secret that all the replicas
-- of the manager share, and the CA bundles of the webhook configurations. The clients are parameters.
pub mod Generator
pub mod Steps
pub mod Race
pub mod Bundles
use xstatefulset.Base.{
  Bool, true, false, not, ◌||◌, Option, none, some, List, [], ◌∷◌, Text, codes, lookup,
  if◌then◌else◌,
}
use xstatefulset.Api.{Error, message, wrapped, is_not_found, is_already_exists, Result, ok, err}

abbrev pub tls_cert_key : Text
tls_cert_key = codes "tls.crt"

abbrev pub tls_key_key : Text
tls_key_key = codes "tls.key"

abbrev pub ca_key : Text
ca_key = codes "ca.crt"

pub record CertBundle : Type 0 where
  pub cert_pem : Text
  pub key_pem : Text
  pub ca_pem : Text

-- A secret's data; none is a nil map, which reads as an empty one.
abbrev pub SecretData : Type 0
SecretData = Option (List (Text × Text))

abbrev pub read : Text → SecretData → Option Text
read key none = none
read key (some entries) = lookup key entries

abbrev pub is_empty : Text → Bool
is_empty [] = true
is_empty (_ ∷ _) = false

-- The secret of one namespace and name at the API server, and GenerateSelfSignedCertificate.
pub record SecretClient (W : Type 0) : Type 0 where
  pub get : W → Result SecretData × W
  pub create : SecretData → W → Option Error × W
  pub generate : List Text → W → Result CertBundle × W

abbrev pub to_secret : CertBundle → SecretData
to_secret b =
    some ((tls_cert_key, b.cert_pem) ∷ ((tls_key_key, b.key_pem) ∷ ((ca_key, b.ca_pem) ∷ [])))

abbrev pub ca_bundle : SecretData → Result Text
ca_bundle entries = elim (read ca_key entries) [ none ↦ err message | some ca ↦ ok ca ]

module _ {W : Type 0} (c : SecretClient W) where
  -- Another replica created the secret.
  unfoldable pub fetch : W → Result Text × W
  fetch world =
      let (found, after) = c.get world in
      elim found [ err e ↦ (err (wrapped e), after) | ok entries ↦ (ca_bundle entries, after) ]

  unfoldable pub create_secret : CertBundle → W → Result Text × W
  unfolding fetch
  create_secret bundle world =
      let (error, after) = c.create (to_secret bundle) world in
      let late = fetch after in
      elim error [
        | none ↦ (ok bundle.ca_pem, after)
        | some e ↦ if is_already_exists e then late else (err (wrapped e), after)
      ]

  unfoldable pub generate_secret : List Text → W → Result Text × W
  unfolding create_secret
  generate_secret dns_names world =
      let (generated, after) = c.generate dns_names world in
      elim generated [ err e ↦ (err (wrapped e), after) | ok bundle ↦ create_secret bundle after ]

  unfoldable pub ensure_certificate : List Text → W → Result Text × W
  unfolding generate_secret
  ensure_certificate [] world = (err message, world)
  ensure_certificate (name ∷ names) world =
      let (found, after) = c.get world in
      let fresh = generate_secret (name ∷ names) after in
      elim found [
        | ok entries ↦ (ca_bundle entries, after)
        | err e ↦ if not (is_not_found e) then (err (wrapped e), after) else fresh
      ]

  abbrev pub text_or_empty : Option Text → Text
  text_or_empty none = []
  text_or_empty (some t) = t

  unfoldable pub load_cert_bundle_from_secret : W → Result (Option CertBundle) × W
  load_cert_bundle_from_secret world =
      let (found, after) = c.get world in
      elim found [
        | err e ↦ (if is_not_found e then ok none else err e, after)
        | ok none ↦ (ok none, after)
        | ok (some entries) ↦ (
          ok (
              some (record {
                cert_pem = text_or_empty (lookup tls_cert_key entries);
                key_pem = text_or_empty (lookup tls_key_key entries);
                ca_pem = text_or_empty (lookup ca_key entries);
              })),
          after,
        )
      ]
