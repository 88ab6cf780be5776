-- ===== src/Certificates/Generator.antt =====
-- GenerateSelfSignedCertificate (pkg/webhook/cert/generator.go): a CA of its own, and the server's
-- certificate signed by it. crypto/rsa, crypto/x509, encoding/pem and the clock are parameters.
use xstatefulset.Base.{ℕ, Bool, true, false, List, [], ◌∷◌, Text, codes}
use xstatefulset.Api.{message, wrapped, Result, ok, err}
use xstatefulset.Certificates.{CertBundle}

pub data KeyUsage : Type 0 where
  digital_signature cert_sign key_encipherment : KeyUsage

-- The fields of x509.Certificate that are set.
pub record Template : Type 0 where
  pub serial_number : ℕ
  pub common_name : Text
  pub organization : List Text
  pub dns_names : List Text
  pub not_before : ℕ
  pub not_after : ℕ
  pub is_ca : Bool
  pub key_usage : List KeyUsage
  pub server_auth : Bool
  pub basic_constraints_valid : Bool

pub record Crypto (W Key : Type 0) : Type 0 where
  pub generate_key : W → Result Key × W
  pub create_certificate :
      (template parent : Template) → (subject signer : Key) → W → Result (List ℕ) × W
  pub encode : (type : Text) → List ℕ → Result Text
  pub marshal_key : Key → List ℕ
  pub now : W → ℕ × W
  pub add_years : ℕ → ℕ → ℕ

abbrev pub cert_validity_years : ℕ
cert_validity_years = 10

abbrev pub ca_template : (from until : ℕ) → Template
ca_template from until = record {
  serial_number = 1;
  common_name = codes "kthena-webhook-ca";
  organization = codes "Volcano" ∷ [];
  dns_names = [];
  not_before = from;
  not_after = until;
  is_ca = true;
  key_usage = digital_signature ∷ (cert_sign ∷ (key_encipherment ∷ []));
  server_auth = false;
  basic_constraints_valid = true;
}

abbrev pub server_template : (name : Text) → (names : List Text) → (from until : ℕ) → Template
server_template name names from until = record {
  serial_number = 2;
  common_name = name;
  organization = codes "Volcano" ∷ [];
  dns_names = name ∷ names;
  not_before = from;
  not_after = until;
  is_ca = false;
  key_usage = digital_signature ∷ (key_encipherment ∷ []);
  server_auth = true;
  basic_constraints_valid = false;
}

module _ {W Key : Type 0} (c : Crypto W Key) where
  -- `return nil, fmt.Errorf("...: %w", err)` after a call that fails.
  infixl 5 ◌>>=◌
  abbrev pub ◌>>=◌ : {A B : Type 0} → (W → Result A × W) → (A → W → Result B × W) → W → Result B × W
  ◌>>=◌ m f world =
      let (result, after) = m world in
      elim result [ err e ↦ (err (wrapped e), after) | ok a ↦ f a after ]

  abbrev pub encoded : Text → List ℕ → W → Result Text × W
  encoded type bytes world = (c.encode type bytes, world)

  -- The dates of a template, the clock read twice.
  abbrev pub dates : W → Result (ℕ × ℕ) × W
  dates world =
      let (from, mid) = c.now world in
      let (today, after) = c.now mid in (ok (from, c.add_years today cert_validity_years), after)

  unfoldable pub generate_self_signed_certificate : List Text → W → Result CertBundle × W
  generate_self_signed_certificate [] world = (err message, world)
  generate_self_signed_certificate (name ∷ names) world =
      (c.generate_key >>= λ ca_key. dates >>= λ ca_dates.
      let ca = ca_template ca_dates.0 ca_dates.1 in
      c.create_certificate ca ca ca_key ca_key >>= λ ca_der. c.generate_key >>= λ server_key.
      dates >>= λ server_dates.
      c.create_certificate (server_template name names server_dates.0 server_dates.1) ca server_key
        ca_key
      >>= λ server_der. encoded (codes "CERTIFICATE") ca_der >>= λ ca_pem.
          encoded (codes "CERTIFICATE") server_der >>= λ cert_pem.
          encoded (codes "RSA PRIVATE KEY") (c.marshal_key server_key) >>= λ key_pem.
          λ w. (ok (record { cert_pem = cert_pem; key_pem = key_pem; ca_pem = ca_pem }), w))
        world
