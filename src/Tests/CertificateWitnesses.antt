-- ===== src/Tests/CertificateWitnesses.antt =====
-- The theorems of the certificates at concrete inputs: an API server that is the secret, or the list
-- of the bundles, itself.
use xstatefulset.Base.{
  ℕ, ◌≡◌, refl, Option, none, some, List, [], ◌∷◌, Text, codes, text_eq, lookup,
}
use xstatefulset.Api.{Error, not_found, already_exists, Result, ok, err}
use xstatefulset.Certificates.{
  CertBundle, SecretData, SecretClient, read, ca_key, ensure_certificate,
}
use xstatefulset.Certificates.Steps.{looking, finished, step, steps}
use xstatefulset.Certificates.Race.{System, IsSecretStore, run, ensure_certificate-agrees}
use xstatefulset.Certificates.Bundles.{
  WebhookClient, IsConfigStore, IsFilled, fill, update_webhook_ca_bundle,
  update_webhook_ca_bundle-IsFilled,
}

abbrev bundle : CertBundle
bundle = record { cert_pem = codes "cert"; key_pem = codes "key"; ca_pem = codes "ca" }

abbrev show : Option SecretData → Result SecretData
show none = err not_found
show (some s) = ok s

abbrev refuse : SecretData → Option SecretData → Option Error × Option SecretData
refuse new none = (none, some new)
refuse new (some s) = (some already_exists, some s)

abbrev secrets : SecretClient (Option SecretData)
secrets = record { get = λ w. (show w, w); create = refuse; generate = λ _ w. (ok bundle, w) }

entries_shown : (w : Option SecretData) (s : SecretData) → show w ≡ ok s → w ≡ some s
entries_shown none s e = absurd (cc)
entries_shown (some t) s e = cc

refuse_keeps : (new s : SecretData) (w : Option SecretData) → w ≡ some s → (refuse new w).1 ≡ some s
refuse_keeps new s none e = absurd (cc)
refuse_keeps new s (some t) e = e

refuse_made :
    (new : SecretData) (w : Option SecretData)
    → (refuse new w).0 ≡ none
    → (refuse new w).1 ≡ some new
refuse_made new none e = refl
refuse_made new (some t) e = absurd (cc)

secret_store : IsSecretStore secrets (λ w. w)
secret_store = record {
  get_keeps = λ w s h. h;
  create_keeps = refuse_keeps;
  generate_keeps = λ names w s h. h;
  shown = entries_shown;
  made = refuse_made;
}

abbrev names : ℕ → List Text
names i = codes "webhook.svc" ∷ []

-- The second replica looks before the first one creates the secret.
abbrev schedule : List ℕ
schedule = 0 ∷ (1 ∷ (0 ∷ (1 ∷ (0 ∷ (1 ∷ (1 ∷ []))))))

abbrev ended : System secrets names (λ w. w) secret_store
ended =
    run secrets names (λ w. w) secret_store schedule (record { world = none; phase = λ _. looking })

first_ends : ended.phase 0 ≡ finished (ok (codes "ca"))
unfolding step
first_ends = refl

second_ends : ended.phase 1 ≡ finished (ok (codes "ca"))
unfolding step text_eq lookup
second_ends = refl

ensure_certificate-agrees_example :
    (codes "ca" ≡ codes "ca")
    × ((s : SecretData) × (ended.world ≡ some s) × (read ca_key s ≡ some (codes "ca")))
    × (steps secrets (codes "webhook.svc" ∷ []) 4 (looking, none) ≡ (
      finished (ensure_certificate secrets (codes "webhook.svc" ∷ []) none).0,
      (ensure_certificate secrets (codes "webhook.svc" ∷ []) none).1,
    ))
ensure_certificate-agrees_example =
    ensure_certificate-agrees secrets names (λ w. w) secret_store schedule none 0 1 (codes "ca")
      (codes "ca") (codes "webhook.svc") [] none first_ends second_ends

abbrev configs : WebhookClient (List Text)
configs = record { get = λ _ w. ok w; update = λ _ ws w. (none, ws) }

config_store : IsConfigStore configs (codes "hook") (codes "ca")
config_store = record { wrote = λ ws w e. refl }

abbrev hooks : List Text
hooks = [] ∷ (codes "own" ∷ [])

hooks_done : (update_webhook_ca_bundle configs (codes "hook") (codes "ca") hooks).0 ≡ none
unfolding update_webhook_ca_bundle fill
hooks_done = refl

update_webhook_ca_bundle-IsFilled_example :
    let after = (update_webhook_ca_bundle configs (codes "hook") (codes "ca") hooks).1 in
    (news : List Text) × (ok after ≡ ok news)
    × IsFilled configs (codes "hook") (codes "ca") hooks news
    × (update_webhook_ca_bundle configs (codes "hook") (codes "ca") after ≡ (none, after))
update_webhook_ca_bundle-IsFilled_example =
    update_webhook_ca_bundle-IsFilled configs (codes "hook") (codes "ca") config_store refl hooks
      hooks refl hooks_done
