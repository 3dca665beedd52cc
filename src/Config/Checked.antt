-- ===== src/Config/Checked.antt =====
-- What hobo/config.py lets through.
use mathlib.Core.Path.{subst}
use hobo.Prelude.{
  String, true, ◌≡◌, sym, ap, ◌∙◌, inl, inr, Bool-cases, str_eq, eq_iff, ◌&&◌, not, Result, ok, err,
  key_error, bind-eq-ok, ok-injective, ◌>>=◌,
}
use hobo.Prelude.Data
use hobo.Prelude.Data.{Data, null, boolean, int, float, text, array, object, item}
use hobo.Core.Ingestor.{member}
use hobo.Config.{
  Platform, ExchangeConfig, has_credentials, Config, valid_backends, exchange_from_raw,
  backend_from_raw, durability_from_raw, replica_default, config_errors, app_home, data_dir,
  metrics_port_from_raw, sections, from_toml, valid_backend,
}
use hobo.Config.Environment.{Environ, variable}

-- The secrets are those of the environment.
abbrev pub HasSecretsOf : {F : Type 0} → Environ → ExchangeConfig F → Type 0
HasSecretsOf environ c =
    (c.api_key ≡ variable environ "EXCHANGE_API_KEY")
    × (c.api_secret ≡ variable environ "EXCHANGE_API_SECRET")
    × (c.api_passphrase ≡ variable environ "EXCHANGE_API_PASSPHRASE")

module _ {F : Type 0} where
  exchange_from_raw-secrets :
      (raw : Data F) (environ : Environ) (c : ExchangeConfig F)
      → exchange_from_raw raw environ ≡ ok c
      → HasSecretsOf environ c
  unfolding exchange_from_raw
  exchange_from_raw-secrets raw environ c h =
      let (name, _, h₁) = bind-eq-ok (item raw "name") _ h in
      let (ws_url, _, h₂) = bind-eq-ok (item raw "ws_url") _ h₁ in
      let (ws_private_url, _, h₃) = bind-eq-ok (item raw "ws_private_url") _ h₂ in
      let (rest_url, _, h₄) = bind-eq-ok (item raw "rest_url") _ h₃ in
      let (instrument_ids, _, h₅) = bind-eq-ok (item raw "instruments") _ h₄ in
      let (demo_trading, _, h₆) = bind-eq-ok (Data.get raw "demo_trading") _ h₅ in
      let same = sym (ok-injective h₆) in
      (
        ap (λ (e : ExchangeConfig F). e.api_key) same,
        ap (λ (e : ExchangeConfig F). e.api_secret) same,
        ap (λ (e : ExchangeConfig F). e.api_passphrase) same,
      )

  valid_backend-valid :
      (v : Data F) (b : String) → valid_backend v ≡ ok b → member b valid_backends ≡ true
  valid_backend-valid (text backend) b h = elim (Bool-cases (member backend valid_backends)) [
    | inl e ↦ ap (λ k. member k valid_backends) (sym (ok-injective (rw e at h))) ∙ e
    | inr e ↦ cc (rw e at h)
  ]
  valid_backend-valid null b h = cc
  valid_backend-valid (boolean c) b h = cc
  valid_backend-valid (int k) b h = cc
  valid_backend-valid (float x) b h = cc
  valid_backend-valid (array items) b h = cc
  valid_backend-valid (object fields) b h = cc

  backend_from_raw-valid :
      (raw : Data F) (b : String) → backend_from_raw raw ≡ ok b → member b valid_backends ≡ true
  unfolding backend_from_raw
  backend_from_raw-valid raw b h =
      let (v, _, h₁) = bind-eq-ok (item raw "backend") valid_backend h in valid_backend-valid v b h₁

config_errors-ok : {A : Type 0} (r : Result A) (a : A) → config_errors r ≡ ok a → r ≡ ok a
config_errors-ok (ok b) a h = h
config_errors-ok (err key_error) a h = cc
config_errors-ok (err e) a h = cc

module _ {F : Type 0} (platform : Platform F) where
  -- What holds of every configuration that is let through.
  pub record IsSafe (environ : Environ) (c : Config F) : Type 0 where
    pub known_backend : member c.backend valid_backends ≡ true
    pub secrets : HasSecretsOf environ c.exchange
    pub armed : c.backend ≡ "exchange" → has_credentials c.exchange ≡ true

  sections-secrets :
      (raw : Data F) (environ : Environ) (c : Config F)
      → sections platform raw environ ≡ ok c
      → (member c.backend valid_backends ≡ true) × HasSecretsOf environ c.exchange
  unfolding sections
  sections-secrets raw environ c h =
      let (exchange, e, h₁) =
        bind-eq-ok (item raw "exchange" >>= λ r. exchange_from_raw r environ) _ h in
      let (section, _, e₁) = bind-eq-ok (item raw "exchange") _ e in
      let (rate, _, h₂) =
        bind-eq-ok (item raw "risk" >>= λ r. item r "maintenance_margin_rate") _ h₁ in
      let (backend, b, h₃) = bind-eq-ok (item raw "execution" >>= backend_from_raw) _ h₂ in
      let (execution, _, b₁) = bind-eq-ok (item raw "execution") _ b in
      let (durability, _, h₄) =
        bind-eq-ok
          (item raw "durability" >>= λ r.
            durability_from_raw r (app_home platform environ) (data_dir platform environ))
          _ h₃ in
      let (port, _, h₅) =
        bind-eq-ok (item raw "coldpath" >>= λ r. metrics_port_from_raw platform r environ) _ h₄ in
      let (mode, _, h₆) = bind-eq-ok (replica_default raw) _ h₅ in
      let same = ok-injective h₆ in
      (
        subst (λ (d : Config F). member d.backend valid_backends ≡ true) same
            (backend_from_raw-valid execution backend b₁),
        subst (λ (d : Config F). HasSecretsOf environ d.exchange) same
            (exchange_from_raw-secrets section environ exchange e₁),
      )

  -- No unsafe configuration is let through: where `from_toml` returns one, its backend is a valid one,
  -- the three secrets are the variables of the environment (or empty), whatever the file says, and
  -- none of them is empty where the backend is the exchange.
  pub from_toml-IsSafe :
      (raw : Data F) (environ : Environ) (c : Config F)
      → from_toml platform raw environ ≡ ok c
      → IsSafe environ c
  unfolding from_toml
  from_toml-IsSafe raw environ c h =
      let (d, r, h₁) = bind-eq-ok (config_errors (sections platform raw environ)) _ h in
      let (known, secret) = sections-secrets raw environ d (config_errors-ok _ d r) in
      elim (Bool-cases (str_eq d.backend "exchange" && not (has_credentials d.exchange))) [
        | inl e ↦ cc (rw e at h₁)
        | inr e ↦ subst (IsSafe environ) (ok-injective (rw e at h₁)) (record {
          known_backend = known;
          secrets = secret;
          armed = λ exchange.
              let named = (eq_iff d.backend "exchange").1 exchange in
              elim (Bool-cases (has_credentials d.exchange)) [
                | inl full ↦ full
                | inr empty ↦ cc (rw (named, empty) at e)
              ];
        })
      ]
