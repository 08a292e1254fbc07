-- ===== src/Llm/Registry/Named.antt =====
-- A probe tells of the provider that was probed.
use web_search_api.Prelude.{String, ◌≡◌, refl, Option, arith}
use web_search_api.Core.Errors.{DomainError}
use web_search_api.Keyring.Caller.{Caller}
use web_search_api.Keyring.Client.{Credential, connected, not_connected, refused}
use web_search_api.Llm.Registry.{
  Listing, offered, raised, past_deadline, crashed, Provider, ModelRegistry, RegistryTools,
}
use web_search_api.Llm.Registry.Probing.{
  raised_probe, refused_probe, listing_probe, probe_with, probe_one, credential_for,
}

module _ (tools : RegistryTools) where
  raised_probe-name :
      (name : String) (e : DomainError) → (raised_probe tools name e).health.name ≡ name
  unfolding raised_probe
  raised_probe-name name e = ground arith

  refused_probe-name :
      (name : String) (e : DomainError) → (refused_probe tools name e).health.name ≡ name
  unfolding refused_probe
  refused_probe-name name e = ground arith

  listing_probe-name :
      (timeout name : String) (l : Listing)
      → (listing_probe tools timeout name l).health.name ≡ name
  unfolding listing_probe
  listing_probe-name timeout name (offered ms) = refl
  listing_probe-name timeout name (raised e) = raised_probe-name name e
  listing_probe-name timeout name past_deadline = refl
  listing_probe-name timeout name (crashed m) = refl

  probe_with-name :
      (r : ModelRegistry) (p : Provider) (c : Credential)
      → (probe_with tools r p c).health.name ≡ p.name
  unfolding probe_with
  probe_with-name r p not_connected = refl
  probe_with-name r p (refused e) = refused_probe-name p.name e
  probe_with-name r p (connected auth) =
      listing_probe-name r.probe_timeout p.name (p.list_models auth)

  pub probe_one-name :
      (r : ModelRegistry) (caller : Option Caller) (p : Provider)
      → (probe_one tools r caller p).health.name ≡ p.name
  unfolding probe_one
  probe_one-name r caller p =
      let named = probe_with-name r p (credential_for tools r.keyring p caller) in ground arith
