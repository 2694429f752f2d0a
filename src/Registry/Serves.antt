-- ===== src/Registry/Serves.antt =====
-- light-client/src/lib.rs and tests/enclave/src/lib.rs: which client states the registered client is
-- found for.
use ethereum_elc.Base.{◌≡◌, ◌⊎◌, inl, inr, some, ok, arith, eq_iff, >>=-eq-ok}
use ethereum_elc.External.{Crates}
use ethereum_elc.ClientState.{ClientState, ethereum_client_state_type_url}
use ethereum_elc.ClientState.Codec.{client_state_to_any, client_state_from_any}
use ethereum_elc.ClientState.Codec.RoundTrip.{client_state_to_any_parts}
use ethereum_elc.Laws.{IsLawful}
use ethereum_elc.Services.{Services}
use ethereum_elc.Registry.{
  LightClientRegistry, EnclaveRuntime, build_lc_registry, ethereum_light_client,
  register_implementations,
}

module _ ⦃C : Crates⦄ ⦃S : Services⦄ (L : IsLawful) {R : Type 0}
    (registry : LightClientRegistry R) where
  open C use {Any, LcError, any_into}

  registered_under :
      (r s : R)
      → register_implementations registry r ≡ ok s
      → registry.get_light_client ethereum_client_state_type_url s ≡ some ethereum_light_client
  unfolding register_implementations
  registered_under r s h =
      registry.get-put ethereum_client_state_type_url ethereum_light_client r s (ground arith)

  written_url :
      (client : ClientState) (any : Any)
      → client_state_to_any client ≡ ok any
      → (any_into any).type_url ≡ ethereum_client_state_type_url
  written_url client any written =
      let (bytes, _, e) = client_state_to_any_parts L client written in rw (e, L.any_into-any_from)

  read_url :
      (client : ClientState) (any : Any)
      → client_state_from_any any ≡ ok client
      → (any_into any).type_url ≡ ethereum_client_state_type_url
  unfolding client_state_from_any
  read_url client any read =
      ground (arith, eq_iff (any_into any).type_url ethereum_client_state_type_url)

  -- In any registry that finds what was put, after register_implementations has returned, looking
  -- up the type URL of any encoded client state that the client wrote, or that it can read, finds
  -- the Ethereum light client. This is for crates that keep the assumptions of Laws.
  pub register_implementations-serves :
      (r s : R) (client : ClientState) (any : Any)
      → register_implementations registry r ≡ ok s
      → (client_state_to_any client ≡ ok any) ⊎ (client_state_from_any any ≡ ok client)
      → registry.get_light_client (any_into any).type_url s ≡ some ethereum_light_client
  register_implementations-serves r s client any done (inl written) =
      rw (written_url client any written) (registered_under r s done)
  register_implementations-serves r s client any done (inr read) =
      rw (read_url client any read) (registered_under r s done)

  -- After the enclave has built and sealed its registry, with the Tendermint client registered
  -- before the Ethereum one, looking up the type URL of any encoded client state that the Ethereum
  -- client wrote, or that it can read, finds the Ethereum light client. This is for crates that
  -- keep the assumptions of Laws, a registry that finds what was put, and a seal that changes no
  -- answer.
  pub build_lc_registry-serves :
      (runtime : EnclaveRuntime R registry) (s : R) (client : ClientState) (any : Any)
      → build_lc_registry registry runtime ≡ ok s
      → (client_state_to_any client ≡ ok any) ⊎ (client_state_from_any any ≡ ok client)
      → registry.get_light_client (any_into any).type_url s ≡ some ethereum_light_client
  unfolding build_lc_registry
  build_lc_registry-serves runtime s client any built known =
      let (r, _, e) =
        >>=-eq-ok (runtime.tendermint_register_implementations runtime.new_registry) _ built in
      let (r', registered, e) = >>=-eq-ok (register_implementations registry r) _ e in
      rw (runtime.get-seal (any_into any).type_url r' s (ground arith))
        (register_implementations-serves r r' client any registered known)
