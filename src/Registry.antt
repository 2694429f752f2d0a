-- ===== src/Registry.antt =====
-- light-client/src/lib.rs: the registration of the client, and the trait object that is registered;
-- tests/enclave/src/lib.rs: the registry of an enclave.
pub mod Serves
use ethereum_elc.Base.{ℕ, String, Option, some, List, Outcome, Result, success, expect, ◌>>=◌, ◌≡◌}
use ethereum_elc.External.{Crates}
use ethereum_elc.ClientState.{ethereum_client_state_type_url}
use ethereum_elc.Services.{
  Services, HostClientReader, CreateClientResult, VerifyMembershipResult, VerifyNonMembershipResult,
}
use ethereum_elc.Client.{ethereum_client_type, client_latest_height, create_client}
use ethereum_elc.Client.Update.{update_client}
use ethereum_elc.Client.Membership.{verify_membership, verify_non_membership}

module _ ⦃C : Crates⦄ where
  open C use {Any, ClientId, Height, LcError, UpdateClientResult}

  -- The trait `light_client::LightClient`.
  pub record LightClient : Type 0 where
    pub client_type : String
    pub latest_height : HostClientReader → ClientId → Outcome LcError Height
    pub create_client : HostClientReader → Any → Any → Outcome LcError CreateClientResult
    pub update_client : HostClientReader → ClientId → Any → Outcome LcError UpdateClientResult
    pub verify_membership :
        HostClientReader
        → ClientId
        → (prefix : List ℕ) → (path : String) → (value : List ℕ) → Height
        → (proof : List ℕ) → Outcome LcError VerifyMembershipResult
    pub verify_non_membership :
        HostClientReader
        → ClientId
        → (prefix : List ℕ) → (path : String) → Height
        → (proof : List ℕ) → Outcome LcError VerifyNonMembershipResult

  -- The trait `light_client::LightClientRegistry`, with the look-up by which the framework finds
  -- what was put.
  pub record LightClientRegistry (R : Type 0) : Type 0 where
    pub put_light_client : String → LightClient → R → Result LcError R
    pub get_light_client : String → R → Option LightClient
    pub get-put :
        (url : String) (lc : LightClient) (r s : R)
        → put_light_client url lc r ≡ success s
        → get_light_client url s ≡ some lc

  -- `enclave_runtime` and `tendermint_lc`, as far as an enclave uses them to fill its registry. A
  -- sealed registry answers as it did before.
  pub record EnclaveRuntime (R : Type 0) (registry : LightClientRegistry R) : Type 0 where
    pub new_registry : R
    pub tendermint_register_implementations : R → Outcome LcError R
    pub seal : R → Result LcError R
    pub get-seal :
        (url : String) (r s : R)
        → seal r ≡ success s
        → registry.get_light_client url s ≡ registry.get_light_client url r

  -- `EthereumLightClient::client_type`
  unfoldable pub client_type : String
  client_type = ethereum_client_type

  module _ ⦃S : Services⦄ where
    -- `impl LightClient for EthereumLightClient`
    unfoldable pub ethereum_light_client : LightClient
    unfolding client_type
    ethereum_light_client = record {
      client_type = client_type;
      latest_height = client_latest_height;
      create_client = λ _ any_client_state any_consensus_state.
          create_client any_client_state any_consensus_state;
      update_client = update_client;
      verify_membership = verify_membership;
      verify_non_membership = verify_non_membership;
    }

    unfoldable pub register_implementations :
        {R : Type 0} → LightClientRegistry R → R → Outcome LcError R
    unfolding ethereum_light_client
    register_implementations registry r =
        expect (registry.put_light_client ethereum_client_state_type_url ethereum_light_client r)

    -- `build_lc_registry` of tests/enclave/src/lib.rs
    unfoldable pub build_lc_registry :
        {R : Type 0} (registry : LightClientRegistry R)
        → EnclaveRuntime R registry
        → Outcome LcError R
    build_lc_registry registry runtime = do
      with_tendermint ← runtime.tendermint_register_implementations runtime.new_registry
      with_ethereum ← register_implementations registry with_tendermint
      expect (runtime.seal with_ethereum)
