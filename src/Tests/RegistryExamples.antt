-- ===== src/Tests/RegistryExamples.antt =====
-- The theorem on the registration of the client, in a registry that keeps what was put last.
use ethereum_elc.Base.{
  ◌≡◌, inr, str_eq, eq_iff, refl, arith, Option, Result, none, some, String, ok, success,
  if◌then◌else◌,
}
use ethereum_elc.ClientState.{ethereum_client_state_type_url}
use ethereum_elc.Registry.{
  EnclaveRuntime, build_lc_registry, LightClient, LightClientRegistry, ethereum_light_client,
  register_implementations,
}
use ethereum_elc.Registry.Serves.{build_lc_registry-serves}
use ethereum_elc.Tests.Instances.{local_crates}
use ethereum_elc.Tests.Handlers.{local_services}
use ethereum_elc.Tests.Lawful.{local-IsLawful}
use ethereum_elc.Tests.States.{client, written, client_reads}

abbrev Registered : Type 0
Registered = String → Option LightClient

abbrev put : String → LightClient → Registered → Registered
put url lc r other = if str_eq other url then some lc else r other

abbrev stored : Registered → Result String Registered
stored r = success r

pub found_again :
    (url : String) (lc : LightClient) (r s : Registered)
    → stored (put url lc r) ≡ success s
    → s url ≡ some lc
found_again url lc r s e = ground (arith, e, (eq_iff url url).1 refl)

pub sealed : (url : String) (r s : Registered) → stored r ≡ success s → s url ≡ r url
sealed url r s e = ground (arith, e)

abbrev local_registry : LightClientRegistry Registered
local_registry = record {
  put_light_client = λ url lc r. stored (put url lc r);
  get_light_client = λ url r. r url;
  get-put = λ url lc r s e. found_again url lc r s e;
}

abbrev nothing : Registered
nothing _ = none

abbrev registered : Registered
registered other =
    if str_eq other ethereum_client_state_type_url then some ethereum_light_client else none

registration_runs : register_implementations local_registry nothing ≡ ok registered
unfolding register_implementations
registration_runs = refl

abbrev local_runtime : EnclaveRuntime Registered local_registry
local_runtime = record {
  new_registry = nothing;
  tendermint_register_implementations = λ r. ok r;
  seal = λ r. stored r;
  get-seal = λ url r s e. sealed url r s e;
}

runtime_runs : build_lc_registry local_registry local_runtime ≡ ok registered
unfolding build_lc_registry register_implementations
runtime_runs = refl

build_lc_registry-serves_example :
    local_registry.get_light_client (written client).type_url registered
    ≡ some ethereum_light_client
build_lc_registry-serves_example =
    build_lc_registry-serves local-IsLawful local_registry local_runtime registered client
      (written client) runtime_runs (inr client_reads)
