-- ===== src/Cluster.antt =====
-- pkg/internal/client/client.go: the client of the cluster, which passes each call on to KubeVirt's
-- client, and the environment that it gives the checkup.
use kubevirt_dpdk_checkup.Base.{ℕ, Option, ◌⊎◌, inl, inr, List, Bytes}
use kubevirt_dpdk_checkup.Go.Error.{Error}
use kubevirt_dpdk_checkup.Go.Act.{Result, ok, err}
use kubevirt_dpdk_checkup.Go.Context.{Context}
use kubevirt_dpdk_checkup.Api.{Vmi, ConfigMap}
use kubevirt_dpdk_checkup.World.{Env, History, Batcher}

-- `kubecli.SerialConsoleOptions`, with the timeout in seconds.
pub record SerialConsoleOptions : Type 0 where
  pub connection_timeout : ℕ

-- `kubecli.VirtualMachineInstanceInterface`, as far as it is called. An answer may depend on all
-- earlier calls. The other options of the requests are empty.
pub record VirtualMachineInstances : Type 0 where
  pub create : History → Context → Vmi → Error ⊎ Vmi
  pub get : History → Context → Bytes → Error ⊎ Vmi
  pub delete : History → Context → Bytes → Option Error
  pub serial_console : History → Bytes → SerialConsoleOptions → Option Error

-- `ConfigMapInterface` of client-go.
pub record ConfigMaps : Type 0 where
  pub create : History → Context → ConfigMap → Error ⊎ ConfigMap
  pub delete : History → Context → Bytes → Option Error

-- `kubecli.KubevirtClient`: the interfaces of a namespace.
pub record KubevirtClient : Type 0 where
  pub virtual_machine_instance : Bytes → VirtualMachineInstances
  pub config_maps : Bytes → ConfigMaps

pub record Client : Type 0 where
  pub kubevirt_client : KubevirtClient

abbrev pub client_of : Error ⊎ KubevirtClient → Result Client
client_of (inl e) = err e
client_of (inr k) = ok (record { kubevirt_client = k })

abbrev pub connected : {K : Type 0} → (K → Error ⊎ KubevirtClient) → Error ⊎ K → Result Client
connected connect (inl e) = err e
connected connect (inr config) = client_of (connect config)

-- `New`, over the configuration in the cluster and the constructor of KubeVirt's client.
unfoldable pub new : {K : Type 0} → Error ⊎ K → (K → Error ⊎ KubevirtClient) → Result Client
new in_cluster_config connect = connected connect in_cluster_config

module _ (c : Client) where
  abbrev create_virtual_machine_instance : History → Context → Bytes → Vmi → Error ⊎ Vmi
  create_virtual_machine_instance h ctx namespace vmi =
      (c.kubevirt_client.virtual_machine_instance namespace).create h ctx vmi

  abbrev get_virtual_machine_instance : History → Context → Bytes → Bytes → Error ⊎ Vmi
  get_virtual_machine_instance h ctx namespace name =
      (c.kubevirt_client.virtual_machine_instance namespace).get h ctx name

  abbrev delete_virtual_machine_instance : History → Context → Bytes → Bytes → Option Error
  delete_virtual_machine_instance h ctx namespace name =
      (c.kubevirt_client.virtual_machine_instance namespace).delete h ctx name

  abbrev vmi_serial_console : History → Bytes → Bytes → ℕ → Option Error
  vmi_serial_console h namespace name timeout =
      (c.kubevirt_client.virtual_machine_instance namespace).serial_console h name
        (record { connection_timeout = timeout })

  abbrev create_config_map : History → Context → Bytes → ConfigMap → Error ⊎ ConfigMap
  create_config_map h ctx namespace config_map =
      (c.kubevirt_client.config_maps namespace).create h ctx config_map

  abbrev delete_config_map : History → Context → Bytes → Bytes → Option Error
  delete_config_map h ctx namespace name =
      (c.kubevirt_client.config_maps namespace).delete h ctx name

-- goexpect on the stream of a serial console.
pub record Consoles : Type 0 where
  pub spawn : History → Bytes → Option Error
  pub send_text : History → Bytes → Bytes → Option Error
  pub expect_batch : History → Bytes → List Batcher → ℕ → List Bytes × Option Error

-- The client where the checkup calls it through its interface, beside the consoles.
unfoldable pub env_of : Client → Consoles → Env
env_of c consoles = record {
  create_vmi = create_virtual_machine_instance c;
  get_vmi = get_virtual_machine_instance c;
  delete_vmi = delete_virtual_machine_instance c;
  create_config_map = create_config_map c;
  delete_config_map = delete_config_map c;
  serial_console = vmi_serial_console c;
  spawn = consoles.spawn;
  send_text = consoles.send_text;
  expect_batch = consoles.expect_batch;
}
