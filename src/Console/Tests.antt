-- ===== src/Console/Tests.antt =====
-- Sessions on a concrete console.
use kubevirt_dpdk_checkup.Base.{◌≡◌, refl, none, ◌⊎◌, [], ◌∷◌, codes}
use kubevirt_dpdk_checkup.World.{Call, History}
use kubevirt_dpdk_checkup.Checkup.Samples.{cluster}
use kubevirt_dpdk_checkup.Console.{Expecter, safe_expect_batch_with_response}
use kubevirt_dpdk_checkup.Console.Batches.{script, echoed, safe_expect_batch_with_response-script}
use kubevirt_dpdk_checkup.Console.Login.{
  opened, logged_in_batch, Configured, login_to_centos_as_root, login_to_centos_as_root-Configured,
}

abbrev guest : Expecter
guest = record { vmi_namespace = codes "ns"; vmi_name = codes "vm" }

safe_expect_batch_with_response-script_example :
    safe_expect_batch_with_response cluster guest (script ((codes "ls\n", codes "# ") ∷ [])) 30 []
    ≡ (
      ([], none),
      Call.close (codes "vm")
          ∷ Call.expect_batch (codes "vm") (echoed ((codes "ls\n", codes "# ") ∷ [])) 30
          ∷ Call.spawn (codes "vm")
          ∷ Call.serial_console (codes "ns") (codes "vm") 30
          ∷ [],
    )
safe_expect_batch_with_response-script_example =
    safe_expect_batch_with_response-script cluster guest (codes "ls\n", codes "# ") [] 30 [] refl
      refl

login_to_centos_as_root-Configured_example :
    (k : History) × ((login_to_centos_as_root cluster guest (codes "redhat") []).1
      ≡ Call.close (codes "vm") ∷ k)
    × ((login_to_centos_as_root cluster guest (codes "redhat") []).0 ≡ none
        → ((cluster.expect_batch
              (Call.send_text (codes "vm") (codes "\n") ∷ opened guest [])
              (codes "vm")
              (logged_in_batch (codes "vm"))
              5).1
            ≡ none)
          ⊎ Configured cluster (codes "vm") k)
login_to_centos_as_root-Configured_example =
    login_to_centos_as_root-Configured cluster guest (codes "redhat") [] refl refl
