-- ===== src/Testpmd/Command.antt =====
-- The command line of testpmd.
use kubevirt_dpdk_checkup.Base.{Bytes, codes, ◌++◌}

-- `buildTestpmdCmd`.
unfoldable pub build_testpmd_cmd : Bytes → Bytes → Bytes → Bytes → Bytes
build_testpmd_cmd vmi_east_nic_pci_address vmi_west_nic_pci_address east_eth_peer_mac_address
      west_eth_peer_mac_address =
    codes "dpdk-testpmd --lcores 0@2-3,1@4,2@5,3@6,4@7 -a "
    ++ (vmi_east_nic_pci_address
        ++ (codes " -a "
            ++ (vmi_west_nic_pci_address
                ++ (codes
                      " --socket-mem 1024 --huge-dir /mnt/huge -- -i --nb-cores=4 --rxd=2048 --txd=2048 "
                    ++ (codes "--rxq=4 --txq=4 --forward-mode=mac --eth-peer=0,"
                        ++ (east_eth_peer_mac_address
                            ++ (codes " --eth-peer=1," ++ west_eth_peer_mac_address)))))))
