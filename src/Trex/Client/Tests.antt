-- ===== src/Trex/Client/Tests.antt =====
-- The wait for the TRex server at a console that answers.
use kubevirt_dpdk_checkup.Base.{◌≡◌, refl, true, none, [], ◌∷◌, Bytes, codes, pos}
use kubevirt_dpdk_checkup.Go.Act.{ok}
use kubevirt_dpdk_checkup.Go.Context.{background}
use kubevirt_dpdk_checkup.Go.Strings.{contains}
use kubevirt_dpdk_checkup.World.{Env, History}
use kubevirt_dpdk_checkup.World.Poll.{rounds, poll_rounds}
use kubevirt_dpdk_checkup.Checkup.Samples.{cluster}
use kubevirt_dpdk_checkup.Trex.Client.{Client}
use kubevirt_dpdk_checkup.Trex.Client.Stats.{wait_for_server_to_be_ready}
use kubevirt_dpdk_checkup.Trex.Client.Ready.{Answered, wait_for_server_to_be_ready-Answered}

abbrev answering : Env
answering = record cluster {
  expect_batch = λ h name batch timeout. (codes "Console Commands" ∷ [], none);
}

abbrev client : Client
client = record {
  console_expecter = record { vmi_namespace = codes "ns"; vmi_name = codes "tg" };
  traffic_generator_packets_per_second = codes "8m";
  test_duration = pos 300000000000;
  verbose_prints_enabled = true;
}

server_is_ready : (wait_for_server_to_be_ready answering (rounds 0) client background []).0 ≡ ok tt
unfolding wait_for_server_to_be_ready poll_rounds
server_is_ready = refl

wait_for_server_to_be_ready-Answered_example :
    (u : History) × (out : Bytes) × Answered answering client (codes "help") u out
    × (contains (codes "Console Commands") out ≡ true)
wait_for_server_to_be_ready-Answered_example =
    wait_for_server_to_be_ready-Answered answering client (rounds 0) background [] server_is_ready
