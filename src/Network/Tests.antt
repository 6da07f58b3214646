-- ===== src/Network/Tests.antt =====
-- ntwrk.c at concrete inputs.
use ea_x.Prelude.{ℕ, ◌≡◌, refl, List, [], ◌∷◌, Array, arith}
use ea_x.Network.{
  NetworkStack, NetworkInterface, network_init, network_get_stats, network_get_interface_info,
}
use ea_x.Network.Run.{
  Op, send, receive, set_ip, enable, disable, run, while_up, sent, received, up_after, run-while_up,
}

abbrev zeros : Array ℕ
zeros i = 0

abbrev no_interface : NetworkInterface
no_interface = record {
  ipv4 = 0;
  ipv6 = zeros;
  mac_address = zeros;
  mtu = 0;
  status = 0;
  duplex = 0;
  speed = 0;
}

abbrev booted : NetworkStack
booted = network_init (record {
  interface_count = 0;
  interfaces = λ i. no_interface;
  active_interface = 0;
  packets_sent = 0;
  packets_received = 0;
  packets_dropped = 0;
})

-- Of the three packets to send, the first and the last go out.
abbrev calls : List Op
calls =
    send 0 60
    ∷ disable 0
    ∷ send 0 60
    ∷ set_ip 0 1
    ∷ enable 1
    ∷ receive 0 9
    ∷ enable 0
    ∷ send 0 0
    ∷ []

run-while_up_example :
    let (bytes, stats') = network_get_stats (run booted calls) zeros in
    (bytes ≡ 12) × (stats' 0 ≡ 2) × (stats' 1 ≡ 0) × (stats' 2 ≡ 0)
unfolding network_init while_up sent received up_after
run-while_up_example = run-while_up calls booted zeros (omega arith) (omega arith) (omega arith)

unknown_interface : (network_get_interface_info 40 booted 2).0 ≡ 0
unfolding network_get_interface_info network_init
unknown_interface = refl
