-- ===== src/Network/Run.antt =====
-- ntwrk.c: the counters after any calls.
use ea_x.Prelude.{
  ℕ, ◌+◌, ◌<◌, ◌^◌, ◌≡◌, Bool, true, false, not, List, [], ◌∷◌, Array, u32, ◌==◌, if◌then◌else◌,
  arith,
}
use ea_x.Network.{
  NetworkStack, network_send_packet, network_receive_packet, network_set_interface_ip,
  network_enable_interface, network_disable_interface, network_get_stats,
}

pub data Op : Type 0 where
  send receive : (buffer length : ℕ) → Op
  set_ip : (interface ipv4 : ℕ) → Op
  enable disable : (interface : ℕ) → Op

unfoldable pub step : NetworkStack → Op → NetworkStack
step n (send buffer length) = (network_send_packet n buffer length).1
step n (receive buffer length) = (network_receive_packet n buffer length).1
step n (set_ip interface ipv4) = network_set_interface_ip n interface ipv4
step n (enable interface) = network_enable_interface n interface
step n (disable interface) = network_disable_interface n interface

unfoldable pub run : NetworkStack → List Op → NetworkStack
run n [] = n
run n (op ∷ ops) = run (step n op) ops

-- Whether interface `a` is up after a call.
unfoldable pub up_after : ℕ → Bool → Op → Bool
up_after a up (send buffer length) = up
up_after a up (receive buffer length) = up
up_after a up (set_ip interface ipv4) = up
up_after a up (enable interface) = if interface == a then true else up
up_after a up (disable interface) = if interface == a then false else up

-- The packets sent, and received, while interface `a` was up.
unfoldable pub sent : Op → ℕ
sent (send buffer length) = 1
sent _ = 0

unfoldable pub received : Op → ℕ
received (receive buffer length) = 1
received _ = 0

unfoldable pub while_up : (Op → ℕ) → ℕ → Bool → List Op → ℕ
while_up count a up [] = 0
while_up count a up (op ∷ ops) =
    (if up then count op else 0) + while_up count a (up_after a up op) ops

abbrev pub is_up : NetworkStack → Bool
is_up n = not ((n.interfaces n.active_interface).status == 0)

-- What a call leaves.
abbrev Stepped : NetworkStack → Op → NetworkStack → Type 0
Stepped n op n' =
    (n'.active_interface ≡ n.active_interface)
    × (n'.interface_count ≡ n.interface_count)
    × (is_up n' ≡ up_after n.active_interface (is_up n) op)
    × (n'.packets_sent ≡ (if is_up n then u32 (n.packets_sent + sent op) else n.packets_sent))
    × (n'.packets_received
        ≡ (if is_up n then u32 (n.packets_received + received op) else n.packets_received))
    × (n'.packets_dropped ≡ n.packets_dropped)

step-Stepped :
    (op : Op) (n : NetworkStack)
    → n.active_interface < n.interface_count
    → n.packets_sent < 2 ^ 32
    → n.packets_received < 2 ^ 32
    → Stepped n op (step n op)
unfolding step up_after sent received network_send_packet network_receive_packet
    network_set_interface_ip network_enable_interface network_disable_interface
step-Stepped (send buffer length) n active hs hr = ground arith
step-Stepped (receive buffer length) n active hs hr = ground arith
step-Stepped (set_ip interface ipv4) n active hs hr = ground arith
step-Stepped (enable interface) n active hs hr = ground arith
step-Stepped (disable interface) n active hs hr = ground arith

-- After any calls, the counters that `network_get_stats` stores are the counts of the packets that were
-- sent, and received, while the active interface was up, by the last call that enabled or disabled it,
-- added to those at the start on 32 bits; no packet is ever counted as dropped.
pub run-while_up :
    (ops : List Op) (n : NetworkStack) (stats : Array ℕ)
    → n.active_interface < n.interface_count
    → n.packets_sent < 2 ^ 32
    → n.packets_received < 2 ^ 32
    → let (bytes, stats') = network_get_stats (run n ops) stats in
      (bytes ≡ 12)
      × (stats' 0 ≡ u32 (n.packets_sent + while_up sent n.active_interface (is_up n) ops))
      × (stats' 1 ≡ u32 (n.packets_received + while_up received n.active_interface (is_up n) ops))
      × (stats' 2 ≡ n.packets_dropped)
unfolding run while_up network_get_stats
run-while_up [] n stats active hs hr = ground arith
run-while_up (op ∷ ops) n stats active hs hr =
    let stepped = step-Stepped op n active hs hr in
    let rest = run-while_up ops (step n op) stats (ground arith) (ground arith) (ground arith) in
    ground arith
