-- ===== src/Network.antt =====
-- ntwrk.c: the network interfaces.
--
-- A packet is not looked at. The size of a network_interface_t is a parameter, `interface_bytes`.
pub mod Run
mod Tests
use ea_x.Prelude.{ℕ, ◌+◌, ◌==◌, Option, none, some, Array, update, u32, leb, ltb, if◌then◌else◌}

pub record NetworkInterface : Type 0 where
  pub ipv4 : ℕ
  pub ipv6 : Array ℕ
  pub mac_address : Array ℕ
  pub mtu : ℕ
  pub status : ℕ
  pub duplex : ℕ
  pub speed : ℕ

pub record NetworkStack : Type 0 where
  pub interface_count : ℕ
  pub interfaces : Array NetworkInterface
  pub active_interface : ℕ
  pub packets_sent : ℕ
  pub packets_received : ℕ
  pub packets_dropped : ℕ

-- 52:54:00:12:34:56
abbrev pub first_mac : Array ℕ → Array ℕ
first_mac mac =
    update (update (update (update (update (update mac 0 0x52) 1 0x54) 2 0x00) 3 0x12) 4 0x34) 5
      0x56

abbrev pub first_interface : NetworkInterface → NetworkInterface
first_interface i = record i {
  ipv4 = 0xC0A80001;
  mac_address = first_mac i.mac_address;
  mtu = 1500;
  status = 1;
  duplex = 1;
  speed = 1000;
}

abbrev pub second_interface : NetworkInterface → NetworkInterface
second_interface i = record i { mtu = 1500; status = 0; duplex = 1; speed = 100 }

unfoldable pub network_init : NetworkStack → NetworkStack
network_init n = record n {
  interface_count = 2;
  interfaces =
      update (update n.interfaces 0 (first_interface (n.interfaces 0))) 1
        (second_interface (n.interfaces 1));
  active_interface = 0;
  packets_sent = 0;
  packets_received = 0;
  packets_dropped = 0;
}

-- What each function returns, and the new state.
unfoldable pub network_send_packet : NetworkStack → (buffer length : ℕ) → ℕ × NetworkStack
network_send_packet n buffer length =
    if (n.interfaces n.active_interface).status == 0
    then (0, n)
    else (length, record n { packets_sent = u32 (n.packets_sent + 1) })

unfoldable pub network_receive_packet : NetworkStack → (buffer max_length : ℕ) → ℕ × NetworkStack
network_receive_packet n buffer max_length =
    if (n.interfaces n.active_interface).status == 0
    then (0, n)
    else (0, record n { packets_received = u32 (n.packets_received + 1) })

-- What is returned, and what is stored at `info`, if anything is.
unfoldable pub network_get_interface_info :
    ℕ → NetworkStack → (interface : ℕ) → ℕ × Option NetworkInterface
network_get_interface_info interface_bytes n interface =
    if leb n.interface_count interface
    then (0, none)
    else (interface_bytes, some (n.interfaces interface))

abbrev pub put_interface : NetworkStack → ℕ → NetworkInterface → NetworkStack
put_interface n interface i = record n { interfaces = update n.interfaces interface i }

unfoldable pub network_set_interface_ip : NetworkStack → (interface ipv4 : ℕ) → NetworkStack
network_set_interface_ip n interface ipv4 =
    if ltb interface n.interface_count
    then put_interface n interface (record (n.interfaces interface) { ipv4 = ipv4 })
    else n

unfoldable pub network_enable_interface : NetworkStack → ℕ → NetworkStack
network_enable_interface n interface =
    if ltb interface n.interface_count
    then put_interface n interface (record (n.interfaces interface) { status = 1 })
    else n

unfoldable pub network_disable_interface : NetworkStack → ℕ → NetworkStack
network_disable_interface n interface =
    if ltb interface n.interface_count
    then put_interface n interface (record (n.interfaces interface) { status = 0 })
    else n

-- The three words that are stored at `stats_buffer`.
unfoldable pub network_get_stats : NetworkStack → Array ℕ → ℕ × Array ℕ
network_get_stats n stats =
    (12, update (update (update stats 0 n.packets_sent) 1 n.packets_received) 2 n.packets_dropped)
