-- ===== src/Kernel/Boot/Tests.antt =====
-- kernel_main at a concrete machine.
use ea_x.Prelude.{ℕ, ◌≡◌, [], ◌∷◌, Array, arith}
use ea_x.Kernel.Heap.Chain.{IsHeap}
use ea_x.Kernel.Screen.Bounds.{Fits, IsOnScreen}
use ea_x.Storage.{storage_read_sector}
use ea_x.Network.{network_send_packet}
use ea_x.Graphics.Vram.{IsConsistent}
use ea_x.Input.{input_get_event}
use ea_x.Kernel.Boot.{Machine, kernel_main}
use ea_x.Kernel.Boot.Ready.{kernel_main-ready}

abbrev zeros : Array ℕ
zeros i = 0

-- The statics before any call.
abbrev zeroed : Machine
zeroed = record {
  screen = record { video_memory = zeros; cursor_x = 0; cursor_y = 0; screen_color = 160 };
  heap_start = 0;
  blocks = λ a. record { size = 0; free = 0; next = 0; prev = 0 };
  storage = record {
    drive_count = 0;
    drives = λ i. record {
      disk_id = 0;
      sector_size = 0;
      total_sectors = 0;
      status = 0;
      interface_type = 0;
    };
    active_drive = 0;
  };
  network = record {
    interface_count = 0;
    interfaces = λ i. record {
      ipv4 = 0;
      ipv6 = zeros;
      mac_address = zeros;
      mtu = 0;
      status = 0;
      duplex = 0;
      speed = 0;
    };
    active_interface = 0;
    packets_sent = 0;
    packets_received = 0;
    packets_dropped = 0;
  };
  graphics = record {
    current_mode = record {
      width = 0;
      height = 0;
      bpp = 0;
      pitch = 0;
      framebuffer_addr = 0;
      vsync_enabled = 0;
      refresh_rate = 0;
    };
    available_modes_count = 0;
    gpu_vendor = 0;
    vram_size = 0;
    vram_used = 0;
    texture_cache_size = 0;
    hardware_acceleration = 0;
  };
  input = record {
    keyboard = record { is_connected = 0; key_state = zeros; key_pressed = 0; key_released = 0 };
    mouse = record {
      is_connected = 0;
      x_position = 0;
      y_position = 0;
      button_state = 0;
      wheel_delta = 0;
      acceleration = 0;
    };
    input_events_queued = 0;
    total_events_processed = 0;
  };
}

text_mode : Fits 80 25
text_mode = record {
  wide = omega arith;
  high = omega arith;
  narrow = omega arith;
  low = omega arith;
  cells = omega arith;
}

kernel_main-ready_example :
    let m' = kernel_main 80 25 8192 4096 3 zeroed in
    IsOnScreen 80 25 m'.screen
    × IsHeap m'.blocks m'.heap_start (record { size = 4096; free = 1 } ∷ [])
    × (storage_read_sector m'.storage 1 7 0 ≡ 4096)
    × ((network_send_packet m'.network 0 60).0 ≡ 60)
    × IsConsistent m'.graphics
    × ((input_get_event m'.input).0 ≡ 0)
kernel_main-ready_example =
    kernel_main-ready 80 25 8192 4096 text_mode 3 zeroed 1 7 60 (omega arith) (omega arith)
      (omega arith)
