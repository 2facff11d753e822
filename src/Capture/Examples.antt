-- ===== src/Capture/Examples.antt =====
-- The capture at concrete interfaces and packets.
use goreplay.Base.{
  ℕ, ◌≡◌, refl, true, false, Bytes, codes, none, some, List, [], ◌∷◌, arith, equal, index_byte,
  if◌then◌else◌,
}
use goreplay.Modifier.{is_nil}
use goreplay.Tcp.Store.{modify}
use goreplay.Text.Ints.{pos}
use goreplay.Capture.{
  Interface, NetInterface, Listener, no_options, listen_all, usable, cut_mask, set_interfaces,
  set_engine, engine_name,
}
use goreplay.Capture.Handles.{
  Device, monitored, activate_pcap, activate_raw_socket, open_each, socket_handle, filter_handle,
  put_handle, with_filter, bpf_filter_of, inactive_handle,
}
use goreplay.Capture.Handles.Filters.{activate_pcap-HasOwn, HasOwn}
use goreplay.Capture.Readers.{
  Captured, Run, selecting, sending, reading_from, set_reader, takes, cancels, Reach, here, next,
}
use goreplay.Capture.Readers.Order.{of_interface}
use goreplay.Capture.Readers.Safety.{IsCalm, Reach-IsCalm}
use goreplay.Capture.Readers.Stopping.{Reach-returns}

abbrev first_packet : Captured
first_packet = record { interface = 1; data_of = codes "SYN" }

-- Two handles, a packet of the second one, and the end of the context.
abbrev told_to_quit : Run
told_to_quit = record {
  readers = selecting ∷ sending first_packet ∷ [];
  packets = [];
  packets_closed = false;
  quit = true;
  returned = false;
  panicked = false;
  taken = first_packet ∷ [];
  handled = [];
}

reached : Reach (reading_from 2) told_to_quit
unfolding reading_from set_reader modify
reached = next (next here (takes 1 first_packet refl refl refl)) (cancels refl refl refl)

Reach-IsCalm_example : IsCalm told_to_quit
Reach-IsCalm_example = Reach-IsCalm {n = 2} {s = told_to_quit} (omega arith) reached

Reach-returns_example :
    (q : Run) × Reach told_to_quit q
    × (q.returned ≡ true)
    × ((k : ℕ) → of_interface k q.handled ≡ of_interface k q.taken)
Reach-returns_example = Reach-returns 2 {s = told_to_quit} (omega arith) reached refl

abbrev loopback : Interface
loopback = record {
  name = codes "lo";
  index = 1;
  hardware_addr = [];
  mtu = 65536;
  loopback = true;
  up = true;
  addrs = some (codes "127.0.0.1/8" ∷ []);
}

abbrev ethernet : Interface
ethernet = record {
  name = codes "eth0";
  index = 2;
  hardware_addr = codes "02:42:ac:11:00:02";
  mtu = 1500;
  loopback = false;
  up = true;
  addrs = some (codes "10.0.0.5/24" ∷ []);
}

-- A device on which every call succeeds.
abbrev accepting_device : NetInterface → Device
accepting_device ifi = record {
  created = true;
  takes_timestamps = λ t. true;
  takes_promiscuous = λ b. true;
  takes_monitor = monitored;
  takes_snap_len = λ n. true;
  takes_buffer_size = λ n. true;
  block_forever = pos 0;
  takes_timeout = λ t. true;
  activates = true;
  takes_filter = λ f. true;
}

abbrev listener_of : Bytes → List NetInterface → ℕ → Listener
listener_of host interfaces loop_index = record {
  host = host;
  port = 80;
  transport = codes "tcp";
  engine = 1;
  track_response = false;
  interfaces = interfaces;
  loop_index = loop_index;
  options = no_options;
  handles = [];
}

abbrev listening : Listener
listening =
    listener_of []
      (record { interface = loopback; ips = codes "127.0.0.1" ∷ [] }
        ∷ record { interface = ethernet; ips = codes "10.0.0.5" ∷ [] }
        ∷ [])
      1

activate_pcap-HasOwn_example : HasOwn listening (activate_pcap accepting_device listening).0.handles
unfolding set_interfaces usable listen_all cut_mask index_byte equal
activate_pcap-HasOwn_example =
    activate_pcap-HasOwn accepting_device (some (loopback ∷ ethernet ∷ [])) (listener_of [] [] 0)
      listening refl refl refl

abbrev without : Bytes → NetInterface → Device
without name ifi = record (accepting_device ifi) {
  created = if equal ifi.interface.name name then false else true;
}

-- The error of `activateRawSocket` is that of the last interface: with a handle open it is returned, and the error of
-- another interface is not.
last_fails_test :
    (is_nil (activate_raw_socket (without (codes "eth0")) listening).0.handles ≡ false)
    × ((activate_raw_socket (without (codes "eth0")) listening).1 ≡ some inactive_handle)
unfolding activate_raw_socket open_each socket_handle filter_handle put_handle with_filter
    bpf_filter_of equal
last_fails_test = (refl, refl)

first_fails_test : (activate_raw_socket (without (codes "lo")) listening).1 ≡ none
unfolding activate_raw_socket open_each socket_handle filter_handle put_handle with_filter
    bpf_filter_of equal
first_fails_test = refl

engine_test :
    (set_engine (codes "af_packet") ≡ some 4)
    × (set_engine (codes "dpdk") ≡ none)
    × (engine_name 4 ≡ codes "raw_socket")
unfolding set_engine engine_name equal
engine_test = (refl, refl, refl)
