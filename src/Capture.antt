-- ===== src/Capture.antt =====
-- capture/capture.go: the engines, the listener and its interfaces. What the operating system says of its
-- interfaces is an argument.
pub mod Handles
pub mod Readers
pub mod Examples
use goreplay.Base.{
  ℕ, zero, suc, ◌+◌, Bool, true, false, not, ◌&&◌, ◌||◌, Bytes, codes, Option, none, some, List, [],
  ◌∷◌, ◌++◌, ◌==◌, if◌then◌else◌, equal, index_byte, take, map,
}
use goreplay.Modifier.{is_nil}
use goreplay.Text.Ints.{ℤ, pos}
use goreplay.Text.Decimal.{format_ℕ}

abbrev pub engine_pcap : ℕ
engine_pcap = 1

abbrev pub engine_pcap_file : ℕ
engine_pcap_file = 2

abbrev pub engine_raw_socket : ℕ
engine_raw_socket = 4

-- `EngineType.Set`: none for an invalid engine, which leaves the value as it was.
unfoldable pub set_engine : Bytes → Option ℕ
set_engine v =
    if equal v [] || equal v (codes "libpcap")
    then some engine_pcap
    else if equal v (codes "pcap_file")
    then some engine_pcap_file
    else if equal v (codes "raw_socket") || equal v (codes "af_packet")
    then some engine_raw_socket
    else none

unfoldable pub engine_name : ℕ → Bytes
engine_name e =
    if e == engine_pcap_file
    then codes "pcap_file"
    else if e == engine_pcap
    then codes "libpcap"
    else if e == engine_raw_socket
    then codes "raw_socket"
    else []

-- An interface of the system; `addrs` is `none` where asking for its addresses fails.
pub record Interface : Type 0 where
  pub name : Bytes
  pub index : ℕ
  pub hardware_addr : Bytes
  pub mtu : ℕ
  pub loopback : Bool
  pub up : Bool
  pub addrs : Option (List Bytes)

pub record NetInterface : Type 0 where
  pub interface : Interface
  pub ips : List Bytes

-- A handle that was activated: its snapshot length and its filter.
pub record Handle : Type 0 where
  pub snap : ℕ
  pub filter : Bytes

pub record PcapOptions : Type 0 where
  pub timestamp_type : Bytes
  pub bpf_filter : Bytes
  pub buffer_size : ℕ
  pub buffer_timeout : ℤ
  pub promiscuous : Bool
  pub monitor : Bool
  pub snaplen : Bool

pub record Listener : Type 0 where
  pub host : Bytes
  pub port : ℕ
  pub transport : Bytes
  pub engine : ℕ
  pub track_response : Bool
  pub interfaces : List NetInterface
  pub loop_index : ℕ
  pub options : PcapOptions
  pub handles : List (Bytes × Handle)

unfoldable pub listen_all : Bytes → Bool
listen_all addr =
    equal addr []
    || equal addr (codes "0.0.0.0")
    || equal addr (codes "[::]")
    || equal addr (codes "::")

unfoldable pub is_device : Bytes → NetInterface → Bool
is_device addr ifi =
    equal addr ifi.interface.name
    || equal addr (format_ℕ ifi.interface.index)
    || equal addr ifi.interface.hardware_addr

unfoldable pub cut_mask : Bytes → Bytes
cut_mask addr = elim (index_byte addr b'/') [ none ↦ addr | some i ↦ take i addr ]

-- The first loop of `setInterfaces`: the interfaces that are up with an address, and the index of the
-- last loopback.
unfoldable pub usable : List Interface → ℕ → Option (List NetInterface × ℕ)
usable [] loop_index = some ([], loop_index)
usable (i ∷ more) loop_index =
    let rest = usable more (if i.loopback then i.index else loop_index) in
    if not i.up then rest else elim i.addrs [
      | none ↦ none
      | some addrs ↦ if is_nil addrs then rest else elim rest [
        | none ↦ none
        | some (found, loop) ↦
            some (record { interface = i; ips = map cut_mask addrs } ∷ found, loop)
      ]
    ]

abbrev pub holds_ip : Bytes → List Bytes → Bool
holds_ip host [] = false
holds_ip host (ip ∷ ips) = equal ip host || holds_ip host ips

-- The second loop: the first interface that the host names.
unfoldable pub find_interface : Bytes → List NetInterface → Option NetInterface
find_interface host [] = none
find_interface host (ifi ∷ more) =
    if is_device host ifi || holds_ip host ifi.ips then some ifi else find_interface host more

-- `setInterfaces`: none for its errors.
unfoldable pub set_interfaces : Option (List Interface) → Listener → Option Listener
set_interfaces none l = none
set_interfaces (some ifis) l = elim (usable ifis l.loop_index) [
  | none ↦ none
  | some (found, loop) ↦
      if listen_all l.host
      then some (record l { interfaces = found; loop_index = loop })
      else elim (find_interface l.host found) [
        | none ↦ none
        | some ifi ↦ some (record l { interfaces = ifi ∷ []; loop_index = loop })
      ]
]

abbrev pub no_options : PcapOptions
no_options = record {
  timestamp_type = [];
  bpf_filter = [];
  buffer_size = 0;
  buffer_timeout = pos 0;
  promiscuous = false;
  monitor = false;
  snaplen = false;
}

-- `NewListener`
unfoldable pub new_listener :
    Option (List Interface) → Bytes → ℕ → Bytes → ℕ → Bool → Option Listener
new_listener ifis host port transport engine track_response =
    let l : Listener = record {
      host = host;
      port = port;
      transport = if is_nil transport then codes "tcp" else transport;
      engine =
          if engine == engine_raw_socket || engine == engine_pcap_file then engine else engine_pcap;
      track_response = track_response;
      interfaces = [];
      loop_index = 0;
      options = no_options;
      handles = [];
    } in
    if engine == engine_pcap_file then some l else set_interfaces ifis l

unfoldable pub set_pcap_options : PcapOptions → Listener → Listener
set_pcap_options opts l = record l { options = opts }

-- `Filter`
unfoldable pub filter_of : Listener → NetInterface → Bytes
filter_of l ifi =
    let port =
      if l.port == 0 then codes "portrange 0-65535" else codes "port " ++ format_ℕ l.port in
    let dir = if l.track_response then codes " " else codes " dst " in
    let front = codes "(" ++ (l.transport ++ (dir ++ port)) in
    if listen_all l.host || is_device l.host ifi
    then front ++ codes ")"
    else front ++ (codes " and host " ++ (l.host ++ codes ")"))
