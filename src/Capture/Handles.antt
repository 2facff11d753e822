-- ===== src/Capture/Handles.antt =====
-- capture/capture.go: opening a handle of each interface. libpcap and the raw socket are arguments: a
-- record of what their calls answer.
pub mod Openings
pub mod Loop
pub mod Filters
use goreplay.Base.{
  ℕ, zero, suc, ◌+◌, Bool, true, false, not, ◌&&◌, ◌||◌, Bytes, codes, Outcome, Option, none, some,
  List, [], ◌∷◌, ◌++◌, length, ltb, ◌==◌, if◌then◌else◌, equal, has_prefix,
}
use goreplay.Modifier.{is_nil}
use goreplay.Text.Ints.{ℤ, pos, negsuc}
use goreplay.Text.Split.{has_suffix}
use goreplay.Capture.{Interface, NetInterface, Handle, PcapOptions, Listener, filter_of}

pub data Monitored : Type 0 where
  monitored cannot_monitor not_monitored : Monitored

-- An inactive handle: whether each call on it succeeds.
pub record Device : Type 0 where
  pub created : Bool
  pub takes_timestamps : Bytes → Bool
  pub takes_promiscuous : Bool → Bool
  pub takes_monitor : Monitored
  pub takes_snap_len : ℕ → Bool
  pub takes_buffer_size : ℕ → Bool
  pub block_forever : ℤ
  pub takes_timeout : ℤ → Bool
  pub activates : Bool
  pub takes_filter : Bytes → Bool

pub data HandleError : Type 0 where
  inactive_handle timestamps promiscuous_mode monitor_mode snapshot_length buffer_size
        buffer_timeout not_activated filter_refused :
      HandleError

pub data Opened : Type 0 where
  opens : Handle → Opened
  fails : HandleError → Opened

-- The listener's filter in parentheses, or the automatic one of the interface.
unfoldable pub bpf_filter_of : Listener → NetInterface → Bytes
bpf_filter_of l ifi =
    if is_nil l.options.bpf_filter
    then filter_of l ifi
    else if has_prefix l.options.bpf_filter (codes "(")
        && has_suffix l.options.bpf_filter (codes ")")
    then l.options.bpf_filter
    else codes "(" ++ (l.options.bpf_filter ++ codes ")")

-- The listener keeps the filter of the interface.
unfoldable pub with_filter : Listener → NetInterface → Listener
with_filter l ifi = record l { options = record (l.options) { bpf_filter = bpf_filter_of l ifi } }

unfoldable pub with_timeout : Device → Listener → Listener
with_timeout d l =
    let t : ℤ = elim l.options.buffer_timeout [
      | pos n ↦ (if n == 0 then d.block_forever else pos n)
      | negsuc n ↦ negsuc n
    ] in
    record l { options = record (l.options) { buffer_timeout = t } }

abbrev pub snap_of : Listener → NetInterface → ℕ
snap_of l ifi =
    if l.options.snaplen
    then 65736
    else if ltb 0 ifi.interface.mtu
    then ifi.interface.mtu + 200
    else 0

abbrev pub is_monitored : Monitored → Bool
is_monitored not_monitored = false
is_monitored _ = true

-- The handle behind `Activate`.
unfoldable pub filter_handle : Device → Listener → NetInterface → ℕ → Listener × Opened
filter_handle d l ifi snap =
    let set = with_filter l ifi in
    (
      set,
      if d.takes_filter set.options.bpf_filter
          then opens (record { snap = snap; filter = set.options.bpf_filter })
          else fails filter_refused,
    )

-- The calls one after another: the error of the first one that fails.
abbrev pub first_error : List (Bool × HandleError) → Option HandleError
first_error [] = none
first_error ((fine, e) ∷ more) = if fine then first_error more else some e

-- The calls on the inactive handle up to the one that sets its buffer.
abbrev pub prepared : Device → Listener → NetInterface → Option HandleError
prepared d l ifi = first_error (
    (d.created, inactive_handle)
    ∷ ((is_nil l.options.timestamp_type || d.takes_timestamps l.options.timestamp_type), timestamps)
    ∷ (not l.options.promiscuous || d.takes_promiscuous true, promiscuous_mode)
    ∷ (not l.options.monitor || is_monitored d.takes_monitor, monitor_mode)
    ∷ (d.takes_snap_len (snap_of l ifi), snapshot_length)
    ∷ (not (ltb 0 l.options.buffer_size) || d.takes_buffer_size l.options.buffer_size, buffer_size)
    ∷ [])

abbrev pub activated : Device → Listener → Option HandleError
activated d l =
    first_error (
      (d.takes_timeout l.options.buffer_timeout, buffer_timeout)
      ∷ (d.activates, not_activated)
      ∷ [])

-- `PcapHandle`, with the listener whose options it fills in.
unfoldable pub pcap_handle : Device → Listener → NetInterface → Listener × Opened
pcap_handle d l ifi = elim (prepared d l ifi) [
  | some e ↦ (l, fails e)
  | none ↦
      let timed = with_timeout d l in
      elim (activated d timed) [
        | some e ↦ (timed, fails e)
        | none ↦ filter_handle d timed ifi (snap_of l ifi)
      ]
]

-- `SocketHandle`
unfoldable pub socket_handle : Device → Listener → NetInterface → Listener × Opened
socket_handle d l ifi =
    elim (first_error (
      (d.created, inactive_handle)
      ∷ (d.takes_promiscuous (l.options.promiscuous || l.options.monitor), promiscuous_mode)
      ∷ [])) [ some e ↦ (l, fails e) | none ↦ filter_handle d l ifi 0 ]

-- `l.Handles[name] = handle`
unfoldable pub put_handle : Bytes → Handle → List (Bytes × Handle) → List (Bytes × Handle)
put_handle name h [] = (name, h) ∷ []
put_handle name h ((n, old) ∷ more) =
    let rest = put_handle name h more in if equal n name then (name, h) ∷ more else (n, old) ∷ rest

-- The loop over the interfaces, with the error of the last one.
unfoldable pub open_each :
    (NetInterface → Device)
    → (Device → Listener → NetInterface → Listener × Opened)
    → List NetInterface
    → Listener
    → Option HandleError
    → Listener × Option HandleError
open_each devices handle_of [] l last = (l, last)
open_each devices handle_of (ifi ∷ more) l last =
    let (next, result) = handle_of (devices ifi) l ifi in
    elim result [
      | opens h ↦
          open_each devices handle_of more
            (record next { handles = put_handle ifi.interface.name h next.handles }) none
      | fails e ↦ open_each devices handle_of more next (some e)
    ]

-- `activatePcap`: an error if there is no handle.
unfoldable pub activate_pcap : (NetInterface → Device) → Listener → Listener × Bool
activate_pcap devices l =
    let (opened, last) = open_each devices pcap_handle l.interfaces l none in
    (opened, not (is_nil opened.handles))

-- `activateRawSocket`, on Linux: the error of the last interface.
unfoldable pub activate_raw_socket :
    (NetInterface → Device) → Listener → Listener × Option HandleError
activate_raw_socket devices l = open_each devices socket_handle l.interfaces l none

abbrev pub no_interface : NetInterface
no_interface = record {
  interface = record {
    name = [];
    index = 0;
    hardware_addr = [];
    mtu = 0;
    loopback = false;
    up = false;
    addrs = none;
  };
  ips = [];
}

-- `activatePcapFile`, on a file that opens or not: the filter is that of a listener without a host.
unfoldable pub activate_pcap_file : Bool → Device → Listener → Listener × Opened
activate_pcap_file opens_file d l =
    if not opens_file
    then (l, fails inactive_handle)
    else let (set, result) = filter_handle d (record l { host = [] }) no_interface 0 in
      let kept = record set { host = l.host } in
      (
        elim result [
          | opens h ↦ record kept { handles = put_handle (codes "pcap_file") h kept.handles }
          | fails e ↦ kept
        ],
        result,
      )
