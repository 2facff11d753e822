-- ===== src/Capture/Handles/Filters.antt =====
-- The filters of the handles that are opened.
use mathlib.Core.Option.{some-injective}
use goreplay.Base.{
  ◌≡◌, inl, inr, refl, sym, ap, ◌∙◌, true, Bytes, Option, none, some, List, [], ◌∷◌, All,
  Bool-cases, Option-cases, subst,
}
use goreplay.Capture.{
  Interface, NetInterface, Handle, Listener, filter_of, listen_all, find_interface, usable,
  set_interfaces,
}
use goreplay.Capture.Handles.{
  no_interface, Device, Opened, pcap_handle, socket_handle, open_each, activate_pcap,
  activate_raw_socket,
}
use goreplay.Capture.Handles.Openings.{IsOpening, pcap_handle-IsOpening, socket_handle-IsOpening}
use goreplay.Capture.Handles.Loop.{IsWrapped, filter_of-IsWrapped, Filtered, open_each-IsFiltered}

-- A listener to all interfaces has one filter for all of them; another listener has one interface.
HasCommon : Listener → Type 0
HasCommon l = (f : Bytes) × IsWrapped f × All (λ ifi. filter_of l ifi ≡ f) l.interfaces

listen_all-HasCommon : (l : Listener) → listen_all l.host ≡ true → HasCommon l
unfolding HasCommon filter_of
listen_all-HasCommon l e =
    (filter_of l no_interface, filter_of-IsWrapped l no_interface, same l.interfaces)
  where
    same : (ifis : List NetInterface) → All (λ ifi. filter_of l ifi ≡ filter_of l no_interface) ifis
    same [] = tt
    same (ifi ∷ more) = (rw e refl, same more)

single-HasCommon : (l : Listener) (ifi : NetInterface) → l.interfaces ≡ ifi ∷ [] → HasCommon l
unfolding HasCommon
single-HasCommon l ifi e = (
  filter_of l ifi,
  filter_of-IsWrapped l ifi,
  subst (All (λ x. filter_of l x ≡ filter_of l ifi)) (sym e) (refl, tt),
)

-- What `setInterfaces` leaves: the listener's options and handles as they were.
record IsListening (l m : Listener) : Type 0 where
  common : HasCommon m
  handles_kept : m.handles ≡ l.handles
  options_kept : m.options ≡ l.options

set_interfaces-IsListening :
    (ifis : Option (List Interface)) (l m : Listener)
    → set_interfaces ifis l ≡ some m
    → IsListening l m
unfolding set_interfaces
set_interfaces-IsListening none l m e = cc
set_interfaces-IsListening (some ifis) l m e = elim (Option-cases (usable ifis l.loop_index)) [
  | inl no_list ↦ (let fails_so : none ≡ some m = rw (no_list, set_interfaces) at e in cc)
  | inr ((found, loop), is) ↦ elim (Bool-cases (listen_all l.host)) [
    | inl all ↦
        (let set : some (record l { interfaces = found; loop_index = loop }) ≡ some m =
            rw all at (rw (is, set_interfaces) at e) in
          subst (IsListening l) (some-injective _ m set) (record {
            common = listen_all-HasCommon (record l { interfaces = found; loop_index = loop }) all;
            handles_kept = refl;
            options_kept = refl;
          }))
    | inr one ↦ elim (Option-cases (find_interface l.host found)) [
      | inl missing ↦
          (let fails_so : none ≡ some m =
              rw missing at (rw one at (rw (is, set_interfaces) at e)) in
            cc)
      | inr (ifi, found_at) ↦
          (let set : some (record l { interfaces = ifi ∷ []; loop_index = loop }) ≡ some m =
              rw found_at at (rw one at (rw (is, set_interfaces) at e)) in
            subst (IsListening l) (some-injective _ m set) (record {
              common =
                  single-HasCommon (record l { interfaces = ifi ∷ []; loop_index = loop }) ifi refl;
              handles_kept = refl;
              options_kept = refl;
            }))
    ]
  ]
]

-- The handles of a listener whose filter is not given: each has the filter that `Filter` gives any of its interfaces.
abbrev pub HasOwn : Listener → List (Bytes × Handle) → Type 0
HasOwn l handles = All (λ e. All (λ ifi. e.1.filter ≡ filter_of l ifi) l.interfaces) handles

own_of :
    (l : Listener) {f g : Bytes}
    → g ≡ f
    → (ifis : List NetInterface) → All (λ ifi. filter_of l ifi ≡ f) ifis
    → All (λ ifi. g ≡ filter_of l ifi) ifis
own_of l same [] a = tt
own_of l same (ifi ∷ more) a = (same ∙ sym a.0, own_of l same more a.1)

each_own :
    (l : Listener) (f : Bytes) (handles : List (Bytes × Handle))
    → Filtered f handles
    → All (λ ifi. filter_of l ifi ≡ f) l.interfaces
    → HasOwn l handles
each_own l f [] a common = tt
each_own l f (e ∷ more) a common = (own_of l a.0 l.interfaces common, each_own l f more a.1 common)

module _ (devices : NetInterface → Device) (ifis : Option (List Interface)) (l m : Listener)
    (set : set_interfaces ifis l ≡ some m) (none_open : l.handles ≡ [])
    (no_filter : l.options.bpf_filter ≡ []) where
  opened-HasOwn :
      (handle_of : Device → Listener → NetInterface → Listener × Opened)
      → ((d : Device) (n : Listener) (ifi : NetInterface) → IsOpening n ifi (handle_of d n ifi))
      → HasOwn m (open_each devices handle_of m.interfaces m none).0.handles
  unfolding HasCommon
  opened-HasOwn handle_of opening =
      let w = set_interfaces-IsListening ifis l m set in
      let (f, wrapped, common) = w.common in
      let v =
        open_each-IsFiltered m f wrapped devices handle_of opening m.interfaces m none common
          (record {
            own = λ x. refl;
            filter_set = inl (ap (λ o. o.bpf_filter) w.options_kept ∙ no_filter);
            filtered = subst (Filtered f) (sym (w.handles_kept ∙ none_open)) tt;
          }) in
      each_own m f _ v.filtered common

  -- Behind `setInterfaces`, with no handle open and no filter given: every handle that `activatePcap` opens has the
  -- filter that `Filter` gives each of the listener's interfaces.
  pub activate_pcap-HasOwn : HasOwn m (activate_pcap devices m).0.handles
  unfolding activate_pcap
  activate_pcap-HasOwn = opened-HasOwn pcap_handle pcap_handle-IsOpening

  pub activate_raw_socket-HasOwn : HasOwn m (activate_raw_socket devices m).0.handles
  unfolding activate_raw_socket
  activate_raw_socket-HasOwn = opened-HasOwn socket_handle socket_handle-IsOpening
