-- ===== src/Capture/Handles/Openings.antt =====
-- What opening one handle does to the listener.
use goreplay.Base.{
  ℕ, ◌≡◌, ◌⊎◌, inl, inr, refl, sym, ap, ◌||◌, Bytes, [], ◌∷◌, Bool-cases, Option-cases,
}
use goreplay.Capture.{NetInterface, Handle, Listener, filter_of}
use goreplay.Capture.Handles.{
  Device, HandleError, Opened, opens, fails, first_error, prepared, activated, bpf_filter_of,
  with_filter, with_timeout, filter_handle, pcap_handle, socket_handle, inactive_handle,
  promiscuous_mode, snap_of,
}

-- What opening a handle of an interface does to the listener.
pub record IsOpening (l : Listener) (ifi : NetInterface) (r : Listener × Opened) : Type 0 where
  pub own : (x : NetInterface) → filter_of r.0 x ≡ filter_of l x
  pub handles_same : r.0.handles ≡ l.handles
  pub filter_set :
      (r.0.options.bpf_filter ≡ l.options.bpf_filter)
      ⊎ (r.0.options.bpf_filter ≡ bpf_filter_of l ifi)
  pub handle_has : (h : Handle) → r.1 ≡ opens h → h.filter ≡ bpf_filter_of l ifi

failed-IsOpening :
    (l : Listener) (ifi : NetInterface) (e : HandleError) → IsOpening l ifi (l, fails e)
failed-IsOpening l ifi e = record {
  own = λ x. refl;
  handles_same = refl;
  filter_set = inl refl;
  handle_has = λ h k. cc;
}

timed-IsOpening :
    (d : Device) (l : Listener) (ifi : NetInterface) (e : HandleError)
    → IsOpening l ifi (with_timeout d l, fails e)
unfolding with_timeout filter_of
timed-IsOpening d l ifi e = record {
  own = λ x. refl;
  handles_same = refl;
  filter_set = inl refl;
  handle_has = λ h k. cc;
}

opened_filter : Bytes → Opened → Bytes
opened_filter f (opens h) = h.filter
opened_filter f (fails e) = f

filter_handle-IsOpening :
    (d : Device) (l : Listener) (ifi : NetInterface) (snap : ℕ)
    → IsOpening l ifi (filter_handle d l ifi snap)
unfolding filter_handle with_filter filter_of opened_filter
filter_handle-IsOpening d l ifi snap = elim (Bool-cases (d.takes_filter (bpf_filter_of l ifi))) [
  | inl e ↦ rw e (record {
    own = λ x. refl;
    handles_same = refl;
    filter_set = inr refl;
    handle_has = λ h k. ap (opened_filter []) (sym k);
  })
  | inr e ↦ rw e (record {
    own = λ x. refl;
    handles_same = refl;
    filter_set = inr refl;
    handle_has = λ h k. cc;
  })
]

timed_filter-IsOpening :
    (d : Device) (l : Listener) (ifi : NetInterface) (snap : ℕ)
    → IsOpening l ifi (filter_handle d (with_timeout d l) ifi snap)
unfolding with_timeout filter_of bpf_filter_of
timed_filter-IsOpening d l ifi snap =
    let w = filter_handle-IsOpening d (with_timeout d l) ifi snap in
    record {
      own = w.own;
      handles_same = w.handles_same;
      filter_set = w.filter_set;
      handle_has = w.handle_has;
    }

pub pcap_handle-IsOpening :
    (d : Device) (l : Listener) (ifi : NetInterface) → IsOpening l ifi (pcap_handle d l ifi)
unfolding pcap_handle
pcap_handle-IsOpening d l ifi = elim (Option-cases (prepared d l ifi)) [
  | inr (e, is) ↦ rw (is, pcap_handle) (failed-IsOpening l ifi e)
  | inl ready ↦
      rw (ready, pcap_handle)
        (elim (Option-cases (activated d (with_timeout d l))) [
          | inr (e, is) ↦ rw is (timed-IsOpening d l ifi e)
          | inl active ↦ rw active (timed_filter-IsOpening d l ifi (snap_of l ifi))
        ])
]

pub socket_handle-IsOpening :
    (d : Device) (l : Listener) (ifi : NetInterface) → IsOpening l ifi (socket_handle d l ifi)
unfolding socket_handle
socket_handle-IsOpening d l ifi =
    elim (Option-cases (
      first_error (
        (d.created, inactive_handle)
        ∷ (d.takes_promiscuous (l.options.promiscuous || l.options.monitor), promiscuous_mode)
        ∷ []))) [
          | inr (e, is) ↦ rw (is, socket_handle) (failed-IsOpening l ifi e)
          | inl ready ↦ rw (ready, socket_handle) (filter_handle-IsOpening d l ifi 0)
        ]
