-- ===== src/Capture/Handles/Loop.antt =====
-- The filters while the handles of the interfaces are opened.
use goreplay.Base.{
  ℕ, ◌-◌, ◌≡◌, ◌⊎◌, inl, inr, refl, sym, ◌∙◌, true, false, ◌||◌, Bytes, codes, Option, none, some,
  List, [], ◌∷◌, ◌++◌, append_assoc, All, length, length-append, drop-append, le→leb, arith,
  Bool-cases, ==_iff, subst, equal, has_prefix,
}
use goreplay.Modifier.{is_nil}
use goreplay.Text.Split.{has_suffix}
use goreplay.Capture.{NetInterface, Handle, Listener, filter_of, listen_all, is_device}
use goreplay.Capture.Handles.{
  Device, HandleError, Opened, opens, fails, bpf_filter_of, put_handle, open_each,
}
use goreplay.Capture.Handles.Openings.{IsOpening}

-- A filter that stands in parentheses already.
pub record IsWrapped (f : Bytes) : Type 0 where
  pub some_filter : is_nil f ≡ false
  pub starts : has_prefix f (codes "(") ≡ true
  pub closes : has_suffix f (codes ")") ≡ true

has_suffix-snoc : (p : Bytes) (c : ℕ) → has_suffix (p ++ (c ∷ [])) (c ∷ []) ≡ true
unfolding has_suffix has_prefix
has_suffix-snoc p c =
    rw (le→leb 1 (length (p ++ (c ∷ []))) (omega (arith, length-append p (c ∷ [])))) (
      rw
        (drop-append p (c ∷ []) (length (p ++ (c ∷ [])) - 1)
          (omega (arith, length-append p (c ∷ []))))
        (rw ((==_iff c c).1 refl) refl))

in_parentheses : (p : Bytes) → IsWrapped (b'(' ∷ (p ++ (b')' ∷ [])))
unfolding has_prefix
in_parentheses p = record {
  some_filter = refl;
  starts = refl;
  closes = has_suffix-snoc (b'(' ∷ p) b')';
}

pub filter_of-IsWrapped : (l : Listener) (x : NetInterface) → IsWrapped (filter_of l x)
unfolding filter_of has_prefix
filter_of-IsWrapped l x = elim (Bool-cases (listen_all l.host || is_device l.host x)) [
  | inl e ↦ rw e (in_parentheses _)
  | inr e ↦ rw e (
      subst (λ t. IsWrapped (b'(' ∷ t)) (append_assoc _ (codes " and host " ++ l.host) (b')' ∷ []))
        (in_parentheses _))
]

Opened-cases : (o : Opened) → ((h : Handle) × (o ≡ opens h)) ⊎ ((e : HandleError) × (o ≡ fails e))
Opened-cases (opens h) = inl (h, refl)
Opened-cases (fails e) = inr (e, refl)

abbrev pub Filtered : Bytes → List (Bytes × Handle) → Type 0
Filtered f handles = All (λ e. e.1.filter ≡ f) handles

put_handle-Filtered :
    (f name : Bytes) (h : Handle) (handles : List (Bytes × Handle))
    → h.filter ≡ f
    → Filtered f handles
    → Filtered f (put_handle name h handles)
unfolding put_handle
put_handle-Filtered f name h [] e a = (e, tt)
put_handle-Filtered f name h ((n, old) ∷ more) e a = elim (Bool-cases (equal n name)) [
  | inl same ↦ rw same (e, a.1)
  | inr other ↦ rw other (a.0, put_handle-Filtered f name h more e a.1)
]

module _ (l : Listener) (f : Bytes) (w : IsWrapped f) where
  -- While the interfaces are opened: the listener has no filter or this one, and the handles have this one.
  pub record IsFiltered (m : Listener) : Type 0 where
    pub own : (x : NetInterface) → filter_of m x ≡ filter_of l x
    pub filter_set : (m.options.bpf_filter ≡ []) ⊎ (m.options.bpf_filter ≡ f)
    pub filtered : Filtered f m.handles

  bpf_filter_of-IsFiltered :
      (m : Listener) (ifi : NetInterface)
      → IsFiltered m
      → filter_of l ifi ≡ f
      → bpf_filter_of m ifi ≡ f
  unfolding bpf_filter_of filter_of
  bpf_filter_of-IsFiltered m ifi v e = elim v.filter_set [
    | inl unset ↦ rw unset (v.own ifi ∙ e)
    | inr set ↦ rw set (rw w.some_filter (rw w.starts (rw w.closes refl)))
  ]

  opened-IsFiltered :
      (m : Listener) (ifi : NetInterface) (r : Listener × Opened)
      → IsOpening m ifi r
      → IsFiltered m
      → filter_of l ifi ≡ f
      → IsFiltered r.0
  opened-IsFiltered m ifi r o v e = record {
    own = λ x. o.own x ∙ v.own x;
    filter_set = elim o.filter_set [
      | inl same ↦ elim v.filter_set [ inl unset ↦ inl (same ∙ unset) | inr set ↦ inr (same ∙ set) ]
      | inr now ↦ inr (now ∙ bpf_filter_of-IsFiltered m ifi v e)
    ];
    filtered = subst (Filtered f) (sym o.handles_same) v.filtered;
  }

  put-IsFiltered :
      (m : Listener) (name : Bytes) (h : Handle)
      → h.filter ≡ f
      → IsFiltered m
      → IsFiltered (record m { handles = put_handle name h m.handles })
  unfolding filter_of
  put-IsFiltered m name h e v = record {
    own = v.own;
    filter_set = v.filter_set;
    filtered = put_handle-Filtered f name h m.handles e v.filtered;
  }

  -- Every handle that is opened has the filter that all the interfaces have in common.
  pub open_each-IsFiltered :
      (devices : NetInterface → Device)
      (handle_of : Device → Listener → NetInterface → Listener × Opened)
      → ((d : Device) (m : Listener) (ifi : NetInterface) → IsOpening m ifi (handle_of d m ifi))
      → (ifis : List NetInterface) (m : Listener) (last : Option HandleError)
      → All (λ ifi. filter_of l ifi ≡ f) ifis
      → IsFiltered m
      → IsFiltered (open_each devices handle_of ifis m last).0
  unfolding open_each
  open_each-IsFiltered devices handle_of opening [] m last a v = v
  open_each-IsFiltered devices handle_of opening (ifi ∷ more) m last a v =
      let o = opening (devices ifi) m ifi in
      let next = opened-IsFiltered m ifi (handle_of (devices ifi) m ifi) o v a.0 in
      elim (Opened-cases (handle_of (devices ifi) m ifi).1) [
        | inl (h, is) ↦
            rw (is, open_each)
              (open_each-IsFiltered devices handle_of opening more _ none a.1 (
                put-IsFiltered _ ifi.interface.name h
                  (o.handle_has h is ∙ bpf_filter_of-IsFiltered m ifi v a.0) next))
        | inr (e, is) ↦
            rw (is, open_each)
              (open_each-IsFiltered devices handle_of opening more _ (some e) a.1 next)
      ]
