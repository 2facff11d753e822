-- ===== src/Proto/Headers/Locate.antt =====
-- The part of `header` behind the search loop, on the line of a field.
use goreplay.Base.{
  ℕ, suc, ◌+◌, ◌-◌, ◌≤◌, ◌≡◌, ◌⊎◌, inl, inr, refl, sym, ap, ◌∙◌, subst, Bytes, Outcome, done, arith,
  All, length, length-append, append_assoc, [], ◌∷◌, ◌++◌, slice, slice-append,
}
use goreplay.Proto.Headers.{Found, locate, trim_start, trim_end}
use goreplay.Proto.Headers.Fields.{Field, IsField, IsBlank, IsSolid, padded, line}
use goreplay.Proto.Headers.Scan.{content}
use goreplay.Proto.Headers.Trim.{
  BlankAt, SolidAt, BlankAt-part, SolidAt-part, trim_start_lem, trim_end_lem, trim_start_stays,
  trim_end_stays,
}

module _ (front lead value trail rest : Bytes) where
  abbrev whole : Bytes
  whole = front ++ (lead ++ (value ++ (trail ++ rest)))

  regroup_value : whole ≡ (front ++ lead) ++ (value ++ (trail ++ rest))
  regroup_value = sym (append_assoc front lead (value ++ (trail ++ rest)))

  regroup_trail : whole ≡ ((front ++ lead) ++ value) ++ (trail ++ rest)
  regroup_trail = regroup_value ∙ sym (append_assoc (front ++ lead) value (trail ++ rest))

  abbrev value_at : ℕ
  value_at = length front + length lead

  module _ (leads : All IsBlank lead) (trails : All IsBlank trail) where
    starts :
        (j : ℕ)
        → value_at ≤ j
        → IsSolid value
        → trim_start (suc (length whole)) whole (length front) j ≡ done value_at
    starts j h s =
        trim_start_lem (suc (length whole)) whole (length front) value_at j
          (omega (
            arith,
            length-append front (lead ++ (value ++ (trail ++ rest))),
            length-append lead (value ++ (trail ++ rest)),
          ))
          (omega arith) h
          (λ k a b.
            BlankAt-part front lead (value ++ (trail ++ rest)) (k - length front) k leads
              (omega arith) (omega arith))
          (λ _.
            subst (λ u. SolidAt u value_at) (sym seam)
              (SolidAt-part (front ++ lead) (s.behind ++ (trail ++ rest)) s.first value_at
                s.first_solid (omega (arith, length-append front lead))))
      where
        seam : whole ≡ (front ++ lead) ++ (s.first ∷ (s.behind ++ (trail ++ rest)))
        seam = regroup_value ∙ ap (λ u. (front ++ lead) ++ (u ++ (trail ++ rest))) s.starts

    ends :
        (i j : ℕ)
        → IsSolid value
        → i ≡ value_at
        → j + 1 ≡ value_at + length value + length trail
        → trim_end (suc (length whole)) whole i j ≡ done (value_at + length value - 1)
    ends i j s h e =
        trim_end_lem (suc (length whole)) whole i (value_at + length value - 1) j
          (omega (arith, len, size)) (omega (arith, size)) (omega (arith, size))
          (λ k a b.
            subst (λ u. BlankAt u k) (sym regroup_trail)
              (BlankAt-part ((front ++ lead) ++ value) trail rest (k - (value_at + length value)) k
                trails (omega (arith, size)) (omega (arith, size, seam_length))))
          (λ _.
            subst (λ u. SolidAt u (value_at + length value - 1)) (sym seam)
              (SolidAt-part ((front ++ lead) ++ s.before) (trail ++ rest) s.last _ s.last_solid (
                omega
                  (arith, size, length-append (front ++ lead) s.before, length-append front lead))))
      where
        size : length value ≡ length s.before + 1
        size = ap length s.ends ∙ length-append s.before (s.last ∷ [])

        seam_length : length ((front ++ lead) ++ value) ≡ value_at + length value
        seam_length = omega (arith, length-append (front ++ lead) value, length-append front lead)

        len : length whole ≡ value_at + length value + length trail + length rest
        len =
            ap length regroup_trail
            ∙ omega (
              arith,
              seam_length,
              length-append ((front ++ lead) ++ value) (trail ++ rest),
              length-append trail rest,
            )

        seam : whole ≡ ((front ++ lead) ++ s.before) ++ (s.last ∷ (trail ++ rest))
        seam =
            regroup_value
            ∙ ap (λ u. (front ++ lead) ++ (u ++ (trail ++ rest))) s.ends
            ∙ ap (λ u. (front ++ lead) ++ u) (append_assoc s.before (s.last ∷ []) (trail ++ rest))
            ∙ sym (append_assoc (front ++ lead) s.before (s.last ∷ (trail ++ rest)))

    found_value :
        (i j : ℕ) → i ≡ value_at → j ≡ value_at + length value → slice whole i j ≡ done value
    found_value i j h e =
        ap (λ u. slice u i j) regroup_value
        ∙ slice-append (front ++ lead) value (trail ++ rest) i j
            (omega (arith, length-append front lead)) (omega (arith, length-append front lead))

    -- The part of `header` behind the search, on a field's line.
    locate_solid :
        (hs he colon : ℕ)
        → IsSolid value
        → colon + 1 ≡ length front
        → he ≡ value_at + length value + length trail + 1
        → locate whole (hs, he, colon)
          ≡ done (record {
            value = value;
            header_start = hs;
            header_end = he;
            value_start = value_at;
            value_end = value_at + length value - 1;
          })
    unfolding locate
    locate_solid hs he colon s c e =
        let pos : length value ≡ length s.behind + 1 = ap length s.starts ∙ omega arith in
        let first : trim_start (suc (length whole)) whole (colon + 1) (he - 2) ≡ done value_at =
          ap (λ u. trim_start (suc (length whole)) whole u (he - 2)) c
          ∙ starts (he - 2) (omega (arith, pos)) s in
        let last : trim_end (suc (length whole)) whole value_at (he - 2)
            ≡ done (value_at + length value - 1) =
          ends value_at (he - 2) s refl (omega (arith, pos)) in
        let cut : slice whole value_at (value_at + length value - 1 + 1) ≡ done value =
          found_value value_at (value_at + length value - 1 + 1) refl (omega (arith, pos)) in
        rw first (rw last (rw cut))

module _ (front rest : Bytes) where
  -- A value that is empty, with no blanks: the trimming loops make no round.
  locate_empty :
      (hs he colon : ℕ)
      → colon + 1 ≡ length front
      → he ≡ length front + 1
      → locate (front ++ rest) (hs, he, colon)
        ≡ done (record {
          value = [];
          header_start = hs;
          header_end = he;
          value_start = length front;
          value_end = length front - 1;
        })
  unfolding locate
  locate_empty hs he colon c e =
      let n = length (front ++ rest) in
      let first : trim_start (suc n) (front ++ rest) (colon + 1) (he - 2) ≡ done (length front) =
        trim_start_stays n (front ++ rest) (colon + 1) (he - 2) (omega arith) ∙ ap done c in
      let last : trim_end (suc n) (front ++ rest) (length front) (he - 2)
          ≡ done (length front - 1) =
        trim_end_stays n (front ++ rest) (length front) (he - 2) (omega arith)
        ∙ ap done (omega arith) in
      let cut : slice (front ++ rest) (length front) (length front - 1 + 1) ≡ done [] =
        slice-append front [] rest (length front) (length front - 1 + 1) refl (omega arith) in
      rw first (rw last (rw cut))

-- What `header` returns for a field that stands behind `front`.
abbrev pub found_at : Bytes → Field → Found
found_at front f = record {
  value = f.value;
  header_start = length front;
  header_end = length front + length (content f);
  value_start = length front + length f.name + 1 + length f.lead;
  value_end = length front + length f.name + length f.lead + length f.value;
}

pub length-content :
    (f : Field)
    → length (content f) ≡ length f.name + 1 + length f.lead + length f.value + length f.trail + 1
length-content f = omega (
  arith,
  length-append f.name (b':' ∷ padded f),
  length-append f.lead (f.value ++ (f.trail ++ (b'\r' ∷ []))),
  length-append f.value (f.trail ++ (b'\r' ∷ [])),
  length-append f.trail (b'\r' ∷ []),
)

found_eq :
    {v v' : Bytes} (hs he : ℕ) {a a' b b' : ℕ}
    → v ≡ v'
    → a ≡ a'
    → b ≡ b'
    → ◌≡◌ {A = Outcome Found}
        (done (record {
          value = v;
          header_start = hs;
          header_end = he;
          value_start = a;
          value_end = b;
        }))
        (done (record {
          value = v';
          header_start = hs;
          header_end = he;
          value_start = a';
          value_end = b';
        }))
found_eq hs he p q r = λ i.
    done (record {
      value = p i;
      header_start = hs;
      header_end = he;
      value_start = q i;
      value_end = r i;
    })

pub locate-line :
    (front : Bytes) (f : Field) (rest : Bytes)
    → IsField f
    → locate
        (front ++ line f rest)
        (length front, length front + length (content f), length front + length f.name)
      ≡ done (found_at front f)
locate-line front f rest w = by_trim w.trimmed
  where
    hs : ℕ
    hs = length front

    he : ℕ
    he = length front + length (content f)

    colon : ℕ
    colon = length front + length f.name

    label : Bytes
    label = front ++ (f.name ++ (b':' ∷ []))

    label_length : length label ≡ length front + length f.name + 1
    label_length =
        omega (arith, length-append front (f.name ++ (b':' ∷ [])), length-append f.name (b':' ∷ []))

    at_label : colon + 1 ≡ length label
    at_label = omega (arith, label_length)

    after : Bytes
    after = b'\r' ∷ b'\n' ∷ rest

    seam : front ++ line f rest ≡ label ++ (f.lead ++ (f.value ++ (f.trail ++ after)))
    seam = simp append_assoc

    by_trim :
        ((f.lead ≡ []) × (f.value ≡ []) × (f.trail ≡ [])) ⊎ IsSolid f.value
        → locate
            (front ++ line f rest)
            (length front, length front + length (content f), length front + length f.name)
          ≡ done (found_at front f)
    by_trim (inl (a, b, c)) =
        ap (λ u. locate u (hs, he, colon)) (seam ∙ rw (a, b, c))
        ∙ locate_empty label after hs he colon at_label
            (omega (arith, label_length, length-content f, ap length a, ap length b, ap length c))
        ∙ found_eq hs he (sym b) (omega (arith, label_length, ap length a))
            (omega (arith, label_length, ap length a, ap length b))
    by_trim (inr s) =
        ap (λ u. locate u (hs, he, colon)) seam
        ∙ locate_solid label f.lead f.value f.trail after w.lead_blank w.trail_blank hs he colon s
            at_label (omega (arith, label_length, length-content f))
        ∙ found_eq hs he refl (omega (arith, label_length)) (omega (arith, label_length))
