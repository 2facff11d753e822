-- ===== src/Proto/Headers/Edits.antt =====
-- `Header`, `SetHeader`, `AddHeader` and `DeleteHeader` on a well-formed payload are the operations
-- on its list of fields.
use goreplay.Base.{
  ℕ, ◌+◌, ◌-◌, ◌≡◌, refl, sym, ap, ◌∙◌, Bytes, done, ◌>>=◌, arith, length, length-append,
  append_assoc, [], ◌∷◌, ◌++◌, List, subst, if◌then◌else◌, replicate, length-replicate, drop,
  length-drop, drop-all,
}
use goreplay.ByteUtils.{insert, copy_from}
use goreplay.ByteUtils.Laws.{insert-append, copy_from-append}
use goreplay.Proto.Headers.{
  header_value, header_line, add_header, set_header, delete_header, header_delim, crlf,
}
use goreplay.Proto.Headers.Fields.{
  Field, render, message, value_of, add_field, change_field, set_field, delete_field,
}
use goreplay.Proto.Headers.Refine.{
  IsMessage, title_line, header-hit, header-miss, mime_headers_start_pos-message,
  message-title_line,
}
use goreplay.Proto.Headers.Splits.{
  absent, present, Search-fields, value_of-absent, has_field-absent, delete_field-absent,
  value_of-split, set_field-split, delete_field-split, set_header-split, delete_header-split,
}

-- `AddHeader` writes the line `Name: value` into its buffer.
header_line_lem :
    (name value : Bytes)
    → header_line name value ≡ done (name ++ (b':' ∷ b' ' ∷ (value ++ (b'\r' ∷ b'\n' ∷ []))))
unfolding header_line
header_line_lem name value = rw (copy_from-append [] buf name 0 refl (omega (arith, l0))) (
    rw (copy_from-append name t1 header_delim (length name) refl (omega (arith, l1))) (
      ap (λ u. copy_from u (length name + 2) value >>= λ c. copy_from c (length c - 2) crlf)
        (sym (append_assoc name header_delim t2))
      ∙ rw
          (copy_from-append (name ++ header_delim) t2 value (length name + 2)
            (omega (arith, length-append name header_delim)) (omega (arith, l2)))
          (ap (λ u. copy_from u (length u - 2) crlf)
              (sym (append_assoc (name ++ header_delim) value t3))
            ∙ copy_from-append ((name ++ header_delim) ++ value) t3 crlf _ at_end
                (omega (arith, l3))
            ∙ ap (λ u. done (((name ++ header_delim) ++ value) ++ (crlf ++ u)))
                (drop-all crlf_size t3 (omega (arith, l3)))
            ∙ ap done regroup)))
  where
    crlf_size : ℕ
    crlf_size = 2

    buf : Bytes
    buf = replicate (length name + 2 + length value + 2) 0

    t1 : Bytes
    t1 = drop (length name) buf

    t2 : Bytes
    t2 = drop 2 t1

    t3 : Bytes
    t3 = drop (length value) t2

    l0 : length buf ≡ length name + 2 + length value + 2
    l0 = length-replicate (length name + 2 + length value + 2) 0

    l1 : length t1 ≡ 2 + length value + 2
    l1 = omega (arith, l0, length-drop (length name) buf)

    l2 : length t2 ≡ length value + 2
    l2 = omega (arith, l1, length-drop 2 t1)

    l3 : length t3 ≡ 2
    l3 = omega (arith, l2, length-drop (length value) t2)

    at_end :
        length (((name ++ header_delim) ++ value) ++ t3) - 2
        ≡ length ((name ++ header_delim) ++ value)
    at_end = omega (arith, l3, length-append ((name ++ header_delim) ++ value) t3)

    regroup :
        ((name ++ header_delim) ++ value) ++ (crlf ++ [])
        ≡ name ++ (b':' ∷ b' ' ∷ (value ++ (b'\r' ∷ b'\n' ∷ [])))
    regroup = simp append_assoc

module _ (title : Bytes) (fs : List Field) (body : Bytes) (w : IsMessage title fs) where
  -- `Header` gives the value of the first field of that name, and no bytes if there is none.
  pub header_value-message :
      (name : Bytes) → header_value (message title fs body) name ≡ done (value_of name fs)
  unfolding header_value
  header_value-message name = elim (Search-fields name fs) [
    | absent ms ↦
        rw (header-miss title fs body name w ms, header_value)
          (ap done (sym (value_of-absent name fs ms)))
    | present r ↦
        subst
          (λ gs.
            IsMessage title gs
            → header_value (message title gs body) name ≡ done (value_of name gs))
          (sym r.splits)
          (λ w'.
            rw (header-hit title r.before r.field r.after body name w' r.passed r.hit, header_value)
              (ap done (sym (value_of-split name r.field r.after r.hit r.before r.passed))))
          w
  ]

  -- `AddHeader` puts the field in front of the others.
  pub add_header-message :
      (name value : Bytes)
      → add_header (message title fs body) name value
        ≡ done (message title (add_field name value fs) body)
  unfolding add_header
  add_header-message name value =
      let f : Field = record { name = name; lead = b' ' ∷ []; value = value; trail = [] } in
      let rest = render fs (b'\r' ∷ b'\n' ∷ body) in
      rw (header_line_lem name value) (
        rw (mime_headers_start_pos-message title fs body w.title_no_newline) (
          ap
            (λ u.
              insert u (length (title_line title))
                (name ++ (b':' ∷ b' ' ∷ (value ++ (b'\r' ∷ b'\n' ∷ [])))))
            (message-title_line title fs body)
          ∙ insert-append (title_line title) rest _ _ refl
          ∙ ap (λ u. done (title_line title ++ u)) regroup
          ∙ ap done (sym (message-title_line title (f ∷ fs) body))))
    where
      regroup :
          (name ++ (b':' ∷ b' ' ∷ (value ++ (b'\r' ∷ b'\n' ∷ []))))
            ++ render fs (b'\r' ∷ b'\n' ∷ body)
          ≡ render (add_field name value fs) (b'\r' ∷ b'\n' ∷ body)
      regroup = simp append_assoc

  -- `SetHeader` changes the value of the first field of that name, or adds the field.
  pub set_header-message :
      (name value : Bytes)
      → set_header (message title fs body) name value
        ≡ done (message title (set_field name value fs) body)
  unfolding set_header
  set_header-message name value = elim (Search-fields name fs) [
    | absent ms ↦
        rw (header-miss title fs body name w ms, set_header)
          (add_header-message name value
            ∙ ap
                (λ b. done (
                  message title (if b then change_field name value fs else add_field name value fs)
                    body))
                (sym (has_field-absent name fs ms)))
    | present r ↦
        subst
          (λ gs.
            IsMessage title gs
            → set_header (message title gs body) name value
              ≡ done (message title (set_field name value gs) body))
          (sym r.splits)
          (λ w'.
            set_header-split title r.before r.field r.after body name w' r.passed r.hit value
            ∙ ap (λ gs. done (message title gs body))
                (sym (set_field-split name r.field r.after r.hit value r.before r.passed)))
          w
  ]

  -- `DeleteHeader` removes the first field of that name.
  pub delete_header-message :
      (name : Bytes)
      → delete_header (message title fs body) name
        ≡ done (message title (delete_field name fs) body)
  unfolding delete_header
  delete_header-message name = elim (Search-fields name fs) [
    | absent ms ↦
        rw (header-miss title fs body name w ms, delete_header)
          (ap (λ gs. done (message title gs body)) (sym (delete_field-absent name fs ms)))
    | present r ↦
        subst
          (λ gs.
            IsMessage title gs
            → delete_header (message title gs body) name
              ≡ done (message title (delete_field name gs) body))
          (sym r.splits)
          (λ w'.
            delete_header-split title r.before r.field r.after body name w' r.passed r.hit
            ∙ ap (λ gs. done (message title gs body))
                (sym (delete_field-split name r.field r.after r.hit r.before r.passed)))
          w
  ]

  -- On a well-formed payload `Header` gives the trimmed value of the first field of that name, and no bytes if there is
  -- none; `SetHeader` changes that field or adds one, `AddHeader` adds one in front of the others, and `DeleteHeader`
  -- removes that field; no byte of the other fields or of the body changes.
  pub operations-message :
      (name value : Bytes)
      → (header_value (message title fs body) name ≡ done (value_of name fs))
        × (set_header (message title fs body) name value
            ≡ done (message title (set_field name value fs) body))
        × (add_header (message title fs body) name value
            ≡ done (message title (add_field name value fs) body))
        × (delete_header (message title fs body) name
            ≡ done (message title (delete_field name fs) body))
  operations-message name value = (
    header_value-message name,
    set_header-message name value,
    add_header-message name value,
    delete_header-message name,
  )
