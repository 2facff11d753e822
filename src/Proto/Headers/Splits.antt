-- ===== src/Proto/Headers/Splits.antt =====
-- A payload split at the first field of a name, and the edits at that field.
use goreplay.Base.{
  ◌+◌, ◌≡◌, refl, sym, ap, ◌∙◌, true, false, Bytes, done, arith, length, length-append,
  append_assoc, [], ◌∷◌, ◌++◌, List, Bool-cases, inl, inr,
}
use goreplay.ByteUtils.{cut, replace}
use goreplay.ByteUtils.Laws.{cut-append, replace-append}
use goreplay.Proto.Headers.{set_header, delete_header, equal_fold}
use goreplay.Proto.Headers.Fields.{
  Field, line, render, message, value_of, has_field, change_field, set_field, delete_field,
}
use goreplay.Proto.Headers.Refine.{IsMessage, title_line, header-hit, message-title_line}
use goreplay.Proto.Headers.Scan.{content, block, line-content, render-block, render-append, Misses}

-- The fields up to the first of a name, that field, and the fields behind it.
pub record First (name : Bytes) (fs : List Field) : Type 0 where
  pub before : List Field
  pub field : Field
  pub after : List Field
  pub splits : fs ≡ before ++ (field ∷ after)
  pub passed : Misses name before
  pub hit : equal_fold field.name name ≡ true

pub data Search (name : Bytes) (fs : List Field) : Type 0 where
  absent : Misses name fs → Search name fs
  present : First name fs → Search name fs

pub Search-fields : (name : Bytes) (fs : List Field) → Search name fs
Search-fields name [] = absent tt
Search-fields name (f ∷ fs) = elim (Bool-cases (equal_fold f.name name)) [
  | inl hit ↦
      present (record { before = []; field = f; after = fs; splits = refl; passed = tt; hit = hit })
  | inr miss ↦ elim (Search-fields name fs) [
    | absent ms ↦ absent (miss, ms)
    | present r ↦ present (record {
      before = f ∷ r.before;
      field = r.field;
      after = r.after;
      splits = ap (◌∷◌ f) r.splits;
      passed = (miss, r.passed);
      hit = r.hit;
    })
  ]
]

-- The list operations on a list without that name, and on one that is split at it.
module _ (name : Bytes) where
  pub value_of-absent : (fs : List Field) → Misses name fs → value_of name fs ≡ []
  value_of-absent [] h = refl
  value_of-absent (f ∷ fs) (m, h) = rw m (value_of-absent fs h)

  pub has_field-absent : (fs : List Field) → Misses name fs → has_field name fs ≡ false
  has_field-absent [] h = refl
  has_field-absent (f ∷ fs) (m, h) = rw m (has_field-absent fs h)

  pub delete_field-absent : (fs : List Field) → Misses name fs → delete_field name fs ≡ fs
  delete_field-absent [] h = refl
  delete_field-absent (f ∷ fs) (m, h) = rw m (ap (◌∷◌ f) (delete_field-absent fs h))

  module _ (f : Field) (after : List Field) (hit : equal_fold f.name name ≡ true) where
    pub value_of-split :
        (fs : List Field) → Misses name fs → value_of name (fs ++ (f ∷ after)) ≡ f.value
    value_of-split [] h = rw hit
    value_of-split (g ∷ fs) (m, h) = rw m (value_of-split fs h)

    pub has_field-split :
        (fs : List Field) → Misses name fs → has_field name (fs ++ (f ∷ after)) ≡ true
    has_field-split [] h = rw hit
    has_field-split (g ∷ fs) (m, h) = rw m (has_field-split fs h)

    pub delete_field-split :
        (fs : List Field) → Misses name fs → delete_field name (fs ++ (f ∷ after)) ≡ fs ++ after
    delete_field-split [] h = rw hit
    delete_field-split (g ∷ fs) (m, h) = rw m (ap (◌∷◌ g) (delete_field-split fs h))

    pub change_field-split :
        (value : Bytes) (fs : List Field)
        → Misses name fs
        → change_field name value (fs ++ (f ∷ after)) ≡ fs ++ (record f { value = value } ∷ after)
    change_field-split value [] h = rw hit
    change_field-split value (g ∷ fs) (m, h) = rw m (ap (◌∷◌ g) (change_field-split value fs h))

    pub set_field-split :
        (value : Bytes) (fs : List Field)
        → Misses name fs
        → set_field name value (fs ++ (f ∷ after)) ≡ fs ++ (record f { value = value } ∷ after)
    set_field-split value fs h = rw (has_field-split fs h) (change_field-split value fs h)

-- What stands before a field of a payload, and what stands behind it.
module _ (title : Bytes) (before : List Field) (f : Field) (after : List Field) (body : Bytes) where
  abbrev pub front : Bytes
  front = title_line title ++ block before

  abbrev pub tail : Bytes
  tail = render after (b'\r' ∷ b'\n' ∷ body)

  -- The payload round the field's line, and round its value, whatever the value is.
  pub message-front :
      (g : Field) → message title (before ++ (g ∷ after)) body ≡ front ++ line g tail
  message-front g =
      message-title_line title (before ++ (g ∷ after)) body
      ∙ ap (◌++◌ (title_line title)) (
          render-append before (g ∷ after) (b'\r' ∷ b'\n' ∷ body)
          ∙ render-block before (line g tail))
      ∙ sym (append_assoc (title_line title) (block before) (line g tail))

  abbrev pub value_front : Bytes
  value_front = front ++ (f.name ++ (b':' ∷ f.lead))

  abbrev pub value_tail : Bytes
  value_tail = f.trail ++ (b'\r' ∷ b'\n' ∷ tail)

  pub message-value :
      (v : Bytes)
      → message title (before ++ (record f { value = v } ∷ after)) body
        ≡ value_front ++ (v ++ value_tail)
  message-value v =
      message-front (record f { value = v })
      ∙ ap (◌++◌ front) line_value
      ∙ sym (append_assoc front _ _)
    where
      line_value :
          line (record f { value = v }) tail ≡ (f.name ++ (b':' ∷ f.lead)) ++ (v ++ value_tail)
      line_value = simp append_assoc

  message-without : message title (before ++ after) body ≡ front ++ tail
  message-without =
      message-title_line title (before ++ after) body
      ∙ ap (◌++◌ (title_line title))
          (render-append before after (b'\r' ∷ b'\n' ∷ body) ∙ render-block before tail)
      ∙ sym (append_assoc (title_line title) (block before) tail)

  module _ (name : Bytes) (w : IsMessage title (before ++ (f ∷ after))) (ms : Misses name before)
      (hit : equal_fold f.name name ≡ true) where
    pub set_header-split :
        (v : Bytes)
        → set_header (message title (before ++ (f ∷ after)) body) name v
          ≡ done (message title (before ++ (record f { value = v } ∷ after)) body)
    unfolding set_header
    set_header-split v =
        rw (header-hit title before f after body name w ms hit, set_header)
          (ap
              (λ u.
                replace u (length front + length f.name + 1 + length f.lead)
                  (length front + length f.name + length f.lead + length f.value + 1) v)
              (message-value f.value)
            ∙ replace-append value_front f.value value_tail v _ _ (omega (arith, lengths))
                (omega (arith, lengths))
            ∙ ap done (sym (message-value v)))
      where
        lengths : length value_front ≡ length front + length f.name + 1 + length f.lead
        lengths = omega (
          arith,
          length-append front (f.name ++ (b':' ∷ f.lead)),
          length-append f.name (b':' ∷ f.lead),
        )

    pub delete_header-split :
        delete_header (message title (before ++ (f ∷ after)) body) name
        ≡ done (message title (before ++ after) body)
    unfolding delete_header
    delete_header-split =
        rw (header-hit title before f after body name w ms hit, delete_header)
          (ap (λ u. cut u (length front) (length front + length (content f) + 1))
              (message-front f ∙ ap (◌++◌ front) (render-block (f ∷ []) tail))
            ∙ cut-append front (block (f ∷ [])) tail _ _ refl (
                omega
                  (arith, ap length (line-content f []), length-append (content f) (b'\n' ∷ [])))
            ∙ ap done (sym message-without))
