-- ===== src/Tcp/Store.antt =====
-- Go maps from texts and a heap of cells, as the pool of tcp/tcp_message.go uses them.
use mathlib.Core.Option.{some-injective}
use goreplay.Base.{
  ℕ, zero, suc, ◌≡◌, ◌≢◌, refl, sym, ap, ◌∙◌, ◌⊎◌, inl, inr, true, Bytes, List, [], ◌∷◌, ◌++◌,
  Option, none, some, length, get_elem?, equal, equal_iff, if◌then◌else◌, arith, Bool-cases,
}

abbrev pub Map : Type 0
Map = List (Bytes × ℕ)

-- `m[k]`, `delete(m, k)` and `m[k] = v`
unfoldable pub lookup : Map → Bytes → Option ℕ
lookup [] k = none
lookup ((k', v) ∷ m) k = if equal k' k then some v else lookup m k

unfoldable pub delete : Map → Bytes → Map
delete [] k = []
delete ((k', v) ∷ m) k = let rest = delete m k in if equal k' k then rest else (k', v) ∷ rest

unfoldable pub store : Map → Bytes → ℕ → Map
store m k v = (k, v) ∷ delete m k

pub equal_refl : (k : Bytes) → equal k k ≡ true
equal_refl k = (equal_iff k k).1 refl

pub lookup-delete_same : (m : Map) (k : Bytes) → lookup (delete m k) k ≡ none
unfolding lookup delete
lookup-delete_same [] k = refl
lookup-delete_same ((a, b) ∷ m) k = elim (Bool-cases (equal a k)) [
  | inl h ↦ rw h (lookup-delete_same m k)
  | inr h ↦ rw h (rw h (lookup-delete_same m k))
]

pub lookup-delete-some :
    (m : Map) (k k' : Bytes) (v : ℕ) → lookup (delete m k) k' ≡ some v → lookup m k' ≡ some v
unfolding lookup delete
lookup-delete-some [] k k' v e = e
lookup-delete-some ((a, b) ∷ m) k k' v e = elim (Bool-cases (equal a k)) [
  | inl h ↦ elim (Bool-cases (equal a k')) [
    | inl h' ↦
        (let same : k ≡ k' = sym ((equal_iff a k).0 h) ∙ (equal_iff a k').0 h' in
          let gone : lookup (delete m k) k' ≡ none =
            ap (λ u. lookup (delete m u) k') same ∙ lookup-delete_same m k' in
          let found : lookup (delete m k) k' ≡ some v = rw h at e in cc)
    | inr h' ↦ rw h' (lookup-delete-some m k k' v (rw h at e))
  ]
  | inr h ↦ elim (Bool-cases (equal a k')) [
    | inl h' ↦ rw h' (rw (h, h') at e)
    | inr h' ↦ rw h' (lookup-delete-some m k k' v (rw (h, h') at e))
  ]
]

-- A cell of the heap, changed in place.
unfoldable pub modify {ℓ} : {A : Type ℓ} → ℕ → (A → A) → List A → List A
modify i f [] = []
modify zero f (x ∷ xs) = f x ∷ xs
modify (suc i) f (x ∷ xs) = x ∷ modify i f xs

pub length-modify {ℓ} :
    {A : Type ℓ} (i : ℕ) (f : A → A) (xs : List A) → length (modify i f xs) ≡ length xs
unfolding modify
length-modify i f [] = refl
length-modify zero f (x ∷ xs) = refl
length-modify (suc i) f (x ∷ xs) = ap suc (length-modify i f xs)

-- A cell behind a change is the cell in front of it, changed or not.
pub get_elem?-modify {ℓ} :
    {A : Type ℓ} (i : ℕ) (f : A → A) (xs : List A) (j : ℕ) (y : A)
    → get_elem? (modify i f xs) j ≡ some y
    → ((x : A) × (i ≡ j) × (get_elem? xs j ≡ some x) × (y ≡ f x))
      ⊎ ((i ≢ j) × (get_elem? xs j ≡ some y))
unfolding modify
get_elem?-modify i f [] j y e = cc
get_elem?-modify zero f (x ∷ xs) zero y e = inl (x, refl, refl, sym (some-injective (f x) y e))
get_elem?-modify zero f (x ∷ xs) (suc j) y e = inr ((λ e. omega arith), e)
get_elem?-modify (suc i) f (x ∷ xs) zero y e = inr ((λ e. omega arith), e)
get_elem?-modify (suc i) f (x ∷ xs) (suc j) y e = elim (get_elem?-modify i f xs j y e) [
  | inl (z, same, found, is) ↦ inl (z, ap suc same, found, is)
  | inr (other, found) ↦ inr ((λ h. other (omega (arith, h))), found)
]

-- A cell of a heap with one more cell at its end is an old one or the new one.
pub get_elem?-snoc {ℓ} :
    {A : Type ℓ} (xs : List A) (x : A) (j : ℕ) (y : A)
    → get_elem? (xs ++ (x ∷ [])) j ≡ some y
    → ((j ≡ length xs) × (y ≡ x)) ⊎ (get_elem? xs j ≡ some y)
get_elem?-snoc [] x zero y e = inl (refl, cc)
get_elem?-snoc [] x (suc j) y e = cc
get_elem?-snoc (z ∷ xs) x zero y e = inr e
get_elem?-snoc (z ∷ xs) x (suc j) y e = elim (get_elem?-snoc xs x j y e) [
  | inl (last, is) ↦ inl (ap suc last, is)
  | inr old ↦ inr old
]
