-- ===== src/Plugins/Roles.antt =====
-- Where a plugin is listed.
use goreplay.Base.{
  ℕ, ◌+◌, ◌≡◌, refl, Bool, true, false, not, ◌&&◌, Bool-cases, inl, inr, Bytes, List, [], ◌∷◌, ◌++◌,
  length, length-append, All, All-append, arith, if◌then◌else◌,
}
use goreplay.Plugins.{
  Kind, dummy_in, dummy_out, null_out, raw_in, tcp_in, tcp_out, file_in, s3_out, file_out, http_in,
  http_out, binary_out, kafka_out, kafka_in, is_writer, is_reader, Plugin, InOutPlugins,
  extract_limit_options, register_plugin, register_all, new_plugins, Settings, planned,
}

-- The inputs only read, the outputs write, and every plugin is one of them.
pub record IsDivided (p : InOutPlugins) : Type 0 where
  pub readers : All (λ i. (is_reader i.kind ≡ true) × (is_writer i.kind ≡ false)) p.inputs
  pub writers : All (λ o. is_writer o.kind ≡ true) p.outputs
  pub whole : length p.every_one ≡ length p.inputs + length p.outputs

reads-or_writes : (k : Kind) → is_writer k ≡ false → is_reader k ≡ true
reads-or_writes dummy_in h = refl
reads-or_writes raw_in h = refl
reads-or_writes tcp_in h = refl
reads-or_writes file_in h = refl
reads-or_writes http_in h = refl
reads-or_writes kafka_in h = refl
reads-or_writes dummy_out h = cc
reads-or_writes null_out h = cc
reads-or_writes tcp_out h = cc
reads-or_writes s3_out h = cc
reads-or_writes file_out h = cc
reads-or_writes http_out h = cc
reads-or_writes binary_out h = cc
reads-or_writes kafka_out h = cc

abbrev with_if {ℓ} : {A : Type ℓ} → Bool → List A → A → List A
with_if b xs x = if b then xs ++ (x ∷ []) else xs

All-with_if {ℓ κ} :
    {A : Type ℓ} (P : A → Type κ) (b : Bool) (xs : List A) (x : A)
    → (b ≡ true → P x)
    → All P xs
    → All P (with_if b xs x)
All-with_if P true xs x f h = All-append P xs (x ∷ []) h (f refl, tt)
All-with_if P false xs x f h = h

abbrev bit : Bool → ℕ
bit true = 1
bit false = 0

length-with_if {ℓ} :
    {A : Type ℓ} (b : Bool) (xs : List A) (x : A) → length (with_if b xs x) ≡ length xs + bit b
length-with_if true xs x = length-append xs (x ∷ [])
length-with_if false xs x = omega arith

one_list : (k : Kind) → bit (is_reader k && not (is_writer k)) + bit (is_writer k) ≡ 1
one_list k = elim (Bool-cases (is_writer k)) [
  | inl h ↦ simp h (bits (is_reader k))
  | inr h ↦ simp (h, reads-or_writes k h) refl
]
  where
    bits : (b : Bool) → bit (b && false) + 1 ≡ 1
    bits true = refl
    bits false = refl

only_reads : (r w : Bool) → (r && not w) ≡ true → (r ≡ true) × (w ≡ false)
only_reads true true h = cc
only_reads true false h = (refl, refl)
only_reads false w h = cc

register_plugin-IsDivided :
    (p : InOutPlugins) (k : Kind) (options : Bytes)
    → IsDivided p
    → IsDivided (register_plugin p (k, options))
unfolding register_plugin
register_plugin-IsDivided p k options w =
    let wrapper : Plugin = record {
      kind = k;
      path = (extract_limit_options options).0;
      limit = (extract_limit_options options).1;
    } in
    let plain : Plugin = record {
      kind = k;
      path = (extract_limit_options options).0;
      limit = [];
    } in
    record {
      readers =
          All-with_if (λ i. (is_reader i.kind ≡ true) × (is_writer i.kind ≡ false))
            (is_reader k && not (is_writer k)) p.inputs wrapper
            (only_reads (is_reader k) (is_writer k)) w.readers;
      writers =
          All-with_if (λ o. is_writer o.kind ≡ true) (is_writer k) p.outputs wrapper (λ h. h)
            w.writers;
      whole = omega (
        arith,
        w.whole,
        one_list k,
        length-append p.every_one (plain ∷ []),
        length-with_if (is_reader k && not (is_writer k)) p.inputs wrapper,
        length-with_if (is_writer k) p.outputs wrapper,
      );
    }

register_all-IsDivided :
    (p : InOutPlugins) (ks : List (Kind × Bytes)) → IsDivided p → IsDivided (register_all p ks)
register_all-IsDivided p [] w = w
register_all-IsDivided p ((k, options) ∷ ks) w =
    register_all-IsDivided (register_plugin p (k, options)) ks
      (register_plugin-IsDivided p k options w)

-- `NewPlugins` lists every plugin that the settings name once, as an input that only reads or as an
-- output.
pub new_plugins-IsDivided : (s : Settings) → IsDivided (new_plugins s)
unfolding new_plugins
new_plugins-IsDivided s =
    register_all-IsDivided _ (planned s) (record { readers = tt; writers = tt; whole = refl })
