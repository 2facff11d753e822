-- ===== src/Modifier/Settings.antt =====
-- What a `Set` does to the list of its options.
use goreplay.Base.{ℕ, ◌≡◌, ◌⊎◌, Bytes, Option, none, some, List, Lacks}
use goreplay.Text.Split.{IsSplit, trim_space}
use goreplay.Modifier.{Regexp, HeaderFilter, HashFilter, Setting, UrlRewrite, HeaderRewrite}
use goreplay.Modifier.Options.{
  SetError, no_separator, bad_regexp, no_share, Result, appended, failed, percent_of,
}

-- What an option is to a text, and when a text is no option: success adds the option that the text
-- means behind the others, and failure changes nothing and has a reason.
abbrev pub IsAtomic {ℓ} :
    {A : Type ℓ} → (A → Type ℓ) → (SetError → Type 0) → List A → Result A → Type ℓ
IsAtomic {A = A} Means Refuses fs r =
    ((x : A) × Means x × (r ≡ appended fs x)) ⊎ ((e : SetError) × Refuses e × (r ≡ failed fs e))

module _ (compile : Bytes → Option Regexp) (s : Bytes) where
  -- `name: expression`
  pub record IsHeaderFilter (f : HeaderFilter) : Type 0 where
    pub pattern : Bytes
    pub splits : IsSplit s b':' f.name pattern
    pub compiles : compile (trim_space pattern) ≡ some f.regexp

  -- `expression: text`
  pub record IsUrlRewrite (f : UrlRewrite) : Type 0 where
    pub pattern : Bytes
    pub splits : IsSplit s b':' pattern f.target
    pub compiles : compile pattern ≡ some f.src

  -- `name: expression,text`
  pub record IsHeaderRewrite (f : HeaderRewrite) : Type 0 where
    pub rest : Bytes
    pub pattern : Bytes
    pub splits : IsSplit s b':' f.header rest
    pub splits_rest : IsSplit (trim_space rest) b',' pattern f.target
    pub compiles : compile pattern ≡ some f.src

  -- Why a text that has to hold an expression is no option: it does not split as it should, or the
  -- expression in it does not compile.
  pub data Refuses (Unsplit : Type 0) (Holds : Bytes → Type 0) : SetError → Type 0 where
    unsplit : Unsplit → Refuses Unsplit Holds no_separator
    uncompiled :
        (pattern : Bytes)
        → Holds pattern
        → compile pattern ≡ none
        → Refuses Unsplit Holds bad_regexp

  abbrev pub RefusesFilter : SetError → Type 0
  RefusesFilter =
      Refuses (Lacks b':' s)
        (λ p. (name rest : Bytes) × IsSplit s b':' name rest × (p ≡ trim_space rest))

  abbrev pub RefusesAuth : SetError → Type 0
  RefusesAuth = Refuses ⊥ (λ p. p ≡ s)

  abbrev pub RefusesUrl : SetError → Type 0
  RefusesUrl = Refuses (Lacks b':' s) (λ p. (target : Bytes) × IsSplit s b':' p target)

  abbrev pub RefusesRewrite : SetError → Type 0
  RefusesRewrite =
      Refuses
        (Lacks b':' s
          ⊎ ((name rest : Bytes) × IsSplit s b':' name rest × Lacks b',' (trim_space rest)))
        (λ p.
          (name rest target : Bytes) × IsSplit s b':' name rest
          × IsSplit (trim_space rest) b',' p target)

-- `name: share`
pub record IsHashFilter (fraction : ℕ → ℕ → ℕ) (s : Bytes) (f : HashFilter) : Type 0 where
  pub share : Bytes
  pub splits : IsSplit s b':' f.name share
  pub counts : percent_of fraction (trim_space share) ≡ some f.percent

pub data RefusesShare (fraction : ℕ → ℕ → ℕ) (s : Bytes) : SetError → Type 0 where
  unsplit_share : Lacks b':' s → RefusesShare fraction s no_separator
  uncounted :
      (name share : Bytes)
      → IsSplit s b':' name share
      → percent_of fraction (trim_space share) ≡ none
      → RefusesShare fraction s no_share

-- `name: value` or `name=value`, with blanks around both that do not count.
pub record IsSetting (c : ℕ) (s : Bytes) (f : Setting) : Type 0 where
  pub front : Bytes
  pub behind : Bytes
  pub splits : IsSplit s c front behind
  pub named : f.name ≡ trim_space front
  pub valued : f.value ≡ trim_space behind

pub data RefusesSetting (c : ℕ) (s : Bytes) : SetError → Type 0 where
  unsplit_setting : Lacks c s → RefusesSetting c s no_separator
