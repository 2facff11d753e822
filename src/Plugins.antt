-- ===== src/Plugins.antt =====
-- plugins.go: the options of a plugin, and the plugins that the settings name. A plugin is its kind, its
-- address and the limit that its wrapper has; what a constructor does is outside.
pub mod Roles
use goreplay.Base.{
  ℕ, zero, suc, Bool, true, false, not, ◌&&◌, ◌||◌, Bytes, codes, List, [], ◌∷◌, ◌++◌, map,
  if◌then◌else◌, equal, has_prefix,
}
use goreplay.Text.Split.{split_byte}
use goreplay.Modifier.{Setting, any_of, is_nil}

-- The text in front of the first bar, and the text up to the next one.
unfoldable pub extract_limit_options : Bytes → Bytes × Bytes
extract_limit_options options = elim (split_byte options b'|') [
  | [] ↦ ([], [])
  | path ∷ more ↦ elim more [ [] ↦ (path, []) | limit ∷ rest ↦ (path, limit) ]
]

pub data Kind : Type 0 where
  dummy_in dummy_out null_out raw_in tcp_in tcp_out file_in s3_out file_out : Kind
  http_in http_out binary_out kafka_out kafka_in : Kind

-- Which of the types have a method `Write`.
abbrev pub is_writer : Kind → Bool
is_writer dummy_out = true
is_writer null_out = true
is_writer tcp_out = true
is_writer s3_out = true
is_writer file_out = true
is_writer http_out = true
is_writer binary_out = true
is_writer kafka_out = true
is_writer _ = false

-- Which of them have a method `Read`.
abbrev pub is_reader : Kind → Bool
is_reader dummy_in = true
is_reader raw_in = true
is_reader tcp_in = true
is_reader file_in = true
is_reader http_in = true
is_reader http_out = true
is_reader binary_out = true
is_reader kafka_in = true
is_reader _ = false

pub record Plugin : Type 0 where
  pub kind : Kind
  pub path : Bytes
  pub limit : Bytes

pub record InOutPlugins : Type 0 where
  pub inputs : List Plugin
  pub outputs : List Plugin
  pub every_one : List Plugin

-- `registerPlugin`: the lists of readers and writers get the wrapper, and `All` the plugin itself.
unfoldable pub register_plugin : InOutPlugins → Kind × Bytes → InOutPlugins
register_plugin plugins (kind, options) =
    let (path, limit) = extract_limit_options options in
    let wrapper : Plugin = record { kind = kind; path = path; limit = limit } in
    record {
      inputs =
          if is_reader kind && not (is_writer kind)
          then plugins.inputs ++ (wrapper ∷ [])
          else plugins.inputs;
      outputs = if is_writer kind then plugins.outputs ++ (wrapper ∷ []) else plugins.outputs;
      every_one = plugins.every_one ++ (record { kind = kind; path = path; limit = [] } ∷ []);
    }

-- The settings that `NewPlugins` reads.
pub record Settings : Type 0 where
  pub input_dummy : List Bytes
  pub output_dummy : List Bytes
  pub output_stdout : Bool
  pub output_null : Bool
  pub input_raw : List Bytes
  pub input_tcp : List Bytes
  pub output_tcp : List Bytes
  pub input_files : List Bytes
  pub output_files : List Bytes
  pub input_http : List Bytes
  pub output_http : List Bytes
  pub output_binary : List Bytes
  pub output_kafka : Bytes × Bytes
  pub input_kafka : Bytes × Bytes
  pub headers : List Setting

abbrev pub with_kind : Kind → List Bytes → List (Kind × Bytes)
with_kind kind options = map (λ o. (kind, o)) options

abbrev pub once_if : Bool → Kind → List (Kind × Bytes)
once_if b kind = if b then (kind, []) ∷ [] else []

abbrev pub file_kind : Bytes → Kind
file_kind path = if has_prefix path (codes "s3://") then s3_out else file_out

-- A host and a topic.
abbrev pub is_set : Bytes × Bytes → Bool
is_set (host, topic) = not (is_nil host) && not (is_nil topic)

-- The calls of `registerPlugin`, in their order.
unfoldable pub planned : Settings → List (Kind × Bytes)
planned s =
    with_kind dummy_in s.input_dummy
    ++ (map (λ o. (dummy_out, [])) s.output_dummy
        ++ (once_if s.output_stdout dummy_out
            ++ (once_if s.output_null null_out
                ++ (with_kind raw_in s.input_raw
                    ++ (with_kind tcp_in s.input_tcp
                        ++ (with_kind tcp_out s.output_tcp
                            ++ (with_kind file_in s.input_files
                                ++ (map (λ path. (file_kind path, path)) s.output_files
                                    ++ (with_kind http_in s.input_http
                                        ++ (with_kind http_out s.output_http
                                            ++ (with_kind binary_out s.output_binary
                                                ++ (once_if (is_set s.output_kafka) kafka_out
                                                    ++ once_if (is_set s.input_kafka)
                                                        kafka_in))))))))))))

-- Whether `NewPlugins` keeps the host of a request, since a header Host is set.
unfoldable pub original_host : Settings → Bool
original_host s = any_of (λ h. equal h.name (codes "Host")) s.headers

abbrev pub register_all : InOutPlugins → List (Kind × Bytes) → InOutPlugins
register_all plugins [] = plugins
register_all plugins (k ∷ ks) = register_all (register_plugin plugins k) ks

unfoldable pub new_plugins : Settings → InOutPlugins
new_plugins s = register_all (record { inputs = []; outputs = []; every_one = [] }) (planned s)
