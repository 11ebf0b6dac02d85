-- ===== src/Bindings/Spec.antt =====
-- The embedded specification in internal/api/v1/server.gen.go. base64, flate, path.Clean and the loader of
-- kin-openapi are parameters. The loading reads the same bytes each time, since they are computed once.
use inwheel_server.Prelude.{String, Option, none, some, List, [], ◌∷◌, ◌==◌, if◌then◌else◌}
use inwheel_server.Prelude.Texts.{append}
use inwheel_server.Prelude.Dict.{lookup}
use inwheel_server.Prelude.Result.{Error, message, wrap, Result, ok, err}

-- `inflate` is what buf.ReadFrom gives of the flate reader, `close_flate` the error of its Close, and
-- `load` is LoadFromData with the function that reads a URI.
pub record SpecLibrary (spec : Type 0) : Type 0 where
  pub decode_base64 : String → Result String
  pub inflate : String → Result String
  pub close_flate : String → Option Error
  pub clean_path : String → String
  pub load : (String → Result String) → String → Result spec

-- strings.Join(chunks, "")
abbrev pub joined : List String → String
joined [] = ""
joined (c ∷ cs) = append c (joined cs)

module _ {spec : Type 0} (lib : SpecLibrary spec) where
  abbrev closed : String → Result String → Result String
  closed compressed (err e) = err (wrap "read flate" e)
  closed compressed (ok json) = elim (lib.close_flate compressed) [
    | none ↦ ok json
    | some e ↦ err (wrap "close flate reader" e)
  ]

  abbrev inflated : Result String → Result String
  inflated (err e) = err (wrap "error base64 decoding spec" e)
  inflated (ok compressed) = closed compressed (lib.inflate compressed)

  unfoldable pub decode_spec : List String → Result String
  decode_spec chunks = inflated (lib.decode_base64 (joined chunks))

  -- PathToRawSpec
  abbrev pub path_to_raw_spec : String → Result String → List (String × Result String)
  path_to_raw_spec path raw = if path == "" then [] else (path, raw) ∷ []

  abbrev found : String → Option (Result String) → Result String
  found path none = err (message (append "path not found: " path))
  found path (some raw) = raw

  -- ReadFromURIFunc
  abbrev pub read_from_uri : Result String → String → Result String
  read_from_uri raw uri =
      let path = lib.clean_path uri in found path (lookup path (path_to_raw_spec "" raw))

  abbrev loaded : Result String → Result String → Result spec
  loaded raw (err e) = err e
  loaded raw (ok data') = lib.load (read_from_uri raw) data'

  -- GetSpec; GetSwagger calls it.
  unfoldable pub get_spec : List String → Result spec
  unfolding decode_spec
  get_spec chunks = let raw = decode_spec chunks in loaded raw raw
