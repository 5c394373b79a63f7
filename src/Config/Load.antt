-- ===== src/Config/Load.antt =====
-- internal/config/config.go: Load and Duration.UnmarshalYAML. Reading the file, expanding the environment and decoding the YAML
-- are a parameter.
use service_reliability_watc.Common.{◌≡◌, ◌++◌, refl}
use service_reliability_watc.Common.Float.{Float64}
use service_reliability_watc.Common.Text.{Text, codes}
use service_reliability_watc.Common.Clock.{Duration}
use service_reliability_watc.Common.Result.{Result, ok, err, ◌>>=◌, ◌>>◌, >>-eq-ok, >>=-eq-ok}
use service_reliability_watc.Config.Types.{Config}
use service_reliability_watc.Config.Defaults.{apply_defaults}
use service_reliability_watc.Config.Validation.{Addresses, ConfigError, validate}
use service_reliability_watc.Config.Validation.Sound.{IsValid, validate-IsValid}

-- Duration.UnmarshalYAML, of the text of a node; time.ParseDuration and the format %q are parameters.
unmarshal_duration : (Text → Result Text Duration) → (Text → Text) → Text → Result Text Duration
unmarshal_duration parse_duration quoted value = elim (parse_duration value) [
  | err e ↦ err (codes "invalid duration " ++ quoted value ++ codes ": " ++ e)
  | ok d ↦ ok d
]

-- os.ReadFile, os.ExpandEnv on the text, and the strict decoder.
pub record Source (F : Type 0) : Type 0 where
  pub read_file : Text → Result Text Text
  pub expand_env : Text → Text
  pub decode : Text → Result Text (Config F)

pub data LoadError : Type 0 where
  not_read not_decoded : Text → LoadError
  not_valid : ConfigError → LoadError

-- An error, wrapped by `fmt.Errorf`.
abbrev wrap : {A : Type 0} → (Text → LoadError) → Result Text A → Result LoadError A
wrap f (ok a) = ok a
wrap f (err e) = err (f e)

abbrev as_load_error : {A : Type 0} → Result ConfigError A → Result LoadError A
as_load_error (ok a) = ok a
as_load_error (err e) = err (not_valid e)

module _ {F : Type 0} (fl : Float64 F) (net : Addresses) (source : Source F) where
  unfoldable pub load : Text → Result LoadError (Config F)
  load path = do
    text ← wrap not_read (source.read_file path)
    raw ← wrap not_decoded (source.decode (source.expand_env text))
    let cfg = apply_defaults fl raw
    as_load_error (validate fl net cfg)
    ok cfg

  as_load_error-valid : (m : Result ConfigError (Unit {0})) → as_load_error m ≡ ok tt → m ≡ ok tt
  as_load_error-valid (ok u) h = refl
  as_load_error-valid (err e) h = cc

  wrap-valid :
      {A : Type 0} (f : Text → LoadError) (x : Result Text A) (a : A) → wrap f x ≡ ok a → x ≡ ok a
  wrap-valid f (ok b) a h = cc
  wrap-valid f (err e) a h = cc

  -- A configuration that Load returns is valid, and it is what the decoded text of the file becomes
  -- under the defaults.
  pub load-IsValid :
      (path : Text) (c : Config F)
      → load path ≡ ok c
      → IsValid fl net c
        × ((text : Text) × (raw : Config F) × (source.read_file path ≡ ok text)
            × (source.decode (source.expand_env text) ≡ ok raw)
            × (c ≡ apply_defaults fl raw))
  unfolding load
  load-IsValid path c h =
      let (text, r, h1) = >>=-eq-ok (wrap not_read (source.read_file path)) _ h in
      let (raw, d, h2) =
        >>=-eq-ok (wrap not_decoded (source.decode (source.expand_env text))) _ h1 in
      let (v, e) = (>>-eq-ok _ _ c).0 h2 in
      let is_c : c ≡ apply_defaults fl raw = cc e in
      (
        rw is_c (validate-IsValid fl net (apply_defaults fl raw) (as_load_error-valid _ v)),
        (text, raw, wrap-valid not_read _ text r, wrap-valid not_decoded _ raw d, is_c),
      )
