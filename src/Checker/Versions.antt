-- ===== src/Checker/Versions.antt =====
-- internal/checker/checker.go: cloneTLSConfig.
use service_reliability_watc.Common.{
  ℕ, ◌≤◌, ◌≡◌, ◌⊎◌, Option, none, some, [], if◌then◌else◌, ◌==◌, arith,
}
use service_reliability_watc.Common.Text.{Text, text_eq, text_eq_iff}
use service_reliability_watc.Checker.Answers.{TlsConfig}

-- tls.VersionTLS12, 0x0303.
abbrev pub tls_1_2 : ℕ
tls_1_2 = 771

abbrev config_or_new : Option TlsConfig → TlsConfig
config_or_new none = record { min_version = 0; server_name = [] }
config_or_new (some c) = c

unfoldable pub clone_tls_config : Option TlsConfig → Text → TlsConfig
clone_tls_config source server_name =
    let c = config_or_new source in
    record {
      min_version = if c.min_version == 0 then tls_1_2 else c.min_version;
      server_name = if text_eq server_name [] then c.server_name else server_name;
    }

-- No version set, or one that is not older than TLS 1.2.
abbrev pub AllowsOldVersions : Option TlsConfig → Type 0
AllowsOldVersions none = ⊥
AllowsOldVersions (some c) = (1 ≤ c.min_version) × (c.min_version ≤ 770)

-- Not older than TLS 1.2, and for the name, where there is one.
abbrev pub IsSecure : Text → TlsConfig → Type 0
IsSecure server_name c =
    (tls_1_2 ≤ c.min_version) × ((c.server_name ≡ server_name) ⊎ (server_name ≡ []))

pub clone-IsSecure :
    (source : Option TlsConfig) (server_name : Text)
    → ¬ AllowsOldVersions source
    → IsSecure server_name (clone_tls_config source server_name)
unfolding clone_tls_config
clone-IsSecure none server_name h = ground (arith, text_eq_iff server_name [])
clone-IsSecure (some c) server_name h = ground (arith, text_eq_iff server_name [])
