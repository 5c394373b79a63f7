-- ===== src/Checker/Answers.antt =====
-- internal/checker/checker.go: what one check asks of the network, the clock and the standard library.
use service_reliability_watc.Common.{
  ℕ, Bool, true, false, ◌&&◌, ◌||◌, Option, List, [], ◌∷◌, reverse, if◌then◌else◌, ◌==◌,
}
use service_reliability_watc.Common.Int.{ℤ}
use service_reliability_watc.Common.Text.{Text}
use service_reliability_watc.Common.Clock.{Time, Duration}
use service_reliability_watc.Common.Result.{Result}
use service_reliability_watc.Domain.Types.{Endpoint}

-- A tls.ConnectionState: how many chains were verified, and when the peer's certificates expire.
pub record TlsState : Type 0 where
  pub verified_chains : ℕ
  pub not_after : List Time

-- A tls.Config, as far as the checker sets it.
pub record TlsConfig : Type 0 where
  pub min_version : ℕ
  pub server_name : Text

-- A response; `limited_body` is what io.ReadAll of the limited reader gives.
pub record Response : Type 0 where
  pub status : ℤ
  pub tls : Option TlsState
  pub limited_body : Result Text Text

-- The readings of the clock in one check: at its start, in applyTLS, in `failed` and at its end; no
-- path makes one of them twice. `wall` is the reading of time.Until.
pub record Readings : Type 0 where
  pub started : Time
  pub tls_now : Time
  pub failed_at : Time
  pub finished : Time
  pub wall : Time

pub record Network (F : Type 0) : Type 0 where
  -- url.Parse with Hostname, the host of net.SplitHostPort, and net.ParseIP with String.
  pub parse_hostname : Text → Result Text Text
  pub split_host : Text → Result Text Text
  pub parse_ip : Text → Option Text
  pub lookup_host : Text → Result Text (Unit {0})
  -- The Checker's TLSConfig, or none where it is nil.
  pub tls_config : Option TlsConfig
  -- http.NewRequestWithContext, client.Do over the transport's tls.Config, the dial of TCP, and that of
  -- TLS with its tls.Config.
  pub new_request : Endpoint F → Result Text (Unit {0})
  pub do_request : TlsConfig → Endpoint F → Result Text Response
  pub dial_tcp : Endpoint F → Result Text (Unit {0})
  pub dial_tls : TlsConfig → Endpoint F → Result Text TlsState
  -- The formats %d, %s of a Duration and %q, and Duration.Hours.
  pub integer_text : ℤ → Text
  pub duration_text : Duration → Text
  pub quoted : Text → Text
  pub hours : Duration → F

unfoldable pub is_prefix : Text → Text → Bool
is_prefix [] t = true
is_prefix (c ∷ s) [] = false
is_prefix (c ∷ s) (d ∷ t) = c == d && is_prefix s t

-- `strings.Contains(text, part)`.
unfoldable pub contains_text : Text → Text → Bool
contains_text part [] = is_prefix part []
contains_text part (c ∷ t) = is_prefix part (c ∷ t) || contains_text part t

drop_brackets : Text → Text
drop_brackets [] = []
drop_brackets (c ∷ t) = let rest = drop_brackets t in if c == b'[' || c == b']' then rest else c ∷ t

-- `strings.Trim(text, "[]")`.
unfoldable pub trim_brackets : Text → Text
unfolding drop_brackets
trim_brackets t = reverse (drop_brackets (reverse (drop_brackets t)))
