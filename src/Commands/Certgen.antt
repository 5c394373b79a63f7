-- ===== src/Commands/Certgen.antt =====
-- cmd/certgen/main.go: generate. The clock and its AddDate, rsa, x509, pem and the file system are
-- parameters; the serial numbers and the pem block's name come with the encoding.
pub mod Files
use service_reliability_watc.Common.{
  ℕ, ◌*◌, Bool, true, false, Option, none, some, List, [], ◌∷◌, if◌then◌else◌,
}
use service_reliability_watc.Common.Int.{pos}
use service_reliability_watc.Common.Text.{Text, codes}
use service_reliability_watc.Common.Clock.{Time, add, negated, hour}
use service_reliability_watc.Common.Result.{Result, ok, err, ◌>>=◌, ◌>>◌}

pub data KeyUsage : Type 0 where
  cert_sign digital_signature key_encipherment : KeyUsage

-- An x509.Certificate; `server_auth` is its only extended usage.
pub record Certificate : Type 0 where
  pub serial_number : ℕ
  pub common_name : Text
  pub dns_names : List Text
  pub ip_addresses : List Text
  pub not_before : Time
  pub not_after : Time
  pub is_ca : Bool
  pub basic_constraints : Bool
  pub server_auth : Bool
  pub key_usage : List KeyUsage

-- What is written: the name in the directory, the content, and the mode.
pub record File : Type 0 where
  pub name : Text
  pub content : Text
  pub mode : ℕ

-- The calls of one run of generate.
pub record Calls (K : Type 0) : Type 0 where
  pub mkdir_all : Text → Option Text
  pub now : Time
  pub in_five_years : Time → Time
  pub ca_key : Result Text K
  pub server_key : Result Text K
  pub create_certificate : Certificate → Certificate → K → K → Result Text Text
  pub marshal_private_key : K → Text
  pub encode_pem : Text → Text → Text
  pub join : Text → Text → Text
  pub write_file : Text → Text → ℕ → Option Text
  pub chown : Text → ℕ → Option Text
  pub is_permission : Text → Bool

-- `if err != nil { return err }`, for a call that returns nothing else.
abbrev pub checked : Option Text → Result Text (Unit {0})
checked none = ok tt
checked (some e) = err e

module _ {K : Type 0} (c : Calls K) where
  unfoldable pub ca_template : Certificate
  ca_template = record {
    serial_number = 1;
    common_name = codes "Watchdog Demo CA";
    dns_names = [];
    ip_addresses = [];
    not_before = add c.now (negated (pos hour));
    not_after = c.in_five_years c.now;
    is_ca = true;
    basic_constraints = true;
    server_auth = false;
    key_usage = cert_sign ∷ digital_signature ∷ [];
  }

  unfoldable pub server_template : Certificate
  server_template = record {
    serial_number = 2;
    common_name = codes "demo-target";
    dns_names = codes "demo-target" ∷ codes "localhost" ∷ [];
    ip_addresses = codes "127.0.0.1" ∷ [];
    not_before = add c.now (negated (pos hour));
    not_after = add c.now (pos (90 * 24 * hour));
    is_ca = false;
    basic_constraints = false;
    server_auth = true;
    key_usage = digital_signature ∷ key_encipherment ∷ [];
  }

  -- `files`; the modes are 0o644 and 0o600.
  unfoldable pub files : Text → Text → K → List File
  files ca_der server_der key =
      record {
        name = codes "ca.pem";
        content = c.encode_pem (codes "CERTIFICATE") ca_der;
        mode = 420;
      }
      ∷ record {
        name = codes "server.pem";
        content = c.encode_pem (codes "CERTIFICATE") server_der;
        mode = 420;
      }
      ∷ record {
        name = codes "server-key.pem";
        content = c.encode_pem (codes "RSA PRIVATE KEY") (c.marshal_private_key key);
        mode = 384;
      }
      ∷ []

  unfoldable pub prepared : Text → Result Text (List File)
  prepared directory = do
    checked (c.mkdir_all directory)
    ca ← c.ca_key
    ca_der ← c.create_certificate ca_template ca_template ca ca
    server ← c.server_key
    server_der ← c.create_certificate server_template ca_template server ca
    ok (files ca_der server_der server)

  -- The loop: the files that it writes, and the error.
  unfoldable pub write_all : Text → ℕ → List File → List File × Result Text (Unit {0})
  write_all directory owner [] = ([], ok tt)
  write_all directory owner (f ∷ fs) =
      let path = c.join directory f.name in
      let (written, result) = write_all directory owner fs in
      elim (c.write_file path f.content f.mode) [
        | some e ↦ ([], err e)
        | none ↦ elim (c.chown path owner) [
          | none ↦ (f ∷ written, result)
          | some e ↦ if c.is_permission e then (f ∷ written, result) else (f ∷ [], err e)
        ]
      ]

  unfoldable pub generate : Text → ℕ → List File × Result Text (Unit {0})
  unfolding prepared write_all
  generate directory owner = elim (prepared directory) [
    | err e ↦ ([], err e)
    | ok made ↦ write_all directory owner made
  ]
