-- ===== src/Commands/Certgen/Files.antt =====
-- cmd/certgen/main.go: the files that generate writes.
use service_reliability_watc.Common.{◌≡◌, ◌⊎◌, List, [], ◌++◌}
use service_reliability_watc.Common.Text.{Text}
use service_reliability_watc.Common.Result.{Result, ok, err}
use service_reliability_watc.Commands.Certgen.{File, Calls, ca_template, server_template, files}

module _ {K : Type 0} (c : Calls K) where
  -- Of the files, those that were written come first, and all of them where there is no error.
  abbrev pub IsPart : List File → List File × Result Text (Unit {0}) → Type 0
  IsPart all (written, err e) = (rest : List File) × (all ≡ written ++ rest)
  IsPart all (written, ok u) = all ≡ written

  -- The certificates and the key that `files` holds.
  pub record Made : Type 0 where
    pub ca : K
    pub server : K
    pub ca_der : Text
    pub server_der : Text
    pub ca_signed : c.create_certificate (ca_template c) (ca_template c) ca ca ≡ ok ca_der
    pub server_signed :
        c.create_certificate (server_template c) (ca_template c) server ca ≡ ok server_der

  -- What generate may leave.
  abbrev pub Generated : List File × Result Text (Unit {0}) → Type 0
  Generated answer =
      ((answer.0 ≡ []) × (e : Text) × (answer.1 ≡ err e))
      ⊎ ((m : Made) × IsPart (files c m.ca_der m.server_der m.server) answer)
