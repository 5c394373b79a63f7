-- ===== src/Commands/Healthcheck.antt =====
-- cmd/healthcheck/main.go: the exit status, from the number of arguments, whether the request can be
-- made and how it is answered.
use service_reliability_watc.Common.{ℕ, ◌==◌, not, ◌||◌, Option, none, some, if◌then◌else◌}
use service_reliability_watc.Common.Int.{ℤ, pos, ltb_ℤ, leb_ℤ}
use service_reliability_watc.Common.Text.{Text}
use service_reliability_watc.Common.Result.{Result, ok, err}

abbrev of_response : Result Text ℤ → ℕ
of_response (err e) = 1
of_response (ok status) = if ltb_ℤ status (pos 200) || leb_ℤ (pos 300) status then 1 else 0

abbrev of_request : Option Text → Result Text ℤ → ℕ
of_request (some e) response = 1
of_request none response = of_response response

-- main; `os.Args` has the program's name first.
unfoldable pub exit_status : ℕ → Option Text → Result Text ℤ → ℕ
exit_status args request response = if not (args == 2) then 2 else of_request request response
