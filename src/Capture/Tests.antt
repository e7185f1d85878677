-- ===== src/Capture/Tests.antt =====
-- Runs of the capture and the limited reading of pkg/adapter at concrete inputs.
use aadapter.Base.{
  ℕ, ◌-◌, ◌^◌, ◌==◌, ◌≡◌, refl, none, some, List, [], ◌∷◌, length, arith, leb, if◌then◌else◌,
}
use aadapter.Base.Outcome.{ok, fail}
use aadapter.Capture.{
  Body, Round, more, eof, read_limited, check_length, read_response_body, write, captured_text,
  round_end, copy_round, copy_rounds, stream_copy, too_large,
}
use aadapter.Capture.Laws.{Captures, relayed, read_response_body-lem, stream_copy-Captures}

program : Unit {0}
unfolding read_limited check_length read_response_body write captured_text round_end copy_round
    copy_rounds stream_copy
program = tt

abbrev rounds : List (Round ℕ)
rounds =
    record { chunk = 1 ∷ 2 ∷ []; written = 2; write_error = none; read_end = more }
    ∷ record { chunk = 3 ∷ 4 ∷ []; written = 1; write_error = none; read_end = more }
    ∷ record { chunk = 5 ∷ []; written = 1; write_error = none; read_end = eof }
    ∷ []

-- A short write ends the copy; the capture is cut at its limit and says so.
copies :
    ((stream_copy 2 rounds).ended ≡ some (some "short write"))
    × ((stream_copy 2 rounds).copied ≡ 3)
    × (captured_text (0 ∷ []) (stream_copy 2 rounds).captured ≡ 1 ∷ 2 ∷ 0 ∷ [])
unfolding program
copies = (refl, refl, refl)

abbrev broken_body : Body ℕ
broken_body = record { bytes = 1 ∷ 2 ∷ []; error = some "reset" }

refuses : read_response_body 1 broken_body ≡ fail too_large
unfolding program
refuses = refl

read_response_body-lem_example :
    read_response_body 1 broken_body
    ≡ (if 2 == 2 ^ 63 then ok [] else if leb 2 1 then fail "reset" else fail too_large)
read_response_body-lem_example = read_response_body-lem 1 broken_body (omega arith)

-- With the largest limit a body reads as empty, and its error is lost.
forgets : read_response_body (2 ^ 63 - 1) broken_body ≡ ok []
unfolding program
forgets = refl

stream_copy-Captures_example :
    Captures 2 (relayed rounds) (stream_copy 2 rounds).captured
    × ((stream_copy 2 rounds).copied ≡ length (relayed rounds))
stream_copy-Captures_example =
    stream_copy-Captures 2 rounds (omega arith, (omega arith, (omega arith, tt)))
