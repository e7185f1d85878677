-- ===== src/Capture.antt =====
-- Bodies that are read and copied: `readResponseBody` and `cappedBuffer` of
-- pkg/adapter/http_helpers.go, and the loop of `streamCopyAndCapture` of pkg/adapter/server.go, over
-- any alphabet. A limit is an `int64` that is not negative.
pub mod Laws
mod Tests
use aadapter.Base.{
  ℕ, ◌+◌, ◌-◌, ◌%◌, ◌^◌, String, Bool, true, false, Option, none, some, List, [], ◌∷◌, ◌++◌, ltb,
  length, take, if◌then◌else◌, ◌==◌,
}
use aadapter.Base.Outcome.{Outcome, ok, fail}

-- What a reader gives until it ends, and the error that it ends with, if it is not `io.EOF`.
pub record Body {ℓ} (A : Type ℓ) : Type ℓ where
  pub bytes : List A
  pub error : Option String

pub record CappedBuffer {ℓ} (A : Type ℓ) : Type ℓ where
  pub buf : List A
  pub remaining : ℕ
  pub truncated : Bool

-- How a `Read` ends: it goes on, or this was the last one, with an error or not.
pub data ReadEnd : Type 0 where
  more : ReadEnd
  eof : ReadEnd
  broken : String → ReadEnd

-- One round of the loop: what `Read` gave, and how much of it `Write` took, with its error.
pub record Round {ℓ} (A : Type ℓ) : Type ℓ where
  pub chunk : List A
  pub written : ℕ
  pub write_error : Option String
  pub read_end : ReadEnd

-- The buffer, the bytes copied, and how the loop ended: `none` while it waits for another round.
pub record Copy {ℓ} (A : Type ℓ) : Type ℓ where
  pub captured : CappedBuffer A
  pub copied : ℕ
  pub ended : Option (Option String)

abbrev pub too_large : String
too_large = "body exceeds configured size limit"

module _ {ℓ} {A : Type ℓ} where
  -- `io.ReadAll(io.LimitReader(r, n))`: at `n` bytes the reader is asked no further.
  unfoldable pub read_limited : ℕ → Body A → Outcome (List A)
  read_limited n body =
      if ltb (length body.bytes) n
      then (elim body.error [ none ↦ ok body.bytes | some message ↦ fail message ])
      else ok (take n body.bytes)

  unfoldable pub check_length : ℕ → Outcome (List A) → Outcome (List A)
  check_length limit (fail message) = fail message
  check_length limit (ok body) = if ltb limit (length body) then fail too_large else ok body

  -- The `int64` after `limit`; a reader whose limit is negative is at its end.
  unfoldable pub read_response_body : ℕ → Body A → Outcome (List A)
  read_response_body limit body =
      let n = (limit + 1) % 2 ^ 64 in
      check_length limit (if ltb n (2 ^ 63) then read_limited n body else ok [])

  abbrev pub new_capped_buffer : ℕ → CappedBuffer A
  new_capped_buffer limit = record { buf = []; remaining = limit; truncated = false }

  unfoldable pub write : List A → CappedBuffer A → CappedBuffer A
  write p b =
      let over = ltb b.remaining (length p) in
      let kept = if over then take b.remaining p else p in
      record {
        buf = b.buf ++ kept;
        remaining = b.remaining - length kept;
        truncated = if over then true else b.truncated;
      }

  -- `String`, for the marker that stands behind what was cut.
  unfoldable pub captured_text : List A → CappedBuffer A → List A
  captured_text marker b = if b.truncated then b.buf ++ marker else b.buf

  -- How a round ends the loop, if it does.
  unfoldable pub round_end : Round A → Option (Option String)
  round_end r =
      let ended : Option (Option String) = elim r.read_end [
        | more ↦ none
        | eof ↦ some none
        | broken message ↦ some (some message)
      ] in
      if length r.chunk == 0 then ended else elim r.write_error [
        | some message ↦ some (some message)
        | none ↦ if r.written == length r.chunk then ended else some (some "short write")
      ]

  unfoldable pub copy_round : Round A → Copy A → Copy A
  copy_round r c =
      let sent = take r.written r.chunk in
      record {
        captured = if length r.chunk == 0 then c.captured else write sent c.captured;
        copied = if length r.chunk == 0 then c.copied else c.copied + r.written;
        ended = round_end r;
      }

  -- The loop: rounds after its end are not made.
  unfoldable pub copy_rounds : List (Round A) → Copy A → Copy A
  copy_rounds [] c = c
  copy_rounds (r ∷ rs) c = elim c.ended [ some e ↦ c | none ↦ copy_rounds rs (copy_round r c) ]

  unfoldable pub stream_copy : ℕ → List (Round A) → Copy A
  stream_copy limit rounds =
      copy_rounds rounds (record { captured = new_capped_buffer limit; copied = 0; ended = none })
