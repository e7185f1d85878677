-- ===== src/Server/Answers.antt =====
-- The answers of the handlers of pkg/adapter/server.go send nothing more upstream.
use aadapter.Base.{String, inl, inr, not, Bool-cases, List}
use aadapter.Base.Outcome.{Outcome-cases}
use aadapter.Config.{Config}
use aadapter.Gemini.Answer.{response_to_anthropic, count_tokens_to_anthropic}
use aadapter.Server.Counts.{answer_count}
use aadapter.Server.{
  MessagesRequest, UpstreamResponse, Exchange, World, attempt, bad_gateway, is_success,
}
use aadapter.Server.Upstream.{is_gemini}
use aadapter.Server.Handlers.{
  read_upstream, stream_events, stream_bytes, keep_signatures, answer_gemini, answer_error,
  answer_whole, answer_stream, answer_messages,
}
use aadapter.Server.Laws.{Ends, bind_rule, attempt_rule}
use aadapter.Server.Sends.{Handled}

module _ (w : World) (cfg : Config) (x0 : Exchange) where
  answer_error-Handled :
      (response : UpstreamResponse) (prefix : String) (x : Exchange)
      → Handled w cfg x0 x
      → Ends (Handled w cfg x0) (λ _. Handled w cfg x0) (answer_error w cfg response prefix x)
  unfolding answer_error read_upstream
  answer_error-Handled response prefix x h =
      bind_rule (Handled w cfg x0) (λ _. Handled w cfg x0) (λ _. Handled w cfg x0)
        (read_upstream w cfg response prefix x) _
        (attempt_rule (Handled w cfg x0) (λ _. Handled w cfg x0) _ _ x h (λ a e. h))
        (λ body x1 h1. h1)

  answer_gemini-Handled :
      (response : UpstreamResponse) (session_id model : String) (sequences : List String)
      (body : String) (x : Exchange)
      → Handled w cfg x0 x
      → Ends
          (Handled w cfg x0)
          (λ _. Handled w cfg x0)
          (answer_gemini w cfg response session_id model sequences body x)
  unfolding answer_gemini keep_signatures
  answer_gemini-Handled response session_id model sequences body x h =
      bind_rule (Handled w cfg x0) (λ _. Handled w cfg x0) (λ _. Handled w cfg x0)
        (attempt
          (response_to_anthropic w.platform w.decimal w.clock w.out_of_range body sequences model
            x.counter)
          (bad_gateway w "invalid Gemini response: ") x)
        _ (attempt_rule (Handled w cfg x0) (λ _. Handled w cfg x0) _ _ x h (λ a e. h))
        (λ converted x1 h1. h1)

  answer_whole-Handled :
      (response : UpstreamResponse) (session_id model : String) (sequences : List String)
      (x : Exchange)
      → Handled w cfg x0 x
      → Ends
          (Handled w cfg x0)
          (λ _. Handled w cfg x0)
          (answer_whole w cfg response session_id model sequences x)
  unfolding answer_whole read_upstream
  answer_whole-Handled response session_id model sequences x h =
      bind_rule (Handled w cfg x0) (λ _. Handled w cfg x0) (λ _. Handled w cfg x0)
        (read_upstream w cfg response "failed to read upstream response: " x) _
        (attempt_rule (Handled w cfg x0) (λ _. Handled w cfg x0) _ _ x h (λ a e. h))
        (λ body x1 h1. elim (Bool-cases (is_gemini w cfg)) [
          | inl gemini ↦
              rw gemini (answer_gemini-Handled response session_id model sequences body x1 h1)
          | inr other ↦ rw other h1
        ])

  pub answer_messages-Handled :
      (response : UpstreamResponse) (session_id : String) (parsed : MessagesRequest)
      (model : String) (x : Exchange)
      → Handled w cfg x0 x
      → Ends
          (Handled w cfg x0)
          (λ _. Handled w cfg x0)
          (answer_messages w cfg response session_id parsed model x)
  unfolding answer_messages answer_stream stream_events stream_bytes
  answer_messages-Handled response session_id parsed model x h =
      elim (Bool-cases (not (is_success response.status))) [
        | inl failed ↦ rw (failed, answer_messages) (answer_error-Handled response _ x h)
        | inr fine ↦ elim (Bool-cases parsed.stream) [
          | inr at_once ↦
              simp (fine, at_once, answer_messages)
                (answer_whole-Handled response session_id model parsed.stop_sequences x h)
          | inl streamed ↦ elim (Bool-cases (is_gemini w cfg)) [
            | inl gemini ↦ simp (fine, streamed, gemini, answer_messages, answer_stream) h
            | inr other ↦ simp (fine, streamed, other, answer_messages, answer_stream) h
          ]
        ]
      ]

  pub answer_count-Handled :
      (response : UpstreamResponse) (body : String) (x : Exchange)
      → Handled w cfg x0 x
      → Ends (Handled w cfg x0) (λ _. Handled w cfg x0) (answer_count w cfg response body x)
  unfolding answer_count
  answer_count-Handled response body x h = elim (Bool-cases (not (is_success response.status))) [
    | inl failed ↦ rw (failed, answer_count) h
    | inr fine ↦
        elim (Outcome-cases
          (count_tokens_to_anthropic w.platform w.decimal w.clock w.out_of_range body)) [
            | inl (message, fails) ↦ rw (fine, fails, answer_count) h
            | inr (converted, is) ↦ rw (fine, is, answer_count) h
          ]
  ]
