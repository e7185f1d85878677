-- ===== src/Server/Serve.antt =====
-- pkg/adapter/server.go: the handler that `NewServer` puts together of `healthz`, `messages` and
-- `countTokens`, behind `adapterAuthMiddleware`. The middleware that logs passes on every request.
mod Tests
use aadapter.Base.{String, Option, none, some, [], if◌then◌else◌, str_eq}
use aadapter.Access.{Request, is_admitted}
use aadapter.Config.{Config}
use aadapter.Server.Counts.{count_tokens_handler}
use aadapter.Server.{Inbound, text, Reply, Exchange, World, error_reply}
use aadapter.Server.Handlers.{messages}

abbrev pub healthz : Reply
healthz = record { status = 200; headers = []; content = text "ok" }

-- `find` gives the pattern that a `http.ServeMux` finds for a path; where it finds none, the reply is
-- its own, `missing`.
module _ (w : World) (cfg : Config) (find : String → Option String) (missing : Reply) where
  unfoldable pub handle : String → Inbound → Exchange → Exchange × Reply
  handle pattern r x =
      if str_eq pattern "/healthz"
      then (x, healthz)
      else if str_eq pattern "/v1/messages"
      then messages w cfg r x
      else if str_eq pattern "/v1/messages/count_tokens"
      then count_tokens_handler w cfg r x
      else (x, missing)

  unfoldable pub serve_mux : String → Inbound → Exchange → Exchange × Reply
  serve_mux path r x = elim (find path) [ some pattern ↦ handle pattern r x | none ↦ (x, missing) ]

  unfoldable pub serve : Request → Inbound → Exchange → Exchange × Reply
  serve access r x =
      if is_admitted cfg.adapter_api_key access
      then serve_mux access.path r x
      else (x, error_reply w 401 "authentication_error" "invalid adapter API key")
