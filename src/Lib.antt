-- ===== src/Lib.antt =====
-- aadapter, an HTTP adapter from the Anthropic Messages API to Vertex AI: a model of the parts of
-- pkg/adapter that decide what is sent upstream, what is sent back and what is kept, and the
-- theorems about them.
--
-- The program. The server (pkg/adapter/server.go) takes a request of the Anthropic API, converts it
-- for Gemini (pkg/adapter/gemini.go) with the thought signatures that it remembers for the session
-- (pkg/adapter/signature_store.go), gets a bearer token (pkg/adapter/token_provider.go), forwards
-- the request, and converts the answer back, cutting its text at the stop sequences (the stop
-- filter of pkg/adapter/gemini.go) and remembering the signatures that came with it. A streamed
-- answer is converted event by event as it comes in; where the upstream takes the Anthropic API
-- itself, a request is forwarded without its model and with a version, and its answer is copied.
-- The limits, addresses and keys come from the environment (pkg/adapter/config.go).
--
-- The files, and what they model:
--   Base        shared names, lists, texts, the texts of numbers, maps as association lists
--               (`map[K]V`), and Outcome, a value and an error.
--   Json        the values of encoding/json, the type assertions on them and the helpers
--               stringOrEmpty, objectMapOrEmpty, copyField, thoughtSignature.
--   Platform    the functions of Go's standard library that the models call, as a record that
--               they take as an argument; Platform/Sample fills it for the tests.
--   Signatures  signatureStore: newSignatureStore, snapshot, remember, cleanup, evictOldestSession,
--               evictOldestSignature. The state is the map of sessions with its limits; a call is
--               a function of the store and of the time.
--   StopFilter  earliestStop, textStopFilter, Feed and Flush, on lists of any alphabet.
--   Gemini      the conversions between the two APIs. Options: validateGeminiTopLevelFields,
--               buildGeminiGenerationConfigForModel, resolveGeminiThinkingLevel. Tools:
--               buildGeminiTools, buildGeminiToolConfig, ensureObjectSchema,
--               requiresGeminiParametersJSONSchema. Media: anthropicMediaBlockToGeminiPart,
--               normalizeToolResult. Fold: foldGeminiFunctionResponseSupplements. Carrier:
--               signatureCarrierBlock, decodeSignatureCarrier. Contents: buildGeminiContents,
--               convertAnthropicContentToGeminiParts. Request: buildGeminiSystemInstruction and
--               anthropicMessagesToGeminiForModel, which calls all of them. Candidate:
--               validateGeminiCandidate. Response: the conversion of an answer,
--               geminiObjectToAnthropicWithSignatures and buildAnthropicUsage. Stops: the cut
--               of its texts, applyAnthropicStopSequences. Answer: the whole conversion of the
--               bytes of an answer, geminiResponseToAnthropicWithDefaults, and
--               geminiCountTokensToAnthropic.
--   Gemini/Stream  streamGeminiAsAnthropic. Its variables are the record Converter, its closures
--               are actions on that which may fail: in Stream itself and in Emit those that write
--               events, in Process those that read the JSON of the upstream's events, in Lines the
--               loop over the lines and the end of the stream. Protocol, Rules, Order and Blocks
--               say which order the events keep; Runs, Texts, Filtered, Finish and Ending what
--               becomes of the text, Calls and Reasons how the stop reason comes about; Result puts
--               all together.
--   Tokens      tokenProvider: GetBearerToken, RefreshAfterRejection, refreshSingleflight and refresh,
--               as steps of calls: a call reads the provider, asks for a refresh and waits for it.
--   Access      adapterAuthMiddleware, isSensitiveHeader and formatHeaders of the server.
--   Capture     readResponseBody, cappedBuffer and the loop of streamCopyAndCapture.
--   Config      LoadConfigFromEnv with its helpers, withRuntimeDefaults, and the checks of
--               NewServer. os.Getenv and the parsers of Go are fields of an Environment. Segments:
--               targetPath and the checks of a segment and of a model.
--   Server      messages and countTokens and what they call of pkg/adapter/server.go and
--               pkg/adapter/http_helpers.go. Upstream: rewriteRequestForVertex, forward, and the
--               retry after a rejected token. Handlers: messages. Counts: countTokens. A handler is
--               a function of an Exchange, the state of the server and the requests that were sent,
--               and it goes on or replies.
--               Serve: the handler of NewServer, with the routes and the check of the key.
--
-- What the model takes for granted. A map has one entry for a key, and a theorem does not depend on
-- the order of its entries; where Go's order decides which of several errors is reported, the model
-- reports the first. Every error carries its text. A decoded number is a finite float64. What holds
-- a mutex is one step, so that concurrency is a list of steps. Of singleflight nothing is fixed:
-- which refreshes are started and which result a call is given is what the list of steps says. The
-- expiry of a token keeps the wrap-around of an int64 duration. All loops are recursion on lists,
-- so that no fuel is needed and every function is total. The handlers take from a World what is
-- outside of them: the results of the token provider's two calls, the answers of the upstream, the
-- clocks, the lines that bufio.Scanner finds, and which writes to the client fail. What a
-- http.ServeMux finds for a path is a parameter of the whole handler.
--
-- What is not modelled: the logger, the settings of the HTTP client and main.go; of the server, the
-- middleware that logs, the texts for debugging, and the copy to a client that cannot flush; of the
-- converted stream, flushing it and capturing it for debugging.
pub mod Base
pub mod Signatures
pub mod StopFilter
pub mod Json
pub mod Platform
pub mod Gemini
pub mod Tokens
pub mod Capture
pub mod Config
pub mod Server
pub mod Access
