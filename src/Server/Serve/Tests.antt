-- ===== src/Server/Serve/Tests.antt =====
-- Runs of the whole handler of pkg/adapter/server.go at concrete requests.
use aadapter.Base.{String, ◌≡◌, ◌≢◌, refl, ◌⊎◌, true, Option, none, some, [], if◌then◌else◌, str_eq}
use aadapter.Access.{provided_key, is_admitted}
use aadapter.Config.{Config}
use aadapter.Config.Load.{read_config, is_loopback_listen_address}
use aadapter.Config.Tests.{environment, loaded, loads, no_key}
use aadapter.Server.{Reply, text, error_over}
use aadapter.Server.Serve.{healthz, handle, serve_mux, serve}
use aadapter.Server.Exposure.{serve-exposed}
use aadapter.Server.Tests.{world, inbound, start}

program : Unit {0}
unfolding provided_key is_admitted handle serve_mux serve
program = tt

abbrev find : String → Option String
find path = if str_eq path "/healthz" then some "/healthz" else none

abbrev missing : Reply
missing = record { status = 404; headers = []; content = text "404 page not found" }

abbrev guarded : Config
guarded = record loaded { adapter_api_key = "k" }

-- Without the key no more than the health is served, and a path that is not known is not found.
serves :
    ((serve (world 200) guarded find missing no_key inbound start).1.status ≡ 401)
    × (serve (world 200) guarded find missing (record no_key { path = "/healthz" }) inbound start
        ≡ (start, healthz))
    × ((serve (world 200) loaded find missing no_key inbound start).1.status ≡ 404)
unfolding program error_over read_config
serves = (refl, refl, refl)

serve-exposed_example :
    ((serve (world 200) loaded find missing no_key inbound start).0 ≡ start)
    ⊎ (((loaded.adapter_api_key ≢ "") × (provided_key no_key ≡ loaded.adapter_api_key))
        ⊎ ((loaded.adapter_api_key ≡ "")
            × ((loaded.allow_unauthenticated ≡ true)
                ⊎ (is_loopback_listen_address (environment "" "") loaded.listen_addr ≡ true))))
serve-exposed_example =
    serve-exposed (world 200) loaded find missing (environment "" "") no_key inbound start loads
      refl
