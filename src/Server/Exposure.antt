-- ===== src/Server/Exposure.antt =====
-- Who may use the server of pkg/adapter/server.go at all, with a configuration that was loaded.
use aadapter.Base.{
  String, ◌≡◌, ◌≢◌, refl, ◌⊎◌, inl, inr, true, Bool-cases, Option, some, str_eq, eq_iff,
}
use aadapter.Base.Outcome.{ok}
use aadapter.Access.{Request, provided_key, is_admitted}
use aadapter.Config.{Config, Environment}
use aadapter.Config.Load.{is_loopback_listen_address, check_access, load_config_from_env}
use aadapter.Config.Laws.{require-ok, load-IsChecked}
use aadapter.Config.Exposure.{exposed}
use aadapter.Server.{Inbound, Reply, Exchange, World}
use aadapter.Server.Serve.{handle, serve_mux, serve}

module _ (w : World) (cfg : Config) (find : String → Option String) (missing : Reply) where
  -- A request for the health of the adapter leaves the state as it is.
  health-same :
      (path : String) (r : Inbound) (x : Exchange)
      → find "/healthz" ≡ some "/healthz"
      → str_eq path "/healthz" ≡ true
      → (serve_mux w cfg find missing path r x).0 ≡ x
  unfolding serve_mux handle
  health-same path r x routed same =
      let e : path ≡ "/healthz" = (eq_iff path "/healthz").0 same in
      rw (e, serve_mux, routed, handle) refl

-- With a configuration that was loaded, where net/http finds the handler for the health of the
-- adapter, a request that changes anything in the server, sends anything upstream, or makes it read
-- its clock, gives the key that is set, or no key is set and the server listens on a loopback address
-- or ALLOW_UNAUTHENTICATED allows it.
pub serve-exposed :
    (w : World) (cfg : Config) (find : String → Option String) (missing : Reply) (e : Environment)
    (access : Request) (r : Inbound) (x : Exchange)
    → load_config_from_env e ≡ ok cfg
    → find "/healthz" ≡ some "/healthz"
    → ((serve w cfg find missing access r x).0 ≡ x)
      ⊎ (((cfg.adapter_api_key ≢ "") × (provided_key access ≡ cfg.adapter_api_key))
          ⊎ ((cfg.adapter_api_key ≡ "")
              × ((cfg.allow_unauthenticated ≡ true)
                  ⊎ (is_loopback_listen_address e cfg.listen_addr ≡ true))))
unfolding serve is_admitted check_access
serve-exposed w cfg find missing e access r x loaded routed =
    elim (Bool-cases (str_eq cfg.adapter_api_key "")) [
      | inl keyless ↦ inr (
          inr (
            (eq_iff cfg.adapter_api_key "").0 keyless,
            exposed (str_eq cfg.adapter_api_key "") cfg.allow_unauthenticated
                (is_loopback_listen_address e cfg.listen_addr)
                (require-ok _ _ (load-IsChecked e cfg loaded).access) keyless,
          ))
      | inr set ↦ elim (Bool-cases (str_eq access.path "/healthz")) [
        | inl health ↦ inl (
            rw (set, health, serve, is_admitted)
              (health-same w cfg find missing access.path r x routed health))
        | inr other ↦ elim (Bool-cases (str_eq (provided_key access) cfg.adapter_api_key)) [
          | inr wrong ↦ inl (rw (set, other, wrong, serve, is_admitted) refl)
          | inl right ↦ inr (
              inl (
                λ same. absurd (cc ((eq_iff cfg.adapter_api_key "").1 same, set)),
                (eq_iff (provided_key access) cfg.adapter_api_key).0 right,
              ))
        ]
      ]
    ]
