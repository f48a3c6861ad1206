-- ===== src/Startup/Server/Serving.antt =====
-- When gpuserver comes to serve.
use nvidia_gpu_scheduler.Prelude.{
  ℕ, Bool, true, false, not, ◌&&◌, ◌≡◌, refl, ap, ◌∙◌, List, [], ◌∷◌, Option, none, some, String,
  str_eq, if◌then◌else◌,
}
use nvidia_gpu_scheduler.Sets.{StringSet}
use nvidia_gpu_scheduler.Scheduler.{Made, made, failed}
use nvidia_gpu_scheduler.GpuModelFit.{ServerController, new_server_controller}
use nvidia_gpu_scheduler.Startup.{
  Tried, got, error, returned, Outcome, end_with, check, check_value,
}
use nvidia_gpu_scheduler.Startup.Clients.{
  get_kube_and_aggregator_clientset, log_or_write_config, ensure_api_service, Artifacts,
  TlsSettings, get_tls_config,
}
use nvidia_gpu_scheduler.Startup.Certs.{initialize_cert, initialize_cert_with_file}
use nvidia_gpu_scheduler.Startup.Manager.{start_gpu_manager}
use nvidia_gpu_scheduler.Startup.Server.{
  ServerFlags, ServerEnv, ServerAct, patched, listening, manager_started, registered, serving,
  serve_routes, serve_managed, serve_tls, serve_patched, serve_with, runserver,
}

abbrev pub is_none : {A : Type 0} → Option A → Bool
is_none none = true
is_none (some x) = false

-- The server has been asked to serve.
unfoldable pub serves : List ServerAct → Bool
serves [] = false
serves (patched c ∷ acts) = serves acts
serves (listening t ∷ acts) = serves acts
serves (manager_started ∷ acts) = serves acts
serves (registered r ∷ acts) = serves acts
serves (serving ∷ acts) = true

serves-check :
    (o : Option String) (r : Outcome ServerAct)
    → serves (check o r).acts ≡ (is_none o && serves r.acts)
unfolding serves
serves-check none r = refl
serves-check (some e) r = refl

serves-if :
    (b : Bool) (x y : Outcome ServerAct)
    → serves (if b then x else y).acts ≡ (if b then serves x.acts else serves y.acts)
serves-if true x y = refl
serves-if false x y = refl

abbrev pub made_of : Made ServerController → Bool
made_of (made sc) = true
made_of (failed e) = false

module _ (S : StringSet) (flags : ServerFlags) (env : ServerEnv) where
  -- The listener can be opened, and the manager and the controller can be made.
  unfoldable pub can_serve_tls : Tried TlsSettings → Bool
  unfolding start_gpu_manager new_server_controller
  can_serve_tls (error e) = false
  can_serve_tls (got t) =
      is_none (env.listen t)
      && (is_none (start_gpu_manager env.manager)
          && made_of (new_server_controller S flags.parallelism))

  -- The certificates are there, the APIService takes theirs, and they make a key pair.
  unfoldable pub can_serve_certs : Tried Artifacts → Bool
  unfolding can_serve_tls get_tls_config
  can_serve_certs (error e) = false
  can_serve_certs (got certs) =
      is_none (env.patch_api_service certs.ca_cert)
      && can_serve_tls (get_tls_config env.x509_key_pair certs)

  serves-routes : (m : Made ServerController) → serves (serve_routes S flags env m).acts ≡ made_of m
  unfolding serve_routes serves
  serves-routes (made sc) = refl
  serves-routes (failed e) = refl

  serves-managed :
      (o : Option ℕ)
      → serves (serve_managed S flags env o).acts
        ≡ (is_none o && made_of (new_server_controller S flags.parallelism))
  unfolding serve_managed serves
  serves-managed none = serves-routes (new_server_controller S flags.parallelism)
  serves-managed (some code) = refl

  serves-tls :
      (t : Tried TlsSettings)
      → serves (check_value t (serve_tls S flags env)).acts ≡ can_serve_tls t
  unfolding serve_tls serves can_serve_tls
  serves-tls (error e) = refl
  serves-tls (got t) =
      serves-check (env.listen t) _
      ∙ ap (λ b. is_none (env.listen t) && b) (serves-managed (start_gpu_manager env.manager))

  serves-patched :
      (certs : Artifacts) (err : Option String)
      → serves (serve_patched S flags env certs (returned err)).acts
        ≡ (is_none err && can_serve_tls (get_tls_config env.x509_key_pair certs))
  unfolding serve_patched serves
  serves-patched certs none = serves-tls (get_tls_config env.x509_key_pair certs)
  serves-patched certs (some e) = refl

  serves-certs :
      (c : Tried Artifacts)
      → serves (check_value c (serve_with S flags env (some env.patch_api_service))).acts
        ≡ can_serve_certs c
  unfolding serve_with ensure_api_service serves can_serve_certs
  serves-certs (error e) = refl
  serves-certs (got certs) = serves-patched certs (env.patch_api_service certs.ca_cert)

  serves-files :
      (c : Tried Artifacts) → serves (check_value c (serve_with S flags env none)).acts ≡ false
  unfolding serve_with ensure_api_service serve_patched serves
  serves-files (error e) = refl
  serves-files (got certs) = refl

  serves_if-not : (b : Bool) (x y : Bool) → x ≡ false → (if not b then x else y) ≡ (b && y)
  serves_if-not true x y h = refl
  serves_if-not false x y h = h

  serves_if-else : (b : Bool) (x y : Bool) → y ≡ false → (if b then x else y) ≡ (b && x)
  serves_if-else true x y h = refl
  serves_if-else false x y h = h

  -- The program comes to serve exactly when no configuration is to be written, TLSAuto is set, the
  -- clients can be made, the certificates can be ensured, the APIService takes them, they make a key
  -- pair, and the listener, the manager and the controller can be made. With TLSAuto off it never
  -- does.
  pub runserver-serves : serves (runserver S flags env).acts ≡ (
      str_eq flags.write_config_to ""
      && (flags.tls_auto
          && (is_none (get_kube_and_aggregator_clientset env.client_config)
              && can_serve_certs (initialize_cert env.cert_writer env.svc_name))))
  unfolding runserver serves
  runserver-serves =
      let wrote = end_with (log_or_write_config env.config_file flags.write_config_to) in
      let certs = initialize_cert env.cert_writer env.svc_name in
      let auto =
        check (get_kube_and_aggregator_clientset env.client_config)
          (check_value certs (serve_with S flags env (some env.patch_api_service))) in
      let files =
        check_value (initialize_cert_with_file env.read_file flags.tls_config)
          (serve_with S flags env none) in
      serves-if (not (str_eq flags.write_config_to "")) wrote
        (if flags.tls_auto then auto else files)
      ∙ serves_if-not (str_eq flags.write_config_to "") (serves wrote.acts)
          (serves (if flags.tls_auto then auto else files).acts) refl
      ∙ ap (λ b. str_eq flags.write_config_to "" && b)
          (serves-if flags.tls_auto auto files
            ∙ serves_if-else flags.tls_auto (serves auto.acts) (serves files.acts)
                (serves-files (initialize_cert_with_file env.read_file flags.tls_config))
            ∙ ap (λ b. flags.tls_auto && b)
                (serves-check (get_kube_and_aggregator_clientset env.client_config)
                    (check_value certs (serve_with S flags env (some env.patch_api_service)))
                  ∙ ap (λ b. is_none (get_kube_and_aggregator_clientset env.client_config) && b)
                      (serves-certs certs)))
