-- ===== src/Cmd/Start.antt =====
-- cmd/main.go: the flags, and the steps of init and main in their order.
use fqdn_egress_operator.Base.{
  ℕ, Text, bytes, Bool, true, false, not, List, [], ◌∷◌, ◌++◌, null, if◌then◌else◌,
}
use fqdn_egress_operator.Base.Int.{ℤ, pos}
use fqdn_egress_operator.Cmd.{max_concurrent_resolves}
use fqdn_egress_operator.Cmd.Slices.{read_slice}
use fqdn_egress_operator.Cmd.Tls.{
  Watcher, webhook_watcher, metrics_watcher, TlsOption, server_options,
}

pub record Flags : Type 0 where
  pub metrics_addr : Text
  pub probe_addr : Text
  pub enable_leader_election : Bool
  pub secure_metrics : Bool
  pub webhook_cert_path : Text
  pub webhook_cert_name : Text
  pub webhook_cert_key : Text
  pub metrics_cert_path : Text
  pub metrics_cert_name : Text
  pub metrics_cert_key : Text
  pub enable_http2 : Bool
  pub max_concurrent : ℤ

-- The values without any flag
abbrev pub default_flags : Flags
default_flags = record {
  metrics_addr = bytes "0";
  probe_addr = bytes ":8081";
  enable_leader_election = false;
  secure_metrics = true;
  webhook_cert_path = [];
  webhook_cert_name = bytes "tls.crt";
  webhook_cert_key = bytes "tls.key";
  metrics_cert_path = [];
  metrics_cert_name = bytes "tls.crt";
  metrics_cert_key = bytes "tls.key";
  enable_http2 = false;
  max_concurrent = pos 0;
}

-- upstreamDNS, with the value of the environment's UPSTREAM_DNS, empty where it is not set
unfoldable pub upstream_dns : Text → Text
upstream_dns env = if null env then bytes "172.30.0.10" else env

-- metricsserver.Options, webhook.Options and ctrl.Options
pub record ManagerOptions : Type 0 where
  pub metrics_addr : Text
  pub secure_serving : Bool
  pub metrics_tls : List TlsOption
  pub authorization : Bool
  pub webhook_tls : List TlsOption
  pub probe_addr : Text
  pub leader_election : Bool

-- The packages whose types init adds to the scheme
pub data Package : Type 0 where
  client_go networking multi_networkpolicy : Package

-- The calls that can fail, each with its arguments
pub data Action : Type 0 where
  add_to_scheme : Package → Action
  new_watcher : Watcher → Text → Text → Action
  get_config : Action
  new_manager : ManagerOptions → Action
  setup_controller : Text → ℕ → Action
  add_watcher : Watcher → Action
  add_healthz add_readyz : Action
  start_manager : Action

-- How the process ends
pub data Exit : Type 0 where
  ended exited_one panicked : Exit

-- `os.Exit(1)` after a failed call of main, or in GetConfigOrDie; utilruntime.Must of init panics
unfoldable pub exit_of : Action → Exit
exit_of (add_to_scheme p) = panicked
exit_of _ = exited_one

-- The calls in turn, up to the first that fails.
unfoldable pub run : (Action → Bool) → List Action → List Action × Exit
unfolding exit_of
run fails [] = ([], ended)
run fails (a ∷ rest) =
    let (done, exit) = run fails rest in if fails a then (a ∷ [], exit_of a) else (a ∷ done, exit)

-- The call and, where there is a path, nothing else
abbrev pub when : Bool → Action → List Action
when true a = a ∷ []
when false a = []

-- The options of the manager
unfoldable pub manager_options : (ℕ → ℕ) → Flags → ManagerOptions
manager_options grow f =
    let (webhook, metrics, h) =
      server_options grow f.enable_http2 f.webhook_cert_path f.metrics_cert_path in
    record {
      metrics_addr = f.metrics_addr;
      secure_serving = f.secure_metrics;
      metrics_tls = read_slice metrics h;
      authorization = f.secure_metrics;
      webhook_tls = read_slice webhook h;
      probe_addr = f.probe_addr;
      leader_election = f.enable_leader_election;
    }

-- The calls of init and main; `join_path` is filepath.Join and `procs` is GOMAXPROCS(0)
unfoldable pub plan : (ℕ → ℕ) → (Text → Text → Text) → Flags → Text → ℕ → List Action
unfolding manager_options upstream_dns
plan grow join_path f env procs =
    add_to_scheme client_go
    ∷ add_to_scheme networking
    ∷ add_to_scheme multi_networkpolicy
    ∷ (when (not (null f.webhook_cert_path)) (
          new_watcher webhook_watcher (join_path f.webhook_cert_path f.webhook_cert_name)
            (join_path f.webhook_cert_path f.webhook_cert_key))
        ++ (when (not (null f.metrics_cert_path)) (
              new_watcher metrics_watcher (join_path f.metrics_cert_path f.metrics_cert_name)
                (join_path f.metrics_cert_path f.metrics_cert_key))
            ++ (get_config
                ∷ new_manager (manager_options grow f)
                ∷ setup_controller (upstream_dns env)
                    (max_concurrent_resolves f.max_concurrent procs)
                ∷ (when (not (null f.metrics_cert_path)) (add_watcher metrics_watcher)
                    ++ (when (not (null f.webhook_cert_path)) (add_watcher webhook_watcher)
                        ++ (add_healthz ∷ add_readyz ∷ start_manager ∷ []))))))

-- init and main
unfoldable pub main :
    (ℕ → ℕ) → (Text → Text → Text) → (Action → Bool) → Flags → Text → ℕ → List Action × Exit
unfolding plan run
main grow join_path fails f env procs = run fails (plan grow join_path f env procs)
