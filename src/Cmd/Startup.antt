-- ===== src/Cmd/Startup.antt =====
-- cmd/main.go: what holds of every call that the process makes, and where it stops.
use fqdn_egress_operator.Base.{
  ℕ, ◌<◌, Text, Bool, true, false, not, List, [], ◌∷◌, ◌++◌, ◌≡◌, ◌≢◌, refl, inl, inr, All,
  Bool-cases, null,
}
use fqdn_egress_operator.Cmd.{max_concurrent_resolves-positive}
use fqdn_egress_operator.Cmd.Slices.{GrowLaws}
use fqdn_egress_operator.Cmd.Tls.{
  webhook_watcher, metrics_watcher, apply_options, zero_config, expected, NothingShared,
  server_options_lem,
}
use fqdn_egress_operator.Cmd.Start.{
  Flags, Action, new_watcher, new_manager, setup_controller, ManagerOptions, run, when,
  manager_options, plan, upstream_dns, main,
}

-- Both servers have the TLS configuration that the flags ask for, and the metrics are served to those who
-- are authorized wherever they are served securely.
pub record IsConfigured (f : Flags) (o : ManagerOptions) : Type 0 where
  pub webhook :
      apply_options o.webhook_tls zero_config
      ≡ expected f.enable_http2 f.webhook_cert_path webhook_watcher
  pub metrics :
      apply_options o.metrics_tls zero_config
      ≡ expected f.enable_http2 f.metrics_cert_path metrics_watcher
  pub authorized : o.authorization ≡ o.secure_serving

-- What is right of one call.
abbrev pub IsRight : Flags → Action → Type 0
IsRight f (new_manager o) = IsConfigured f o
IsRight f (setup_controller dns n) = (dns ≢ []) × (0 < n)
IsRight f (new_watcher webhook_watcher c k) = f.webhook_cert_path ≢ []
IsRight f (new_watcher metrics_watcher c k) = f.metrics_cert_path ≢ []
IsRight f _ = Unit

All-append : (P : Action → Type 0) (xs ys : List Action) → All P xs → All P ys → All P (xs ++ ys)
All-append P [] ys h k = k
All-append P (x ∷ xs) ys h k = (h.0, All-append P xs ys h.1 k)

All-when : (P : Action → Type 0) (b : Bool) (a : Action) → (b ≡ true → P a) → All P (when b a)
All-when P true a h = (h refl, tt)
All-when P false a h = tt

path_ne_nil : (s : Text) → not (null s) ≡ true → s ≢ []
path_ne_nil [] h e = cc h
path_ne_nil (c ∷ s) h e = cc e

upstream_dns-ne-nil : (env : Text) → upstream_dns env ≢ []
unfolding upstream_dns
upstream_dns-ne-nil [] e = cc e
upstream_dns-ne-nil (c ∷ s) e = cc e

module _ (grow : ℕ → ℕ) (laws : GrowLaws grow) (join_path : Text → Text → Text) (f : Flags)
    (apart : NothingShared grow f.enable_http2 f.webhook_cert_path f.metrics_cert_path) (env : Text)
    (procs : ℕ) where
  options-IsConfigured : IsConfigured f (manager_options grow f)
  unfolding manager_options
  options-IsConfigured =
      let both =
        server_options_lem grow f.enable_http2 f.webhook_cert_path f.metrics_cert_path laws apart in
      record { webhook = both.0; metrics = both.1; authorized = refl }

  plan-IsRight : All (IsRight f) (plan grow join_path f env procs)
  unfolding plan
  plan-IsRight =
      let Right = IsRight f in
      let path : Text = f.webhook_cert_path in
      let other : Text = f.metrics_cert_path in
      (
        tt,
        (
          tt,
          (
            tt,
            All-append Right _ _ (All-when Right (not (null path)) _ (path_ne_nil path)) (
                All-append Right _ _ (All-when Right (not (null other)) _ (path_ne_nil other)) (
                  tt,
                  (
                    options-IsConfigured,
                    (
                      (
                        upstream_dns-ne-nil env,
                        max_concurrent_resolves-positive f.max_concurrent procs,
                      ),
                      All-append Right _ _ (All-when Right (not (null other)) _ (λ e. tt)) (
                          All-append Right _ _ (All-when Right (not (null path)) _ (λ e. tt))
                            (tt, (tt, (tt, tt)))),
                    ),
                  ),
                )),
          ),
        ),
      )

run-All :
    (P : Action → Type 0) (fails : Action → Bool) (actions : List Action)
    → All P actions
    → All P (run fails actions).0
unfolding run
run-All P fails [] h = tt
run-All P fails (a ∷ rest) h = elim (Bool-cases (fails a)) [
  | inl e ↦ rw e (h.0, tt)
  | inr e ↦ rw e (h.0, run-All P fails rest h.1)
]

-- Whatever fails, every call that the process makes is right. The manager gets a webhook server and a metrics
-- server with HTTP/1.1 alone unless HTTP/2 is enabled, each with the certificate of its own watcher
-- exactly when its path is set, provided that HTTP/2 is enabled, one of the two paths is not set, or append to a
-- nil slice gives an array of one cell; and with authorization of the metrics whenever they are secure; a
-- certificate watcher is made only for a path that is set; and the controller gets a DNS server and at
-- least one lookup at a time.
pub main-IsRight :
    (grow : ℕ → ℕ) (join_path : Text → Text → Text) (fails : Action → Bool) (f : Flags) (env : Text)
    (procs : ℕ)
    → GrowLaws grow
    → NothingShared grow f.enable_http2 f.webhook_cert_path f.metrics_cert_path
    → All (IsRight f) (main grow join_path fails f env procs).0
unfolding main
main-IsRight grow join_path fails f env procs laws apart =
    run-All (IsRight f) fails (plan grow join_path f env procs)
      (plan-IsRight grow laws join_path f apart env procs)
