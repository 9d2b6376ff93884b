-- ===== src/Examples/Rounds.antt =====
-- The reconciler and the life of a status at concrete rounds.
use fqdn_egress_operator.Base.{
  ◌+◌, ◌*◌, ltb, Text, bytes, false, not, is_some, List, [], ◌∷◌, none, some, if◌then◌else◌, ◌≡◌,
  refl, any, length, arith,
}
use fqdn_egress_operator.Base.Int.{pos}
use fqdn_egress_operator.Base.Dict.{get}
use fqdn_egress_operator.Multi.{MultiPolicy}
use fqdn_egress_operator.Api.Reason.{success, timeout, host_not_found, reason_eq, transient}
use fqdn_egress_operator.Api.Types.{NetworkPolicy, FqdnStatus}
use fqdn_egress_operator.Api.Status.{update, second}
use fqdn_egress_operator.Api.Status.Lifecycle.{
  Attempt, failed_run, failed_run_grace, update-failing_since,
}
use fqdn_egress_operator.Api.Translate.{cidr_string}
use fqdn_egress_operator.Network.Errors.{new_lookup_error}
use fqdn_egress_operator.Network.Result.{Result, new_result}
use fqdn_egress_operator.Utils.Operation.{updated}
use fqdn_egress_operator.Controller.Statuses.{Clock, update_fqdn_statuses}
use fqdn_egress_operator.Controller.Statuses.Tracked.{Tracks, lost, update_fqdn_statuses_lem}
use fqdn_egress_operator.Controller.Retention.{retain_status, old_missing_map, or_empty}
use fqdn_egress_operator.Controller.Retention.Entries.{find_entry, old_of}
use fqdn_egress_operator.Examples.Fixtures.{
  in_order, private_text, public_cidr, net, dns, dns_status, policy_with, policy, server-ClientLaws,
  env_with,
}
use fqdn_egress_operator.Controller.Retention.Retained.{retained, retain_status_lem}
use fqdn_egress_operator.Controller.Sync.{mutate}
use fqdn_egress_operator.Controller.Sync.Synced.{mutate_lem}
use fqdn_egress_operator.Controller.Cluster.{other, Cluster}
use fqdn_egress_operator.Controller.Reconcile.{
  Round, done, failed, apply_policy, resolved_policy, reconcile_rules, change,
}
use fqdn_egress_operator.Controller.Reconcile.Applied.{EnvLaws, reconcile_rules_lem}
use fqdn_egress_operator.Controller.Reconcile.Deletion.{failed_deletion_lem}

abbrev object : Text → MultiPolicy
object label = record {
  name = bytes "np";
  namespace = bytes "default";
  labels = (bytes "app", label) ∷ [];
  annotations = (bytes "policy-for", label) ∷ [];
  spec = record {
    match_labels = [];
    match_expressions = [];
    ingress = [];
    egress = [];
    policy_types = bytes "Egress" ∷ [];
  };
}

-- A cluster with a MultiNetworkPolicy of an earlier round
abbrev cluster : NetworkPolicy → Cluster
cluster np = record { policy = some np; multi = some (object (bytes "old")); events = [] }

pub env-EnvLaws : EnvLaws (env_with none)
env-EnvLaws = record {
  client = server-ClientLaws none;
  set_owner = λ np m n h. ground (arith, h);
  same_spec = λ s t h. absurd (cc h);
}

mutate_lem_example :
    (get
        (bytes "app")
        (mutate in_order (λ s t. false) (object (bytes "new")) (object (bytes "old"))).labels
      ≡ get (bytes "app") (object (bytes "new")).labels)
    × (get
          (bytes "app")
          (mutate in_order (λ s t. false) (object (bytes "new")) (object (bytes "old"))).annotations
        ≡ get (bytes "app") (object (bytes "new")).annotations)
    × ((mutate in_order (λ s t. false) (object (bytes "new")) (object (bytes "old"))).spec
        ≡ (object (bytes "new")).spec)
    × ((mutate in_order (λ s t. false) (object (bytes "new")) (object (bytes "old"))).name
        ≡ bytes "np")
    × ((mutate in_order (λ s t. false) (object (bytes "new")) (object (bytes "old"))).namespace
        ≡ bytes "default")
mutate_lem_example =
    mutate_lem in_order (λ s t. false) (object (bytes "new")) (object (bytes "old")) (bytes "app")
      (λ s t h. absurd (cc h)) (unfold get in (refl, tt)) (unfold get in (refl, tt))

reconcile_rules_lem_example :
    (m : MultiPolicy) × ((reconcile_rules
        (env_with none)
        policy
        policy
        (object (bytes "new"))
        (cluster policy)).0.multi
      ≡ some m)
    × (m.spec ≡ (object (bytes "new")).spec)
    × ((key : Text)
        → (get key m.labels ≡ get key (object (bytes "new")).labels)
          × (get key m.annotations ≡ get key (object (bytes "new")).annotations))
reconcile_rules_lem_example =
    reconcile_rules_lem (env_with none) env-EnvLaws policy policy (object (bytes "new"))
      (cluster policy) updated (unfold get in (refl, tt)) (unfold get in (refl, tt))
      (unfold change in refl)

failed_deletion_lem_example :
    ((apply_policy
        (env_with (some (other (bytes "timeout"))))
        (policy_with [] 1)
        (policy_with [] 1)
        none
        (cluster (policy_with [] 1))).1
      ≡ failed (other (bytes "timeout")))
    × ((new : NetworkPolicy) × ((apply_policy
            (env_with (some (other (bytes "timeout"))))
            (policy_with [] 1)
            (policy_with [] 1)
            none
            (cluster (policy_with [] 1))).0.policy
          ≡ some new)
        × ((statuses : List FqdnStatus) (round : Round) (message : Text) (later : Cluster)
            → apply_policy
                (env_with (some (other (bytes "timeout"))))
                (resolved_policy
                  (env_with (some (other (bytes "timeout"))))
                  new
                  statuses
                  round
                  message)
                new
                none
                later
              ≡ (later, done)))
failed_deletion_lem_example =
    failed_deletion_lem (env_with (some (other (bytes "timeout"))))
      (server-ClientLaws (some (other (bytes "timeout")))) (policy_with [] 1) (policy_with [] 1)
      (object (bytes "old")) (cluster (policy_with [] 1)) (bytes "timeout") refl refl refl refl refl
      refl refl

retain_status_lem_example :
    find_entry private_text
      (retain_status 12
        (pos 5)
        in_order
        (old_missing_map (dns_status ∷ []) [])
        []
        dns_status).addresses
    ≡ retained 12 5
        (or_empty (get dns []))
        (old_of (dns_status ∷ []) dns)
        dns_status.addresses
        private_text
retain_status_lem_example =
    retain_status_lem 12 5 in_order (dns_status ∷ []) [] dns_status private_text (omega arith)

abbrev one_result : Result
one_result = new_result dns [] (some (new_lookup_error host_not_found (bytes "no such host")))

abbrev clock : Clock
clock n = (n, n)

update_fqdn_statuses_lem_example :
    Tracks
      (update_fqdn_statuses (cidr_string net) clock (pos 60) (dns_status ∷ []) (one_result ∷ [])).0
      (one_result ∷ [])
    × (length
          (update_fqdn_statuses
            (cidr_string net)
            clock
            (pos 60)
            (dns_status ∷ [])
            (one_result ∷ [])).1
        ≡ lost
            (dns_status ∷ [])
            (one_result ∷ [])
            (update_fqdn_statuses
              (cidr_string net)
              clock
              (pos 60)
              (dns_status ∷ [])
              (one_result ∷ [])).0)
update_fqdn_statuses_lem_example =
    update_fqdn_statuses_lem (cidr_string net) clock (pos 60) (dns_status ∷ []) (one_result ∷ [])

abbrev failing : FqdnStatus
failing = record dns_status { failing_since = some 0; reason = timeout }

-- An attempt after the grace period
abbrev late : Attempt
late = record { reason = timeout; message = []; now = 70_000_000_000; later = 70_000_000_000 }

failed_run_grace_example :
    ((failed_run (cidr_string net) 60 failing (late ∷ [])).failing_since ≡ some 0)
    × ((failed_run (cidr_string net) 60 failing (late ∷ [])).addresses ≡ (
        if any (λ (a : Attempt). ltb (0 + 60 * second) a.now) (late ∷ [])
        then []
        else failing.addresses))
failed_run_grace_example =
    failed_run_grace (cidr_string net) 60 failing (late ∷ []) 0 (unfold transient in (refl, tt))
      refl

update-failing_since_example :
    (not (
        is_some
          (update
            (cidr_string net)
            dns_status
            (public_cidr ∷ [])
            success
            []
            (pos 60)
            7
            8).0.failing_since)
      ≡ reason_eq
          (update (cidr_string net) dns_status (public_cidr ∷ []) success [] (pos 60) 7 8).0.reason
          success)
    × ((update (cidr_string net) dns_status (public_cidr ∷ []) success [] (pos 60) 7 8).0.reason
        ≡ success)
    × ((update (cidr_string net) dns_status (public_cidr ∷ []) success [] (pos 60) 7 8).0.message
        ≡ [])
    × ((update (cidr_string net) dns_status (public_cidr ∷ []) success [] (pos 60) 7 8).0.fqdn
        ≡ dns)
update-failing_since_example =
    update-failing_since (cidr_string net) dns_status (public_cidr ∷ []) success [] (pos 60) 7 8
