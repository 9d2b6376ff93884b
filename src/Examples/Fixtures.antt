-- ===== src/Examples/Fixtures.antt =====
-- Data for the examples: a small policy, the libraries as concrete functions, and an API server.
use mathlib.Core.List.Permᴰ as PermD
use fqdn_egress_operator.Base.{
  ℕ, Text, bytes, str_eq, true, false, List, [], ◌∷◌, Option, none, some, ◌⊎◌, inl, inr,
  if◌then◌else◌, ◌≡◌, refl, sym, ◌∙◌, All, All_mem,
}
use fqdn_egress_operator.Base.Int.{pos}
use fqdn_egress_operator.Base.Decimal.{itoa}
use fqdn_egress_operator.Base.Range.{RangeOrder}
use fqdn_egress_operator.Multi.{IntOrString, int_val, str_val, PortPrinter, Port, Rule, MultiPolicy}
use fqdn_egress_operator.Utils.Dedupe.{cidr_peer}
use fqdn_egress_operator.Utils.Dedupe.Traffic.{Traffic, KeysAgree}
use fqdn_egress_operator.Utils.Operation.{OperationResult, updated}
use fqdn_egress_operator.Api.Reason.{success, all}
use fqdn_egress_operator.Api.Types.{Cidr, FqdnStatus, PolicyPort, EgressRule, NetworkPolicy}
use fqdn_egress_operator.Api.Translate.{NetText}
use fqdn_egress_operator.Controller.Cluster.{ApiError, Cluster, Client, ClientLaws, stored_or}
use fqdn_egress_operator.Controller.Reconcile.{Env}

abbrev print_port : IntOrString → Text
print_port (int_val n) = itoa n
print_port (str_val s) = s

abbrev pub printer : PortPrinter
printer = record { string = print_port; string_int = λ n. refl }

abbrev pub in_order : RangeOrder
in_order = record {
  range = λ loop {A} (xs : List A). xs;
  range-perm = λ loop {A} (xs : List A). PermD.refl xs;
}

abbrev pub public_text : Text
public_text = bytes "8.8.8.8/32"

abbrev pub private_text : Text
private_text = bytes "10.0.0.1/32"

abbrev pub public_cidr : Cidr
public_cidr = record { ip = 8 ∷ 8 ∷ 8 ∷ 8 ∷ []; prefix = 32 }

abbrev pub private_cidr : Cidr
private_cidr = record { ip = 10 ∷ 0 ∷ 0 ∷ 1 ∷ []; prefix = 32 }

abbrev print_ip : List ℕ → Text
print_ip ip = if str_eq ip (8 ∷ 8 ∷ 8 ∷ 8 ∷ []) then bytes "8.8.8.8" else bytes "10.0.0.1"

abbrev pub net : NetText
net = record {
  ip_string = print_ip;
  parse_cidr = λ t.
      if str_eq t public_text
      then some public_cidr
      else if str_eq t private_text
      then some private_cidr
      else none;
}

abbrev pub dns : Text
dns = bytes "dns.google"

abbrev pub https : Traffic
https = record { protocol = bytes "TCP"; number = 443 }

abbrev pub https_port : PolicyPort
https_port = record { protocol = bytes "TCP"; port = some 443; end_port = none }

abbrev pub dns_status : FqdnStatus
dns_status = record {
  fqdn = dns;
  failing_since = none;
  last_transition_time = 5;
  reason = success;
  message = bytes "ok";
  addresses =
      record { address = public_text; missing_since = none }
      ∷ record { address = private_text; missing_since = some 10 }
      ∷ [];
}

abbrev pub policy_with : List EgressRule → ℕ → NetworkPolicy
policy_with rules seen = record {
  name = bytes "np";
  namespace = bytes "default";
  labels = (bytes "app", bytes "web") ∷ [];
  annotations = [];
  generation = 2;
  spec = record {
    target_network = bytes "net";
    egress = rules;
    match_labels = [];
    match_expressions = [];
    enabled_network_type = all;
    resolution_timeout_seconds = 3;
    retry_timeout_seconds = pos 60;
    ttl_seconds = 30;
    block_private_ips = true;
  };
  status = record {
    fqdns = dns_status ∷ [];
    active_fqdn_count = 1;
    failing_fqdn_count = 0;
    applied_address_count = 1;
    total_address_count = 1;
    conditions = [];
    observed_generation = seen;
  };
}

abbrev pub dns_rule : EgressRule
dns_rule = record { to_fqdns = dns ∷ []; ports = https_port ∷ []; block_private_ips = none }

abbrev pub policy : NetworkPolicy
policy = policy_with (dns_rule ∷ []) 1

abbrev pub tcp : ℕ → Port
tcp n = record { protocol = some (bytes "TCP"); port = some (int_val n); end_port = none }

abbrev pub two_rules : List Rule
two_rules =
    record { ports = tcp 443 ∷ []; to = cidr_peer public_text ∷ cidr_peer private_text ∷ [] }
    ∷ record { ports = tcp 80 ∷ tcp 443 ∷ []; to = cidr_peer public_text ∷ [] }
    ∷ []

-- Rules without end ports have no two that differ.
pub no_end_ports :
    (rules : List Rule)
    → All (λ (r : Rule). All (λ (p : Port). p.end_port ≡ none) r.ports) rules
    → KeysAgree printer rules
no_end_ports rules h p q (r, m, i) (s, n, j) _ =
    All_mem (λ (x : Port). x.end_port ≡ none) r.ports (All_mem _ rules h m) i
    ∙ sym (All_mem (λ (x : Port). x.end_port ≡ none) s.ports (All_mem _ rules h n) j)

-- An API server on which the deletion answers as given.
abbrev store : MultiPolicy ⊎ ApiError → Cluster → Cluster × (OperationResult ⊎ ApiError)
store (inl new) k = (record k { multi = some new }, inl updated)
store (inr e) k = (k, inr e)

abbrev found : {A : Type 0} → Option A → A ⊎ ApiError
found (some x) = inl x
found none = inr ApiError.not_found

abbrev rewrite_status : Option NetworkPolicy → NetworkPolicy → Option NetworkPolicy
rewrite_status none np = none
rewrite_status (some old) np = some (record old { status = np.status })

abbrev pub server : Option ApiError → Client
server answer = record {
  get_policy = λ k. found k.policy;
  update_status = λ np k. (record k { policy = rewrite_status k.policy np }, none);
  get_multi = λ k. found k.multi;
  delete_multi = λ k. (k, answer);
  create_or_update = λ given f k. store (f (stored_or given k.multi)) k;
}

store-stored :
    (made : MultiPolicy ⊎ ApiError) (k : Cluster) (op : OperationResult)
    → (store made k).1 ≡ inl op
    → (new : MultiPolicy) × (made ≡ inl new) × ((store made k).0.multi ≡ some new)
store-stored (inl new) k op h = (new, refl, refl)
store-stored (inr e) k op h = absurd (cc h)

store-events : (made : MultiPolicy ⊎ ApiError) (k : Cluster) → (store made k).0.events ≡ k.events
store-events (inl new) k = refl
store-events (inr e) k = refl

pub server-ClientLaws : (answer : Option ApiError) → ClientLaws (server answer)
server-ClientLaws answer = record {
  update_status-multi = λ np k. refl;
  update_status-policy = λ np old k h _. rw h refl;
  delete_multi-policy = λ k. refl;
  update_status-events = λ np k. refl;
  delete_multi-events = λ k. refl;
  create_or_update-events = λ given f k. store-events (f (stored_or given k.multi)) k;
  create_or_update-stored = λ given f k op h. store-stored (f (stored_or given k.multi)) k op h;
}

abbrev pub env_with : Option ApiError → Env
env_with answer = record {
  client = server answer;
  net = net;
  ports = printer;
  order = in_order;
  set_condition = λ c conditions. c ∷ conditions;
  parse_duration = λ t. none;
  same_spec = λ s t. false;
  same_status = λ s t. false;
  set_owner = λ np m. inl m;
  error_text = λ e. bytes "error";
}
