-- ===== src/Controller/Reconcile/Announced.antt =====
-- Reconcile: the events that a round records.
use fqdn_egress_operator.Base.{
  ◌*◌, true, List, [], ◌∷◌, ◌++◌, Option, none, some, is_some, ◌⊎◌, ◌≡◌,
}
use fqdn_egress_operator.Api.Status.{second}
use fqdn_egress_operator.Network.Result.{Result}
use fqdn_egress_operator.Controller.Statuses.{Event}
use fqdn_egress_operator.Controller.Cluster.{Cluster}
use fqdn_egress_operator.Controller.Reconcile.{Outcome}

abbrev pub as_list : Option Event → List Event
as_list none = []
as_list (some e) = e ∷ []

-- The round comes again, with an error or in a minute.
abbrev pub Retried : Outcome → Type 0
Retried o = (o.requeue_after ≡ 60 * second) ⊎ (is_some o.error ≡ true)

-- After the events `before`, at most one more; a warning only for a round that is tried again
pub record Announced (before : List Event) (after : List Event) (outcome : Outcome) : Type 0 where
  pub last : Option Event
  pub history : after ≡ before ++ as_list last
  pub warned : (e : Event) → last ≡ some e → e.warning ≡ true → Retried outcome
