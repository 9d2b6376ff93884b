-- ===== src/Controller/Cluster.antt =====
-- What the reconciler reads and writes: the two objects of the request's key, and the events. The
-- client of controller-runtime is a record of its calls; their documented effects are `ClientLaws`.
use fqdn_egress_operator.Base.{Text, List, Option, none, some, ◌⊎◌, inl, ◌≡◌}
use fqdn_egress_operator.Api.Types.{NetworkPolicy}
use fqdn_egress_operator.Multi.{MultiPolicy}
use fqdn_egress_operator.Utils.Operation.{OperationResult}
use fqdn_egress_operator.Controller.Statuses.{Event}

-- An error of the API server: IsNotFound, IsConflict, or another one
pub data ApiError : Type 0 where
  not_found conflict : ApiError
  other : Text → ApiError

pub record Cluster : Type 0 where
  pub policy : Option NetworkPolicy
  pub multi : Option MultiPolicy
  pub events : List Event

pub record Client : Type 0 where
  pub get_policy : Cluster → NetworkPolicy ⊎ ApiError
  pub update_status : NetworkPolicy → Cluster → Cluster × Option ApiError
  pub get_multi : Cluster → MultiPolicy ⊎ ApiError
  pub delete_multi : Cluster → Cluster × Option ApiError
  pub create_or_update :
      MultiPolicy
      → (MultiPolicy → MultiPolicy ⊎ ApiError)
      → Cluster
      → Cluster × (OperationResult ⊎ ApiError)

-- The object that CreateOrUpdate changes: the stored one, else the one it was given
abbrev pub stored_or : MultiPolicy → Option MultiPolicy → MultiPolicy
stored_or given none = given
stored_or given (some m) = m

pub record ClientLaws (c : Client) : Type 0 where
  -- Status().Update writes the status of the policy and nothing else, and nothing when it fails.
  pub update_status-multi :
      (np : NetworkPolicy) (k : Cluster) → (c.update_status np k).0.multi ≡ k.multi
  pub update_status-policy :
      (np old : NetworkPolicy) (k : Cluster)
      → k.policy ≡ some old
      → (c.update_status np k).1 ≡ none
      → (c.update_status np k).0.policy ≡ some (record old { status = np.status })
  -- Delete of the MultiNetworkPolicy leaves the policy.
  pub delete_multi-policy : (k : Cluster) → (c.delete_multi k).0.policy ≡ k.policy
  -- No call of the client records an event on the policy.
  pub update_status-events :
      (np : NetworkPolicy) (k : Cluster) → (c.update_status np k).0.events ≡ k.events
  pub delete_multi-events : (k : Cluster) → (c.delete_multi k).0.events ≡ k.events
  pub create_or_update-events :
      (given : MultiPolicy) (f : MultiPolicy → MultiPolicy ⊎ ApiError) (k : Cluster)
      → (c.create_or_update given f k).0.events ≡ k.events
  -- CreateOrUpdate that succeeds has stored what the function made of the object.
  pub create_or_update-stored :
      (given : MultiPolicy) (f : MultiPolicy → MultiPolicy ⊎ ApiError) (k : Cluster)
      (op : OperationResult)
      → (c.create_or_update given f k).1 ≡ inl op
      → (new : MultiPolicy) × (f (stored_or given k.multi) ≡ inl new)
        × ((c.create_or_update given f k).0.multi ≡ some new)
