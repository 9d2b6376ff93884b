-- ===== src/Network/Resolve.antt =====
-- pkg/network/resolver.go: DNSResolver.Resolve, one goroutine for each FQDN under a semaphore.
-- A state is what the goroutines and the channel hold between two steps; a step is any goroutine's.
pub mod Runs
use fqdn_egress_operator.Base.{
  ℕ, zero, suc, ◌+◌, ◌<◌, ◌≤◌, Text, bytes, Bool, true, false, List, [], ◌∷◌, ◌++◌, ◌≡◌, map,
  length, ◌⊎◌, inl, inr, some,
}
use fqdn_egress_operator.Api.Ip.{Ip}
use fqdn_egress_operator.Api.Reason.{NetworkType, error}
use fqdn_egress_operator.Api.Types.{Cidr}
use fqdn_egress_operator.Network.Errors.{new_lookup_error, GoError}
use fqdn_egress_operator.Network.Result.{Result, new_result}
use fqdn_egress_operator.Network.Lookup.{Answer, lookup_ip, result_of}

-- The goroutines that wait at the `select`, those that hold a slot of the semaphore, what the results
-- channel was sent, and whether the context is done.
pub record Pool : Type 0 where
  pub waiting : List Text
  pub running : List Text
  pub sent : List Result
  pub done : Bool

-- After the loop that starts the goroutines
abbrev pub start : List Text → Bool → Pool
start fqdns done = record { waiting = fqdns; running = []; sent = []; done = done }

-- The result of a goroutine that gave up at the `select`
unfoldable pub canceled_result : Text → Result
canceled_result fqdn =
    new_result fqdn []
      (some (new_lookup_error error (bytes "Context canceled before resolution could start")))

-- What LookupIP answers in this run is the step's argument, since it depends on the network.
pub data Step (max : ℕ) (network : NetworkType) : Pool → Pool → Type 0 where
  -- `sem <- struct{}{}`: there is a free slot
  acquire :
      (p : Pool) (before after : List Text) (f : Text)
      → p.waiting ≡ before ++ (f ∷ after)
      → length p.running < max
      → Step max network p (record p { waiting = before ++ after; running = f ∷ p.running })
  -- `<-ctx.Done()`
  give_up :
      (p : Pool) (before after : List Text) (f : Text)
      → p.waiting ≡ before ++ (f ∷ after)
      → p.done ≡ true
      → Step max network p
          (record p { waiting = before ++ after; sent = p.sent ++ (canceled_result f ∷ []) })
  -- the lookup returns, the result is sent and the slot is released
  finish :
      (p : Pool) (before after : List Text) (f : Text) (answer : Answer (List Ip))
      → p.running ≡ before ++ (f ∷ after)
      → Step max network p (record p {
        running = before ++ after;
        sent = p.sent ++ (result_of f (lookup_ip (λ _ _. answer) network f) ∷ []);
      })
  -- the context is canceled or its deadline passes
  cancel : (p : Pool) → Step max network p (record p { done = true })

-- Any run from the start.
pub data Run (max : ℕ) (network : NetworkType) (p : Pool) : Pool → Type 0 where
  here : Run max network p p
  next : {q r : Pool} → Run max network p q → Step max network q r → Run max network p r

-- `wg.Wait()` returns: every goroutine has ended, and the channel is closed.
abbrev pub IsFinal : Pool → Type 0
IsFinal p = (p.waiting ≡ []) × (p.running ≡ [])
