-- ===== src/Cmd.antt =====
-- cmd/main.go: the number of lookups at a time that the reconciler is given.
pub mod Slices
pub mod Tls
pub mod Start
pub mod Startup
use mathlib.Core.List.{Permᴰ}
use fqdn_egress_operator.Base.{ℕ, ◌<◌, Text, Bool, List, leb, if◌then◌else◌, arith}
use fqdn_egress_operator.Base.Int.{ℤ, pos, negsuc, leb_ℤ, pos_part}
use fqdn_egress_operator.Api.Reason.{NetworkType}
use fqdn_egress_operator.Network.Resolve.{Pool, start, Run, IsFinal}
use fqdn_egress_operator.Network.Resolve.Runs.{names, resolve_completes}

abbrev min : ℕ → ℕ → ℕ
min a b = if leb a b then a else b

abbrev max : ℕ → ℕ → ℕ
max a b = if leb a b then b else a

-- maxConcurrentResolves after the flag max-concurrent-resolves, with the value of GOMAXPROCS(0)
unfoldable pub max_concurrent_resolves : ℤ → ℕ → ℕ
max_concurrent_resolves flag procs =
    if leb_ℤ flag (pos 0) then min (max 1 procs) 20 else pos_part flag

pub max_concurrent_resolves-positive :
    (flag : ℤ) (procs : ℕ) → 0 < max_concurrent_resolves flag procs
unfolding max_concurrent_resolves
max_concurrent_resolves-positive (pos n) procs = ground arith
max_concurrent_resolves-positive (negsuc n) procs = ground arith

-- With the number of lookups that the command passes on, whatever the flag says and however many
-- processors there are, Resolve can end from every state that a run reaches, and whenever it has ended
-- the results hold every FQDN that was asked for, as often as it was asked for.
pub configured_resolve_completes :
    (flag : ℤ) (procs : ℕ) (network : NetworkType) (fqdns : List Text) (done : Bool) (p : Pool)
    → Run (max_concurrent_resolves flag procs) network (start fqdns done) p
    → ((r : Pool) × Run (max_concurrent_resolves flag procs) network p r × IsFinal r)
      × (IsFinal p → Permᴰ (names p.sent) fqdns)
configured_resolve_completes flag procs network fqdns done p run =
    resolve_completes (max_concurrent_resolves flag procs) network fqdns done p
      (max_concurrent_resolves-positive flag procs) run
