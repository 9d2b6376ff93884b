-- ===== src/Cmd/Tls.antt =====
-- cmd/main.go: the TLS options of the webhook server and of the metrics server, which start as one slice.
use fqdn_egress_operator.Base.{
  ℕ, zero, suc, ◌-◌, ltb, ◌≤◌, ◌⊎◌, inl, inr, arith, ◌≡◌, refl, Text, bytes, Bool, true, false,
  List, [], ◌∷◌, Option, none, some, null, if◌then◌else◌,
}
use fqdn_egress_operator.Cmd.Slices.{Slice, nil_slice, Heap, GrowLaws, append_one, read_slice}

-- The certificate watchers
pub data Watcher : Type 0 where
  webhook_watcher metrics_watcher : Watcher

-- The functions of the slices: disableHTTP2, and the two that set GetCertificate
pub data TlsOption : Type 0 where
  disable_http2 : TlsOption
  get_certificate_of : Watcher → TlsOption

-- The fields of a tls.Config that they write
pub record TlsConfig : Type 0 where
  pub next_protos : List Text
  pub get_certificate : Option Watcher

unfoldable pub apply_option : TlsOption → TlsConfig → TlsConfig
apply_option disable_http2 c = record c { next_protos = bytes "http/1.1" ∷ [] }
apply_option (get_certificate_of w) c = record c { get_certificate = some w }

-- What a server does with its options, in their order.
unfoldable pub apply_options : List TlsOption → TlsConfig → TlsConfig
unfolding apply_option
apply_options [] c = c
apply_options (o ∷ rest) c = apply_options rest (apply_option o c)

-- A slice and the heap it stands in
abbrev State : Type 0
State = Slice × Heap TlsOption

-- `if !enableHTTP2 { tlsOpts = append(tlsOpts, disableHTTP2) }`
unfoldable pub base_options : (ℕ → ℕ) → Bool → State
base_options grow enable_http2 =
    if enable_http2 then (nil_slice, []) else append_one grow disable_http2 nil_slice []

-- A certificate path that is not empty adds the function of its watcher.
unfoldable pub with_certificate : (ℕ → ℕ) → Text → Watcher → Slice → Heap TlsOption → State
with_certificate grow path watcher s h =
    if null path then (s, h) else append_one grow (get_certificate_of watcher) s h

-- The slices of the webhook server and of the metrics server, each appended to from tlsOpts
unfoldable pub server_options : (ℕ → ℕ) → Bool → Text → Text → Slice × Slice × Heap TlsOption
unfolding base_options with_certificate
server_options grow enable_http2 webhook_path metrics_path =
    let (tls, h) = base_options grow enable_http2 in
    let (webhook, h') = with_certificate grow webhook_path webhook_watcher tls h in
    let (metrics, h'') = with_certificate grow metrics_path metrics_watcher tls h' in
    (webhook, metrics, h'')

abbrev pub zero_config : TlsConfig
zero_config = record { next_protos = []; get_certificate = none }

abbrev pub config_of : Slice → Heap TlsOption → TlsConfig
config_of s h = apply_options (read_slice s h) zero_config

-- HTTP/1.1 alone unless HTTP/2 is enabled, and the watcher of the server's own path.
abbrev pub expected : Bool → Text → Watcher → TlsConfig
expected enable_http2 path watcher = record {
  next_protos = if enable_http2 then [] else bytes "http/1.1" ∷ [];
  get_certificate = if null path then none else some watcher;
}

-- The two slices do not share a cell to write: the one they start from has no array, or one of them gets no
-- option, or the array of one option that append makes has no spare cell.
abbrev pub NothingShared : (ℕ → ℕ) → Bool → Text → Text → Type 0
NothingShared grow enable_http2 webhook_path metrics_path =
    (enable_http2 ≡ true) ⊎ ((webhook_path ≡ []) ⊎ ((metrics_path ≡ []) ⊎ (grow 1 ≡ 1)))

Served : (ℕ → ℕ) → Bool → Text → Text → Type 0
Served grow enable_http2 webhook_path metrics_path =
    let (webhook, metrics, h) = server_options grow enable_http2 webhook_path metrics_path in
    (config_of webhook h ≡ expected enable_http2 webhook_path webhook_watcher)
    × (config_of metrics h ≡ expected enable_http2 metrics_path metrics_watcher)

one_server :
    (grow : ℕ → ℕ) (c : ℕ) (w : Text) (n : ℕ)
    → grow 1 ≡ n
    → 1 ≤ n
    → Served grow false (c ∷ w) [] × Served grow false [] (c ∷ w)
unfolding Served server_options append_one read_slice apply_options
one_server grow c w zero e h = absurd (omega arith)
one_server grow c w (suc zero) e h = rw e ((refl, refl), (refl, refl))
one_server grow c w (suc (suc n)) e h =
    let spare : suc (suc n) - 1 ≡ suc n = omega arith in
    let room : ltb 1 (suc (suc n)) ≡ true = ground arith in
    rw (e, room, spare) ((refl, refl), (refl, refl))

both_servers :
    (grow : ℕ → ℕ) (c d : ℕ) (w m : Text) → grow 1 ≡ 1 → Served grow false (c ∷ w) (d ∷ m)
unfolding Served server_options append_one read_slice apply_options
both_servers grow c d w m e = rw e (refl, refl)

-- Both servers get the TLS configuration that the flags ask for, although their options grow from one
-- slice: HTTP/1.1 alone unless HTTP/2 is enabled, and the certificate of the server's own watcher exactly
-- when its path is set, never the other server's; where nothing is shared.
pub server_options_lem :
    (grow : ℕ → ℕ) (enable_http2 : Bool) (webhook_path metrics_path : Text)
    → GrowLaws grow
    → NothingShared grow enable_http2 webhook_path metrics_path
    → let (webhook, metrics, h) = server_options grow enable_http2 webhook_path metrics_path in
      (config_of webhook h ≡ expected enable_http2 webhook_path webhook_watcher)
      × (config_of metrics h ≡ expected enable_http2 metrics_path metrics_watcher)
unfolding Served server_options append_one read_slice apply_options
server_options_lem grow true [] [] laws apart = (refl, refl)
server_options_lem grow true (c ∷ w) [] laws apart = (refl, refl)
server_options_lem grow true [] (c ∷ m) laws apart = (refl, refl)
server_options_lem grow true (c ∷ w) (d ∷ m) laws apart = (refl, refl)
server_options_lem grow false [] [] laws apart = (refl, refl)
server_options_lem grow false (c ∷ w) [] laws apart =
    (one_server grow c w (grow 1) refl (laws.fits 1)).0
server_options_lem grow false [] (c ∷ m) laws apart =
    (one_server grow c m (grow 1) refl (laws.fits 1)).1
server_options_lem grow false (c ∷ w) (d ∷ m) laws (inl e) = absurd (cc e)
server_options_lem grow false (c ∷ w) (d ∷ m) laws (inr (inl e)) = absurd (cc e)
server_options_lem grow false (c ∷ w) (d ∷ m) laws (inr (inr (inl e))) = absurd (cc e)
server_options_lem grow false (c ∷ w) (d ∷ m) laws (inr (inr (inr e))) = both_servers grow c d w m e
