-- ===== src/Controller/Report.antt =====
-- internal/controller/networkpolicy_controller.go: what updateStatusIfNeeded writes into the status.
use fqdn_egress_operator.Base.{
  ℕ, ◌+◌, str_lt, Bool, null, List, [], ◌∷◌, map, ◌≡◌, refl, arith, length, length-map,
  if◌then◌else◌, length-perm, ◌∙◌, sym,
}
use fqdn_egress_operator.Base.Sort.{sort_by, sort_by-perm}
use fqdn_egress_operator.Api.Types.{AddressEntry, FqdnStatus, NetworkPolicyStatus, NetworkPolicy}

-- The loop that counts: the FQDNs with addresses, and those without
unfoldable pub active_count : List FqdnStatus → ℕ
active_count [] = 0
active_count (s ∷ rest) = (if null s.addresses then 0 else 1) + active_count rest

unfoldable pub failing_count : List FqdnStatus → ℕ
failing_count [] = 0
failing_count (s ∷ rest) = (if null s.addresses then 1 else 0) + failing_count rest

abbrev pub fqdn_less : FqdnStatus → FqdnStatus → Bool
fqdn_less a b = str_lt a.fqdn b.fqdn

abbrev pub address_less : AddressEntry → AddressEntry → Bool
address_less a b = str_lt a.address b.address

abbrev pub sort_addresses : FqdnStatus → FqdnStatus
sort_addresses s = record s { addresses = sort_by address_less s.addresses }

-- sortStatus
unfoldable pub sort_status : NetworkPolicyStatus → NetworkPolicyStatus
sort_status status = record status { fqdns = map sort_addresses (sort_by fqdn_less status.fqdns) }

-- np.Status before the comparison with the previous one
unfoldable pub reported : NetworkPolicy → NetworkPolicyStatus
unfolding active_count failing_count sort_status
reported np = sort_status (record np.status {
  observed_generation = np.generation;
  active_fqdn_count = active_count np.status.fqdns;
  failing_fqdn_count = failing_count np.status.fqdns;
})

pub counts-length :
    (statuses : List FqdnStatus) → active_count statuses + failing_count statuses ≡ length statuses
unfolding active_count failing_count
counts-length [] = refl
counts-length (s ∷ rest) = ground (arith, counts-length rest)

-- The two counts of the written status add up to the number of FQDNs in it, none of which is lost by
-- the sorting, and the observed generation is the policy's.
pub reported_lem :
    (np : NetworkPolicy)
    → let status = reported np in
      (status.active_fqdn_count + status.failing_fqdn_count ≡ length status.fqdns)
      × (length status.fqdns ≡ length np.status.fqdns)
      × (status.observed_generation ≡ np.generation)
unfolding reported sort_status
reported_lem np =
    let kept : length (map sort_addresses (sort_by fqdn_less np.status.fqdns))
        ≡ length np.status.fqdns =
      length-map sort_addresses (sort_by fqdn_less np.status.fqdns)
      ∙ length-perm (sort_by-perm fqdn_less np.status.fqdns) in
    (counts-length np.status.fqdns ∙ sym kept, kept, refl)
