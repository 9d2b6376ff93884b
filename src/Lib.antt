-- ===== src/Lib.antt =====
-- The FQDN egress operator: a controller that resolves the domain names of NetworkPolicy resources and
-- writes for each of them a MultiNetworkPolicy with the addresses.
--
-- A round of the reconciler (internal/controller/networkpolicy_controller.go) reads the policy, resolves its
-- FQDNs (pkg/network/resolver.go), updates the status of every FQDN (FQDNStatus.Update of
-- api/v1alpha1/networkpolicy_funcs.go), keeps addresses that went missing for the retention period,
-- translates policy and statuses to a MultiNetworkPolicy (ToMultiNetworkPolicy), regroups its rules so that CIDRs
-- with the same ports share a rule (pkg/utils/networkpolicy.go), applies it and writes the status back.
--
-- Files:
--   Base/*           texts as lists of bytes, sorting, Go's maps, integers, decimal numerals, sums,
--                    regular expressions
--   Api/Ip           net.IP; Api/Ip/Dotted has the textual forms, Cidrs and Forms their laws
--   Multi            the MultiNetworkPolicy structs that the code sets
--   Api/Types, Api/Reason      api/v1alpha1/networkpolicy_types.go
--   Api/Fqdn         FQDN.Valid; Api/Fqdn/Labels says what a valid name is, Pattern and Admitted have the
--                    regular expressions, and Agree compares Valid with the pattern of the API
--   Api/Status       FQDNStatus.Update; Api/Status/Lifecycle has its laws
--   Api/Conditions   api/v1alpha1/networkpolicy_conditions.go
--   Api/Translate    isAllowed, getPeers, FQDNs, ToMultiNetworkPolicy; Peers, Names, Meaning, MapOrder, RoundTrip, Lookups below it
--   Api/Admission    the validation markers of networkpolicy_types.go
--   Api/Scheme       groupversion_info.go, and the kinds that are registered
--   Api/DeepCopy     zz_generated.deepcopy.go on a heap of arrays; Isolated and Copied have its laws, Declared the types' references
--   Utils/Dedupe     RemoveDuplicateCIDRsInMultiNetworkPolicy, phase by phase; Traffic says what rules allow
--   Utils/Operation  pkg/utils/operation.go and pkg/utils/map.go
--   Network/Errors, Network/Result, Network/Aggregate, Network/Lookup, Network/Resolve, Network/Dial
--                    pkg/network/resolver.go, from the errors to the goroutines of Resolve
--   Controller/Statuses        updateFQDNStatuses (networkpolicy_fqdn_status.go)
--   Controller/Retention       the retention part of Reconcile; Expiry is about one FQDN over one round
--   Controller/Report          what updateStatusIfNeeded writes
--   Controller/Sync            the mutation of networkpolicy_create.go
--   Controller/Cluster, Controller/Reconcile
--                    the cluster, the client's calls, and Reconcile with what it calls; Order and Schedules are
--                    about the order in which the goroutines of Resolve finish, NextPolicy and Expired about many rounds, Announced about the events,
--                    Steady about a round with the results of the one before it,
--                    and Revoked about addresses that Update has taken away
--   Controller/Setup what SetupWithManager builds the controller with
--   Cmd              cmd/main.go: the flags and the calls of init and main (Start, Startup), the TLS options
--                    as slices on a heap (Tls, Slices)
--   Examples/*       the theorems at concrete inputs
--
-- Conventions. A text is the list of its bytes. A map is an association list; where the code ranges over
-- a map, a RangeOrder gives the order of each loop. Times are nanoseconds. A count that the
-- code converts to int32 is a natural number, and a number of seconds times a second is a product of integers;
-- Controller/Reconcile/Bounds has the conversions and says when they lose nothing; nothing bounds the number of
-- applied addresses. The theorems on the FQDNs of whole rounds read the clock once for all of them, and their
-- rounds write their status. In Cmd/Start the checks after the calls of main, which all exit in one way, are one function. A pointer that may
-- be nil is an Option, and a panic of the aggregated message is `none`. All loops are structural, so that
-- no fuel is needed; the goroutines of Resolve are a step relation. Sorting is a stable insertion sort, also for sort.Slice, which is not stable.
--
-- Parameters, for code of other repositories and of the operating system: PortPrinter (IntOrString.String),
-- SetCondition (meta.SetStatusCondition), the Resolver's answers, time.ParseDuration, filepath.Join, GOMAXPROCS, the growth of
-- slices, and the Client of controller-runtime with ClientLaws. NetText stands for IP.String and net.ParseCIDR; net_text is
-- its instance for package net, in which only the texts of IPv6 addresses are left open (V6Text, V6Laws).
--
-- Not modelled: the parsing of flags, logging, the test suites and their helpers, and
-- IPBlock.Except and the selectors of peers, which the operator never sets.
pub mod Base
pub mod Multi
pub mod Utils
pub mod Api
pub mod Network
pub mod Controller
pub mod Cmd
pub mod Examples
