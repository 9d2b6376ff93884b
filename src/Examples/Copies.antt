-- ===== src/Examples/Copies.antt =====
-- A deep copy at a concrete store.
use fqdn_egress_operator.Base.{bytes, [], ◌∷◌, arith}
use fqdn_egress_operator.Api.DeepCopy.{
  nil, num, text, ref, Store, array_at, end, each, copy_network_policy,
}
use fqdn_egress_operator.Api.DeepCopy.Isolated.{Owns}
use fqdn_egress_operator.Api.DeepCopy.Declared.{
  Fields, done, value, deep, deep_meta, policy_fields, Apart, network_policy_isolated,
}

-- A policy with one rule, whose one FQDN fails since 5 with one address, missing since 7
abbrev store : Store
store =
    ((num 5 ∷ []) ∷ [])
    ∷ ((num 7 ∷ []) ∷ [])
    ∷ ((text (bytes "8.8.8.8/32") ∷ ref 1 ∷ []) ∷ [])
    ∷ ((text (bytes "dns.google")
          ∷ ref 0
          ∷ num 5
          ∷ text (bytes "Timeout")
          ∷ text (bytes "no answer")
          ∷ ref 2
          ∷ [])
        ∷ [])
    ∷ ((text (bytes "dns.google") ∷ []) ∷ [])
    ∷ ((ref 4 ∷ nil ∷ nil ∷ []) ∷ [])
    ∷ ((text (bytes "NetworkPolicy")
          ∷ text (bytes "v1alpha1")
          ∷ text (bytes "np")
          ∷ text (bytes "net")
          ∷ ref 5
          ∷ nil
          ∷ nil
          ∷ text (bytes "ipv4")
          ∷ num 2
          ∷ num 3600
          ∷ num 60
          ∷ num 0
          ∷ ref 3
          ∷ num 1
          ∷ num 0
          ∷ num 1
          ∷ num 1
          ∷ nil
          ∷ num 1
          ∷ [])
        ∷ [])
    ∷ []

-- The name, for all of the metadata
abbrev name_alone : Fields
name_alone = value done

store-Owns : Owns (each (deep (policy_fields name_alone name_alone)) end) 0 store (ref 6 ∷ [])
unfolding array_at
store-Owns = (
  omega arith,
  omega arith,
  (
    (
      tt,
      (
        tt,
        (
          tt,
          (
            tt,
            (
              omega arith,
              omega arith,
              ((omega arith, omega arith, ((tt, tt), tt), tt), tt),
              (
                tt,
                (
                  tt,
                  (
                    tt,
                    (
                      tt,
                      (
                        tt,
                        (
                          omega arith,
                          omega arith,
                          (
                            (
                              tt,
                              (
                                omega arith,
                                omega arith,
                                ((tt, tt), tt),
                                (
                                  tt,
                                  (
                                    tt,
                                    (
                                      tt,
                                      (
                                        omega arith,
                                        omega arith,
                                        ((tt, (omega arith, omega arith, ((tt, tt), tt), tt)), tt),
                                        tt,
                                      ),
                                    ),
                                  ),
                                ),
                              ),
                            ),
                            tt,
                          ),
                          (tt, (tt, (tt, (tt, (tt, tt))))),
                        ),
                      ),
                    ),
                  ),
                ),
              ),
            ),
          ),
        ),
      ),
    ),
    tt,
  ),
  tt,
)

network_policy_isolated_example :
    Apart
      (copy_network_policy (deep_meta name_alone done name_alone))
      (deep (policy_fields name_alone name_alone))
      (ref 6)
      store
network_policy_isolated_example =
    network_policy_isolated name_alone done name_alone (ref 6) store store-Owns
