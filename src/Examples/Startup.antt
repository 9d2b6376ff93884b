-- ===== src/Examples/Startup.antt =====
-- The start of the process, and names against the pattern, at concrete inputs.
use fqdn_egress_operator.Base.{
  ℕ, Text, bytes, Bool, true, false, ◌∷◌, [], ◌++◌, ◌+◌, some, ◌≡◌, refl, inr, All, arith, leb,
  length,
}
use fqdn_egress_operator.Base.Regex.{matches}
use fqdn_egress_operator.Base.Split.{split}
use fqdn_egress_operator.Api.Fqdn.{valid, is_alnum, is_label_char}
use fqdn_egress_operator.Api.Fqdn.Admitted.{is_letter}
use fqdn_egress_operator.Api.Fqdn.Agree.{last_part, admitted-valid}
use fqdn_egress_operator.Cmd.Slices.{GrowLaws, append_one, read_slice}
use fqdn_egress_operator.Cmd.Tls.{server_options, apply_options, config_of, metrics_watcher}
use fqdn_egress_operator.Cmd.Start.{Flags, default_flags, Action, new_manager, main}
use fqdn_egress_operator.Cmd.Startup.{IsRight, main-IsRight}
use fqdn_egress_operator.Examples.Fixtures.{dns}

-- An array with as many cells as are asked for
abbrev exact : ℕ → ℕ
exact n = n

exact-GrowLaws : GrowLaws exact
exact-GrowLaws = record { fits = λ n. omega arith }

abbrev join_path : Text → Text → Text
join_path directory name = directory ++ (b'/' ∷ name)

abbrev manager_fails : Action → Bool
manager_fails (new_manager o) = true
manager_fails _ = false

abbrev both_certificates : Flags
both_certificates = record default_flags {
  webhook_cert_path = bytes "/webhook";
  metrics_cert_path = bytes "/metrics";
}

main-IsRight_example :
    All (IsRight both_certificates) (main exact join_path manager_fails both_certificates [] 4).0
main-IsRight_example =
    main-IsRight exact join_path manager_fails both_certificates [] 4 exact-GrowLaws
      (inr (inr (inr refl)))

-- One cell more than is asked for
abbrev spare : ℕ → ℕ
spare n = n + 1

-- With a spare cell in the first array the webhook server would serve the certificate of the metrics.
spare_cell :
    let (webhook, metrics, h) = server_options spare false (bytes "/w") (bytes "/m") in
    (config_of webhook h).get_certificate ≡ some metrics_watcher
unfolding server_options append_one read_slice apply_options
spare_cell = refl

admitted-valid_example : valid dns ≡ leb (length (last_part (split b'.' dns))) 63
admitted-valid_example =
    admitted-valid dns (unfold matches in unfold is_alnum is_label_char is_letter in refl)
