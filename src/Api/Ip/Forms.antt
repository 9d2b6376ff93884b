-- ===== src/Api/Ip/Forms.antt =====
-- The 4-byte and the 16-byte form of an IPv4 address, and the texts of any address.
use mathlib.Core.Path.{subst}
use fqdn_egress_operator.Base.{
  ℕ, List, [], ◌∷◌, ◌++◌, none, some, length, if◌then◌else◌, ◌==◌, ◌≡◌, refl, ap, sym, ◌∙◌, arith,
  Bool-cases, Option-cases, ◌⊎◌, inl, inr, All, is_some,
}
use fqdn_egress_operator.Base.Split.{Free}
use fqdn_egress_operator.Api.Ip.{Ip, to4, to16, v4_prefix, strip_prefix, is_private}
use fqdn_egress_operator.Api.Ip.Dotted.{V6Text, ip_string, dotted, first_mark, parse_addr}
use fqdn_egress_operator.Api.Ip.Cidrs.{IsByte, IsV4, parse_addr-dotted, dotted-Free}

-- What net.IP holds where it is an address.
pub record IsAddress (ip : Ip) : Type 0 where
  pub size : (length ip ≡ 4) ⊎ (length ip ≡ 16)
  pub bytes : All IsByte ip

-- The text of an IPv6 address has its first mark a colon, no slash, and is read as the address.
pub record V6Laws (v6 : V6Text) : Type 0 where
  pub marked : (ip : Ip) → IsAddress ip → to4 ip ≡ none → first_mark (v6.print ip) ≡ some b':'
  pub slashless : (ip : Ip) → IsAddress ip → to4 ip ≡ none → Free b'/' (v6.print ip)
  pub parsed : (ip : Ip) → IsAddress ip → to4 ip ≡ none → v6.parse (v6.print ip) ≡ some ip

strip_prefix-append : (p s t : List ℕ) → strip_prefix p s ≡ some t → s ≡ p ++ t
unfolding strip_prefix
strip_prefix-append [] s t h = ground arith
strip_prefix-append (c ∷ p) [] t h = absurd (cc h)
strip_prefix-append (c ∷ p) (d ∷ s) t h = elim (Bool-cases (c == d)) [
  | inl e ↦
      let rest : strip_prefix p s ≡ some t = ground arith in
      ground (arith, strip_prefix-append p s t rest)
  | inr e ↦ absurd (ground arith)
]

All-suffix : (p s : List ℕ) → All IsByte (p ++ s) → All IsByte s
All-suffix [] s h = h
All-suffix (c ∷ p) s h = All-suffix p s h.1

-- To4 of an address: it is the address, or what follows the prefix.
to4_cases :
    (ip v4 : Ip)
    → to4 ip ≡ some v4
    → ((ip ≡ v4) ⊎ (ip ≡ v4_prefix ++ v4)) × ((length ip ≡ 4) ⊎ (length ip ≡ 16))
unfolding to4
to4_cases ip v4 h = elim (Bool-cases (length ip == 4)) [
  | inl e ↦ (inl (ground arith), inl (ground arith))
  | inr e ↦ elim (Bool-cases (length ip == 16)) [
    | inl k ↦ (inr (strip_prefix-append v4_prefix ip v4 (ground arith)), inr (ground arith))
    | inr k ↦ absurd (ground arith)
  ]
]

-- What four bytes an IPv4 address has.
record Quad (ip v4 : Ip) : Type 0 where
  a : ℕ
  b : ℕ
  c : ℕ
  d : ℕ
  bytes : IsV4 a b c d
  same : v4 ≡ a ∷ b ∷ c ∷ d ∷ []
  wide : to16 ip ≡ v4_prefix ++ v4

quad : (ip v4 : Ip) → All IsByte v4 → length v4 ≡ 4 → to16 ip ≡ v4_prefix ++ v4 → Quad ip v4
quad ip (a ∷ b ∷ c ∷ d ∷ []) h n w = record {
  a = a;
  b = b;
  c = c;
  d = d;
  bytes = (h.0, h.1.0, h.1.1.0, h.1.1.1.0);
  same = refl;
  wide = w;
}
quad ip [] h n w = absurd (omega arith)
quad ip (a ∷ []) h n w = absurd (omega arith)
quad ip (a ∷ b ∷ []) h n w = absurd (omega arith)
quad ip (a ∷ b ∷ c ∷ []) h n w = absurd (omega arith)
quad ip (a ∷ b ∷ c ∷ d ∷ e ∷ r) h n w = absurd (omega arith)

IsAddress-Quad : (ip v4 : Ip) → IsAddress ip → to4 ip ≡ some v4 → Quad ip v4
IsAddress-Quad ip v4 h e = elim (Bool-cases (length ip == 4)) [
  | inl n ↦
      let same : ip ≡ v4 = unfold to4 in ground arith in
      quad ip v4 (subst (All IsByte) same h.bytes) (ap length (sym same) ∙ ground arith)
        (unfold to16 in ground arith)
  | inr n ↦
      let k : length ip ≡ 16 = elim h.size [ inl q ↦ absurd (ground arith) | inr q ↦ q ] in
      let same : ip ≡ v4_prefix ++ v4 =
        strip_prefix-append v4_prefix ip v4 (unfold to4 in ground arith) in
      quad ip v4 (All-suffix v4_prefix v4 (subst (All IsByte) same h.bytes))
        (let m : length (v4_prefix ++ v4) ≡ 16 = ap length (sym same) ∙ k in omega arith)
        (unfold to16 in ground arith)
]

-- The text of an address is read as the address, in the short form where it is IPv4's, and no slash
-- stands in it.
pub record Read (v6 : V6Text) (ip : Ip) : Type 0 where
  pub short : Ip
  pub read : parse_addr v6 (ip_string v6 ip) ≡ some short
  pub slashless : Free b'/' (ip_string v6 ip)
  pub wide : to16 short ≡ to16 ip
  pub bits : length short ≡ (if is_some (to4 ip) then 4 else 16)

pub IsAddress-Read : (v6 : V6Text) (ip : Ip) → V6Laws v6 → IsAddress ip → Read v6 ip
unfolding ip_string
IsAddress-Read v6 ip laws h = elim (Option-cases (to4 ip)) [
  | inr (v4, e) ↦
      let q = IsAddress-Quad ip v4 h e in
      let text : ip_string v6 ip ≡ dotted (q.a ∷ q.b ∷ q.c ∷ q.d ∷ []) =
        let printed : ip_string v6 ip ≡ dotted v4 = ground (arith, e) in
        printed ∙ ap dotted q.same in
      record {
        short = v4;
        read =
            ap (parse_addr v6) text
            ∙ (parse_addr-dotted v6 q.a q.b q.c q.d q.bytes ∙ ap some (sym q.same));
        slashless = subst (Free b'/') (sym text) (dotted-Free q.a q.b q.c q.d);
        wide =
            (rw q.same (unfold to16 in refl))
            ∙ (ap (λ (x : Ip). v4_prefix ++ x) (sym q.same) ∙ sym q.wide);
        bits = ap length q.same ∙ rw e refl;
      }
  | inl e ↦
      let text : ip_string v6 ip ≡ v6.print ip = ground (arith, e) in
      record {
        short = ip;
        read =
            ap (parse_addr v6) text
            ∙ unfold parse_addr in ground (arith, laws.marked ip h e, laws.parsed ip h e);
        slashless = subst (Free b'/') (sym text) (laws.slashless ip h e);
        wide = refl;
        bits = elim h.size [
          | inl n ↦ absurd (unfold to4 in ground (arith, n, e))
          | inr n ↦ n ∙ rw e refl
        ];
      }
]

strip_prefix_self : (p s : List ℕ) → strip_prefix p (p ++ s) ≡ some s
unfolding strip_prefix
strip_prefix_self [] s = refl
strip_prefix_self (c ∷ p) s = ground (arith, strip_prefix_self p s)

-- An address is private in its 16-byte form exactly when it is.
pub is_private-to16 : (ip : Ip) → IsAddress ip → is_private (to16 ip) ≡ is_private ip
unfolding is_private to4 to16
is_private-to16 ip h = elim h.size [
  | inl n ↦
      let wide : to16 ip ≡ v4_prefix ++ ip = ground (arith, n) in
      let long : length (v4_prefix ++ ip) ≡ 16 = omega arith in
      let narrow : to4 (v4_prefix ++ ip) ≡ some ip =
        ground (arith, strip_prefix_self v4_prefix ip, long) in
      let self : to4 ip ≡ some ip = ground (arith, n) in
      ap is_private wide ∙ ground (arith, narrow, self)
  | inr n ↦ ground (arith, n)
]
