-- ===== src/Authz/Policy/Domains.antt =====
-- What the policy's domain_matches covers, and its agreement with `DomainMatches` of the scopes.
use hades.Prelude.{
  Bool-cases, Bool-ext, Bytes, Option-cases, [], any-append_mid, ap, append_assoc, arith, bytes_beq,
  bytes_beq_iff, codes, false, inl, inr, length, refl, take, true, ◌++◌, ◌-◌, ◌==◌, ◌↔◌, ◌∙◌, ◌∷◌,
  ◌≡◌, ◌≢◌, nat_eq, bytes_eq, string_eq,
}
use hades.Text.{contains_any, contains_byte, cut, has_prefix, has_suffix, trim_suffix}
use hades.Text.Laws.{Lacks, cut-append, cut-none-Lacks, cut_sound}
use hades.Text.Ends.{
  has_prefix-append, has_prefix_sound, has_suffix-append, has_suffix_sound, length-append_sub,
  take-append,
}
use hades.Constants.Scope.{domain_matches, is_valid_scope_domain}
use hades.Constants.Scope.Domains.{Covers, domain_matches_iff, everything, exact, namespace}
use hades.Authz.Policy.{rego_domain_matches}

pub data RegoCovers (pattern domain : Bytes) : Type 0 where
  same : pattern ≡ domain → RegoCovers pattern domain
  global : pattern ≡ codes "*" → RegoCovers pattern domain
  under :
      (prefix rest : Bytes)
      → pattern ≡ prefix ++ codes "/*"
      → domain ≡ prefix ++ b'/' ∷ rest
      → RegoCovers pattern domain

trim_suffix-append : (s p : Bytes) → trim_suffix (s ++ p) p ≡ s
unfolding trim_suffix
trim_suffix-append s p = rw (has_suffix-append s p, length-append_sub s p, take-append s p) refl

under_matches :
    (prefix rest : Bytes)
    → rego_domain_matches (prefix ++ codes "/*") (prefix ++ b'/' ∷ rest) ≡ true
unfolding rego_domain_matches
under_matches prefix rest =
    rw (trim_suffix-append prefix (codes "/*"), has_suffix-append prefix (codes "/*"))
      (ground
        (arith, append_assoc prefix (codes "/") rest, has_prefix-append (prefix ++ codes "/") rest))

RegoCovers-matches : (p d : Bytes) → RegoCovers p d → rego_domain_matches p d ≡ true
RegoCovers-matches p d (same e) = unfold rego_domain_matches in ground (arith, bytes_beq_iff p d)
RegoCovers-matches p d (global e) =
    unfold rego_domain_matches in ground (arith, bytes_beq_iff p (codes "*"))
RegoCovers-matches p d (under prefix rest ep ed) = rw (ep, ed) (under_matches prefix rest)

suffix_covers :
    (p d : Bytes)
    → has_suffix p (codes "/*") ≡ true
    → has_prefix d (trim_suffix p (codes "/*") ++ codes "/") ≡ true
    → RegoCovers p d
suffix_covers p d h k =
    let prefix : Bytes = take (length p - 2) p in
    let ep : p ≡ prefix ++ codes "/*" = has_suffix_sound p (codes "/*") h in
    let et : trim_suffix p (codes "/*") ≡ prefix = unfold trim_suffix in rw h refl in
    let (rest, ed) = has_prefix_sound d (prefix ++ codes "/") (rw et at k) in
    under prefix rest ep (ed ∙ append_assoc prefix (codes "/") rest)

matches-RegoCovers : (p d : Bytes) → rego_domain_matches p d ≡ true → RegoCovers p d
matches-RegoCovers p d h = elim (Bool-cases (p == d)) [
  | inl e ↦ same ((bytes_beq_iff p d).0 e)
  | inr n ↦ elim (Bool-cases (p == codes "*")) [
    | inl e ↦ global ((bytes_beq_iff p (codes "*")).0 e)
    | inr n' ↦
        suffix_covers p d (unfold rego_domain_matches in ground arith)
          (unfold rego_domain_matches in ground arith)
  ]
]

pub rego_domain_matches_iff : (p d : Bytes) → (rego_domain_matches p d ≡ true) ↔ RegoCovers p d
rego_domain_matches_iff p d = (matches-RegoCovers p d, RegoCovers-matches p d)

wildcard_alone : (n : Bytes) → ((n ++ codes "/*") == codes "*") ≡ false
unfolding bytes_beq
wildcard_alone [] = refl
wildcard_alone (c ∷ []) = ground arith
wildcard_alone (c ∷ (d ∷ n)) = ground arith

slash_inside : (n : Bytes) → contains_any (n ++ codes "/*") (codes "*/") ≡ true
unfolding contains_any
slash_inside n =
    any-append_mid (contains_byte (codes "*/")) n b'/' (codes "*") (unfold contains_byte in refl)

two_slashes :
    (o n : Bytes) → Lacks b'/' o → is_valid_scope_domain (o ++ b'/' ∷ (n ++ codes "/*")) ≡ false
unfolding is_valid_scope_domain
two_slashes o n l =
    rw (cut-append o b'/' (n ++ codes "/*") l) (ground (arith, wildcard_alone n, slash_inside n))

-- In a valid scope domain nothing before the wildcard holds a slash.
valid_wildcard-Lacks : (t : Bytes) → is_valid_scope_domain (t ++ codes "/*") ≡ true → Lacks b'/' t
valid_wildcard-Lacks t v = elim (Option-cases (cut t b'/')) [
  | inl n ↦ cut-none-Lacks t b'/' n
  | inr ((o, n), f) ↦
      let (e, l) = cut_sound t b'/' o n f in
      let spelled : t ++ codes "/*" ≡ o ++ b'/' ∷ (n ++ codes "/*") =
        ap (λ (u : Bytes). u ++ codes "/*") e ∙ append_assoc o (b'/' ∷ n) (codes "/*") in
      absurd (cc (rw spelled at v, two_slashes o n l))
]

valid-ne-nil : (d : Bytes) → is_valid_scope_domain d ≡ true → d ≢ []
unfolding is_valid_scope_domain cut
valid-ne-nil [] v = cc
valid-ne-nil (c ∷ d) v = cc

wildcard_invalid : is_valid_scope_domain (codes "*") ≡ false
unfolding is_valid_scope_domain cut
wildcard_invalid = refl

-- On every domain that a known scope may name, the Go matcher of token scopes and the matcher of
-- the Rego policy give the same answer for a named domain.
pub scope_domain_agrees :
    (d dom : Bytes)
    → is_valid_scope_domain d ≡ true
    → dom ≢ []
    → domain_matches d dom ≡ rego_domain_matches d dom
scope_domain_agrees d dom v n =
    Bool-ext (domain_matches d dom) (rego_domain_matches d dom)
      (λ h. (rego_domain_matches_iff d dom).1 (to_rego ((domain_matches_iff d dom).0 h)))
      (λ h. (domain_matches_iff d dom).1 (to_go ((rego_domain_matches_iff d dom).0 h)))
  where
    to_rego : Covers d dom → RegoCovers d dom
    to_rego (everything e) = absurd (valid-ne-nil d v e)
    to_rego (exact m e) = same e
    to_rego (namespace owner name ep ed l) = under owner name ep ed

    to_go : RegoCovers d dom → Covers d dom
    to_go (same e) = exact n e
    to_go (global e) = absurd (cc (ap is_valid_scope_domain e, wildcard_invalid))
    to_go (under prefix rest ep ed) =
        namespace prefix rest ep ed (valid_wildcard-Lacks prefix (rw ep at v))
