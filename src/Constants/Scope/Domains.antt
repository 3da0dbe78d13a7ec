-- ===== src/Constants/Scope/Domains.antt =====
-- Which domains a scope covers.
use hades.Text.{cut, cut_suffix}
use hades.Prelude.{
  ==_refl, Bool-cases, Bytes, Option-cases, [], arith, bytes_beq_iff, codes, inl, inr, refl, some,
  true, ◌++◌, ◌==◌, ◌↔◌, ◌∷◌, ◌≡◌, ◌≢◌, nat_eq, bytes_eq, string_eq,
}
use hades.Text.Laws.{Lacks, cut-append, cut_sound, is_empty_iff}
use hades.Text.Ends.{cut_suffix-append, cut_suffix_sound, is_empty-append}
use hades.Constants.Scope.{domain_matches, namespace_covers, owner_is}

-- What a domain pattern covers: everything if it is empty, itself, or a whole namespace.
pub data Covers (pattern domain : Bytes) : Type 0 where
  everything : pattern ≡ [] → Covers pattern domain
  exact : domain ≢ [] → pattern ≡ domain → Covers pattern domain
  namespace :
      (owner name : Bytes)
      → pattern ≡ owner ++ codes "/*"
      → domain ≡ owner ++ b'/' ∷ name
      → Lacks b'/' owner
      → Covers pattern domain

namespace_covers-owner :
    (owner name : Bytes)
    → Lacks b'/' owner
    → namespace_covers (some owner) (owner ++ b'/' ∷ name) ≡ true
unfolding namespace_covers owner_is
namespace_covers-owner owner name h = rw (cut-append owner b'/' name h) (==_refl owner)

Covers-domain_matches : (p d : Bytes) → Covers p d → domain_matches p d ≡ true
unfolding domain_matches
Covers-domain_matches p d (everything e) = rw e refl
Covers-domain_matches p d (exact n e) =
    ground (arith, bytes_beq_iff p d, is_empty_iff p, is_empty_iff d)
Covers-domain_matches p d (namespace owner name ep ed h) =
    rw (ep, ed)
      (ground (
        arith,
        is_empty-append owner b'/' (codes "*"),
        is_empty-append owner b'/' name,
        cut_suffix-append owner (codes "/*"),
        namespace_covers-owner owner name h,
      ))

namespace_covers-Covers :
    (p d owner : Bytes)
    → p ≡ owner ++ codes "/*"
    → namespace_covers (some owner) d ≡ true
    → Covers p d
unfolding namespace_covers owner_is
namespace_covers-Covers p d owner e h = elim (Option-cases (cut d b'/')) [
  | inl n ↦ absurd (ground (arith, n))
  | inr ((o, name), f) ↦
      let (ed, l) = cut_sound d b'/' o name f in
      let same : o ≡ owner = ground (arith, f, bytes_beq_iff o owner) in
      namespace o name (rw same e) ed l
]

domain_matches-Covers : (p d : Bytes) → domain_matches p d ≡ true → Covers p d
domain_matches-Covers [] d h = everything refl
domain_matches-Covers (c ∷ p) [] h = absurd (unfold domain_matches in ground arith)
domain_matches-Covers (c ∷ p) (b ∷ d) h = elim (Bool-cases ((c ∷ p) == (b ∷ d))) [
  | inl e ↦ exact (cc) ((bytes_beq_iff (c ∷ p) (b ∷ d)).0 e)
  | inr e ↦ elim (Option-cases (cut_suffix (c ∷ p) (codes "/*"))) [
    | inl n ↦ absurd (unfold domain_matches in ground (arith, e, n))
    | inr (ns, f) ↦
        namespace_covers-Covers (c ∷ p) (b ∷ d) ns (cut_suffix_sound (c ∷ p) (codes "/*") ns f)
          (unfold domain_matches in ground (arith, e, f))
  ]
]

-- `DomainMatches` answers true exactly for an empty pattern, for the pattern itself where the
-- domain is named, and for "owner/*" against a domain whose first segment is that owner.
pub domain_matches_iff : (p d : Bytes) → (domain_matches p d ≡ true) ↔ Covers p d
domain_matches_iff p d = (domain_matches-Covers p d, Covers-domain_matches p d)
