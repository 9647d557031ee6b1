-- ===== src/Router/Domain.antt =====
-- `DomainRule::matchDomain` decides what a domain rule means.
use cppsong.Base.{◌≡◌, refl, Bool, true, Bytes, bytes_eq, bytes_eq_iff, ◌⊎◌}
use cppsong.Base.Lists.{every-All}
use cppsong.Router.{DomainRule, has_substring, match_domain}
use cppsong.Router.Any.{Some, Decides, any-Decides, else-Decides}
use cppsong.Router.Suffix.{IsBelow, suffix_matches-Decides}
use cppsong.Router.Substring.{Contains, has_substring_iff}

module _ {Regex : Type 0} (regex_match : Regex → Bytes → Bool) where
  -- What a rule means: the domain is listed, is a listed suffix or below one, contains a listed
  -- keyword, or one of the expressions matches it.
  abbrev pub MatchesDomain : DomainRule Regex → Bytes → Type 0
  MatchesDomain rule domain =
      Some (λ item. domain ≡ item) rule.domain
      ⊎ (Some (IsBelow domain) rule.domain_suffix
          ⊎ (Some (Contains domain) rule.domain_keyword
              ⊎ Some (λ item. regex_match item domain ≡ true) rule.domain_regex))

  -- `matchDomain` always returns, reads no character outside the domain, and its answer is true
  -- exactly when the domain is listed, is a listed suffix or a name below one, contains a listed
  -- keyword, or is matched by one of the expressions.
  pub match_domain-Decides :
      (rule : DomainRule Regex) (domain : Bytes)
      → Decides (match_domain regex_match rule domain) (MatchesDomain rule domain)
  unfolding match_domain
  match_domain-Decides rule domain =
      else-Decides _ _
        (any-Decides _ _ rule.domain
          (every-All rule.domain (λ item. (bytes_eq domain item, refl, bytes_eq_iff domain item))))
        (else-Decides _ _
          (any-Decides _ _ rule.domain_suffix
            (every-All rule.domain_suffix (suffix_matches-Decides domain)))
          (else-Decides _ _
            (any-Decides _ _ rule.domain_keyword (
              every-All rule.domain_keyword
                (λ item. (has_substring item domain, refl, has_substring_iff item domain))))
            (any-Decides _ _ rule.domain_regex (
              every-All rule.domain_regex
                (λ item. (regex_match item domain, refl, (λ t. t, λ t. t)))))))
