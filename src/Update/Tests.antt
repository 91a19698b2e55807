-- ===== src/Update/Tests.antt =====
-- Versions on concrete inputs.
use loramapr_receiver.Base.{
  ℕ, ◌+◌, ◌&&◌, leb, if◌then◌else◌, ◌≡◌, refl, codes, ok, Ordering, trim, compare_text,
}
use loramapr_receiver.Base.Decimal.{digits_from}
use loramapr_receiver.Update.Semver.{
  compare_versions, parse_semver, before_first, after_first, split_on, parse_core, parse_part, atoi,
  compare_semver, compare_int, compare_pre, compare_parts, compare_part,
}
use loramapr_receiver.Update.Order.{opposite, compare_versions_swap, compare_versions_trans}

-- unicode.ToLower on ASCII
abbrev lower : ℕ → ℕ
lower c = if leb 65 c && leb c 90 then c + 32 else c

beta_before :
    compare_versions lower (codes "v1.2.0-beta.2") (codes "1.2.0-beta.11") ≡ ok Ordering.lt
unfolding compare_versions parse_semver before_first after_first split_on parse_core parse_part atoi
    compare_semver compare_int compare_pre compare_parts compare_part trim compare_text digits_from
beta_before = refl

release_after : compare_versions lower (codes "1.2.0-beta.11") (codes "V1.2") ≡ ok Ordering.lt
unfolding compare_versions parse_semver before_first after_first split_on parse_core parse_part atoi
    compare_semver compare_int compare_pre compare_parts compare_part trim compare_text digits_from
release_after = refl

-- Two numerals of one value end the comparison, whatever follows.
same_numbers : compare_versions lower (codes "1.2.0-01.a") (codes "1.2.0-1.b") ≡ ok Ordering.eq
unfolding compare_versions parse_semver before_first after_first split_on parse_core parse_part atoi
    compare_semver compare_int compare_pre compare_parts compare_part trim compare_text digits_from
same_numbers = refl

compare_versions_swap_example :
    compare_versions lower (codes "1.2.0-beta.11") (codes "v1.2.0-beta.2")
    ≡ ok (opposite Ordering.lt)
compare_versions_swap_example =
    compare_versions_swap lower (codes "v1.2.0-beta.2") (codes "1.2.0-beta.11") Ordering.lt
      beta_before

compare_versions_trans_example :
    compare_versions lower (codes "v1.2.0-beta.2") (codes "V1.2") ≡ ok Ordering.lt
compare_versions_trans_example =
    compare_versions_trans lower (codes "v1.2.0-beta.2") (codes "1.2.0-beta.11") (codes "V1.2")
      beta_before release_after
