-- ===== src/Registry/Tests.antt =====
-- Versions of registry/version.go: "2", "1.2" and "1".
use xbase.Prelude.{ℕ, ◌≡◌, refl, true, List, [], ◌∷◌}
use xbase.Registry.Versions.{compare_version, newer, same, is_at_least}

abbrev two : List ℕ
two = 50 ∷ []

abbrev one_two : List ℕ
one_two = 49 ∷ 46 ∷ 50 ∷ []

abbrev one : List ℕ
one = 49 ∷ []

-- A part that is missing counts as 0.
one_zero : compare_version (49 ∷ 46 ∷ 48 ∷ []) one ≡ same
unfolding compare_version xbase.Registry.Versions.parse_version_part
one_zero = refl

over_one_two : is_at_least two one_two ≡ true
unfolding is_at_least xbase.Registry.Versions.parse_version_part
over_one_two = refl

over_one : is_at_least one_two one ≡ true
unfolding is_at_least xbase.Registry.Versions.parse_version_part
over_one = refl
