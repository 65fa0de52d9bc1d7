-- ===== src/Tests/Texts.antt =====
-- The text functions on small texts.
use so4_oracle.Prelude.{◌≡◌, refl, true, [], ◌∷◌}
use so4_oracle.Prelude.Text.{show_nat, trim, split, contains}

show_nat_test : show_nat 4096 ≡ "4096"
unfolding show_nat
show_nat_test = refl

trim_test : trim " a b " ≡ "a b"
unfolding trim
trim_test = refl

split_test : split b'"' "a\"bc\"" ≡ "a" ∷ "bc" ∷ "" ∷ []
unfolding split
split_test = refl

contains_test : contains "xMarketPausedy" "MarketPaused" ≡ true
unfolding contains
contains_test = refl
