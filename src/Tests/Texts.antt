-- ===== src/Tests/Texts.antt =====
-- Times in the text of the live metrics.
use telconet_sentinel.Common.{ℕ, String, ◌≡◌, refl, decimal, decimal_within, digit}
use telconet_sentinel.Convergence.Metrics.{seconds_text, thousandths}

abbrev unrounded : ℕ → String
unrounded ms = "?"

whole_second : seconds_text unrounded 2000 ≡ "2"
unfolding seconds_text thousandths decimal decimal_within digit
whole_second = refl

quarter_second : seconds_text unrounded 250 ≡ "0.25"
unfolding seconds_text thousandths decimal decimal_within digit
quarter_second = refl

many_digits : seconds_text unrounded 123407 ≡ "123.407"
unfolding seconds_text thousandths decimal decimal_within digit
many_digits = refl
