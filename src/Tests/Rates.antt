-- ===== src/Tests/Rates.antt =====
-- Rates in whole numbers.
use acbackup.Prelude.{
  ite, String_discrete, ℕ, ◌+◌, ◌-◌, ◌*◌, ◌/◌, min, ◌≡◌, [], ◌∷◌, String, ltb, not,
}
use acbackup.Statistics.{
  Floats, Rates, add_compression_rate_sample, get_compression_rate, set_as_incompressible,
}
use acbackup.Statistics.Samples.{get_compression_rate-add_compression_rate_sample}

abbrev pub whole : Floats
whole = record {
  Float = ℕ;
  of_nat = λ n. n;
  plus = λ a b. a + b;
  minus = λ a b. a - b;
  times = λ a b. a * b;
  divided = λ a b. a / b;
  rounded = λ a. a;
  clamp = λ a low high. min a high;
  at_most = λ a b. not (ltb b a);
  to_uint8 = λ a. a;
}

abbrev pub same_text : String → String
same_text s = s

abbrev known : Rates whole same_text
known = ("txt", 1) ∷ []

abbrev rate : String → Rates whole same_text → ℕ
rate ext m = (get_compression_rate whole same_text ext m).0

get_compression_rate-add_compression_rate_sample_example :
    (rate "txt" (add_compression_rate_sample whole same_text "txt" 5 known)
      ≡ ite (String_discrete "txt" "txt") ((rate "txt" known + min 5 1) / 2) (rate "txt" known))
    × (rate "txt" (get_compression_rate whole same_text "txt" known).1 ≡ rate "txt" known)
    × (rate "txt" (set_as_incompressible whole same_text "txt" known)
        ≡ ite (String_discrete "txt" "txt") 1 (rate "txt" known))
get_compression_rate-add_compression_rate_sample_example =
    get_compression_rate-add_compression_rate_sample whole same_text "txt" "txt" 5 known
