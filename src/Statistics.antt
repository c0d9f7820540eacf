-- ===== src/Statistics.antt =====
-- src/config/CompressionStatistics.{hpp,cpp}: how well files with an extension compress. Reading and
-- writing the statistics as CSV is not modelled.
pub mod Samples
use acbackup.Prelude.{ℕ, ◌+◌, ite, Bool, Option, some, none, List, [], ◌∷◌, String, String_discrete}

-- `float32`: the conversions and operations that the code uses.
pub record Floats : Type 1 where
  pub Float : Type 0
  pub of_nat : ℕ → Float
  pub plus : Float → Float → Float
  pub minus : Float → Float → Float
  pub times : Float → Float → Float
  pub divided : Float → Float → Float
  pub rounded : Float → Float
  pub clamp : Float → Float → Float → Float
  pub at_most : Float → Float → Bool
  pub to_uint8 : Float → ℕ

-- `String::ToLowercase` is an argument.
module _ (floats : Floats) (to_lowercase : String → String) where
  -- `BinaryTreeMap<String, float32>`.
  abbrev pub Rates : Type 0
  Rates = List (String × floats.Float)

  unfoldable pub find_rate : String → Rates → Option floats.Float
  find_rate k [] = none
  find_rate k ((j, r) ∷ m) = ite (String_discrete k j) (some r) (find_rate k m)

  pub put_rate : String → floats.Float → Rates → Rates
  put_rate k r [] = (k, r) ∷ []
  put_rate k r ((j, q) ∷ m) = ite (String_discrete k j) ((k, r) ∷ m) ((j, q) ∷ put_rate k r m)

  -- `operator[]`, which makes an entry of 0 for a key that is not there.
  abbrev pub rate_or_zero : Option floats.Float → floats.Float
  rate_or_zero none = floats.of_nat 0
  rate_or_zero (some r) = r

  -- `AddCompressionRateSample`.
  pub add_compression_rate_sample : String → floats.Float → Rates → Rates
  unfolding find_rate put_rate
  add_compression_rate_sample ext rate m =
      let clamped = floats.clamp rate (floats.of_nat 0) (floats.of_nat 1) in
      let old = rate_or_zero (find_rate (to_lowercase ext) m) in
      put_rate (to_lowercase ext) (floats.divided (floats.plus old clamped) (floats.of_nat 2)) m

  -- `GetCompressionLevel`, under the configured maximum.
  unfoldable pub get_compression_level : ℕ → floats.Float → ℕ
  get_compression_level max_level rate =
      let c = floats.times (floats.of_nat (max_level + 1)) (floats.minus (floats.of_nat 1) rate) in
      let level = floats.minus (floats.rounded c) (floats.of_nat 1) in
      floats.to_uint8 (floats.clamp level (floats.of_nat 0) (floats.of_nat 9))

  -- `GetCompressionRate`: an extension that was not met yet is put in as perfectly compressible.
  unfoldable pub get_compression_rate : String → Rates → floats.Float × Rates
  unfolding find_rate put_rate
  get_compression_rate ext m = elim (find_rate (to_lowercase ext) m) [
    | some r ↦ (r, m)
    | none ↦ (floats.of_nat 0, put_rate (to_lowercase ext) (floats.of_nat 0) m)
  ]

  -- `SetAsIncompressible`.
  pub set_as_incompressible : String → Rates → Rates
  unfolding put_rate
  set_as_incompressible ext m = put_rate ext (floats.of_nat 1) m
