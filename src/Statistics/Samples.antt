-- ===== src/Statistics/Samples.antt =====
-- What the rate of an extension is after samples.
use acbackup.Prelude.{
  ite, if_pos, if_neg, ◌≡◌, ◌≢◌, refl, some, none, [], ◌∷◌, arith, String, String_discrete, inl,
  inr, Option-cases, ◌∙◌, ap, sym,
}
use acbackup.Statistics.{
  Floats, Rates, find_rate, put_rate, rate_or_zero, add_compression_rate_sample,
  get_compression_rate, set_as_incompressible,
}

module _ (floats : Floats) (to_lowercase : String → String) where
  find_rate-put_rate_self :
      (k : String) (r : floats.Float) (m : Rates floats to_lowercase)
      → find_rate floats to_lowercase k (put_rate floats to_lowercase k r m) ≡ some r
  unfolding find_rate put_rate
  find_rate-put_rate_self k r [] = ground arith
  find_rate-put_rate_self k r ((j, q) ∷ m) = ground (arith, find_rate-put_rate_self k r m)

  find_rate-put_rate_ne :
      (k l : String) (r : floats.Float) (m : Rates floats to_lowercase)
      → l ≢ k
      → find_rate floats to_lowercase l (put_rate floats to_lowercase k r m)
        ≡ find_rate floats to_lowercase l m
  unfolding find_rate put_rate
  find_rate-put_rate_ne k l r [] n = ground arith
  find_rate-put_rate_ne k l r ((j, q) ∷ m) n = ground (arith, find_rate-put_rate_ne k l r m)

  -- The rate that `GetCompressionRate` gives.
  abbrev rate : String → Rates floats to_lowercase → floats.Float
  rate ext m = (get_compression_rate floats to_lowercase ext m).0

  get_compression_rate_new :
      (ext : String) (m : Rates floats to_lowercase)
      → find_rate floats to_lowercase (to_lowercase ext) m ≡ none
      → get_compression_rate floats to_lowercase ext m
        ≡ (floats.of_nat 0, put_rate floats to_lowercase (to_lowercase ext) (floats.of_nat 0) m)
  unfolding get_compression_rate
  get_compression_rate_new ext m e = rw (get_compression_rate, e) refl

  get_compression_rate_known :
      (ext : String) (r : floats.Float) (m : Rates floats to_lowercase)
      → find_rate floats to_lowercase (to_lowercase ext) m ≡ some r
      → get_compression_rate floats to_lowercase ext m ≡ (r, m)
  unfolding get_compression_rate
  get_compression_rate_known ext r m e = rw (get_compression_rate, e) refl

  rate_lem :
      (ext : String) (m : Rates floats to_lowercase)
      → rate ext m
        ≡ rate_or_zero floats to_lowercase (find_rate floats to_lowercase (to_lowercase ext) m)
  rate_lem ext m = elim (Option-cases (find_rate floats to_lowercase (to_lowercase ext) m)) [
    | inl e ↦ ap (λ x. x.0) (get_compression_rate_new ext m e) ∙ rw e refl
    | inr (r, e) ↦ ap (λ x. x.0) (get_compression_rate_known ext r m e) ∙ rw e refl
  ]

  rate-put_rate_self :
      (ext : String) (r : floats.Float) (k : String) (m : Rates floats to_lowercase)
      → k ≡ to_lowercase ext
      → rate ext (put_rate floats to_lowercase k r m) ≡ r
  rate-put_rate_self ext r k m e =
      rate_lem ext (put_rate floats to_lowercase k r m)
      ∙ rw (← e, find_rate-put_rate_self k r m) refl

  rate-put_rate_ne :
      (ext : String) (r : floats.Float) (k : String) (m : Rates floats to_lowercase)
      → to_lowercase ext ≢ k
      → rate ext (put_rate floats to_lowercase k r m) ≡ rate ext m
  rate-put_rate_ne ext r k m n =
      rate_lem ext (put_rate floats to_lowercase k r m)
      ∙ rw (find_rate-put_rate_ne k (to_lowercase ext) r m n) (sym (rate_lem ext m))

  asked :
      (ext other : String) (m : Rates floats to_lowercase)
      → rate other (get_compression_rate floats to_lowercase ext m).1 ≡ rate other m
  asked ext other m = elim (Option-cases (find_rate floats to_lowercase (to_lowercase ext) m)) [
    | inr (r, e) ↦ ap (λ x. rate other x.1) (get_compression_rate_known ext r m e)
    | inl e ↦ elim (String_discrete (to_lowercase other) (to_lowercase ext)) [
      | yes q ↦
          let known : find_rate floats to_lowercase (to_lowercase other) m ≡ none = rw q e in
          ap (λ x. rate other x.1) (get_compression_rate_new ext m e)
          ∙ (rate-put_rate_self other (floats.of_nat 0) (to_lowercase ext) m (sym q)
              ∙ sym (rate_lem other m ∙ rw known refl))
      | no n ↦
          ap (λ x. rate other x.1) (get_compression_rate_new ext m e)
          ∙ (rate-put_rate_ne other (floats.of_nat 0) (to_lowercase ext) m n)
    ]
  ]

  -- After a sample for an extension, the rate of every extension that is the same in lower case is
  -- the mean of the rate of the first extension before and the sample, which is clamped to the
  -- interval from 0 to 1, and any other rate is what it was. To ask for a rate changes none. Once
  -- an extension is set as incompressible, every extension that in lower case is the one given has
  -- the rate 1, and any other rate is what it was.
  pub get_compression_rate-add_compression_rate_sample :
      (ext other : String) (sample : floats.Float) (m : Rates floats to_lowercase)
      → (rate other (add_compression_rate_sample floats to_lowercase ext sample m)
          ≡ ite
              (String_discrete (to_lowercase other) (to_lowercase ext))
              (floats.divided
                (floats.plus (rate ext m) (floats.clamp sample (floats.of_nat 0) (floats.of_nat 1)))
                (floats.of_nat 2))
              (rate other m))
        × (rate other (get_compression_rate floats to_lowercase ext m).1 ≡ rate other m)
        × (rate other (set_as_incompressible floats to_lowercase ext m)
            ≡ ite (String_discrete (to_lowercase other) ext) (floats.of_nat 1) (rate other m))
  unfolding add_compression_rate_sample set_as_incompressible
  get_compression_rate-add_compression_rate_sample ext other sample m =
      (rw (rate_lem ext m) (put (to_lowercase ext) _), asked ext other m, put ext (floats.of_nat 1))
    where
      put :
          (k : String) (r : floats.Float)
          → rate other (put_rate floats to_lowercase k r m)
            ≡ ite (String_discrete (to_lowercase other) k) r (rate other m)
      put k r = elim (String_discrete (to_lowercase other) k) [
        | yes e ↦ rw (if_pos _ e) (rate-put_rate_self other r k m (sym e))
        | no n ↦ rw (if_neg _ n) (rate-put_rate_ne other r k m n)
      ]
