-- ===== src/Cli/Matched.antt =====
-- The loop of `resolveResourceKind` over definitions that have the name and others.
use tailscale_os.Base.{◌≡◌, refl, ◌∙◌, Bool, true, false, String, List, [], ◌∷◌, ◌++◌, All, arith}
use tailscale_os.Cli.{Definition, is_named, matched}

module _ (equal_fold : String → String → Bool) (t : String) where
  matched-append :
      (xs ys : List Definition)
      → matched equal_fold t (xs ++ ys) ≡ matched equal_fold t xs ++ matched equal_fold t ys
  unfolding matched
  matched-append [] ys = refl
  matched-append (d ∷ xs) ys = ground (arith, matched-append xs ys)

  pub matched-named :
      (xs : List Definition) (d : Definition) (ys : List Definition)
      → is_named equal_fold t d ≡ true
      → matched equal_fold t (xs ++ (d ∷ ys))
        ≡ matched equal_fold t xs ++ (d ∷ matched equal_fold t ys)
  unfolding matched
  matched-named xs d ys h = matched-append xs (d ∷ ys) ∙ rw h refl

  matched_none :
      (xs : List Definition)
      → All (λ e. is_named equal_fold t e ≡ false) xs
      → matched equal_fold t xs ≡ []
  unfolding matched
  matched_none [] a = refl
  matched_none (d ∷ xs) a = ground (arith, a.0, matched_none xs a.1)

  -- The one definition that has the name is the one that is matched.
  pub matched_one :
      (xs : List Definition) (d : Definition) (ys : List Definition)
      → All (λ e. is_named equal_fold t e ≡ false) xs
      → is_named equal_fold t d ≡ true
      → All (λ e. is_named equal_fold t e ≡ false) ys
      → matched equal_fold t (xs ++ (d ∷ ys)) ≡ d ∷ []
  matched_one xs d ys a h b =
      matched-named xs d ys h ∙ rw (matched_none xs a, matched_none ys b) refl
