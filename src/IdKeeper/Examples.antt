-- ===== src/IdKeeper/Examples.antt =====
-- A keeper at work.
use ma_sinafadavi_iran.Prelude.{◌≡◌, [], ◌∷◌, arith}
use ma_sinafadavi_iran.Bpv7.Bundle.{Bundle}
use ma_sinafadavi_iran.Bpv7.Examples.{bundle}
use ma_sinafadavi_iran.IdKeeper.{Keeper, update, clean, with_sequence_number}
use ma_sinafadavi_iran.IdKeeper.Uniqueness.{
  initialised, updated, cleaned, Distinct, update-Distinct, clean_restarts,
}

-- The keeper after the bundle of creation time 5 came three times, with a Clean in between.
abbrev once : Keeper × Bundle
once = update [] bundle

abbrev twice : Keeper × Bundle
twice = update once.0 bundle

abbrev thrice : Keeper × Bundle
thrice = update (clean 4 twice.0) bundle

update-Distinct_example : Distinct (thrice.1 ∷ twice.1 ∷ once.1 ∷ [])
update-Distinct_example =
    update-Distinct 4 thrice.0 (thrice.1 ∷ twice.1 ∷ once.1 ∷ [])
      (updated bundle (omega arith) (
        cleaned 4 (omega arith)
          (updated bundle (omega arith) (updated bundle (omega arith) initialised))))
      (omega arith)

clean_restarts_example : (update (clean 6 twice.0) bundle).1 ≡ with_sequence_number bundle 0
clean_restarts_example = clean_restarts 6 twice.0 bundle (omega arith)
