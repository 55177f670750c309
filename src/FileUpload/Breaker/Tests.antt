-- ===== src/FileUpload/Breaker/Tests.antt =====
-- Runs of the circuit breaker of file-upload on concrete inputs.
use microservices_base.Prelude.{[], ◌∷◌, arith}
use microservices_base.Prelude.Int.{pos}
use microservices_base.FileUpload.Breaker.{Config, new_breaker}
use microservices_base.FileUpload.Breaker.Invariant.{
  IsPositive, Inv, ask, succeed, fail, after_all, new_breaker-after_all-Inv,
}

abbrev config : Config
config = record {
  name = "cache";
  failure_threshold = pos 2;
  reset_timeout = pos 15;
  half_open_max_calls = pos 1;
}

config-IsPositive : IsPositive (pos 2) (pos 1)
config-IsPositive = record {
  threshold_positive = omega arith;
  max_calls_positive = omega arith;
  threshold_word = (omega arith, omega arith);
  max_calls_word = (omega arith, omega arith);
}

new_breaker-after_all-Inv_example :
    Inv (after_all (fail (pos 1) ∷ fail (pos 2) ∷ ask (pos 20) ∷ succeed ∷ []) (new_breaker config))
new_breaker-after_all-Inv_example =
    new_breaker-after_all-Inv config (fail (pos 1) ∷ fail (pos 2) ∷ ask (pos 20) ∷ succeed ∷ [])
      config-IsPositive
