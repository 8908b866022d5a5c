-- ===== src/BatchSize/Tests.antt =====
-- batch_size_estimator.cpp on a small table.
use nexuslb.ModelProfile.Tests.{numbers, uneven}
use nexuslb.BatchSize.{estimate}
use nexuslb.BatchSize.Range.{Found, estimate-first}

estimate_example :
    Found numbers 1 uneven 115
      (numbers.plus (numbers.times 1 1) (numbers.times 0 0))
      (estimate numbers 1 1 0 uneven 115 1 0)
estimate_example = estimate-first numbers 1 1 0 uneven 115 1 0
