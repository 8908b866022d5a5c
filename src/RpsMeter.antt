-- ===== src/RpsMeter.antt =====
-- src/nexus/common/rps_meter.cpp: the rate of requests over a window, with its mean and deviation.
-- `sqrt` is the C library's, and `nano` the double 1e-9. Where the code would index out of the window
-- the outcome is a fault.
use nexuslb.Prelude.{
  ℕ, ◌+◌, ◌-◌, ◌%◌, ◌&&◌, Option, none, some, List, [], ◌∷◌, ◌++◌, ◌==◌, leb, length, is_empty,
  get_elem?, set, if◌then◌else◌, Outcome, ok, out_of_range, check, or_fault, ◌>>=◌, ◌>>◌,
}
use nexuslb.ModelProfile.{Doubles}
use nexuslb.Rankmt.{epoch}

pub record RpsMeter (D : Type 0) : Type 0 where
  pub size : ℕ
  pub counter : ℕ
  pub counter_start_at : ℕ
  pub window : List D
  pub idx : ℕ
  pub avg : D
  pub nvar : D
  pub std : D

module _ {D : Type 0} (d : Doubles D) (sqrt : D → D) (nano : D) where
  -- The constructor.
  unfoldable pub new_meter : ℕ → RpsMeter D
  new_meter window_size = record {
    size = window_size;
    counter = 0;
    counter_start_at = epoch;
    window = [];
    idx = 0;
    avg = d.of_nat 0;
    nvar = d.of_nat 0;
    std = d.of_nat 0;
  }

  -- `Hit`.
  unfoldable pub hit : RpsMeter D → RpsMeter D
  hit m = record m { counter = m.counter + 1 }

  -- Mean and n times the variance with a new rate, which takes the place of an old one when the window
  -- is full.
  unfoldable pub replace_rate : D → D → RpsMeter D → RpsMeter D
  replace_rate rps old m =
      let mean = d.plus m.avg (d.over (d.minus rps old) (d.of_nat m.size)) in
      record m {
        avg = mean;
        nvar =
            d.plus m.nvar
              (d.times (d.minus rps old) (d.minus (d.plus (d.minus rps mean) old) m.avg));
      }

  unfoldable pub first_rate : D → RpsMeter D → RpsMeter D
  first_rate rps m = record m { avg = rps; nvar = d.of_nat 0 }

  unfoldable pub add_rate : D → RpsMeter D → RpsMeter D
  add_rate rps m =
      let mean = d.plus m.avg (d.over (d.minus rps m.avg) (d.of_nat (length m.window + 1))) in
      record m { avg = mean; nvar = d.plus m.nvar (d.times (d.minus rps mean) (d.minus rps m.avg)) }

  unfoldable pub with_rate : D → RpsMeter D → Outcome (RpsMeter D)
  unfolding replace_rate first_rate add_rate
  with_rate rps m =
      if length m.window == m.size
      then (or_fault (get_elem? m.window m.idx) out_of_range >>= λ old. ok (replace_rate rps old m))
      else if length m.window == 0
      then ok (first_rate rps m)
      else ok (add_rate rps m)

  -- The window after a new rate, and the deviation.
  unfoldable pub move_window : D → RpsMeter D → RpsMeter D
  move_window rps m =
      let window =
        if length m.window == m.size then set m.window m.idx rps else m.window ++ rps ∷ [] in
      record m {
        window = window;
        idx = (m.idx + 1) % m.size;
        counter = 0;
        std = sqrt (d.over m.nvar (d.of_nat (length window)));
      }

  -- `SealCounter`.
  unfoldable pub seal_counter : ℕ → RpsMeter D → Outcome (RpsMeter D)
  unfolding with_rate move_window
  seal_counter now m = do
    check (leb m.counter_start_at now)
    let last_time = m.counter_start_at
    let started = record m { counter_start_at = now }
    let rps = d.over (d.of_nat m.counter) (d.times (d.of_nat (now - last_time)) nano)
    let sealed = with_rate rps started >>= λ w. ok (move_window rps w)
    if is_empty m.window && m.counter == 0
        then ok started
        else if last_time == epoch
        then ok (record started { counter = 0 })
        else sealed

  -- `Get`.
  unfoldable pub get : RpsMeter D → Option (D × D)
  get m = if is_empty m.window then none else some (m.avg, m.std)
