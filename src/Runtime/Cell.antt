-- ===== src/Runtime/Cell.antt =====
-- An attribute of an object that lives as long as the program, such as `self._data`.
use fluxio.Prelude.{◌≡◌}

pub record Cell (S W : Type 0) : Type 0 where
  pub read : W → S
  pub write : S → W → W
  pub read-write : (s : S) (w : W) → read (write s w) ≡ s
