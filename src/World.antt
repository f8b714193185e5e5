-- ===== src/World.antt =====
-- The state that the client's commands and responses change: the data manager, the file my.info,
-- the other files that were written, how many random numbers have been drawn, and the names of the
-- files that open for output, which nothing changes; a file that is open takes all that is written.
use instant_messaging_progra.Base.{Bool, ℕ, ◌+◌, List, Bytes, Option, Result, ok, throw, stuck}
use instant_messaging_progra.Base.Exec.{Exec}
use instant_messaging_progra.ClientInMemoryDataManager.{DataManager}

pub record World : Type 0 where
  pub manager : DataManager
  pub user_info : Option Bytes
  pub files : List (Bytes × Bytes)
  pub draws : ℕ
  pub opens : Bytes → Bool

-- A getter of the data manager.
abbrev pub ask {ℓ} : {A : Type ℓ} → (DataManager → Result A) → World → Result A × World
ask f w = (f w.manager, w)

abbrev pub tell : (DataManager → DataManager) → World → Result (Unit {0}) × World
tell f w = (ok tt, record w { manager = f w.manager })

abbrev store_result : Result DataManager → World → Result (Unit {0}) × World
store_result (ok m) w = (ok tt, record w { manager = m })
store_result (throw e) w = (throw e, w)
store_result (stuck f) w = (stuck f, w)

-- A setter that may throw.
abbrev pub attempt : (DataManager → Result DataManager) → World → Result (Unit {0}) × World
attempt f w = store_result (f w.manager) w

-- Take `n` random numbers: the place of the first one.
abbrev pub draw : ℕ → Exec World ℕ
draw n w = (ok w.draws, record w { draws = w.draws + n })
