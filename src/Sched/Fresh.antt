-- ===== src/Sched/Fresh.antt =====
-- A world without tasks, for tests.
use cgo.Base.{ℕ, none, [], false}
use cgo.Sched.{World}

-- One worker; semaphore 0 has `n` permits.
abbrev pub fresh : ℕ → World
fresh n = record {
  contexts = λ c. record {
    size = 1;
    tid = 0;
    allocators = λ i. record { pool = []; index = λ j. none };
    schedulers = λ i. record { runnable = []; signal = none };
  };
  signals = λ s. record { emitted = false; waited = false; notified = 0 };
  tasks = λ t. record {
    ctx = 0;
    id = t;
    yielded = false;
    waiting_cond = none;
    waiting_mtx = none;
    execute_cnt = 0;
    suspend_cnt = 0;
    yield_cnt = 0;
  };
  sems = λ s. record { vacant = n; cond = record { blocked = []; scheduled_ctx = none } };
}
