-- ===== src/Pool.antt =====
-- examples/class_3/07_mutex_semaphore/mutex_sem_demo.c, `semaphore_demo_read`: `n` processes that
-- read the file at the same time, and the pool of three resources behind a semaphore. A step is one
-- access to what they share.
use kernel_programming.Base.{ℕ, zero, suc, ◌+◌, ◌-◌, ◌%◌, ◌^◌, ◌<◌, ◌≤◌, ◌≡◌, ◌==◌, if◌then◌else◌}
use kernel_programming.Kernel.Family.{update}
pub mod Bounds
pub mod Mutex
pub mod Fits

abbrev pub max_resources : ℕ
max_resources = 3

-- The semaphore's count, `active_users` and `resource_id_counter`.
pub record Resources : Type 0 where
  pub resource_pool : ℕ
  pub active_users : ℕ
  pub resource_id_counter : ℕ

abbrev pub fresh_resources : Resources
fresh_resources = record {
  resource_pool = max_resources;
  active_users = 0;
  resource_id_counter = 1;
}

-- Where a process stands in `semaphore_demo_read`.
pub data Place : Type 0 where
  outside : Place
  admitted : Place  -- behind down_interruptible
  counted : Place  -- behind atomic_inc_return
  read_id : (id : ℕ) → Place  -- between the load and the store of resource_id_counter++
  using : (id : ℕ) → Place  -- with my_resource_id, in msleep
  uncounted : Place  -- between atomic_dec and up

-- A move of a process. down_interruptible waits while the count is 0; an interrupted process stays
-- outside.
pub data Move (r : Resources) : Place → Resources → Place → Type 0 where
  down :
      0 < r.resource_pool
      → Move r outside (record r { resource_pool = r.resource_pool - 1 }) admitted
  interrupted : Move r outside r outside
  count_in : Move r admitted (record r { active_users = (r.active_users + 1) % 2 ^ 32 }) counted
  load_id : Move r counted r (read_id r.resource_id_counter)
  store_id :
      {id : ℕ}
      → Move r (read_id id) (record r { resource_id_counter = (id + 1) % 2 ^ 32 }) (using id)
  count_out :
      {id : ℕ}
      → Move r
          (using id)
          (record r { active_users = (r.active_users + 2 ^ 32 - 1) % 2 ^ 32 })
          uncounted
  up : Move r uncounted (record r { resource_pool = r.resource_pool + 1 }) outside

pub record System : Type 0 where
  pub shared : Resources
  pub place : ℕ → Place

pub data Step (n : ℕ) (s : System) : System → Type 0 where
  step :
      (i : ℕ) {r : Resources} {p : Place}
      → i < n
      → Move s.shared (s.place i) r p
      → Step n s (record { shared = r; place = update s.place i p })

abbrev pub init : System
init = record { shared = fresh_resources; place = λ i. outside }

pub data Reach (n : ℕ) : System → Type 0 where
  start : Reach n init
  later : {s t : System} → Reach n s → Step n s t → Reach n t
