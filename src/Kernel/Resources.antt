-- ===== src/Kernel/Resources.antt =====
-- The kernel objects that the modules acquire and release, and the ledger of a run: a release of
-- an object that is not held is a fault, and what the ledger ends with is still held.
use kernel_programming.Base.{
  ℕ, ◌≡◌, Option, none, some, List, [], ◌∷◌, ◌++◌, ◌==◌, if◌then◌else◌, Result, ok, err,
}

pub data Resource : Type 0 where
  device_struct buffer chrdev_region cdev class device : Resource
  blkdev tag_set disk added_disk : Resource
  workqueue timer hrtimer tasklet irq : Resource
  proc_entry slab_cache kobject sysfs_group tasks users intervals : Resource

abbrev tag : Resource → ℕ
tag device_struct = 0
tag buffer = 1
tag chrdev_region = 2
tag cdev = 3
tag class = 4
tag device = 5
tag blkdev = 6
tag tag_set = 7
tag disk = 8
tag added_disk = 9
tag workqueue = 10
tag timer = 11
tag hrtimer = 12
tag tasklet = 13
tag irq = 14
tag proc_entry = 15
tag slab_cache = 16
tag kobject = 17
tag sysfs_group = 18
tag tasks = 19
tag users = 20
tag intervals = 21

pub data Event : Type 0 where
  acquire release : Resource → Event

-- Taking a resource off the ledger; `none` where it is not held.
abbrev pub remove : Resource → List Resource → Option (List Resource)
remove r [] = none
remove r (s ∷ held) =
    let rest : Option (List Resource) = remove r held in
    if tag r == tag s then some held else elim rest [ none ↦ none | some l ↦ some (s ∷ l) ]

abbrev pub replay : List Event → List Resource → Option (List Resource)
replay [] held = some held
replay (acquire r ∷ es) held = replay es (r ∷ held)
replay (release r ∷ es) held = elim (remove r held) [ none ↦ none | some l ↦ replay es l ]

-- What an initialisation function does: its calls in order, the module's state and its result.
pub record Boot (S : Type 0) : Type 0 where
  pub events : List Event
  pub state : S
  pub result : Result ℕ

infixr 6 ◌▷◌
abbrev pub ◌▷◌ : {S : Type 0} → Event → Boot S → Boot S
e ▷ b = record b { events = e ∷ b.events }

abbrev pub stop : {S : Type 0} → S → Result ℕ → Boot S
stop s r = record { events = []; state = s; result = r }

-- What the module's exit function releases, where the initialisation succeeded.
abbrev pub closing : {S : Type 0} → Result ℕ → S → (S → List Event) → List Event
closing (ok _) s exit = exit s
closing (err _) s exit = []

-- After a failed initialisation nothing is held; after one that succeeds, the calls of `exit`
-- release all that it acquired. No release is of an object that is not held.
abbrev pub Balanced : {S : Type 0} → Boot S → (S → List Event) → Type 0
Balanced b exit = replay (b.events ++ closing b.result b.state exit) [] ≡ some []
