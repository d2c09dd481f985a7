-- ===== src/Generic/G339/Collide.antt =====
-- The names of generic/339 collide.
use nfsplayground.Base.{ℕ, ◌-◌, ◌%◌, ◌^◌, ◌≡◌, false, List, length}
use nfsplayground.Kernel.{Kernel}
use nfsplayground.Generic.G339.{hashname, contains, name_length}

-- What a name is that g339_gen_name lets pass.
pub record Colliding (name : List ℕ) : Type 0 where
  pub long : length name ≡ name_length
  pub no_dot : contains 46 name ≡ false
  pub no_slash : contains 47 name ≡ false
  pub low_hash : hashname name % 2 ^ 29 ≡ 2 ^ 29 - 1
