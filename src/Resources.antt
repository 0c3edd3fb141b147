-- ===== src/Resources.antt =====
-- config/: the resources of a policy, on a disk with faults. The files, the network and the commands of
-- the machine are the parameter `Env`; the calls of the machine are numbered.
pub mod Disk
pub mod Atomic
pub mod Download
pub mod Files
pub mod Execs
pub mod Packages
pub mod Repositories
mod Tests
use osconfig.Base.{ℕ, String, Bool, Option, none, some, List}
use osconfig.Base.Dict.{Dict}
use osconfig.Base.Int.{ℤ}

-- A regular file.
pub record File : Type 0 where
  pub content : String
  pub perms : ℕ

-- The files by their paths, and the number of the next call.
pub record World : Type 0 where
  pub disk : Dict File
  pub tick : ℕ

-- What a reader gives before it ends, and the error that it ends with, if any.
pub record Stream : Type 0 where
  pub text : String
  pub broken : Option String

-- How a command ends: without an error, with an exit code that is an error, or without a code.
pub data CommandEnd : Type 0 where
  no_error : CommandEnd
  exited : ℤ → String → CommandEnd
  not_run : String → CommandEnd

-- The machine: the error of a call of the system, how far a copy got that broke, and the names it makes
-- up; the commands that it runs; and the
-- functions of the packages path, path/filepath, strings, crypto and external.
pub record Env : Type 0 where
  pub is_windows : Bool
  pub fault : ℕ → Option String
  pub torn : ℕ → String
  pub random : ℕ → String
  pub temp_dir : ℕ → String
  pub is_under : String → String → Bool
  pub abs : String → String × Option String
  pub join : String → String → String
  pub dir : String → String
  pub base : String → String
  pub url_base : String → String
  pub equal_fold : String → String → Bool
  pub sha256 : String → String
  pub run : ℕ → String → List String → CommandEnd
  pub new_client : ℕ → Option String
  pub fetch_gcs_object : ℕ → String → String → ℤ → Stream × Option String
  pub fetch_remote_object : ℕ → String → Stream × Option String

-- A call that returns an error or nil, and one that returns a value with it, as Go has them.
abbrev pub Call : Type 0
Call = World → Option String × World

abbrev pub Get : Type 0 → Type 0
Get A = World → (A × Option String) × World

-- `if err := call(); err != nil { h }`, and then `k`.
abbrev pub on_error : {B : Type 0} → Call → (String → World → B) → (World → B) → World → B
on_error call h k w = let (e, w') = call w in elim e [ some t ↦ h t w' | none ↦ k w' ]

abbrev pub on_get : {A B : Type 0} → Get A → (A → String → World → B) → (A → World → B) → World → B
on_get get h k w = let ((a, e), w') = get w in elim e [ some t ↦ h a t w' | none ↦ k a w' ]

abbrev pub give : {A : Type 0} → A → Option String → Get A
give a e w = ((a, e), w)
