-- ===== src/TaskState/Laws.antt =====
-- Saving is atomic, and loading gives back what was saved last.
use osconfig.Base.{◌≡◌, String, Option, none, some, arith, ok}
use osconfig.TaskState.{holds, Disk, SaveFaults, remove_old, save, load_state}

module _ {S : Type 0} where
  -- Whichever system call fails, the state file is afterwards the old one if an error is returned,
  -- and the new one if none is. The file at the old place is never touched.
  pub save_atomic :
      (f : SaveFaults) (empty : S) (s : Option S) (d : Disk S)
      → let (e, d') = save f empty s d in
        (d'.live ≡ elim e [
          | none ↦ holds (elim s [ none ↦ empty | some st ↦ st ])
          | some message ↦ d.live
        ])
        × (d'.old ≡ d.old)
  unfolding save
  save_atomic f empty s d = ground arith

  -- After a save that returned no error, a load whose read succeeds returns the state that the file has,
  -- and removes the file at the old place, unless that call fails.
  pub load_state-save :
      (f : SaveFaults) (empty st : S) (d : Disk S) (read_old remove : Option String)
      → (save f empty (some st) d).0 ≡ none
      → load_state none read_old remove (save f empty (some st) d).1
        ≡ (ok (some st), remove_old remove (save f empty (some st) d).1)
  unfolding save load_state
  load_state-save f empty st d read_old remove h = ground arith
