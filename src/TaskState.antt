-- ===== src/TaskState.antt =====
-- agentendpoint/task_state.go. A state file is absent, holds a state, or holds text that does not
-- decode. Which system call fails, and with what error, is a `Faults` for each save or load.
pub mod Laws
use osconfig.Base.{String, Option, none, some, List, ◌∷◌, Result, ok, err}

-- What a file holds: `holds s` is the text of a state `s` of which only the exported fields are set, as
-- what `json.Marshal` writes and `json.Unmarshal` reads has no others.
pub data File (S : Type 0) : Type 0 where
  absent : File S
  holds : S → File S
  garbled : String → File S

-- The state file, the file at the place that older agents used, and the temporary files left over.
pub record Disk (S : Type 0) : Type 0 where
  pub live : File S
  pub old : File S
  pub temps : List (File S)

pub record SaveFaults : Type 0 where
  pub mkdir : Option String
  pub marshal : Option String
  pub temp_file : Option String
  pub write : Option String
  pub close : Option String
  pub rename : Option String

module _ {S : Type 0} where
  -- `writeFile`: the new text goes to a temporary file, which is renamed to the path at the end.
  unfoldable pub write_file : SaveFaults → File S → Disk S → Option String × Disk S
  write_file f content d = elim f.temp_file [
    | some e ↦ (some e, d)
    | none ↦ elim f.write [
      | some e ↦ (some e, record d { temps = garbled "" ∷ d.temps })
      | none ↦ elim f.close [
        | some e ↦ (some e, record d { temps = content ∷ d.temps })
        | none ↦ elim f.rename [
          | some e ↦ (some e, record d { temps = content ∷ d.temps })
          | none ↦ (none, record d { live = content })
        ]
      ]
    ]
  ]

  -- `(*taskState).save`; a nil state is written as `{}`, which is the state `empty`.
  unfoldable pub save : SaveFaults → S → Option S → Disk S → Option String × Disk S
  unfolding write_file
  save f empty s d = elim f.mkdir [
    | some e ↦ (some e, d)
    | none ↦ elim s [
      | none ↦ write_file f (holds empty) d
      | some st ↦ elim f.marshal [ some e ↦ (some e, d) | none ↦ write_file f (holds st) d ]
    ]
  ]

  -- `json.Unmarshal` into a state that starts empty: the state is returned with the error.
  unfoldable pub decode : File S → Result String (Option S)
  decode absent = ok none
  decode (holds s) = ok (some s)
  decode (garbled text) = err text

  -- `os.Remove(oldTaskStateFile)`, whose error is ignored: after one the file stays.
  abbrev pub remove_old : Option String → Disk S → Disk S
  remove_old (some e) d = d
  remove_old none d = record d { old = absent }

  -- `loadState`; `read` and `read_old` are the errors of the two reads other than "not found", and
  -- `remove` the one of the removal.
  unfoldable pub load_state :
      Option String → Option String → Option String → Disk S → Result String (Option S) × Disk S
  unfolding decode
  load_state (some e) read_old remove d = (err e, d)
  load_state none read_old remove d = elim d.live [
    | absent ↦ elim read_old [
      | some e ↦ (err e, d)
      | none ↦ elim d.old [
        | absent ↦ (ok none, d)
        | holds s ↦ (ok (some s), remove_old remove d)
        | garbled text ↦ (err text, remove_old remove d)
      ]
    ]
    | holds s ↦ (ok (some s), remove_old remove d)
    | garbled text ↦ (err text, remove_old remove d)
  ]
