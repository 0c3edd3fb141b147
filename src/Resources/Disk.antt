-- ===== src/Resources/Disk.antt =====
-- The calls of the system that the resources make, over the files of `World`, and `Exists` of
-- util/util.go.
pub mod Calls
use osconfig.Base.{
  ℕ, zero, suc, ◌+◌, String, ◌<>◌, Bool, true, false, ◌&&◌, ◌||◌, Option, none, some, List, [], ◌∷◌,
  Result, ok, err, of_error, leb, eqb, if◌then◌else◌,
}
use osconfig.Base.Texts.{is_blank}
use osconfig.Base.Dict.{Dict, lookup, insert, delete}
use osconfig.Resources.{File, World, Stream, Env, Call, Get, on_error, give}

abbrev pub no_such_file : String
no_such_file = "no such file or directory"

-- An open that failed, as `os.IsNotExist` sees it.
pub data OpenError : Type 0 where
  not_found : OpenError
  other_error : String → OpenError

abbrev pub with_disk : (Dict File → Dict File) → World → World
with_disk f w = record w { disk = f w.disk }

-- A text written to an open file that was empty.
unfoldable pub put_text : String → String → World → World
put_text path text w = elim (lookup path w.disk) [
  | none ↦ w
  | some f ↦ with_disk (insert path (record f { content = text })) w
]

module _ (env : Env) where
  -- A call of the system: its error, and the number of the next one.
  abbrev pub call : Call
  call w = (env.fault w.tick, record w { tick = w.tick + 1 })

  -- `Exists`: a file that `os.Stat` gives an error for does not exist.
  unfoldable pub exists : String → World → Bool × World
  exists name w = if is_blank name then (false, w) else (
    elim (env.fault w.tick) [
      | some e ↦ false
      | none ↦ elim (lookup name w.disk) [ none ↦ false | some f ↦ true ]
    ],
    record w { tick = w.tick + 1 },
  )

  -- `os.Open`; the file is read later.
  unfoldable pub open_file : String → World → Option OpenError × World
  open_file path w = (
    elim (env.fault w.tick) [
      | some e ↦ some (other_error e)
      | none ↦ elim (lookup path w.disk) [ none ↦ some not_found | some f ↦ none ]
    ],
    record w { tick = w.tick + 1 },
  )

  -- What is read of an open file up to its end, or up to an error.
  unfoldable pub read : String → World → Stream × World
  read path w = (
    elim (env.fault w.tick) [
      | none ↦ record {
        text = elim (lookup path w.disk) [ none ↦ "" | some f ↦ f.content ];
        broken = none;
      }
      | some e ↦ record { text = env.torn w.tick; broken = some e }
    ],
    record w { tick = w.tick + 1 },
  )

  -- `os.Remove`
  unfoldable pub remove : String → Call
  remove path =
      on_error call (λ e w. (some e, w))
        (λ w. elim (lookup path w.disk) [
          | none ↦ (some no_such_file, w)
          | some f ↦ (none, with_disk (delete path) w)
        ])

  -- `os.OpenFile` with `O_TRUNC|O_WRONLY|O_CREATE`: a file that is there keeps its permissions.
  unfoldable pub truncate : String → ℕ → Call
  truncate path perms =
      on_error call (λ e w. (some e, w))
        (λ w.
          let kept : ℕ = elim (lookup path w.disk) [ none ↦ perms | some f ↦ f.perms ] in
          (none, with_disk (insert path (record { content = ""; perms = kept })) w))

  -- `io.Copy(writer, reader)`: after an error a part of the text is there.
  unfoldable pub copy : String → Stream → Call
  unfolding put_text
  copy path source =
      on_error call (λ e w. (some e, put_text path (env.torn w.tick) w))
        (λ w. (source.broken, put_text path source.text w))

  -- `os.Rename`
  unfoldable pub rename : String → String → Call
  rename from to =
      on_error call (λ e w. (some e, w))
        (λ w. elim (lookup from w.disk) [
          | none ↦ (some no_such_file, w)
          | some f ↦ (none, with_disk (λ d. insert to f (delete from d)) w)
        ])

  -- `os.OpenFile` with `O_CREATE|O_EXCL`
  unfoldable pub create : String → ℕ → Call
  create path perms =
      on_error call (λ e w. (some e, w))
        (λ w. elim (lookup path w.disk) [
          | none ↦ (none, with_disk (insert path (record { content = ""; perms = perms })) w)
          | some f ↦ (some "file exists", w)
        ])

  -- The files that stay when a directory is removed.
  unfoldable pub outside : String → Dict File → Dict File
  outside dir [] = []
  outside dir ((path, f) ∷ files) =
      let rest = outside dir files in if env.is_under dir path then rest else (path, f) ∷ rest

  -- `os.RemoveAll`
  unfoldable pub remove_all : String → Call
  remove_all dir = on_error call (λ e w. (some e, w)) (λ w. (none, with_disk (outside dir) w))

  -- `ioutil.TempDir`: a directory whose name no other has.
  unfoldable pub make_temp_dir : Get String
  make_temp_dir w = on_error call (λ e. give "" (some e)) (give (env.temp_dir w.tick) none) w
