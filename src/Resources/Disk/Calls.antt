-- ===== src/Resources/Disk/Calls.antt =====
-- What the calls of the system change.
use osconfig.Base.{
  ℕ, String, Option, none, some, ap, ◌≡◌, ◌≢◌, ap, refl, inl, inr, Option-cases, arith,
}
use osconfig.Base.Dict.{
  lookup, lookup-insert_self, lookup-insert_other, lookup-delete_other, lookup-delete_self,
}
use osconfig.Resources.{File, World, Stream, Env}
use osconfig.Resources.Disk.{read, truncate, remove, copy, put_text, rename, create}

-- What a file holds, if it is there.
abbrev pub text_of : Option File → Option String
text_of none = none
text_of (some f) = some f.content

-- A change of one file.
abbrev pub Alters : String → World → World → Type 0
Alters path w w' = (q : String) → q ≢ path → lookup q w'.disk ≡ lookup q w.disk

put_text-Alters : (path text : String) (w : World) → Alters path w (put_text path text w)
unfolding put_text
put_text-Alters path text w q n = elim (Option-cases (lookup path w.disk)) [
  | inl e ↦ rw (e, put_text) refl
  | inr (f, e) ↦ rw (e, put_text) (lookup-insert_other _ w.disk n)
]

module _ (env : Env) where
  pub copy-Alters : (path : String) (r : Stream) (w : World) → Alters path w (copy env path r w).1
  unfolding copy
  copy-Alters path r w q n = elim (Option-cases (env.fault w.tick)) [
    | inl e ↦ rw (e, copy) (put_text-Alters path r.text _ q n)
    | inr (t, e) ↦ rw (e, copy) (put_text-Alters path _ _ q n)
  ]

  pub remove-Alters : (path : String) (w : World) → Alters path w (remove env path w).1
  unfolding remove
  remove-Alters path w q n = ground (arith, lookup-delete_other w.disk n)

  pub create-Alters :
      (path : String) (perms : ℕ) (w : World) → Alters path w (create env path perms w).1
  unfolding create
  create-Alters path perms w q n =
      ground (arith, lookup-insert_other (record { content = ""; perms = perms }) w.disk n)

  pub create-there :
      (path : String) (perms : ℕ) (w : World)
      → (create env path perms w).0 ≡ none
      → lookup path (create env path perms w).1.disk ≡ some (record { content = ""; perms = perms })
  unfolding create
  create-there path perms w e =
      ground (arith, lookup-insert_self path (record { content = ""; perms = perms }) w.disk)

  pub copy-there :
      (path : String) (r : Stream) (w : World) {f : File}
      → lookup path w.disk ≡ some f
      → (copy env path r w).0 ≡ none
      → (lookup path (copy env path r w).1.disk ≡ some (record f { content = r.text }))
        × (r.broken ≡ none)
  unfolding copy put_text
  copy-there path r w {f} there e =
      ground (arith, lookup-insert_self path (record f { content = r.text }) w.disk)

  pub rename_failed :
      (from to : String) (w : World)
      → (rename env from to w).0 ≢ none
      → lookup to (rename env from to w).1.disk ≡ lookup to w.disk
  unfolding rename
  rename_failed from to w e = ground arith

  pub rename_done :
      (from to : String) (w : World)
      → (rename env from to w).0 ≡ none
      → lookup to (rename env from to w).1.disk ≡ lookup from w.disk
  unfolding rename
  rename_done from to w e = grind (arith, lookup-insert_self)

  pub rename_others :
      (from to : String) (w : World) (q : String)
      → q ≢ to
      → q ≢ from
      → lookup q (rename env from to w).1.disk ≡ lookup q w.disk
  unfolding rename
  rename_others from to w q n m = grind (arith, lookup-insert_other, lookup-delete_other)

  pub copy_text :
      (path : String) (r : Stream) (w : World)
      → text_of (lookup path w.disk) ≢ none
      → (copy env path r w).0 ≡ none
      → (text_of (lookup path (copy env path r w).1.disk) ≡ some r.text) × (r.broken ≡ none)
  copy_text path r w there e = elim (Option-cases (lookup path w.disk)) [
    | inl f ↦ absurd (there (ap text_of f))
    | inr (f, q) ↦ let (a, b) = copy-there path r w q e in (ap text_of a, b)
  ]

  pub truncate-Alters :
      (path : String) (perms : ℕ) (w : World) → Alters path w (truncate env path perms w).1
  unfolding truncate
  truncate-Alters path perms w q n = grind (arith, lookup-insert_other)

  pub truncate_text :
      (path : String) (perms : ℕ) (w : World)
      → (truncate env path perms w).0 ≡ none
      → text_of (lookup path (truncate env path perms w).1.disk) ≡ some ""
  unfolding truncate
  truncate_text path perms w e = grind (arith, lookup-insert_self)

  pub read_text :
      (path : String) (w : World) {t : String}
      → text_of (lookup path w.disk) ≡ some t
      → (read env path w).0.broken ≡ none
      → (read env path w).0.text ≡ t
  unfolding read
  read_text path w there e = ground arith

  pub remove_gone :
      (path : String) (w : World)
      → (remove env path w).0 ≡ none
      → lookup path (remove env path w).1.disk ≡ none
  unfolding remove
  remove_gone path w e = ground (arith, lookup-delete_self path w.disk)
