-- ===== src/Recipes/Database/Reload.antt =====
-- The database that is read is the one that was written.
use mathlib.Core.Path.{subst}
use osconfig.Base.{
  ℕ, ◌+◌, String, Bool, Option, none, some, List, [], ◌∷◌, ◌≡◌, ◌≢◌, refl, ap, ◌∙◌, Result, ok, err,
  panicked, arith, inl, inr, ◌⊎◌,
}
use osconfig.Base.Dict.{lookup, insert, lookup-insert, lookup-insert_self, lookup-insert_other}
use osconfig.Recipes.{convert_version}
use osconfig.Recipes.Database.{
  Installed, RecipeDb, State, Machine, add_all, values, new_recipe_db, write_db, add_recipe,
}
use osconfig.TaskState.{File, absent, holds, garbled}

-- Each recipe is under its own name, and there is one of each name.
abbrev pub IsKeyed : RecipeDb → Type 0
IsKeyed [] = Unit
IsKeyed ((name, i) ∷ db) = (i.recipe.name ≡ name) × (lookup name db ≡ none) × IsKeyed db

insert-IsKeyed :
    (name : String) (i : Installed) (db : RecipeDb)
    → i.recipe.name ≡ name
    → IsKeyed db
    → IsKeyed (insert name i db)
unfolding insert lookup
insert-IsKeyed name i [] e h = (e, refl, tt)
insert-IsKeyed name i ((k, j) ∷ db) e (a, b, c) =
    ground (arith, insert-IsKeyed name i db e c, lookup-insert name k i db)

add_all-IsKeyed : (is : List Installed) (db : RecipeDb) → IsKeyed db → IsKeyed (add_all db is)
unfolding add_all
add_all-IsKeyed [] db h = h
add_all-IsKeyed (i ∷ is) db h =
    add_all-IsKeyed is (insert i.recipe.name i db) (insert-IsKeyed i.recipe.name i db refl h)

or_else : Option Installed → Option Installed → Option Installed
or_else none x = x
or_else (some i) x = some i

add_all-values :
    (db acc : RecipeDb) (q : String)
    → IsKeyed db
    → lookup q (add_all acc (values db)) ≡ or_else (lookup q db) (lookup q acc)
unfolding add_all lookup or_else
add_all-values [] acc q h = refl
add_all-values ((k, i) ∷ db) acc q (a, b, c) =
    ground (
      arith,
      add_all-values db (insert i.recipe.name i acc) q c,
      lookup-insert i.recipe.name q i acc,
    )

or_else-none : (x : Option Installed) → or_else x none ≡ x
unfolding or_else
or_else-none none = refl
or_else-none (some i) = refl

Result-cases :
    {A : Type 0} (r : Result String A)
    → ((a : A) × (r ≡ ok a)) ⊎ (((e : String) × (r ≡ err e)) ⊎ ((p : String) × (r ≡ panicked p)))
Result-cases (ok a) = inl (a, refl)
Result-cases (err e) = inr (inl (e, refl))
Result-cases (panicked p) = inr (inr (p, refl))

module _ (machine : Machine) where
  -- The next two calls, which read the file, do not fail.
  abbrev pub Quiet : State → Type 0
  Quiet s = (machine.fault s.tick ≡ none) × (machine.fault (s.tick + 1) ≡ none)

  -- The database that is read from a state has the entries of another.
  pub record Reads (db : RecipeDb) (s : State) : Type 0 where
    pub read : RecipeDb
    pub same : (new_recipe_db machine s).0 ≡ ok read
    pub entries : (name : String) → lookup name read ≡ lookup name db
    pub keyed : IsKeyed read

  -- The file has the recipe that was added, and what was there of others.
  pub record Added (db : RecipeDb) (name : String) (version : List ℕ) (success : Bool) (time : ℕ)
      (s : State) : Type 0 where
    pub read : RecipeDb
    pub same : (new_recipe_db machine s).0 ≡ ok read
    pub keyed : IsKeyed read
    pub numbers : List ℕ
    pub converted : convert_version version ≡ ok numbers
    pub added :
        lookup name read
        ≡ some (record {
          recipe = record { name = name; version = numbers };
          install_time = time;
          success = success;
        })
    pub others : (other : String) → other ≢ name → lookup other read ≡ lookup other db

  pub new_recipe_db-IsKeyed :
      (s : State) {db : RecipeDb} → (new_recipe_db machine s).0 ≡ ok db → IsKeyed db
  unfolding new_recipe_db
  new_recipe_db-IsKeyed s {db} e = go s.file refl
    where
      go : (f : File (List Installed)) → s.file ≡ f → IsKeyed db
      go absent f = let same : [] ≡ db = ground arith in subst IsKeyed same tt
      go (holds is) f =
          let same : add_all [] is ≡ db = ground arith in
          subst IsKeyed same (add_all-IsKeyed is [] tt)
      go (garbled text) f = absurd (ground arith)

  write_db-holds :
      (db : RecipeDb) (s : State)
      → (write_db machine db s).0 ≡ ok tt
      → (write_db machine db s).1.file ≡ holds (values db)
  unfolding write_db
  write_db-holds db s e = ground arith

  values-Reads :
      (db : RecipeDb) (t : State) → IsKeyed db → t.file ≡ holds (values db) → Quiet t → Reads db t
  unfolding lookup
  values-Reads db t keyed file (q, q1) = record {
    read = add_all [] (values db);
    same = unfold new_recipe_db in ground arith;
    entries = λ name. add_all-values db [] name keyed ∙ or_else-none _;
    keyed = add_all-IsKeyed (values db) [] tt;
  }

  added-Reads :
      (db : RecipeDb) (version numbers : List ℕ) (i : Installed) (s : State)
      → i.recipe.version ≡ numbers
      → convert_version version ≡ ok numbers
      → Reads (insert i.recipe.name i db) s
      → Added db i.recipe.name version i.success i.install_time s
  added-Reads db version numbers i s v c r = record {
    read = r.read;
    same = r.same;
    keyed = r.keyed;
    numbers = numbers;
    converted = c;
    added =
        r.entries i.recipe.name
        ∙ lookup-insert_self i.recipe.name i db
        ∙ ap
            (λ w. some (record {
              recipe = record { name = i.recipe.name; version = w };
              install_time = i.install_time;
              success = i.success;
            }))
            v;
    others = λ other n. r.entries other ∙ lookup-insert_other i db n;
  }

  -- If a recipe is added to a database with one entry of each name, and no error is returned, then the
  -- database that is read later from the file that was left, if no call fails, has the recipe under its
  -- name, with the version that was converted, and every other entry as before.
  pub new_recipe_db-add_recipe :
      (db : RecipeDb) (name : String) (version : List ℕ) (success : Bool) (s : State)
      {db' : RecipeDb} (t : State)
      → IsKeyed db
      → (add_recipe machine db name version success s).0 ≡ ok db'
      → t.file ≡ (add_recipe machine db name version success s).1.file
      → Quiet t
      → Added db name version success (machine.clock s.tick) t
  unfolding add_recipe
  new_recipe_db-add_recipe db name version success s t keyed e same quiet =
      elim (Result-cases (convert_version version)) [
        | inl (numbers, c) ↦
            let i : Installed = record {
              recipe = record { name = name; version = numbers };
              install_time = machine.clock s.tick;
              success = success;
            } in
            let v = record s { tick = s.tick + 1 } in
            let written : (write_db machine (insert name i db) v).0 ≡ ok tt = ground (arith, c) in
            let left : t.file ≡ holds (values (insert name i db)) =
              ground (arith, c, write_db-holds (insert name i db) v written) in
            added-Reads db version numbers i t refl c
              (values-Reads (insert name i db) t (insert-IsKeyed name i db refl keyed) left quiet)
        | inr (inl (m, c)) ↦ absurd (ground (arith, c))
        | inr (inr (m, c)) ↦ absurd (ground (arith, c))
      ]
